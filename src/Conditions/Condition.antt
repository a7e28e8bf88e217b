-- ===== src/Conditions/Condition.antt =====
-- Conditions of src/automation/field-conditions.ts, whether they hold, and the fields they name.
use freeipa_admin_dashboard.Base.{
  ◌==◌, String, Bool, true, false, ◌&&◌, ◌||◌, not, Option, none, some, List, [], ◌∷◌, ◌++◌, str_eq,
  any, take, includes, unique, is_blank, is_empty,
}
use freeipa_admin_dashboard.Base.Json.{
  Value, null, bool, nat, other_number, str, array, object, items, get,
}
use freeipa_admin_dashboard.Base.Language.{Language}

pub data Operator : Type 0 where
  equals not_equals in_values truthy falsy : Operator

-- `FieldConditionValue`: a scalar or a list of scalars.
pub data ConditionValue : Type 0 where
  one_value : Value → ConditionValue
  many_values : List Value → ConditionValue

-- `FieldCondition`.
mutual
  pub data Condition : Type 0 where
    predicate : String → Operator → Option ConditionValue → Condition
    all_of any_of : Conditions → Condition
    not_of : Condition → Condition

  pub data Conditions : Type 0 where
    no_more : Conditions
    more : Condition → Conditions → Conditions

-- What `map(scalarValue)` or `scalarValue` gives.
pub data Texts : Type 0 where
  one_text : String → Texts
  many_texts : List String → Texts

abbrev same_texts : List String → List String → Bool
same_texts [] [] = true
same_texts [] (y ∷ ys) = false
same_texts (x ∷ xs) [] = false
same_texts (x ∷ xs) (y ∷ ys) = str_eq x y && same_texts xs ys

unfoldable pub texts_equal : Texts → Texts → Bool
texts_equal (many_texts a) (many_texts e) = same_texts a e
texts_equal (many_texts a) (one_text e) = includes a e
texts_equal (one_text a) (many_texts e) = includes e a
texts_equal (one_text a) (one_text e) = str_eq a e

abbrev as_list : Texts → List String
as_list (many_texts e) = e
as_list (one_text e) = e ∷ []

unfoldable pub texts_meet : Texts → Texts → Bool
texts_meet (many_texts a) e = any (λ t. includes (as_list e) t) a
texts_meet (one_text a) e = includes (as_list e) a

module _ (js : Language) where
  unfoldable pub truthy_value : Option Value → Bool
  unfolding items
  truthy_value none = false
  truthy_value (some null) = false
  truthy_value (some (bool b)) = b
  truthy_value (some (nat n)) = not (n == 0)
  truthy_value (some other_number) = true
  truthy_value (some (array vs)) = not (is_empty (items vs))
  truthy_value (some (object fs)) = true
  truthy_value (some (str s)) =
      not (is_blank (js.lower (js.trim s)))
      && not (
          includes ("false" ∷ "0" ∷ "off" ∷ "no" ∷ "null" ∷ "undefined" ∷ [])
            (js.lower (js.trim s)))

  unfoldable pub scalar_value : Option Value → String
  scalar_value none = ""
  scalar_value (some null) = ""
  scalar_value (some v) = js.show v

  abbrev scalar_texts : List Value → List String
  scalar_texts [] = []
  scalar_texts (v ∷ vs) = scalar_value (some v) ∷ scalar_texts vs

  unfoldable pub actual_of : Option Value → Texts
  unfolding items scalar_value
  actual_of (some (array vs)) = many_texts (scalar_texts (items vs))
  actual_of v = one_text (scalar_value v)

  unfoldable pub expected_of : Option ConditionValue → Texts
  unfolding scalar_value
  expected_of none = one_text (scalar_value none)
  expected_of (some (one_value v)) = one_text (scalar_value (some v))
  expected_of (some (many_values vs)) = many_texts (scalar_texts vs)

  -- `predicateMatches`, from the value of the field.
  unfoldable pub predicate_matches : Operator → Option ConditionValue → Option Value → Bool
  unfolding truthy_value actual_of expected_of texts_equal texts_meet
  predicate_matches truthy expected current = truthy_value current
  predicate_matches falsy expected current = not (truthy_value current)
  predicate_matches in_values expected current =
      texts_meet (actual_of current) (expected_of expected)
  predicate_matches equals expected current = texts_equal (actual_of current) (expected_of expected)
  predicate_matches not_equals expected current =
      not (texts_equal (actual_of current) (expected_of expected))

  unfoldable mutual
    pub condition_matches : Condition → List (String × Value) → Bool
    condition_matches (predicate field operator expected) values =
        predicate_matches operator expected (get field values)
    condition_matches (all_of cs) values = every_matches cs values
    condition_matches (any_of cs) values = some_matches cs values
    condition_matches (not_of c) values = not (condition_matches c values)

    pub every_matches : Conditions → List (String × Value) → Bool
    every_matches no_more values = true
    every_matches (more c cs) values = condition_matches c values && every_matches cs values

    pub some_matches : Conditions → List (String × Value) → Bool
    some_matches no_more values = false
    some_matches (more c cs) values = condition_matches c values || some_matches cs values

  unfoldable pub field_condition_matches : Option Condition → List (String × Value) → Bool
  unfolding condition_matches
  field_condition_matches none values = true
  field_condition_matches (some c) values = condition_matches c values

unfoldable mutual
  pub field_names : Condition → List String
  field_names (predicate field operator expected) = field ∷ []
  field_names (all_of cs) = take 50 (unique (names_of cs))
  field_names (any_of cs) = take 50 (unique (names_of cs))
  field_names (not_of c) = take 50 (unique (field_names c))

  pub names_of : Conditions → List String
  names_of no_more = []
  names_of (more c cs) = field_names c ++ names_of cs

unfoldable pub condition_field_names : Option Condition → List String
unfolding field_names
condition_field_names none = []
condition_field_names (some c) = field_names c
