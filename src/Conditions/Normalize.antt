-- ===== src/Conditions/Normalize.antt =====
-- `normalizeFieldCondition` of src/automation/field-conditions.ts: a condition out of any value.
use Prim.Native.Char.{code}
use Prim.Native.String.{String, [] as nil, ◌∷◌ as ◌⋮◌}
use freeipa_admin_dashboard.Base.{
  ℕ, zero, suc, ◌==◌, Bool, true, false, ◌||◌, Option, none, some, List, [], ◌∷◌, if◌then◌else◌,
  keep, take, includes, is_blank, str_eq,
}
use freeipa_admin_dashboard.Base.Json.{
  Value, null, bool, nat, other_number, str, array, object, items, entries, get,
}
use freeipa_admin_dashboard.Base.Language.{Language, shown, is_space}
use freeipa_admin_dashboard.Conditions.Condition.{
  Operator, equals, not_equals, in_values, truthy, falsy, ConditionValue, one_value, many_values,
  Condition, Conditions, predicate, all_of, any_of, not_of, no_more, more,
}

-- `replace(/[\s_-]+/g, "")`
abbrev strip_marks : String → String
strip_marks nil = nil
strip_marks (c ⋮ s) =
    let rest = strip_marks s in
    if is_space (code c) || code c == 95 || code c == 45 then rest else c ⋮ rest

-- `a ?? b`
abbrev pub or_else : Option Value → Option Value → Option Value
or_else none b = b
or_else (some null) b = b
or_else (some v) b = some v

-- The first of `source`'s fields that is there, and the last of them where none is.
abbrev pub field_of : List (String × Value) → List String → Option Value
field_of source [] = none
field_of source (k ∷ []) = get k source
field_of source (k ∷ l ∷ r) = or_else (get k source) (field_of source (l ∷ r))

abbrev pub is_scalar : Value → Bool
is_scalar null = true
is_scalar (bool b) = true
is_scalar (nat n) = true
is_scalar other_number = true
is_scalar (str s) = true
is_scalar (array vs) = false
is_scalar (object fs) = false

abbrev pub many_or_none : List Value → Option ConditionValue
many_or_none [] = none
many_or_none (v ∷ vs) = some (many_values (v ∷ vs))

unfoldable pub normalized_value : Option Value → Option ConditionValue
unfolding items
normalized_value none = none
normalized_value (some (array vs)) = many_or_none (take 100 (keep is_scalar (items vs)))
normalized_value (some v) = if is_scalar v then some (one_value v) else none

abbrev is_array : Option Value → Bool
is_array (some (array vs)) = true
is_array _ = false

-- `Array.isArray(value) ? value : [value]`, of which 50 are read.
unfoldable pub children_of : Value → List Value
unfolding items
children_of (array vs) = take 50 (items vs)
children_of v = v ∷ []

-- What an object says: the condition that it negates, the ones that all or some of must hold, or a
-- field and what is asked of it.
pub data Shape : Type 0 where
  negates : Value → Shape
  all_hold some_hold : Value → Shape
  asks : String → Operator → Option ConditionValue → Shape
  says_nothing : Shape

abbrev pub nested_keys : List String
nested_keys = "conditions" ∷ "children" ∷ "rules" ∷ []

abbrev pub when : Bool → Option Value → Option Value
when true v = v
when false v = none

abbrev is_one_of : String → String → String → Bool
is_one_of a b s = str_eq s a || str_eq s b

abbrev equals_or_truthy : Option Value → Value
equals_or_truthy none = str "truthy"
equals_or_truthy (some v) = str "equals"

abbrev or_equals : Option Operator → Operator
or_equals none = equals
or_equals (some o) = o

-- `if (!field) return undefined`
abbrev pub named : String → Operator → Option ConditionValue → Shape
named field operator expected =
    if is_blank field then says_nothing else asks field operator expected

abbrev pub first_shape : Option Value → Option Value → Option Value → Option Value → Shape → Shape
first_shape (some v) all any nested p = negates v
first_shape none (some v) any nested p = all_hold v
first_shape none none (some v) nested p = some_hold v
first_shape none none none (some v) p = all_hold v
first_shape none none none none p = p

-- A list that nothing is left of is no condition.
abbrev pub some_conditions : (Conditions → Condition) → Conditions → Option Condition
some_conditions make no_more = none
some_conditions make (more c cs) = some (make (more c cs))

abbrev pub negated : Option Condition → Option Condition
negated none = none
negated (some c) = some (not_of c)

abbrev pub collect_some : (Value → Option Condition) → List Value → Conditions
collect_some f [] = no_more
collect_some f (v ∷ vs) =
    let rest = collect_some f vs in elim (f v) [ none ↦ rest | some c ↦ more c rest ]

module _ (js : Language) where
  unfoldable pub clean_operator : Option Value → String
  clean_operator v = strip_marks (js.lower (js.trim (shown js v)))

  unfoldable pub normalized_operator : Option Value → Option Operator
  unfolding clean_operator
  normalized_operator v =
      let operator = clean_operator v in
      if includes ("equals" ∷ "equal" ∷ "eq" ∷ "==" ∷ "===" ∷ []) operator
      then some equals
      else if includes ("notequals" ∷ "notequal" ∷ "neq" ∷ "!=" ∷ "!==" ∷ []) operator
      then some not_equals
      else if includes ("in" ∷ "oneof" ∷ "includes" ∷ "containsany" ∷ []) operator
      then some in_values
      else if includes ("truthy" ∷ "true" ∷ "isset" ∷ "present" ∷ []) operator
      then some truthy
      else if includes ("falsy" ∷ "false" ∷ "empty" ∷ "notset" ∷ "absent" ∷ []) operator
      then some falsy
      else none

  unfoldable pub combinator_of : List (String × Value) → String
  unfolding clean_operator get
  combinator_of source = clean_operator (field_of source ("combinator" ∷ "logic" ∷ "operator" ∷ []))

  unfoldable pub not_source : List (String × Value) → Option Value
  unfolding get combinator_of
  not_source source =
      or_else (get "not" source)
        (when (str_eq (combinator_of source) "not") (field_of source ("condition" ∷ nested_keys)))

  unfoldable pub all_source : List (String × Value) → Option Value
  unfolding get combinator_of
  all_source source = or_else (get "all" source) (
      or_else (get "and" source) (
        or_else (get "every" source)
          (when (is_one_of "and" "all" (combinator_of source)) (field_of source nested_keys))))

  unfoldable pub any_source : List (String × Value) → Option Value
  unfolding get combinator_of
  any_source source = or_else (get "any" source) (
      or_else (get "or" source) (
        or_else (get "some" source)
          (when (is_one_of "or" "any" (combinator_of source)) (field_of source nested_keys))))

  unfoldable pub nested_source : List (String × Value) → Option Value
  unfolding get
  nested_source source =
      when
        (is_array (get "conditions" source)
          || is_array (get "children" source)
          || is_array (get "rules" source))
        (field_of source nested_keys)

  -- The end of `normalizeFieldCondition`: a predicate on a field.
  unfoldable pub predicate_of : List (String × Value) → Shape
  unfolding get normalized_operator normalized_value
  predicate_of source =
      named
        (js.slice 120 (
          js.trim (shown js (field_of source ("field" ∷ "key" ∷ "dependsOn" ∷ "depends_on" ∷ [])))))
        (or_equals (
          normalized_operator
            (or_else (get "operator" source) (some (equals_or_truthy (get "equals" source))))))
        (normalized_value (field_of source ("value" ∷ "equals" ∷ "values" ∷ [])))

  unfoldable pub shape_of : Value → Shape
  unfolding entries not_source all_source any_source nested_source predicate_of
  shape_of (array vs) = all_hold (array vs)
  shape_of (object fs) =
      let source = entries fs in
      first_shape (not_source source) (all_source source) (any_source source) (nested_source source)
        (predicate_of source)
  shape_of v = says_nothing

  -- The levels that are left are `MAX_CONDITION_DEPTH - depth`.
  unfoldable pub normalize_levels : ℕ → Value → Option Condition
  unfolding shape_of children_of
  normalize_levels zero raw = none
  normalize_levels (suc levels) raw = elim (shape_of raw) [
    | negates v ↦ negated (normalize_levels levels v)
    | all_hold v ↦ some_conditions all_of (collect_some (normalize_levels levels) (children_of v))
    | some_hold v ↦ some_conditions any_of (collect_some (normalize_levels levels) (children_of v))
    | asks field operator expected ↦ some (predicate field operator expected)
    | says_nothing ↦ none
  ]

  unfoldable pub normalize_field_condition : Value → Option Condition
  unfolding normalize_levels
  normalize_field_condition raw = normalize_levels 8 raw
