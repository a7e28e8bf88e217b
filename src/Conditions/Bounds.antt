-- ===== src/Conditions/Bounds.antt =====
-- The depth and the width of what `normalizeFieldCondition` of src/automation/field-conditions.ts
-- returns.
use freeipa_admin_dashboard.Base.{
  ℕ, zero, suc, ◌≤◌, ◌≡◌, refl, String, Bool, true, false, Option, none, some, List, [], ◌∷◌,
  length, length-take, take, arith, is_blank, if◌then◌else◌, keep,
}
use freeipa_admin_dashboard.Base.Json.{
  Value, null, bool, nat, other_number, str, array, object, items, entries,
}
use freeipa_admin_dashboard.Base.Language.{Language}
use freeipa_admin_dashboard.Conditions.Condition.{
  Operator, ConditionValue, one_value, many_values, Condition, Conditions, predicate, all_of,
  any_of, not_of, no_more, more,
}
use freeipa_admin_dashboard.Conditions.Normalize.{
  normalized_value, children_of, Shape, negates, all_hold, some_hold, asks, says_nothing, shape_of,
  field_of, named, first_shape, many_or_none, is_scalar, predicate_of, some_conditions, negated,
  collect_some, normalize_levels, normalize_field_condition,
}

abbrev pub count : Conditions → ℕ
count no_more = 0
count (more c cs) = suc (count cs)

abbrev pub EachOf : (Condition → Type 0) → Conditions → Type 0
EachOf P no_more = Unit
EachOf P (more c cs) = P c × EachOf P cs

-- A scalar, or a list of 1 to 100 of them.
unfoldable pub IsShort : Option ConditionValue → Type 0
IsShort none = Unit
IsShort (some (one_value v)) = Unit
IsShort (some (many_values vs)) = (1 ≤ length vs) × (length vs ≤ 100)

-- At most so many levels, each of 1 to 50 conditions, and each predicate names a field.
unfoldable pub IsWithin : ℕ → Condition → Type 0
unfolding IsShort
IsWithin zero c = ⊥
IsWithin (suc n) (predicate field operator expected) = (is_blank field ≡ false) × IsShort expected
IsWithin (suc n) (all_of cs) = (1 ≤ count cs) × (count cs ≤ 50) × EachOf (IsWithin n) cs
IsWithin (suc n) (any_of cs) = (1 ≤ count cs) × (count cs ≤ 50) × EachOf (IsWithin n) cs
IsWithin (suc n) (not_of c) = IsWithin n c

abbrev pub IfSome : (Condition → Type 0) → Option Condition → Type 0
IfSome P none = Unit
IfSome P (some c) = P c

collect_some-EachOf :
    (P : Condition → Type 0) (f : Value → Option Condition) (vs : List Value)
    → ((v : Value) → IfSome P (f v))
    → EachOf P (collect_some f vs)
collect_some-EachOf P f [] h = tt
collect_some-EachOf P f (v ∷ vs) h = by_value (f v) (h v) (collect_some-EachOf P f vs h)
  where
    by_value :
        (o : Option Condition)
        → IfSome P o
        → EachOf P (collect_some f vs)
        → EachOf P (elim o [ none ↦ collect_some f vs | some c ↦ more c (collect_some f vs) ])
    by_value none k r = r
    by_value (some c) k r = (k, r)

collect_some-count :
    (f : Value → Option Condition) (vs : List Value) → count (collect_some f vs) ≤ length vs
collect_some-count f [] = omega arith
collect_some-count f (v ∷ vs) = by_value (f v) (collect_some-count f vs)
  where
    by_value :
        (o : Option Condition)
        → count (collect_some f vs) ≤ length vs
        → count (elim o [ none ↦ collect_some f vs | some c ↦ more c (collect_some f vs) ])
          ≤ suc (length vs)
    by_value none k = omega (arith, k)
    by_value (some c) k = omega (arith, k)

children_of-few : (v : Value) → length (children_of v) ≤ 50
unfolding children_of items
children_of-few (array vs) = omega (arith, length-take 50 (items vs))
children_of-few null = omega arith
children_of-few (bool b) = omega arith
children_of-few (nat n) = omega arith
children_of-few other_number = omega arith
children_of-few (str s) = omega arith
children_of-few (object fs) = omega arith

many-IsShort : (vs : List Value) → length vs ≤ 100 → IsShort (many_or_none vs)
unfolding IsShort
many-IsShort [] h = tt
many-IsShort (v ∷ vs) h = (omega arith, h)

normalized_value-IsShort : (v : Option Value) → IsShort (normalized_value v)
unfolding normalized_value IsShort items
normalized_value-IsShort none = tt
normalized_value-IsShort (some (array vs)) =
    many-IsShort (take 100 (keep is_scalar (items vs)))
      (omega (arith, length-take 100 (keep is_scalar (items vs))))
normalized_value-IsShort (some null) = tt
normalized_value-IsShort (some (bool b)) = tt
normalized_value-IsShort (some (nat n)) = tt
normalized_value-IsShort (some other_number) = tt
normalized_value-IsShort (some (str s)) = tt
normalized_value-IsShort (some (object fs)) = tt

-- A shape that asks of a field names it.
abbrev IsNamed : Shape → Type 0
IsNamed (asks field operator expected) = (is_blank field ≡ false) × IsShort expected
IsNamed _ = Unit

named-IsNamed :
    (field : String) (operator : Operator) (expected : Option ConditionValue)
    → IsShort expected
    → IsNamed (named field operator expected)
named-IsNamed field operator expected h = by_test (is_blank field) refl
  where
    by_test :
        (t : Bool)
        → is_blank field ≡ t
        → IsNamed (if t then says_nothing else asks field operator expected)
    by_test true e = tt
    by_test false e = (e, h)

first_shape-IsNamed :
    (a b c d : Option Value) (p : Shape) → IsNamed p → IsNamed (first_shape a b c d p)
first_shape-IsNamed (some v) b c d p h = tt
first_shape-IsNamed none (some v) c d p h = tt
first_shape-IsNamed none none (some v) d p h = tt
first_shape-IsNamed none none none (some v) p h = tt
first_shape-IsNamed none none none none p h = h

some_conditions-all :
    (n : ℕ) (cs : Conditions)
    → count cs ≤ 50
    → EachOf (IsWithin n) cs
    → IfSome (IsWithin (suc n)) (some_conditions all_of cs)
unfolding IsWithin
some_conditions-all n no_more h k = tt
some_conditions-all n (more c cs) h k = (omega arith, h, k)

some_conditions-any :
    (n : ℕ) (cs : Conditions)
    → count cs ≤ 50
    → EachOf (IsWithin n) cs
    → IfSome (IsWithin (suc n)) (some_conditions any_of cs)
unfolding IsWithin
some_conditions-any n no_more h k = tt
some_conditions-any n (more c cs) h k = (omega arith, h, k)

negated-IsWithin :
    (n : ℕ) (o : Option Condition) → IfSome (IsWithin n) o → IfSome (IsWithin (suc n)) (negated o)
unfolding IsWithin
negated-IsWithin n none h = tt
negated-IsWithin n (some c) h = h

module _ (js : Language) where
  predicate_of-IsNamed : (source : List (String × Value)) → IsNamed (predicate_of js source)
  unfolding predicate_of
  predicate_of-IsNamed source =
      named-IsNamed _ _ _
        (normalized_value-IsShort (field_of source ("value" ∷ "equals" ∷ "values" ∷ [])))

  shape_of-IsNamed : (v : Value) → IsNamed (shape_of js v)
  unfolding shape_of
  shape_of-IsNamed (array vs) = tt
  shape_of-IsNamed (object fs) = first_shape-IsNamed _ _ _ _ _ (predicate_of-IsNamed (entries fs))
  shape_of-IsNamed null = tt
  shape_of-IsNamed (bool b) = tt
  shape_of-IsNamed (nat n) = tt
  shape_of-IsNamed other_number = tt
  shape_of-IsNamed (str s) = tt

  normalize_levels-IsWithin : (n : ℕ) (v : Value) → IfSome (IsWithin n) (normalize_levels js n v)
  unfolding normalize_levels IsWithin
  normalize_levels-IsWithin zero v = tt
  normalize_levels-IsWithin (suc n) v =
      by_shape (shape_of js v) (shape_of-IsNamed v) (normalize_levels-IsWithin n)
    where
      by_shape :
          (s : Shape)
          → IsNamed s
          → ((u : Value) → IfSome (IsWithin n) (normalize_levels js n u))
          → IfSome (IsWithin (suc n)) (elim s [
            | negates u ↦ negated (normalize_levels js n u)
            | all_hold u ↦
                some_conditions all_of (collect_some (normalize_levels js n) (children_of u))
            | some_hold u ↦
                some_conditions any_of (collect_some (normalize_levels js n) (children_of u))
            | asks field operator expected ↦ some (predicate field operator expected)
            | says_nothing ↦ none
          ])
      by_shape (negates u) h k = negated-IsWithin n (normalize_levels js n u) (k u)
      by_shape (all_hold u) h k =
          some_conditions-all n (collect_some (normalize_levels js n) (children_of u))
            (omega (
              arith,
              collect_some-count (normalize_levels js n) (children_of u),
              children_of-few u,
            ))
            (collect_some-EachOf (IsWithin n) (normalize_levels js n) (children_of u) k)
      by_shape (some_hold u) h k =
          some_conditions-any n (collect_some (normalize_levels js n) (children_of u))
            (omega (
              arith,
              collect_some-count (normalize_levels js n) (children_of u),
              children_of-few u,
            ))
            (collect_some-EachOf (IsWithin n) (normalize_levels js n) (children_of u) k)
      by_shape (asks field operator expected) h k = h
      by_shape says_nothing h k = tt

  -- Whatever value is read, the condition that it gives has at most 8 levels, each of 1 to 50
  -- conditions, its predicates name a field, and their lists have 1 to 100 values.
  pub normalize_field_condition-IsWithin :
      (raw : Value) → IfSome (IsWithin 8) (normalize_field_condition js raw)
  unfolding normalize_field_condition
  normalize_field_condition-IsWithin raw = normalize_levels-IsWithin 8 raw
