-- ===== src/Conditions/Locality.antt =====
-- `conditionFieldNames` of src/automation/field-conditions.ts, whose list is cut at 50 names, against
-- `fieldConditionMatches`.
use freeipa_admin_dashboard.Base.{
  ℕ, ◌≤◌, ◌+◌, ◌≡◌, refl, ap, subst, String, Bool, true, false, ◌&&◌, ◌||◌, not, some, List, [],
  ◌∷◌, ◌++◌, All, length, length-append, length-take, take, take-all, length-unique, arith,
  includes, unique, unique_from, str_eq, eq_iff, if◌then◌else◌, false-ne-true,
}
use freeipa_admin_dashboard.Base.Json.{Value, get}
use freeipa_admin_dashboard.Base.Language.{Language}
use freeipa_admin_dashboard.Conditions.Condition.{
  Condition, Conditions, predicate, all_of, any_of, not_of, no_more, more, predicate_matches,
  condition_matches, every_matches, some_matches, field_condition_matches, field_names, names_of,
  condition_field_names,
}

module _ (P : String → Type 0) where
  includes-All : (seen : List String) (x : String) → includes seen x ≡ true → All P seen → P x
  includes-All [] x h k = absurd (false-ne-true h)
  includes-All (y ∷ ys) x h (k, l) = by_test (str_eq y x) refl h (λ e. includes-All ys x e l)
    where
      by_test :
          (t : Bool)
          → str_eq y x ≡ t
          → (t || includes ys x) ≡ true
          → (includes ys x ≡ true → P x)
          → P x
      by_test true e g m = subst P ((eq_iff y x).0 e) k
      by_test false e g m = m g

  unique_from-All : (seen l : List String) → All P seen → All P (unique_from seen l) → All P l
  unique_from-All seen [] h k = tt
  unique_from-All seen (x ∷ xs) h k =
      by_test (includes seen x) refl k (unique_from-All seen xs h)
        (λ p. unique_from-All (x ∷ seen) xs (p, h))
    where
      by_test :
          (t : Bool)
          → includes seen x ≡ t
          → All P (if t then unique_from seen xs else x ∷ unique_from (x ∷ seen) xs)
          → (All P (unique_from seen xs) → All P xs)
          → (P x → All P (unique_from (x ∷ seen) xs) → All P xs)
          → P x × All P xs
      by_test true e m r s = (includes-All seen x e h, r m)
      by_test false e m r s = (m.0, s m.0 m.1)

  All-append : (l r : List String) → All P (l ++ r) → All P l × All P r
  All-append [] r h = (tt, h)
  All-append (x ∷ l) r (p, h) = let (u, v) = All-append l r h in ((p, u), v)

  -- Where nothing is cut off.
  take-unique-All : (l : List String) → length l ≤ 50 → All P (take 50 (unique l)) → All P l
  take-unique-All l h k =
      unique_from-All [] l tt
        (subst (All P) (take-all 50 (unique l) (omega (arith, h, length-unique l))) k)

-- The predicates of a condition.
unfoldable mutual
  pub predicates : Condition → ℕ
  predicates (predicate field operator expected) = 1
  predicates (all_of cs) = predicates_of cs
  predicates (any_of cs) = predicates_of cs
  predicates (not_of c) = predicates c

  pub predicates_of : Conditions → ℕ
  predicates_of no_more = 0
  predicates_of (more c cs) = predicates c + predicates_of cs

mutual
  unfolding field_names predicates

  field_names-few : (c : Condition) → length (field_names c) ≤ predicates c
  field_names-few (predicate field operator expected) = omega arith
  field_names-few (all_of cs) =
      omega
        (arith, length-take 50 (unique (names_of cs)), length-unique (names_of cs), names_of-few cs)
  field_names-few (any_of cs) =
      omega
        (arith, length-take 50 (unique (names_of cs)), length-unique (names_of cs), names_of-few cs)
  field_names-few (not_of c) = omega (
    arith,
    length-take 50 (unique (field_names c)),
    length-unique (field_names c),
    field_names-few c,
  )

  names_of-few : (cs : Conditions) → length (names_of cs) ≤ predicates_of cs
  names_of-few no_more = omega arith
  names_of-few (more c cs) =
      omega (arith, length-append (field_names c) (names_of cs), field_names-few c, names_of-few cs)

module _ (js : Language) (a b : List (String × Value)) where
  abbrev pub Agree : String → Type 0
  Agree f = get f a ≡ get f b

  mutual
    unfolding field_names predicates condition_matches

    condition_matches-local :
        (c : Condition)
        → predicates c ≤ 50
        → All Agree (field_names c)
        → condition_matches js c a ≡ condition_matches js c b
    condition_matches-local (predicate field operator expected) h k =
        ap (predicate_matches js operator expected) k.0
    condition_matches-local (all_of cs) h k =
        every_matches-local cs h
          (take-unique-All Agree (names_of cs) (omega (arith, h, names_of-few cs)) k)
    condition_matches-local (any_of cs) h k =
        some_matches-local cs h
          (take-unique-All Agree (names_of cs) (omega (arith, h, names_of-few cs)) k)
    condition_matches-local (not_of c) h k = ap not (
        condition_matches-local c h
          (take-unique-All Agree (field_names c) (omega (arith, h, field_names-few c)) k))

    every_matches-local :
        (cs : Conditions)
        → predicates_of cs ≤ 50
        → All Agree (names_of cs)
        → every_matches js cs a ≡ every_matches js cs b
    every_matches-local no_more h k = refl
    every_matches-local (more c cs) h k =
        let (u, v) = All-append Agree (field_names c) (names_of cs) k in
        λ i.
          condition_matches-local c (omega (arith, h)) u i
          && every_matches-local cs (omega (arith, h)) v i

    some_matches-local :
        (cs : Conditions)
        → predicates_of cs ≤ 50
        → All Agree (names_of cs)
        → some_matches js cs a ≡ some_matches js cs b
    some_matches-local no_more h k = refl
    some_matches-local (more c cs) h k =
        let (u, v) = All-append Agree (field_names c) (names_of cs) k in
        λ i.
          condition_matches-local c (omega (arith, h)) u i
          || some_matches-local cs (omega (arith, h)) v i

  -- Values that agree on the fields that the list of a condition's fields names make no difference
  -- to whether the condition holds, where it has at most 50 predicates.
  pub field_condition_matches-local :
      (c : Condition)
      → predicates c ≤ 50
      → All Agree (condition_field_names (some c))
      → field_condition_matches js (some c) a ≡ field_condition_matches js (some c) b
  unfolding field_condition_matches condition_field_names
  field_condition_matches-local c h k = condition_matches-local c h k
