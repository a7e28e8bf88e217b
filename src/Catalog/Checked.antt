-- ===== src/Catalog/Checked.antt =====
-- What a policy that passes `sanitizeCatalogPolicySet` has, and with it one that is read.

use freeipa_admin_dashboard.Base.{
  ℕ, ◌≤◌, suc, String, ◌≡◌, ◌≢◌, refl, sym, subst, ap, ◌∙◌, inl, inr, Bool, true, false, ◌||◌, not,
  Option, none, some, List, [], ◌∷◌, map, All, ok, >>=-elim, guard-elim, if-elim, given, rethrow,
  rethrow-ok, ok_injective, arith, is_blank, includes, keep, unique, length, length-take, str_eq,
  eq_refl, Bool-cases,
}
use freeipa_admin_dashboard.Base.Json.{
  Value, null, bool, nat, other_number, str, array, object, items, entries, get,
}
use freeipa_admin_dashboard.Catalog.Policies.{
  Effect, Rule, PolicySet, Runtime, clean_text, string_array, role_array, role_texts, effect_of,
  default_effect_of, raw_rules, or_numbered, is_addressed, rule_of, sanitize_rule, sanitize_rules,
  check_ids, sanitize_catalog_policy_set, default_policy, effect_invalid, subjects_invalid,
  default_effect_invalid, duplicate_id, stored_invalid, environment_unparsed, environment_refused,
  normalized_identity, normalized_group, normalized_category, normalized_process,
}
use freeipa_admin_dashboard.Catalog.Store.{
  PolicyRead, Stored, read_default, read_variable, read_from, read_stored, read_environment,
}

unfoldable pub IsBounded : Rule → Type 0
IsBounded r =
    (is_blank r.id ≡ false)
    × (length r.users ≤ 100)
    × (length r.groups ≤ 100)
    × (length r.roles ≤ 3)
    × (length r.categories ≤ 100)
    × (length r.processes ≤ 100)

unfoldable pub HasDistinctIds : List Rule → Type 0
HasDistinctIds [] = Unit
HasDistinctIds (r ∷ rs) = All (λ q. r.id ≢ q.id) rs × HasDistinctIds rs

unfoldable pub IsWellFormed : PolicySet → Type 0
unfolding IsBounded HasDistinctIds
IsWellFormed p = (length p.rules ≤ 200) × All IsBounded p.rules × HasDistinctIds p.rules

length-role_array : (v : Option Value) → length (role_array v) ≤ 3
unfolding role_array
length-role_array (some (array vs)) = omega (arith, length-take 3 (unique (role_texts (items vs))))
length-role_array none = omega arith
length-role_array (some null) = omega arith
length-role_array (some (bool b)) = omega arith
length-role_array (some (nat n)) = omega arith
length-role_array (some other_number) = omega arith
length-role_array (some (str s)) = omega arith
length-role_array (some (object fs)) = omega arith

module _ (rt : Runtime) where
  length-string_array : (v : Option Value) (f : Value → String) → length (string_array rt v f) ≤ 100
  unfolding string_array
  length-string_array (some (array vs)) f =
      omega (arith, length-take 100 (unique (keep (λ s. not (is_blank s)) (map f (items vs)))))
  length-string_array none f = omega arith
  length-string_array (some null) f = omega arith
  length-string_array (some (bool b)) f = omega arith
  length-string_array (some (nat n)) f = omega arith
  length-string_array (some other_number) f = omega arith
  length-string_array (some (str s)) f = omega arith
  length-string_array (some (object fs)) f = omega arith

  or_numbered-Given : (s : String) (index : ℕ) → is_blank (or_numbered rt s index) ≡ false
  or_numbered-Given s index = elim (Bool-cases (is_blank s)) [
    | inl h ↦ rw (h) refl
    | inr h ↦ rw (h) h
  ]

  rule_of-IsBounded :
      (index : ℕ) (rule : List (String × Value)) (e : Effect) → IsBounded (rule_of rt index rule e)
  unfolding rule_of IsBounded
  rule_of-IsBounded index rule e = (
    or_numbered-Given (clean_text rt (get "id" rule) 120) index,
    length-string_array (get "users" rule) (normalized_identity rt),
    length-string_array (get "groups" rule) (normalized_group rt),
    length-role_array (get "roles" rule),
    length-string_array (get "categories" rule) (normalized_category rt),
    length-string_array (get "processes" rule) (normalized_process rt),
  )

  sanitize_rule-IsBounded :
      (index : ℕ) (v : Value) (r : Rule) → sanitize_rule rt index v ≡ ok r → IsBounded r
  unfolding sanitize_rule
  sanitize_rule-IsBounded index (object fs) r h =
      >>=-elim (given (effect_of (get "effect" (entries fs))) (effect_invalid (suc index))) _ h
        λ effect _ k.
          guard-elim (is_addressed rt (entries fs))
            (subjects_invalid (or_numbered rt (clean_text rt (get "id" (entries fs)) 120) index))
            (ok (rule_of rt index (entries fs) effect)) k
            λ _ l. subst IsBounded (ok_injective l) (rule_of-IsBounded index (entries fs) effect)
  sanitize_rule-IsBounded index null r h = absurd cc
  sanitize_rule-IsBounded index (bool b) r h = absurd cc
  sanitize_rule-IsBounded index (nat n) r h = absurd cc
  sanitize_rule-IsBounded index other_number r h = absurd cc
  sanitize_rule-IsBounded index (str s) r h = absurd cc
  sanitize_rule-IsBounded index (array vs) r h = absurd cc

  sanitize_rules-IsBounded :
      (index : ℕ) (vs : List Value) (rs : List Rule)
      → sanitize_rules rt index vs ≡ ok rs
      → All IsBounded rs × (length rs ≡ length vs)
  unfolding sanitize_rules
  sanitize_rules-IsBounded index [] rs h =
      subst (λ l. All IsBounded l × (length l ≡ 0)) (ok_injective h) (tt, refl)
  sanitize_rules-IsBounded index (v ∷ vs) rs h = >>=-elim (sanitize_rule rt index v) _ h λ r e k.
      >>=-elim (sanitize_rules rt (suc index) vs) _ k λ ls f l.
        let (bounded, same) = sanitize_rules-IsBounded (suc index) vs ls f in
        subst (λ l. All IsBounded l × (length l ≡ suc (length vs))) (ok_injective l)
          ((sanitize_rule-IsBounded index v r e, bounded), ap suc same)

true-ne-false : true ≡ false → ⊥
true-ne-false h = cc

check_ids-HasDistinctIds :
    (seen : List String) (rs : List Rule)
    → check_ids seen rs ≡ ok tt
    → All (λ r. includes seen r.id ≡ false) rs × HasDistinctIds rs
unfolding check_ids HasDistinctIds
check_ids-HasDistinctIds seen [] h = (tt, tt)
check_ids-HasDistinctIds seen (r ∷ rs) h =
    guard-elim (not (includes seen r.id)) (duplicate_id r.id) (check_ids (r.id ∷ seen) rs) h
      λ fresh k.
        let (unseen, distinct) = check_ids-HasDistinctIds (r.id ∷ seen) rs k in
        ((new (includes seen r.id) fresh, older rs unseen), (differs rs unseen, distinct))
  where
    new : (b : Bool) → not b ≡ true → b ≡ false
    new b h = ground arith

    either : (a b : Bool) → (a || b) ≡ false → (a ≡ false) × (b ≡ false)
    either a b h = ground arith

    older :
        (qs : List Rule)
        → All (λ q. includes (r.id ∷ seen) q.id ≡ false) qs
        → All (λ q. includes seen q.id ≡ false) qs
    older [] u = tt
    older (q ∷ qs) u = ((either (str_eq r.id q.id) (includes seen q.id) u.0).1, older qs u.1)

    differs :
        (qs : List Rule)
        → All (λ q. includes (r.id ∷ seen) q.id ≡ false) qs
        → All (λ q. r.id ≢ q.id) qs
    differs [] u = tt
    differs (q ∷ qs) u = (
      λ e. true-ne-false (
          sym (subst (λ s. str_eq r.id s ≡ true) e (eq_refl r.id))
          ∙ (either (str_eq r.id q.id) (includes seen q.id) u.0).0),
      differs qs u.1,
    )

length-raw_rules : (v : Option Value) (raw : List Value) → raw_rules v ≡ ok raw → length raw ≤ 200
unfolding raw_rules
length-raw_rules none raw h =
    subst (λ (l : List Value). length l ≤ 200) (ok_injective h) (omega arith)
length-raw_rules (some (array vs)) raw h =
    subst (λ (l : List Value). length l ≤ 200) (ok_injective h)
      (omega (arith, length-take 200 (items vs)))
length-raw_rules (some null) raw h = absurd cc
length-raw_rules (some (bool b)) raw h = absurd cc
length-raw_rules (some (nat n)) raw h = absurd cc
length-raw_rules (some other_number) raw h = absurd cc
length-raw_rules (some (str s)) raw h = absurd cc
length-raw_rules (some (object fs)) raw h = absurd cc

-- A policy that passes the check has at most 200 rules with identifiers that differ and are not
-- blank, and every list of a rule keeps its bound.
pub sanitize_catalog_policy_set-IsWellFormed :
    (rt : Runtime) (v : Value) (p : PolicySet)
    → sanitize_catalog_policy_set rt v ≡ ok p
    → IsWellFormed p
unfolding sanitize_catalog_policy_set IsWellFormed
sanitize_catalog_policy_set-IsWellFormed rt (object fs) p h =
    >>=-elim (given (default_effect_of (get "defaultEffect" (entries fs))) default_effect_invalid) _
      h
      λ effect _ k. >>=-elim (raw_rules (get "rules" (entries fs))) _ k λ raw e l.
        >>=-elim (sanitize_rules rt 0 raw) _ l λ rules f q.
          >>=-elim (check_ids [] rules) _ q λ u g z.
            let (bounded, same) = sanitize_rules-IsBounded rt 0 raw rules f in
            let short = length-raw_rules (get "rules" (entries fs)) raw e in
            subst IsWellFormed (ok_injective z)
              (omega (arith, same, short), bounded, (check_ids-HasDistinctIds [] rules g).1)
sanitize_catalog_policy_set-IsWellFormed rt null p h = absurd cc
sanitize_catalog_policy_set-IsWellFormed rt (bool b) p h = absurd cc
sanitize_catalog_policy_set-IsWellFormed rt (nat n) p h = absurd cc
sanitize_catalog_policy_set-IsWellFormed rt other_number p h = absurd cc
sanitize_catalog_policy_set-IsWellFormed rt (str s) p h = absurd cc
sanitize_catalog_policy_set-IsWellFormed rt (array vs) p h = absurd cc

default_policy-IsWellFormed : IsWellFormed default_policy
unfolding IsWellFormed default_policy
default_policy-IsWellFormed = (omega arith, tt, tt)

read_default-IsWellFormed : (read : PolicyRead) → read_default ≡ ok read → IsWellFormed read.policy
unfolding read_default
read_default-IsWellFormed read h =
    subst (λ (q : PolicyRead). IsWellFormed q.policy) (ok_injective h) default_policy-IsWellFormed

read_environment-IsWellFormed :
    (rt : Runtime) (json : Option String) (read : PolicyRead)
    → read_environment rt json ≡ ok read
    → IsWellFormed read.policy
unfolding read_environment read_variable
read_environment-IsWellFormed rt none read h = read_default-IsWellFormed read h
read_environment-IsWellFormed rt (some json) read h =
    if-elim (is_blank json) h (λ _ k. read_default-IsWellFormed read k)
      (λ _ k. >>=-elim (given (rt.parse json) environment_unparsed) _ k λ v _ l.
        >>=-elim (rethrow environment_refused (sanitize_catalog_policy_set rt v)) _ l λ p e z.
          subst (λ (q : PolicyRead). IsWellFormed q.policy) (ok_injective z)
            (sanitize_catalog_policy_set-IsWellFormed rt v p
              (rethrow-ok environment_refused (sanitize_catalog_policy_set rt v) e)))

read_stored-IsWellFormed :
    (rt : Runtime) (row : Stored) (read : PolicyRead)
    → read_stored rt row ≡ ok read
    → IsWellFormed read.policy
unfolding read_stored
read_stored-IsWellFormed rt row read h =
    >>=-elim (given (rt.parse row.policy_json) stored_invalid) _ h λ v _ l.
      >>=-elim (rethrow (λ _. stored_invalid) (sanitize_catalog_policy_set rt v)) _ l λ p e z.
        subst (λ (q : PolicyRead). IsWellFormed q.policy) (ok_injective z)
          (sanitize_catalog_policy_set-IsWellFormed rt v p
            (rethrow-ok (λ _. stored_invalid) (sanitize_catalog_policy_set rt v) e))

pub read_from-IsWellFormed :
    (rt : Runtime) (db : Option (Option Stored)) (json : Option String) (read : PolicyRead)
    → read_from rt db json ≡ ok read
    → IsWellFormed read.policy
unfolding read_from
read_from-IsWellFormed rt none json read h = read_environment-IsWellFormed rt json read h
read_from-IsWellFormed rt (some none) json read h = read_environment-IsWellFormed rt json read h
read_from-IsWellFormed rt (some (some row)) json read h = read_stored-IsWellFormed rt row read h
