-- ===== src/Approvals/Sound.antt =====
-- The numbers and the approvers of what a checked policy of
-- src/operations/approvals/approval-gates.ts requires.
use freeipa_admin_dashboard.Base.{
  ℕ, ◌≤◌, suc, String, ◌≡◌, refl, sym, subst, Bool, true, false, not, Option, none, some, List, [],
  ◌∷◌, All, ok, given, ◌>>=◌, >>=-elim, guard-elim, ok_injective, if◌then◌else◌, arith, includes,
}
use freeipa_admin_dashboard.Base.Json.{
  Value, null, bool, nat, other_number, str, array, object, entries, get,
}
use freeipa_admin_dashboard.Base.Language.{
  Language, Number, natural, negative, not_finite, number_between,
}
use freeipa_admin_dashboard.Approvals.Policy.{
  Requirement, RuleEffect, require, no_approval, PolicyRule, PolicySet, Subject, Event,
  approvers_missing, duplicate_id, effect_invalid, default_dangerous_requirement, effect_of,
  raw_rules, requirement_of, has_approvers, sanitize_fields, sanitize_requirement,
  dangerous_defaults_of, base_of, rule_of, id_of, sanitize_rule, sanitize_rules,
  sanitize_approval_policy_set, applies, requirement_by, requirement_from, approval_requirement,
}

unfoldable pub IsSound : Language → Requirement → Type 0
IsSound js r =
    (1 ≤ r.required_approvals)
    × (r.required_approvals ≤ 10)
    × (5 ≤ r.expires_minutes)
    × (r.expires_minutes ≤ 10080)
    × (has_approvers js r ≡ true)

abbrev IfSome : (Requirement → Type 0) → Option Requirement → Type 0
IfSome P none = Unit
IfSome P (some r) = P r

number_between_bounds :
    (n : Number) (f low high : ℕ)
    → low ≤ f
    → f ≤ high
    → (low ≤ number_between n f low high) × (number_between n f low high ≤ high)
unfolding number_between
number_between_bounds (natural n) f low high h k = (omega arith, omega arith)
number_between_bounds negative f low high h k = (omega arith, omega arith)
number_between_bounds not_finite f low high h k = (h, k)

module _ (js : Language) where
  requirement_of-IsSound :
      (source : List (String × Value)) (id : String)
      → has_approvers js (requirement_of js source id) ≡ true
      → IsSound js (requirement_of js source id)
  unfolding IsSound requirement_of
  requirement_of-IsSound source id approvers =
      let (a, b) =
        number_between_bounds (js.number (get "requiredApprovals" source)) 1 1 10 (omega arith)
          (omega arith) in
      let (c, d) =
        number_between_bounds (js.number (get "expiresMinutes" source)) 60 5 10080 (omega arith)
          (omega arith) in
      (a, b, c, d, approvers)

  sanitize_fields-IsSound :
      (source : List (String × Value)) (id : String) (r : Requirement)
      → sanitize_fields js source id ≡ ok r
      → IsSound js r
  unfolding sanitize_fields
  sanitize_fields-IsSound source id r h =
      guard-elim (has_approvers js (requirement_of js source id)) (approvers_missing id)
        (ok (requirement_of js source id)) h
        λ approvers k.
          subst (IsSound js) (ok_injective k) (requirement_of-IsSound source id approvers)

  IsSound-renamed :
      (r : Requirement) (id : String) → IsSound js r → IsSound js (record r { rule_id = id })
  unfolding IsSound has_approvers
  IsSound-renamed r id h = h

  default-IsSound : IsSound js default_dangerous_requirement
  unfolding IsSound default_dangerous_requirement has_approvers
  default-IsSound = (omega arith, omega arith, omega arith, omega arith, refl)

  base_of-IsSound :
      (effect : RuleEffect) (rule : List (String × Value)) (id : String) (r : Requirement)
      → base_of js effect rule id ≡ ok r
      → IsSound js r
  unfolding base_of
  base_of-IsSound require rule id r h =
      >>=-elim (sanitize_fields js (("ruleId", str id) ∷ rule) id) _ h λ q k z.
        subst (IsSound js) (ok_injective z)
          (IsSound-renamed q id (sanitize_fields-IsSound (("ruleId", str id) ∷ rule) id q k))
  base_of-IsSound no_approval rule id r h =
      subst (IsSound js) (ok_injective h)
        (IsSound-renamed default_dangerous_requirement id default-IsSound)

  rule_of-requirement :
      (rule : List (String × Value)) (id : String) (effect : RuleEffect) (base : Requirement)
      → (rule_of js rule id effect base).requirement ≡ base
  unfolding rule_of
  rule_of-requirement rule id effect base = refl

  sanitize_rule-IsSound :
      (ids : List String) (index : ℕ) (v : Value) (r : PolicyRule)
      → sanitize_rule js ids index v ≡ ok r
      → IsSound js r.requirement
  unfolding sanitize_rule
  sanitize_rule-IsSound ids index (object fs) r h =
      guard-elim (not (includes ids (id_of js (entries fs) index)))
        (duplicate_id (id_of js (entries fs) index)) _ h
        λ _ k.
          >>=-elim
            (given (effect_of (get "effect" (entries fs)))
              (effect_invalid (id_of js (entries fs) index)))
            _ k
            λ effect _ l.
              >>=-elim (base_of js effect (entries fs) (id_of js (entries fs) index)) _ l
                λ base b z.
                  subst (λ (q : PolicyRule). IsSound js q.requirement) (ok_injective z)
                    (subst (IsSound js)
                      (sym (
                        rule_of-requirement (entries fs) (id_of js (entries fs) index) effect base))
                      (base_of-IsSound effect (entries fs) (id_of js (entries fs) index) base b))
  sanitize_rule-IsSound ids index null r h = absurd cc
  sanitize_rule-IsSound ids index (bool b) r h = absurd cc
  sanitize_rule-IsSound ids index (nat n) r h = absurd cc
  sanitize_rule-IsSound ids index other_number r h = absurd cc
  sanitize_rule-IsSound ids index (str s) r h = absurd cc
  sanitize_rule-IsSound ids index (array vs) r h = absurd cc

  sanitize_rules-IsSound :
      (ids : List String) (index : ℕ) (vs : List Value) (rs : List PolicyRule)
      → sanitize_rules js ids index vs ≡ ok rs
      → All (λ (r : PolicyRule). IsSound js r.requirement) rs
  unfolding sanitize_rules
  sanitize_rules-IsSound ids index [] rs h =
      subst (All (λ (r : PolicyRule). IsSound js r.requirement)) (ok_injective h) tt
  sanitize_rules-IsSound ids index (v ∷ vs) rs h =
      >>=-elim (sanitize_rule js ids index v) _ h λ r e k.
        >>=-elim (sanitize_rules js (r.id ∷ ids) (suc index) vs) _ k λ qs f z.
          subst (All (λ (r : PolicyRule). IsSound js r.requirement)) (ok_injective z) (
            sanitize_rule-IsSound ids index v r e,
            sanitize_rules-IsSound (r.id ∷ ids) (suc index) vs qs f,
          )

  sanitize_requirement-IsSound :
      (v : Value) (id : String) (r : Requirement)
      → sanitize_requirement js v id ≡ ok r
      → IsSound js r
  unfolding sanitize_requirement
  sanitize_requirement-IsSound (object fs) id r h = sanitize_fields-IsSound (entries fs) id r h
  sanitize_requirement-IsSound null id r h = absurd cc
  sanitize_requirement-IsSound (bool b) id r h = absurd cc
  sanitize_requirement-IsSound (nat n) id r h = absurd cc
  sanitize_requirement-IsSound other_number id r h = absurd cc
  sanitize_requirement-IsSound (str s) id r h = absurd cc
  sanitize_requirement-IsSound (array vs) id r h = absurd cc

  checked :
      (v : Value) (d : Option Requirement)
      → (sanitize_requirement js v "dangerous-default" >>= λ r. ok (some r)) ≡ ok d
      → IfSome (IsSound js) d
  checked v d h = >>=-elim (sanitize_requirement js v "dangerous-default") _ h λ r e z.
      subst (IfSome (IsSound js)) (ok_injective z)
        (sanitize_requirement-IsSound v "dangerous-default" r e)

  defaults-IsSound :
      (o : Option Value) (d : Option Requirement)
      → dangerous_defaults_of js o ≡ ok d
      → IfSome (IsSound js) d
  unfolding dangerous_defaults_of
  defaults-IsSound none d h = subst (IfSome (IsSound js)) (ok_injective h) default-IsSound
  defaults-IsSound (some null) d h = subst (IfSome (IsSound js)) (ok_injective h) tt
  defaults-IsSound (some (bool b)) d h = checked (bool b) d h
  defaults-IsSound (some (nat n)) d h = checked (nat n) d h
  defaults-IsSound (some other_number) d h = checked other_number d h
  defaults-IsSound (some (str s)) d h = checked (str s) d h
  defaults-IsSound (some (array vs)) d h = checked (array vs) d h
  defaults-IsSound (some (object fs)) d h = checked (object fs) d h

  IfSome-if :
      (b : Bool) (x y : Option Requirement)
      → IfSome (IsSound js) x
      → IfSome (IsSound js) y
      → IfSome (IsSound js) (if b then x else y)
  IfSome-if true x y p q = p
  IfSome-if false x y p q = q

  requirement_from-IsSound :
      (s : Subject) (e : Event) (c : Option Requirement) (rs : List PolicyRule)
      → IfSome (IsSound js) c
      → All (λ (r : PolicyRule). IsSound js r.requirement) rs
      → IfSome (IsSound js) (requirement_from js s e c rs)
  unfolding requirement_from
  requirement_from-IsSound s e c [] h k = h
  requirement_from-IsSound s e c (r ∷ rs) h k =
      requirement_from-IsSound s e (if applies js s e r then requirement_by js r else c) rs
        (IfSome-if (applies js s e r) (requirement_by js r) c (by_effect r.effect r.requirement k.0)
          h)
        k.1
    where
      by_effect :
          (f : RuleEffect) (q : Requirement)
          → IsSound js q
          → IfSome (IsSound js) (elim f [ require ↦ some q | no_approval ↦ none ])
      by_effect require q h = h
      by_effect no_approval q h = tt

  sanitize_approval_policy_set-IsSound :
      (v : Value) (p : PolicySet)
      → sanitize_approval_policy_set js v ≡ ok p
      → IfSome (IsSound js) p.dangerous_defaults
        × All (λ (r : PolicyRule). IsSound js r.requirement) p.rules
  unfolding sanitize_approval_policy_set
  sanitize_approval_policy_set-IsSound (object fs) p h =
      >>=-elim (dangerous_defaults_of js (get "dangerousDefaults" (entries fs))) _ h λ d e k.
        >>=-elim (raw_rules (get "rules" (entries fs))) _ k λ raw _ l.
          >>=-elim (sanitize_rules js [] 0 raw) _ l λ rules f z.
            subst
              (λ (p : PolicySet).
                IfSome (IsSound js) p.dangerous_defaults
                × All (λ (r : PolicyRule). IsSound js r.requirement) p.rules)
              (ok_injective z)
              (
                defaults-IsSound (get "dangerousDefaults" (entries fs)) d e,
                sanitize_rules-IsSound [] 0 raw rules f,
              )
  sanitize_approval_policy_set-IsSound null p h = absurd cc
  sanitize_approval_policy_set-IsSound (bool b) p h = absurd cc
  sanitize_approval_policy_set-IsSound (nat n) p h = absurd cc
  sanitize_approval_policy_set-IsSound other_number p h = absurd cc
  sanitize_approval_policy_set-IsSound (str s) p h = absurd cc
  sanitize_approval_policy_set-IsSound (array vs) p h = absurd cc

  -- What a policy that passed the check requires asks for 1 to 10 approvals within 5 minutes to a
  -- week, and names a role or a group that may approve.
  pub approval_requirement-IsSound :
      (v : Value) (p : PolicySet) (s : Subject) (e : Event) (r : Requirement)
      → sanitize_approval_policy_set js v ≡ ok p
      → approval_requirement js p s e ≡ some r
      → IsSound js r
  unfolding approval_requirement
  approval_requirement-IsSound v p s e r h k =
      let (defaults, rules) = sanitize_approval_policy_set-IsSound v p h in
      subst (IfSome (IsSound js)) k (
        requirement_from-IsSound s e (if e.dangerous then p.dangerous_defaults else none) p.rules
          (IfSome-if e.dangerous p.dangerous_defaults none defaults tt) rules)
