-- ===== src/Approvals/Requirement.antt =====
-- `approvalRequirement` of src/operations/approvals/approval-gates.ts against the rules that apply.
use freeipa_admin_dashboard.Base.{
  ◌≡◌, refl, ap, ◌⊎◌, inl, inr, true, false, Option, none, List, [], ◌∷◌, ◌++◌, All, if◌then◌else◌,
  Bool-cases,
}
use freeipa_admin_dashboard.Base.Language.{Language}
use freeipa_admin_dashboard.Approvals.Policy.{
  Requirement, PolicyRule, PolicySet, Subject, Event, applies, requirement_by, requirement_from,
  approval_requirement,
}

-- The rule that comes last of those that apply decides; where none applies, `default` stands.
unfoldable pub IsDecided :
    Language → Subject → Event → Option Requirement → List PolicyRule → Option Requirement → Type 0
IsDecided js s e default rules result =
    (All (λ r. applies js s e r ≡ false) rules × (result ≡ default))
    ⊎ ((before : List PolicyRule) × (r : PolicyRule) × (after : List PolicyRule) × (rules
          ≡ before ++ (r ∷ after))
        × (applies js s e r ≡ true)
        × All (λ q. applies js s e q ≡ false) after
        × (result ≡ requirement_by js r))

module _ (js : Language) (s : Subject) (e : Event) where
  IsDecided-skip :
      (c result : Option Requirement) (r : PolicyRule) (rs : List PolicyRule)
      → applies js s e r ≡ false
      → IsDecided js s e c rs result
      → IsDecided js s e c (r ∷ rs) result
  unfolding IsDecided
  IsDecided-skip c result r rs skipped (inl (none_apply, same)) = inl ((skipped, none_apply), same)
  IsDecided-skip c result r rs skipped (inr (before, q, after, split, hit, miss, same)) =
      inr (r ∷ before, q, after, ap (λ l. r ∷ l) split, hit, miss, same)

  IsDecided-take :
      (c result : Option Requirement) (r : PolicyRule) (rs : List PolicyRule)
      → applies js s e r ≡ true
      → IsDecided js s e (requirement_by js r) rs result
      → IsDecided js s e c (r ∷ rs) result
  unfolding IsDecided
  IsDecided-take c result r rs taken (inl (none_apply, same)) =
      inr ([], r, rs, refl, taken, none_apply, same)
  IsDecided-take c result r rs taken (inr (before, q, after, split, hit, miss, same)) =
      inr (r ∷ before, q, after, ap (λ l. r ∷ l) split, hit, miss, same)

  requirement_from-IsDecided :
      (c : Option Requirement) (rs : List PolicyRule)
      → IsDecided js s e c rs (requirement_from js s e c rs)
  unfolding requirement_from IsDecided
  requirement_from-IsDecided c [] = inl (tt, refl)
  requirement_from-IsDecided c (r ∷ rs) = elim (Bool-cases (applies js s e r)) [
    | inl taken ↦
        IsDecided-take c (requirement_from js s e c (r ∷ rs)) r rs taken
          (rw (taken) (requirement_from-IsDecided (requirement_by js r) rs))
    | inr skipped ↦
        IsDecided-skip c (requirement_from js s e c (r ∷ rs)) r rs skipped
          (rw (skipped) (requirement_from-IsDecided c rs))
  ]

  -- What a policy requires of an operation is decided by the last of the rules that apply to the
  -- subject and the event; where none applies, a dangerous operation falls under the policy's
  -- default for those, and any other requires nothing.
  pub approval_requirement-IsDecided :
      (p : PolicySet)
      → IsDecided js s e
          (if e.dangerous then p.dangerous_defaults else none)
          p.rules
          (approval_requirement js p s e)
  unfolding approval_requirement
  approval_requirement-IsDecided p =
      requirement_from-IsDecided (if e.dangerous then p.dangerous_defaults else none) p.rules
