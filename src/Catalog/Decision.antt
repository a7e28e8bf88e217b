-- ===== src/Catalog/Decision.antt =====
-- `catalogEventAllowed` of src/operations/catalog/catalog-policies.ts against the rules without their
-- order.
use mathlib.Core.List.{Memᴰ}
use mathlib.Core.List.Memᴰ
use freeipa_admin_dashboard.Base.{
  ◌≡◌, refl, sym, ◌⊎◌, inl, inr, ◌↔◌, Bool, true, false, ◌&&◌, ◌||◌, ap, ◌∙◌, &&-eq-true_iff, arith,
  List, [], ◌∷◌, any, keep, if◌then◌else◌, Bool-cases,
}
use freeipa_admin_dashboard.Catalog.Policies.{
  Effect, allow, deny, Rule, PolicySet, Subject, Event, Runtime, applies, is_deny, is_allow,
  is_admin, catalog_event_allowed,
}

module _ {ℓ} {A : Type ℓ} (p q : A → Bool) where
  any-keep-cons :
      (x : A) (xs : List A) → any q (keep p (x ∷ xs)) ≡ ((p x && q x) || any q (keep p xs))
  any-keep-cons x xs = elim (Bool-cases (p x)) [ inl h ↦ rw (h) refl | inr h ↦ rw (h) refl ]

  any-keep-elim :
      (xs : List A) → any q (keep p xs) ≡ true → (a : A) × Memᴰ a xs × (p a ≡ true) × (q a ≡ true)
  any-keep-elim [] h = absurd cc
  any-keep-elim (x ∷ xs) h = elim (Bool-cases (p x && q x)) [
    | inl e ↦ let (k, l) = (&&-eq-true_iff (p x) (q x)).0 e in (x, Memᴰ.head refl, k, l)
    | inr e ↦
        let (a, t, k, l) =
          any-keep-elim xs
            (or-false (p x && q x) (any q (keep p xs)) e (sym (any-keep-cons x xs) ∙ h)) in
        (a, Memᴰ.tail t, k, l)
  ]
    where
      or-false : (a b : Bool) → a ≡ false → (a || b) ≡ true → b ≡ true
      or-false a b e k = ground arith

  Memᴰ-any : (xs : List A) (a : A) → Memᴰ a xs → p a ≡ true → q a ≡ true → any q (keep p xs) ≡ true
  Memᴰ-any [] a t h k = absurd (Memᴰ.not-nil t)
  Memᴰ-any (x ∷ xs) a (Memᴰ.head e) h k =
      any-keep-cons x xs
      ∙ or-left (p x) (q x) (any q (keep p xs)) (sym (ap p e) ∙ h) (sym (ap q e) ∙ k)
    where
      or-left : (a b c : Bool) → a ≡ true → b ≡ true → ((a && b) || c) ≡ true
      or-left a b c h k = ground arith
  Memᴰ-any (x ∷ xs) a (Memᴰ.tail t) h k =
      any-keep-cons x xs ∙ or-right (p x && q x) (any q (keep p xs)) (Memᴰ-any xs a t h k)
    where
      or-right : (a b : Bool) → b ≡ true → (a || b) ≡ true
      or-right a b h = ground arith

effect-allow : (f : Effect) → is_allow f ≡ true → f ≡ allow
effect-allow allow h = refl
effect-allow deny h = absurd cc

false-ne-true : false ≡ true → ⊥
false-ne-true h = cc

Bool-ext : (a b : Bool) → (a ≡ true → b ≡ true) → (b ≡ true → a ≡ true) → a ≡ b
Bool-ext true true h k = refl
Bool-ext true false h k = sym (h refl)
Bool-ext false true h k = k refl
Bool-ext false false h k = refl

module _ (rt : Runtime) (p : PolicySet) (s : Subject) (e : Event) where
  -- A rule of the set with the effect applies to the subject and the event.
  unfoldable pub HasRule : Effect → Type 0
  HasRule f = (r : Rule) × Memᴰ r p.rules × (applies rt s e r ≡ true) × (r.effect ≡ f)

  -- The specification: it is a matter of which rules there are, not of their order.
  unfoldable pub IsAllowed : Type 0
  unfolding HasRule is_admin
  IsAllowed =
      ((p.admin_bypass ≡ true) × (is_admin s.role ≡ true))
      ⊎ ((HasRule deny → ⊥) × (HasRule allow ⊎ (p.default_effect ≡ allow)))

  deny_iff : (any (λ r. is_deny r.effect) (keep (applies rt s e) p.rules) ≡ true) ↔ HasRule deny
  unfolding HasRule
  deny_iff = (
    λ h.
        let (r, t, k, l) = any-keep-elim (applies rt s e) (λ r. is_deny r.effect) p.rules h in
        (r, t, k, effect-deny r.effect l),
    λ (r, t, k, l). Memᴰ-any (applies rt s e) (λ r. is_deny r.effect) p.rules r t k (ap is_deny l),
  )
    where
      effect-deny : (f : Effect) → is_deny f ≡ true → f ≡ deny
      effect-deny deny h = refl
      effect-deny allow h = absurd cc

  allow_iff : (any (λ r. is_allow r.effect) (keep (applies rt s e) p.rules) ≡ true) ↔ HasRule allow
  unfolding HasRule
  allow_iff = (
    λ h.
        let (r, t, k, l) = any-keep-elim (applies rt s e) (λ r. is_allow r.effect) p.rules h in
        (r, t, k, effect-allow r.effect l),
    λ (r, t, k, l).
        Memᴰ-any (applies rt s e) (λ r. is_allow r.effect) p.rules r t k (ap is_allow l),
  )

  decide : Bool → Bool → Bool → Bool
  decide bypass denied allowed =
      if bypass
      then true
      else if denied
      then false
      else if allowed
      then true
      else is_allow p.default_effect

  decide_iff :
      (b d a : Bool)
      → (b ≡ true) ↔ ((p.admin_bypass ≡ true) × (is_admin s.role ≡ true))
      → (d ≡ true) ↔ HasRule deny
      → (a ≡ true) ↔ HasRule allow
      → (decide b d a ≡ true) ↔ IsAllowed
  unfolding decide IsAllowed
  decide_iff true d a hb hd ha = (λ _. inl (hb.0 refl), λ _. refl)
  decide_iff false true a hb hd ha = (
    λ h. absurd cc,
    λ w. elim w [ inl k ↦ absurd (false-ne-true (hb.1 k)) | inr k ↦ absurd (k.0 (hd.0 refl)) ],
  )
  decide_iff false false true hb hd ha =
      (λ _. inr (λ k. false-ne-true (hd.1 k), inl (ha.0 refl)), λ _. refl)
  decide_iff false false false hb hd ha = (
    λ h. inr (λ k. false-ne-true (hd.1 k), inr (effect-allow p.default_effect h)),
    λ w. elim w [
      | inl k ↦ absurd (false-ne-true (hb.1 k))
      | inr k ↦ elim k.1 [ inl j ↦ absurd (false-ne-true (ha.1 j)) | inr j ↦ ap is_allow j ]
    ],
  )

  -- A subject sees a process exactly when it is an administrator whom the policy lets through, or
  -- no rule that applies denies it and either one that applies allows it or the default does.
  pub catalog_event_allowed_iff : (catalog_event_allowed rt p s e ≡ true) ↔ IsAllowed
  unfolding catalog_event_allowed decide
  catalog_event_allowed_iff =
      decide_iff (p.admin_bypass && is_admin s.role)
        (any (λ r. is_deny r.effect) (keep (applies rt s e) p.rules))
        (any (λ r. is_allow r.effect) (keep (applies rt s e) p.rules))
        (&&-eq-true_iff p.admin_bypass (is_admin s.role)) deny_iff allow_iff

abbrev with_rules : List Rule → PolicySet → PolicySet
with_rules rs p = record p { rules = rs }

IsAllowed-mono :
    (rt : Runtime) (p : PolicySet) (s : Subject) (e : Event) (rs : List Rule)
    → ((r : Rule) → Memᴰ r p.rules ↔ Memᴰ r rs)
    → IsAllowed rt p s e
    → IsAllowed rt (with_rules rs p) s e
unfolding IsAllowed HasRule
IsAllowed-mono rt p s e rs same (inl h) = inl h
IsAllowed-mono rt p s e rs same (inr (undenied, inr h)) =
    inr (λ (r, t, k, l). undenied (r, (same r).1 t, k, l), inr h)
IsAllowed-mono rt p s e rs same (inr (undenied, inl (r, t, k, l))) =
    inr (λ (r, t, k, l). undenied (r, (same r).1 t, k, l), inl (r, (same r).0 t, k, l))

-- Two policies that differ only in the order or the repetition of their rules decide alike.
pub catalog_event_allowed_unordered :
    (rt : Runtime) (p : PolicySet) (s : Subject) (e : Event) (rs : List Rule)
    → ((r : Rule) → Memᴰ r p.rules ↔ Memᴰ r rs)
    → catalog_event_allowed rt (record p { rules = rs }) s e ≡ catalog_event_allowed rt p s e
catalog_event_allowed_unordered rt p s e rs same =
    Bool-ext (catalog_event_allowed rt (with_rules rs p) s e) (catalog_event_allowed rt p s e)
      (λ h. (catalog_event_allowed_iff rt p s e).1 (
        IsAllowed-mono rt (with_rules rs p) s e p.rules (λ r. ((same r).1, (same r).0))
          ((catalog_event_allowed_iff rt (with_rules rs p) s e).0 h)))
      (λ h.
        (catalog_event_allowed_iff rt (with_rules rs p) s e).1
          (IsAllowed-mono rt p s e rs same ((catalog_event_allowed_iff rt p s e).0 h)))
