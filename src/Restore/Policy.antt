-- ===== src/Restore/Policy.antt =====
-- The policy of src/backup/restore/backup-selective-restore-policy.ts against what the domains need of
-- one another, and run again on what it returned.
use freeipa_admin_dashboard.Base.{
  String, ◌≡◌, refl, sym, ap, subst, ◌∙◌, Bool, true, false, ◌&&◌, ◌||◌, not, Option, none, some,
  List, [], ◌∷◌, Result, ok, err, guard, ◌>>=◌, ◌>>◌, >>=-elim, guard-elim, ok_injective, keep,
  includes, false-ne-true, is_empty, str_eq, eq_iff,
}
use freeipa_admin_dashboard.Base.Json.{
  Value, null, bool, nat, other_number, str, array, object, items,
}
use freeipa_admin_dashboard.Restore.Domains.{
  Domain, portal_backup_domains, rbac, local_auth, operations, approvals, audit, domain_text,
  domain_texts, canonical_domains, has_duplicates, PolicyFailure, dependency_invalid,
  domain_unsupported, RestorePolicy, is_rbac, policy_of, has, same_bool, is_supported,
  requested_texts, policy_from, validate_selective_restore_domains,
}
use freeipa_admin_dashboard.Restore.Stage.{text_items}
use freeipa_admin_dashboard.Restore.Closed.{
  supported, has-includes, canonical_domains-twice, canonical_domains-single, decided,
  policy_from-decided, decided-single, decided-selected, err-ne-ok,
}

-- A domain of a list.
abbrev pub holds : List Domain → Domain → Bool
holds ds d = includes (domain_texts ds) (domain_text d)

-- The domains are in the order of the backup, without the audit; roles come with the accounts, and
-- operations with approvals.
unfoldable pub IsClosed : RestorePolicy → Type 0
IsClosed p =
    (canonical_domains (domain_texts p.selected_domains) ≡ p.selected_domains)
    × (holds p.selected_domains audit ≡ false)
    × (holds p.selected_domains rbac ≡ true → holds p.selected_domains local_auth ≡ true)
    × (holds p.selected_domains operations ≡ holds p.selected_domains approvals)
    × (p.operation_approval_bundle ≡ holds p.selected_domains operations)
    × (p.physical_domains ≡ keep (λ d. not (is_rbac d)) p.selected_domains)

err-ne-texts :
    (l : List String)
    → ◌≡◌ {0} {A = Result PolicyFailure (List String)} (err dependency_invalid) (ok l)
    → ⊥
err-ne-texts l h = cc

false_of_not : (b : Bool) → not b ≡ true → b ≡ false
false_of_not false h = refl
false_of_not true h = absurd (false-ne-true h)

implied : (a b : Bool) → (not a || b) ≡ true → a ≡ true → b ≡ true
implied true b h e = h
implied false b h e = absurd (false-ne-true e)

alike : (a b : Bool) → same_bool a b ≡ true → a ≡ b
alike true true h = refl
alike true false h = absurd (false-ne-true h)
alike false true h = absurd (false-ne-true h)
alike false false h = refl

both : (a b : Bool) → a ≡ b → (a && b) ≡ a
both true b h = sym h
both false b h = refl

policy_from-IsClosed :
    (requested : List String) (p : RestorePolicy) → policy_from requested ≡ ok p → IsClosed p
unfolding IsClosed
policy_from-IsClosed requested p h =
    guard-elim (not (has_duplicates requested)) dependency_invalid _
      (sym (policy_from-decided requested) ∙ h)
      λ _ h2. guard-elim (not (includes requested "audit")) domain_unsupported _ h2 λ unaudited h3.
        guard-elim (not (has requested rbac) || has requested local_auth) dependency_invalid _ h3
          λ roles h4.
            guard-elim (same_bool (has requested operations) (has requested approvals))
              dependency_invalid _ h4
              λ together h5. subst IsClosed (ok_injective h5) (closed unaudited roles together)
  where
    closed :
        not (includes requested "audit") ≡ true
        → (not (has requested rbac) || has requested local_auth) ≡ true
        → same_bool (has requested operations) (has requested approvals) ≡ true
        → IsClosed (
            policy_of
              (canonical_domains requested)
              (has requested operations && has requested approvals))
    closed u r t = (
      canonical_domains-twice requested,
      has-includes requested audit ∙ false_of_not (includes requested "audit") u,
      implied (has requested rbac) (has requested local_auth) r,
      alike (has requested operations) (has requested approvals) t,
      both (has requested operations) (has requested approvals)
          (alike (has requested operations) (has requested approvals) t),
      refl,
    )

policy_from-selected :
    (requested : List String) (p : RestorePolicy)
    → policy_from requested ≡ ok p
    → p.selected_domains ≡ canonical_domains requested
policy_from-selected requested p h =
    decided-selected (not (has_duplicates requested)) (not (includes requested "audit"))
      (has requested rbac) (has requested local_auth) (has requested operations)
      (has requested approvals) (canonical_domains requested) p
      (sym (policy_from-decided requested) ∙ h)

policy_from-again :
    (requested : List String) (p : RestorePolicy)
    → policy_from requested ≡ ok p
    → policy_from (domain_texts p.selected_domains) ≡ ok p
policy_from-again requested p h =
    let d = sym (policy_from-decided requested) ∙ h in
    let same =
      decided-selected (not (has_duplicates requested)) (not (includes requested "audit"))
        (has requested rbac) (has requested local_auth) (has requested operations)
        (has requested approvals) (canonical_domains requested) p d in
    subst (λ ds. policy_from (domain_texts ds) ≡ ok p) (sym same)
      (policy_from-decided texts
        ∙ ((λ i.
              decided (canonical_domains-single requested i) (not (has-includes requested audit i))
                (seen rbac i) (seen local_auth i) (seen operations i) (seen approvals i)
                (canonical_domains-twice requested i))
            ∙ decided-single (not (has_duplicates requested)) (not (includes requested "audit"))
                (has requested rbac) (has requested local_auth) (has requested operations)
                (has requested approvals) (canonical_domains requested) p d))
  where
    texts : List String
    texts = domain_texts (canonical_domains requested)

    seen : (e : Domain) → has texts e ≡ has requested e
    seen e = ap (λ ds. holds ds e) (canonical_domains-twice requested)

requested_texts-IsClosed :
    (vs : List Value) (p : RestorePolicy)
    → (requested_texts vs >>= λ requested. policy_from requested) ≡ ok p
    → IsClosed p
requested_texts-IsClosed vs p h =
    >>=-elim (requested_texts vs) (λ requested. policy_from requested) h
      λ requested _ k. policy_from-IsClosed requested p k

-- What passes the policy is in the order of the backup, has no audit, has the local accounts where
-- it has the roles, and operations and approvals only together; what is written leaves out only the
-- roles.
pub validate_selective_restore_domains-IsClosed :
    (v : Option Value) (p : RestorePolicy)
    → validate_selective_restore_domains v ≡ ok p
    → IsClosed p
unfolding validate_selective_restore_domains
validate_selective_restore_domains-IsClosed (some (array vs)) p h =
    guard-elim (not (is_empty (items vs))) dependency_invalid
      (requested_texts (items vs) >>= λ requested. policy_from requested) h
      λ _ k. requested_texts-IsClosed (items vs) p k
validate_selective_restore_domains-IsClosed none p h = absurd (err-ne-ok dependency_invalid p h)
validate_selective_restore_domains-IsClosed (some null) p h =
    absurd (err-ne-ok dependency_invalid p h)
validate_selective_restore_domains-IsClosed (some (bool b)) p h =
    absurd (err-ne-ok dependency_invalid p h)
validate_selective_restore_domains-IsClosed (some (nat n)) p h =
    absurd (err-ne-ok dependency_invalid p h)
validate_selective_restore_domains-IsClosed (some other_number) p h =
    absurd (err-ne-ok dependency_invalid p h)
validate_selective_restore_domains-IsClosed (some (str s)) p h =
    absurd (err-ne-ok dependency_invalid p h)
validate_selective_restore_domains-IsClosed (some (object fs)) p h =
    absurd (err-ne-ok dependency_invalid p h)

supported_text :
    (ds : List Domain) (s : String)
    → includes (domain_texts ds) s ≡ true
    → (d : Domain) × (domain_text d ≡ s)
supported_text [] s h = absurd (false-ne-true h)
supported_text (d ∷ ds) s h = by_test (str_eq (domain_text d) s) refl h (supported_text ds s)
  where
    by_test :
        (t : Bool)
        → str_eq (domain_text d) s ≡ t
        → (t || includes (domain_texts ds) s) ≡ true
        → (includes (domain_texts ds) s ≡ true → (e : Domain) × (domain_text e ≡ s))
        → (e : Domain) × (domain_text e ≡ s)
    by_test true e g k = (d, (eq_iff (domain_text d) s).0 e)
    by_test false e g k = k g

not_nothing : (ds : List Domain) (d : Domain) → holds ds d ≡ true → is_empty ds ≡ false
not_nothing [] d h = absurd (false-ne-true h)
not_nothing (e ∷ ds) d h = refl

requested_texts-kept :
    (ds : List Domain)
    → requested_texts (items (text_items (domain_texts ds))) ≡ ok (domain_texts ds)
unfolding items
requested_texts-kept [] = refl
requested_texts-kept (d ∷ ds) = (λ i.
    guard (supported d i) dependency_invalid
    >> (requested_texts-kept ds i >>= λ rest. ok (domain_text d ∷ rest)))

stored-checked :
    (ds : List Domain) (p : RestorePolicy)
    → is_empty ds ≡ false
    → policy_from (domain_texts ds) ≡ ok p
    → validate_selective_restore_domains (some (array (text_items (domain_texts ds)))) ≡ ok p
unfolding validate_selective_restore_domains items
stored-checked [] p e h = absurd (false-ne-true (sym e))
stored-checked (d ∷ ds) p e h =
    ap (λ m. m >>= λ requested. policy_from requested) (requested_texts-kept (d ∷ ds)) ∙ h

first_supported :
    (s : String) (vs : List Value) (requested : List String)
    → requested_texts (str s ∷ vs) ≡ ok requested
    → is_empty (canonical_domains requested) ≡ false
first_supported s vs requested h =
    guard-elim (is_supported s) dependency_invalid (requested_texts vs >>= λ rest. ok (s ∷ rest)) h
      λ known k.
        >>=-elim (requested_texts vs) (λ rest. ok (s ∷ rest)) k
          λ rest _ e.
            let (d, same) = supported_text portal_backup_domains s known in
            not_nothing (canonical_domains requested) d (
              has-includes requested d
              ∙ (ap (λ l. includes l (domain_text d)) (sym (ok_injective e))
                  ∙ first_included s rest (domain_text d) (sym same)))
  where
    first_included : (t : String) (l : List String) (u : String) → t ≡ u → includes (t ∷ l) u ≡ true
    first_included t l u e = ap (λ b. b || includes l u) ((eq_iff t u).1 e)

selected-some :
    (vs : List Value) (requested : List String)
    → not (is_empty vs) ≡ true
    → requested_texts vs ≡ ok requested
    → is_empty (canonical_domains requested) ≡ false
selected-some [] requested e h = absurd (false-ne-true e)
selected-some (str s ∷ vs) requested e h = first_supported s vs requested h
selected-some (null ∷ vs) requested e h = absurd (err-ne-texts requested h)
selected-some (bool b ∷ vs) requested e h = absurd (err-ne-texts requested h)
selected-some (nat n ∷ vs) requested e h = absurd (err-ne-texts requested h)
selected-some (other_number ∷ vs) requested e h = absurd (err-ne-texts requested h)
selected-some (array us ∷ vs) requested e h = absurd (err-ne-texts requested h)
selected-some (object fs ∷ vs) requested e h = absurd (err-ne-texts requested h)

-- The stored list of what passed passes again, with the same result.
pub validate_selective_restore_domains-again :
    (v : Option Value) (p : RestorePolicy)
    → validate_selective_restore_domains v ≡ ok p
    → validate_selective_restore_domains
        (some (array (text_items (domain_texts p.selected_domains))))
      ≡ ok p
unfolding validate_selective_restore_domains
validate_selective_restore_domains-again (some (array vs)) p h =
    guard-elim (not (is_empty (items vs))) dependency_invalid
      (requested_texts (items vs) >>= λ requested. policy_from requested) h
      λ given k.
        >>=-elim (requested_texts (items vs)) (λ requested. policy_from requested) k
          λ requested found passed.
            stored-checked p.selected_domains p
              (subst (λ ds. is_empty ds ≡ false) (sym (policy_from-selected requested p passed))
                (selected-some (items vs) requested given found))
              (policy_from-again requested p passed)
validate_selective_restore_domains-again none p h = absurd (err-ne-ok dependency_invalid p h)
validate_selective_restore_domains-again (some null) p h = absurd (err-ne-ok dependency_invalid p h)
validate_selective_restore_domains-again (some (bool b)) p h =
    absurd (err-ne-ok dependency_invalid p h)
validate_selective_restore_domains-again (some (nat n)) p h =
    absurd (err-ne-ok dependency_invalid p h)
validate_selective_restore_domains-again (some other_number) p h =
    absurd (err-ne-ok dependency_invalid p h)
validate_selective_restore_domains-again (some (str s)) p h =
    absurd (err-ne-ok dependency_invalid p h)
validate_selective_restore_domains-again (some (object fs)) p h =
    absurd (err-ne-ok dependency_invalid p h)
