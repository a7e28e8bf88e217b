-- ===== src/Approvals/Actions.antt =====
-- The actions that src/operations/approvals/approval-gates.ts offers of an approval, and the checks
-- of its handlers.
use freeipa_admin_dashboard.Base.{
  &&-eq-true_iff, false-ne-true, if-true, String, ◌≡◌, refl, ap, sym, subst, Bool, true, false,
  ◌&&◌, ◌↔◌, not, Option, some, List, Result, ok, err, guard, ◌>>=◌, ◌>>◌, ◌||◌, any, find, [], ◌∷◌,
  >>=-elim, ok_injective, if◌then◌else◌, is_blank,
}
use freeipa_admin_dashboard.Base.Json.{str}
use freeipa_admin_dashboard.Base.Language.{Language}
use freeipa_admin_dashboard.Approvals.Policy.{Subject, clean_text}
use freeipa_admin_dashboard.Approvals.Table.{
  Decision, approve, reject, Row, DecisionRow, Db, Failure, is_open, is_pending, is_approved,
  not_pending, not_eligible, comment_missing, only_requester, not_cancellable, not_approved,
}
use freeipa_admin_dashboard.Approvals.Gates.{
  World, Step, continue, read_row, may_decide, checked_decision, decide_approval, checked_claim,
  checked_cancel, PublicApproval, public_from_row, is_eligible_approver, is_requester, undecided,
  decision_of, is_same_identity,
}

err-ne-ok : (e : Failure) → ◌≡◌ {0} {A = Result Failure (Unit {0})} (err e) (ok tt) → ⊥
err-ne-ok e h = cc

unfoldable Guarded : Bool → Result Failure Bool → Bool → Result Failure (Unit {0})
Guarded p m c = guard p not_pending >> (m >>= λ g. guard g not_eligible >> guard c comment_missing)

-- The first test is of an offer, the second of the handler and of a decision that stands already.
unfoldable Offered : Bool → Bool → Bool → Result Failure (Unit {0}) → Type 0
Offered p q decided m = ((p && q && not decided) ≡ true) ↔ ((m ≡ ok tt) × (decided ≡ false))

guarded-Offered : (p q decided : Bool) → Offered p q decided (Guarded p (ok q) true)
unfolding Guarded Offered
guarded-Offered true true true =
    (λ h. absurd (false-ne-true h), λ h. absurd (false-ne-true (sym h.1)))
guarded-Offered true true false = (λ _. (refl, refl), λ _. refl)
guarded-Offered true false u = (λ h. absurd cc, λ h. absurd (err-ne-ok not_eligible h.0))
guarded-Offered false q u = (λ h. absurd cc, λ h. absurd (err-ne-ok not_pending h.0))

-- The first decision that a test finds, against whether there is one.
undecided-any :
    (t : DecisionRow → Bool) (rows : List DecisionRow)
    → undecided (decision_of (find t rows)) ≡ not (any t rows)
undecided-any t [] = refl
undecided-any t (d ∷ ds) = by_test (t d) (undecided-any t ds)
  where
    by_test :
        (b : Bool)
        → undecided (decision_of (find t ds)) ≡ not (any t ds)
        → undecided (decision_of (if b then some d else find t ds)) ≡ not (b || any t ds)
    by_test true h = refl
    by_test false h = h

two_guards :
    {A : Type 0} (p q : Bool) (d e : Failure) (a : A)
    → ((p && q) ≡ true) ↔ ((guard p d >> (guard q e >> ok a)) ≡ ok a)
two_guards true true d e a = (λ _. refl, λ _. refl)
two_guards true false d e a = (λ h. absurd cc, λ h. absurd cc)
two_guards false q d e a = (λ h. absurd cc, λ h. absurd cc)

module _ (js : Language) {Rest : Type 0} (w : World Rest) where
  may_decide-Offered :
      (d : Decision) (comment : String) (r : Row Rest) (s : Subject) (q u : Bool)
      → is_blank (clean_text js (some (str comment)) 500) ≡ false
      → is_eligible_approver js r s ≡ ok q
      → Offered (is_pending r.status) q u (may_decide js w s d comment r)
  unfolding may_decide Guarded Offered
  may_decide-Offered approve comment r s q u c e =
      subst (λ m. Offered (is_pending r.status) q u (Guarded (is_pending r.status) m true)) (sym e)
        (guarded-Offered (is_pending r.status) q u)
  may_decide-Offered reject comment r s q u c e =
      subst
        (λ (m : Result Failure Bool × Bool).
          Offered (is_pending r.status) q u (Guarded (is_pending r.status) m.0 (not m.1)))
        (λ i. (sym e i, sym c i)) (guarded-Offered (is_pending r.status) q u)

  -- The view offers to approve, or to reject with a comment, exactly where the checks that the
  -- handler makes before it writes a decision pass and no decision that the view lists is of the
  -- subject, in whatever case the name is written; to cancel and to execute, exactly where the
  -- checks that those handlers make before their first write pass. What the handlers find when they
  -- write (a decision of the same spelling, the expiry, a text that cannot be decrypted) is not part
  -- of it.
  pub public_from_row-actions :
      (rows : List DecisionRow) (r : Row Rest) (s : Subject) (comment : String)
      (p : PublicApproval Rest)
      → is_blank (clean_text js (some (str comment)) 500) ≡ false
      → public_from_row js rows r s ≡ ok p
      → ((p.can_approve ≡ true) ↔ (
          (may_decide js w s approve comment r ≡ ok tt)
          × (any (λ d. is_same_identity js d.approver_identity s.identity) rows ≡ false)))
        × ((p.can_reject ≡ true) ↔ (
            (may_decide js w s reject comment r ≡ ok tt)
            × (any (λ d. is_same_identity js d.approver_identity s.identity) rows ≡ false)))
        × ((p.can_cancel ≡ true) ↔ (checked_cancel js w s (some r) ≡ ok r))
        × ((p.can_execute ≡ true) ↔ (checked_claim js w s (some r) ≡ ok r))
  unfolding public_from_row may_decide checked_cancel checked_claim Offered
  public_from_row-actions rows r s comment p c h =
      >>=-elim (is_eligible_approver js r s) _ h λ q e k.
        subst
          (λ p.
            ((p.can_approve ≡ true)
              ↔ ((may_decide js w s approve comment r ≡ ok tt) × (mine ≡ false)))
            × ((p.can_reject ≡ true)
                ↔ ((may_decide js w s reject comment r ≡ ok tt) × (mine ≡ false)))
            × ((p.can_cancel ≡ true) ↔ (checked_cancel js w s (some r) ≡ ok r))
            × ((p.can_execute ≡ true) ↔ (checked_claim js w s (some r) ≡ ok r)))
          (ok_injective k)
          (
            subst
                (λ u.
                  ((is_pending r.status && q && u) ≡ true)
                  ↔ ((may_decide js w s approve comment r ≡ ok tt) × (mine ≡ false)))
                (sym (undecided-any same rows)) (may_decide-Offered approve comment r s q mine c e),
            subst
                (λ u.
                  ((is_pending r.status && q && u) ≡ true)
                  ↔ ((may_decide js w s reject comment r ≡ ok tt) × (mine ≡ false)))
                (sym (undecided-any same rows)) (may_decide-Offered reject comment r s q mine c e),
            two_guards (is_requester js r s) (is_open r.status) only_requester not_cancellable r,
            two_guards (is_requester js r s) (is_approved r.status) only_requester not_approved r,
          )
    where
      same : DecisionRow → Bool
      same d = is_same_identity js d.approver_identity s.identity

      mine : Bool
      mine = any same rows

  is_eligible_approver-requester :
      (r : Row Rest) (s : Subject)
      → r.requester_cannot_approve ≡ true
      → is_requester js r s ≡ true
      → is_eligible_approver js r s ≡ ok false
  unfolding is_eligible_approver
  is_eligible_approver-requester r s h k =
      if-true (r.requester_cannot_approve && is_requester js r s) _
        ((&&-eq-true_iff r.requester_cannot_approve (is_requester js r s)).1 (h, k))

  may_decide-requester :
      (s : Subject) (d : Decision) (comment : String) (r : Row Rest)
      → is_eligible_approver js r s ≡ ok false
      → may_decide js w s d comment r
        ≡ err (if is_pending r.status then not_eligible else not_pending)
  unfolding may_decide
  may_decide-requester s d comment r h =
      by_status _ (is_pending r.status) (is_eligible_approver js r s) h
    where
      by_status :
          (after : Result Failure (Unit {0})) (p : Bool) (m : Result Failure Bool)
          → m ≡ ok false
          → (guard p not_pending >> (m >>= λ g. guard g not_eligible >> after))
            ≡ err (if p then not_eligible else not_pending)
      by_status after false m e = refl
      by_status after true (ok false) e = refl
      by_status after true (ok true) e = absurd cc
      by_status after true (err problem) e = absurd cc

  continue-err :
      {A B : Type 0} (m : Result Failure A) (db : Db Rest) (next : A → Step Rest B) (e : Failure)
      → m ≡ err e
      → continue m db next ≡ (err e, db)
  continue-err (err p) db next e h = cc
  continue-err (ok a) db next e h = absurd (clash h)
    where
      clash : ok a ≡ err e → ⊥
      clash k = cc

  -- Where the requester must not approve, a decision of the requester, in whatever case the name is
  -- written, is refused, whatever the roles and groups of the requester, and nothing but the expiry
  -- is written.
  pub decide_approval-requester :
      (s : Subject) (d : Decision) (comment : String) (db : Db Rest) (r : Row Rest)
      → (read_row js w 0 0 db).row ≡ some r
      → r.requester_cannot_approve ≡ true
      → is_requester js r s ≡ true
      → decide_approval js w s d comment db
        ≡ (err (if is_pending r.status then not_eligible else not_pending), read_row js w 0 0 db)
  unfolding decide_approval checked_decision
  decide_approval-requester s d comment db r e h k =
      continue-err (checked_decision js w s d comment (read_row js w 0 0 db).row)
        (read_row js w 0 0 db) _ (if is_pending r.status then not_eligible else not_pending)
        (by_row (read_row js w 0 0 db).row e)
    where
      by_row :
          (o : Option (Row Rest))
          → o ≡ some r
          → checked_decision js w s d comment o
            ≡ err (if is_pending r.status then not_eligible else not_pending)
      by_row o f =
          subst
            (λ o.
              checked_decision js w s d comment o
              ≡ err (if is_pending r.status then not_eligible else not_pending))
            (sym f)
            (ap (λ m. m >>= λ _. ok r)
              (may_decide-requester s d comment r (is_eligible_approver-requester r s h k)))
