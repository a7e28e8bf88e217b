-- ===== src/Approvals/Claimed.antt =====
-- What `claimApprovalExecution` of src/operations/approvals/approval-gates.ts has found.
use freeipa_admin_dashboard.Base.{
  ℕ, ◌≤◌, ◌<◌, String, ◌≡◌, refl, subst, Bool, true, false, Option, none, some, Result, ok, err,
  if◌then◌else◌, ltb, arith, &&-eq-true_iff,
}
use freeipa_admin_dashboard.Base.Language.{Language}
use freeipa_admin_dashboard.Approvals.Policy.{Subject}
use freeipa_admin_dashboard.Approvals.Spec.{Spec}
use freeipa_admin_dashboard.Approvals.Table.{
  Row, Db, Failure, is_approved, is_claimable, claim_statement, claims_row, claims, claim_lost,
}
use freeipa_admin_dashboard.Approvals.Gates.{
  World, Step, continue, read_row, checked_claim, claimed, claim_approval_execution, PublicApproval,
}
use freeipa_admin_dashboard.Approvals.Backing.{
  approvals_of, BackedBy, IsBacked, Evolves, Evolves-trans, approved-needs,
}
use freeipa_admin_dashboard.Approvals.Handlers.{read_row-Evolves}

module _ (js : Language) {Rest : Type 0} (w : World Rest)
    (h : (k : ℕ) (db : Db Rest) → Evolves db (w.others k db)) where
  claims-row :
      (now : ℕ) (o : Option (Row Rest))
      → claims_row now o ≡ true
      → (r : Row Rest) × (o ≡ some r) × (is_claimable now r ≡ true)
  unfolding claims_row
  claims-row now none e = absurd cc
  claims-row now (some r) e = (r, refl, e)

  claimed-backed :
      (now : ℕ) (db : Db Rest)
      → claims now db ≡ true
      → IsBacked db
      → (r : Row Rest) × (db.row ≡ some r)
        × (is_approved r.status ≡ true)
        × (now < r.expires_at)
        × (r.required_approvals ≤ approvals_of db)
  unfolding claims is_claimable IsBacked BackedBy
  claimed-backed now db e b =
      let (r, f, t) = claims-row now db.row e in
      let (u, v) = (&&-eq-true_iff (is_approved r.status) (ltb now r.expires_at)).0 t in
      (
        r,
        f,
        u,
        ground arith,
        subst (λ o. BackedBy (approvals_of db) o) f b (approved-needs r.status u),
      )

  IsBacked-Evolves : (a b : Db Rest) → Evolves a b → IsBacked a → IsBacked b
  unfolding Evolves
  IsBacked-Evolves a b k = k.2

  -- A claim that succeeds was made on a row that is approved, has not expired at the time of the
  -- claim, and has the approvals that it requires, where the approval was backed before and what
  -- other workers do takes nothing back.
  pub claim_approval_execution-backed :
      (decrypt : String → Option Spec) (s : Subject) (db : Db Rest) (x : PublicApproval Rest × Spec)
      → IsBacked db
      → (claim_approval_execution js w decrypt s db).0 ≡ ok x
      → (r : Row Rest) × ((w.others 1 (read_row js w 0 0 db)).row ≡ some r)
        × (is_approved r.status ≡ true)
        × (w.clock 1 < r.expires_at)
        × (r.required_approvals ≤ approvals_of (w.others 1 (read_row js w 0 0 db)))
  unfolding claim_approval_execution
  claim_approval_execution-backed decrypt s db x b e =
      claimed-backed (w.clock 1) seen (by_check (checked_claim js w s d1.row) e) (
        IsBacked-Evolves db seen
          (Evolves-trans db d1 seen (read_row-Evolves js w h 0 0 db) (h 1 d1)) b)
    where
      d1 : Db Rest
      d1 = read_row js w 0 0 db

      seen : Db Rest
      seen = w.others 1 d1

      end : Bool → Step Rest (PublicApproval Rest × Spec)
      end t =
          if t
          then claimed js w decrypt s (claim_statement (w.clock 1) seen)
          else (err claim_lost, seen)

      by_claim : (t : Bool) → (end t).0 ≡ ok x → t ≡ true
      by_claim true k = refl
      by_claim false k = absurd cc

      by_check :
          (m : Result Failure (Row Rest))
          → (continue m d1 (λ _. end (claims (w.clock 1) seen))).0 ≡ ok x
          → claims (w.clock 1) seen ≡ true
      by_check (ok r) k = by_claim (claims (w.clock 1) seen) k
      by_check (err problem) k = absurd cc
