-- ===== src/Approvals/Backing.antt =====
-- What backs an approval of src/operations/approvals/approval-gates.ts, and what each statement does to
-- that.
use freeipa_admin_dashboard.Base.{
  false-ne-true, ℕ, ◌≤◌, String, ◌≡◌, refl, ◌∙◌, ◌⊎◌, inl, inr, Bool, true, false, ◌&&◌, Option,
  none, some, if◌then◌else◌, ltb, leb, keep, length, arith, &&-eq-true_iff,
}
use freeipa_admin_dashboard.Approvals.Table.{
  Status, pending, approved, rejected, cancelled, expired, executing, executed, failed, unknown,
  Row, Db, Outcome, finished, executed_time, is_open, is_pending, is_approved, is_executing,
  is_approval, changed, change_if, expire_approvals, reject_statement, approve_statement,
  cancel_statement, is_claimable, claim_statement, finish_statement,
}

-- The statuses that only enough approvals lead to.
unfoldable pub needs_approvals : Status → Bool
needs_approvals approved = true
needs_approvals executing = true
needs_approvals executed = true
needs_approvals failed = true
needs_approvals unknown = true
needs_approvals _ = false

pub approved-needs : (st : Status) → is_approved st ≡ true → needs_approvals st ≡ true
unfolding needs_approvals
approved-needs approved h = refl
approved-needs pending h = absurd cc
approved-needs rejected h = absurd cc
approved-needs cancelled h = absurd cc
approved-needs expired h = absurd cc
approved-needs executing h = refl
approved-needs executed h = refl
approved-needs failed h = refl
approved-needs unknown h = refl

executing-needs : (st : Status) → is_executing st ≡ true → needs_approvals st ≡ true
unfolding needs_approvals
executing-needs executing h = refl
executing-needs approved h = refl
executing-needs pending h = absurd cc
executing-needs rejected h = absurd cc
executing-needs cancelled h = absurd cc
executing-needs expired h = absurd cc
executing-needs executed h = refl
executing-needs failed h = refl
executing-needs unknown h = refl

module _ {Rest : Type 0} where
  unfoldable pub approvals_of : Db Rest → ℕ
  approvals_of db = length (keep is_approval db.decisions)

  unfoldable pub BackedBy : ℕ → Option (Row Rest) → Type 0
  BackedBy n none = Unit
  BackedBy n (some r) = needs_approvals r.status ≡ true → r.required_approvals ≤ n

  -- Where the status needs approvals, there are as many as the row requires.
  unfoldable pub IsBacked : Db Rest → Type 0
  unfolding BackedBy approvals_of
  IsBacked db = BackedBy (approvals_of db) db.row

  unfoldable pub Kept : Option (Row Rest) → Option (Row Rest) → Type 0
  Kept none o = Unit
  Kept (some r) none = ⊥
  Kept (some r) (some s) = s.required_approvals ≡ r.required_approvals

  -- What no worker undoes: the row and what it requires stay, approvals are not taken back, and
  -- the row stays backed.
  unfoldable pub Evolves : Db Rest → Db Rest → Type 0
  unfolding Kept IsBacked
  Evolves a b = (approvals_of a ≤ approvals_of b) × Kept a.row b.row × (IsBacked a → IsBacked b)

  Kept-trans : (a b c : Option (Row Rest)) → Kept a b → Kept b c → Kept a c
  unfolding Kept
  Kept-trans none b c h k = tt
  Kept-trans (some r) none c h k = absurd h
  Kept-trans (some r) (some s) none h k = absurd k
  Kept-trans (some r) (some s) (some t) h k = k ∙ h

  pub Kept-refl : (a : Option (Row Rest)) → Kept a a
  unfolding Kept
  Kept-refl none = tt
  Kept-refl (some r) = refl

  pub Evolves-refl : (a : Db Rest) → Evolves a a
  unfolding Evolves
  Evolves-refl a = (omega arith, Kept-refl a.row, λ h. h)

  pub Evolves-trans : (a b c : Db Rest) → Evolves a b → Evolves b c → Evolves a c
  unfolding Evolves
  Evolves-trans a b c (h, k, l) (p, q, r) =
      (omega (arith, h, p), Kept-trans a.row b.row c.row k q, λ x. r (l x))

  changed-Kept :
      (test : Row Rest → Bool) (change : Row Rest → Row Rest) (o : Option (Row Rest))
      → ((r : Row Rest) → (change r).required_approvals ≡ r.required_approvals)
      → Kept o (changed test change o)
  unfolding Kept changed
  changed-Kept test change none h = tt
  changed-Kept test change (some r) h = by_test (test r)
    where
      by_test : (t : Bool) → (if t then change r else r).required_approvals ≡ r.required_approvals
      by_test true = h r
      by_test false = refl

  changed-BackedBy :
      (n : ℕ) (test : Row Rest → Bool) (change : Row Rest → Row Rest) (o : Option (Row Rest))
      → ((r : Row Rest) → (change r).required_approvals ≡ r.required_approvals)
      → ((r : Row Rest)
          → o ≡ some r
          → test r ≡ true
          → needs_approvals (change r).status ≡ true
          → (needs_approvals r.status ≡ true) ⊎ (r.required_approvals ≤ n))
      → BackedBy n o
      → BackedBy n (changed test change o)
  unfolding BackedBy changed
  changed-BackedBy n test change none h k b = tt
  changed-BackedBy n test change (some r) h k b = by_test (test r) (k r refl)
    where
      by_test :
          (t : Bool)
          → (t ≡ true
              → needs_approvals (change r).status ≡ true
              → (needs_approvals r.status ≡ true) ⊎ (r.required_approvals ≤ n))
          → needs_approvals (if t then change r else r).status ≡ true
          → (if t then change r else r).required_approvals ≤ n
      by_test false l e = b e
      by_test true l e = elim (l refl e) [
        | inl p ↦ omega (arith, h r, b p)
        | inr p ↦ omega (arith, h r, p)
      ]

  change_if-Evolves :
      (test : Row Rest → Bool) (change : Row Rest → Row Rest) (db : Db Rest)
      → ((r : Row Rest) → (change r).required_approvals ≡ r.required_approvals)
      → ((r : Row Rest)
          → db.row ≡ some r
          → test r ≡ true
          → needs_approvals (change r).status ≡ true
          → (needs_approvals r.status ≡ true) ⊎ (r.required_approvals ≤ approvals_of db))
      → Evolves db (change_if test change db)
  unfolding Evolves change_if IsBacked approvals_of
  change_if-Evolves test change db h k = (
    omega arith,
    changed-Kept test change db.row h,
    changed-BackedBy (approvals_of db) test change db.row h k,
  )

  pub expire-Evolves : (now : ℕ) (db : Db Rest) → Evolves db (expire_approvals now db)
  unfolding expire_approvals needs_approvals
  expire-Evolves now db =
      change_if-Evolves (λ r. is_open r.status && leb r.expires_at now)
        (λ r. record r { status = expired; updated_at = now }) db (λ r. refl)
        (λ r e t l. absurd (false-ne-true l))

  pub reject-Evolves :
      (now : ℕ) (comment : String) (db : Db Rest) → Evolves db (reject_statement now comment db)
  unfolding reject_statement needs_approvals
  reject-Evolves now comment db =
      change_if-Evolves (λ r. is_pending r.status)
        (λ r. record r { status = rejected; updated_at = now; error = some comment }) db (λ r. refl)
        (λ r e t l. absurd (false-ne-true l))

  pub cancel-Evolves : (now : ℕ) (db : Db Rest) → Evolves db (cancel_statement now db)
  unfolding cancel_statement needs_approvals
  cancel-Evolves now db =
      change_if-Evolves (λ r. is_open r.status)
        (λ r. record r { status = cancelled; updated_at = now }) db (λ r. refl)
        (λ r e t l. absurd (false-ne-true l))

  pub approve-Evolves :
      (now : ℕ) (db : Db Rest)
      → ((r : Row Rest) → db.row ≡ some r → r.required_approvals ≤ approvals_of db)
      → Evolves db (approve_statement now db)
  unfolding approve_statement
  approve-Evolves now db h =
      change_if-Evolves (λ r. is_pending r.status)
        (λ r. record r { status = approved; approved_at = some now; updated_at = now }) db
        (λ r. refl) (λ r e t l. inr (h r e))

  pub claim-Evolves : (now : ℕ) (db : Db Rest) → Evolves db (claim_statement now db)
  unfolding claim_statement is_claimable
  claim-Evolves now db =
      change_if-Evolves (is_claimable now) (λ r. record r { status = executing; updated_at = now })
        db (λ r. refl)
        (λ r e t l. inl (
          approved-needs r.status
            ((&&-eq-true_iff (is_approved r.status) (ltb now r.expires_at)).0 t).0))

  pub finish-Evolves :
      (o : Outcome) (now : ℕ) (run problem : Option String) (db : Db Rest)
      → Evolves db (finish_statement o now run problem db)
  unfolding finish_statement
  finish-Evolves o now run problem db =
      change_if-Evolves (λ r. is_executing r.status)
        (λ r. record r {
          status = finished o;
          run_id = run;
          error = problem;
          executed_at = executed_time o now;
          updated_at = now;
        })
        db (λ r. refl) (λ r e t l. inl (executing-needs r.status t))
