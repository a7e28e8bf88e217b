-- ===== src/Approvals/Handlers.antt =====
-- The handlers of src/operations/approvals/approval-gates.ts against the backing of an approval.
use freeipa_admin_dashboard.Base.{
  ℕ, suc, ◌≤◌, String, ◌≡◌, refl, ap, subst, Bool, true, false, Option, none, some, List, ◌∷◌,
  Result, ok, err, given, >>=-elim, ok_injective, if◌then◌else◌, leb, keep, length, arith, ◌++◌, [],
}
use freeipa_admin_dashboard.Base.Json.{str}
use freeipa_admin_dashboard.Base.Language.{Language}
use freeipa_admin_dashboard.Approvals.Policy.{Subject, clean_text}
use freeipa_admin_dashboard.Approvals.Spec.{Spec}
use freeipa_admin_dashboard.Approvals.Table.{
  Decision, approve, reject, Row, DecisionRow, Db, Failure, Outcome, is_approval, claim_statement,
  claims, approve_statement, cancel_statement, not_found, already_decided,
}
use freeipa_admin_dashboard.Approvals.Gates.{
  World, Step, continue, read_row, answer, checked_decision, may_decide, insert_decision,
  settle_decision, decide_approval, has_decided, checked_claim, claimed, claim_approval_execution,
  checked_cancel, cancel_approval, read_executing_approval, finish_approval_execution, decision_row,
}
use freeipa_admin_dashboard.Approvals.Backing.{
  approvals_of, BackedBy, IsBacked, Kept, Kept-refl, Evolves, Evolves-refl, Evolves-trans,
  expire-Evolves, reject-Evolves, cancel-Evolves, approve-Evolves, claim-Evolves, finish-Evolves,
}

keep-grows :
    (d : DecisionRow) (ds : List DecisionRow)
    → length (keep is_approval ds) ≤ length (keep is_approval (ds ++ (d ∷ [])))
keep-grows d [] = omega arith
keep-grows d (e ∷ ds) =
    by_test (is_approval e) (keep is_approval ds) (keep is_approval (ds ++ (d ∷ [])))
      (keep-grows d ds)
  where
    by_test :
        (t : Bool) (xs ys : List DecisionRow)
        → length xs ≤ length ys
        → length (if t then e ∷ xs else xs) ≤ length (if t then e ∷ ys else ys)
    by_test true xs ys h = omega arith
    by_test false xs ys h = h

leb-≤ : (a b : ℕ) → leb a b ≡ true → a ≤ b
leb-≤ a b h = ground arith

module _ {Rest : Type 0} where
  continue-Evolves :
      {A B : Type 0} (start : Db Rest) (m : Result Failure A) (db : Db Rest)
      (next : A → Step Rest B)
      → Evolves start db
      → ((a : A) → m ≡ ok a → Evolves start (next a).1)
      → Evolves start (continue m db next).1
  continue-Evolves start (ok a) db next h k = k a refl
  continue-Evolves start (err problem) db next h k = h

  if-Evolves :
      {A : Type 0} (start : Db Rest) (t : Bool) (a b : Step Rest A)
      → Evolves start a.1
      → Evolves start b.1
      → Evolves start (if t then a else b).1
  if-Evolves start true a b h k = h
  if-Evolves start false a b h k = k

  -- A step that kept the row kept what it requires.
  required_kept :
      (a b : Db Rest) (r s : Row Rest)
      → Evolves a b
      → a.row ≡ some r
      → b.row ≡ some s
      → s.required_approvals ≡ r.required_approvals
  unfolding Evolves Kept
  required_kept a b r s h e f = subst (λ o. Kept (some r) o) f (subst (λ o. Kept o b.row) e h.1)

  Evolves-approvals : (a b : Db Rest) → Evolves a b → approvals_of a ≤ approvals_of b
  unfolding Evolves
  Evolves-approvals a b h = h.0

  BackedBy-weaken : (m n : ℕ) (o : Option (Row Rest)) → m ≤ n → BackedBy m o → BackedBy n o
  unfolding BackedBy
  BackedBy-weaken m n none h b = tt
  BackedBy-weaken m n (some r) h b = λ e. omega (arith, h, b e)

  insert-Evolves :
      (d : DecisionRow) (db : Db Rest)
      → Evolves db (record db { decisions = db.decisions ++ (d ∷ []) })
  unfolding Evolves IsBacked approvals_of
  insert-Evolves d db = (
    keep-grows d db.decisions,
    Kept-refl db.row,
    BackedBy-weaken (length (keep is_approval db.decisions))
        (length (keep is_approval (db.decisions ++ (d ∷ [])))) db.row (keep-grows d db.decisions),
  )

module _ (js : Language) {Rest : Type 0} (w : World Rest)
    (h : (k : ℕ) (db : Db Rest) → Evolves db (w.others k db)) where
  pub read_row-Evolves :
      (pause reading : ℕ) (db : Db Rest) → Evolves db (read_row js w pause reading db)
  unfolding read_row
  read_row-Evolves pause reading db =
      Evolves-trans db (w.others pause db) _ (h pause db)
        (expire-Evolves (w.clock reading) (w.others pause db))

  answer-Evolves :
      (pause reading : ℕ) (s : Subject) (db : Db Rest)
      → Evolves db (answer js w pause reading s db).1
  unfolding answer
  answer-Evolves pause reading s db =
      let d = read_row js w pause reading db in
      continue-Evolves db (given d.row not_found) d _ (read_row-Evolves pause reading db)
        (λ r e. Evolves-trans db d _ (read_row-Evolves pause reading db) (h (suc pause) d))

  insert_decision-Evolves :
      (s : Subject) (d : Decision) (comment : String) (now : ℕ) (db : Db Rest)
      → Evolves db (insert_decision js w s d comment now db).1
  unfolding insert_decision
  insert_decision-Evolves s d comment now db =
      if-Evolves db (has_decided js w (js.slice 160 s.identity) db) (err already_decided, db)
        (ok tt, record db { decisions = db.decisions ++ (decision_row js w s d comment now ∷ []) })
        (Evolves-refl db) (insert-Evolves (decision_row js w s d comment now) db)

  settle_decision-Evolves :
      (d : Decision) (comment : String) (r : Row Rest) (db : Db Rest)
      → ((t : Row Rest)
          → (w.others 3 (w.others 2 db)).row ≡ some t
          → t.required_approvals ≡ r.required_approvals)
      → Evolves db (settle_decision js w d comment r db)
  unfolding settle_decision approvals_of
  settle_decision-Evolves reject comment r db k =
      Evolves-trans db (w.others 2 db) _ (h 2 db)
        (reject-Evolves (w.clock 2) (clean_text js (some (str comment)) 500) (w.others 2 db))
  settle_decision-Evolves approve comment r db k =
      by_count (leb r.required_approvals (approvals_of seen))
        (λ t. leb-≤ r.required_approvals (approvals_of seen) t)
    where
      seen : Db Rest
      seen = w.others 2 db

      enough :
          r.required_approvals ≤ approvals_of seen
          → (t : Row Rest) → (w.others 3 seen).row ≡ some t
          → t.required_approvals ≤ approvals_of (w.others 3 seen)
      enough c t e = omega (arith, c, k t e, Evolves-approvals seen (w.others 3 seen) (h 3 seen))

      by_count :
          (b : Bool)
          → (b ≡ true → r.required_approvals ≤ approvals_of seen)
          → Evolves db (if b then approve_statement (w.clock 2) (w.others 3 seen) else seen)
      by_count false c = h 2 db
      by_count true c = Evolves-trans db seen _ (h 2 db) (
          Evolves-trans seen (w.others 3 seen) _ (h 3 seen)
            (approve-Evolves (w.clock 2) (w.others 3 seen) (enough (c refl))))

  checked_decision-row :
      (s : Subject) (d : Decision) (comment : String) (o : Option (Row Rest)) (r : Row Rest)
      → checked_decision js w s d comment o ≡ ok r
      → o ≡ some r
  unfolding checked_decision
  checked_decision-row s d comment none r e = absurd (clash e)
    where
      clash : err not_found ≡ ok r → ⊥
      clash p = cc
  checked_decision-row s d comment (some t) r e =
      >>=-elim (may_decide js w s d comment t) (λ _. ok t) e λ _ _ k. ap some (ok_injective k)

  decide_approval-Evolves :
      (s : Subject) (d : Decision) (comment : String) (db : Db Rest)
      → Evolves db (decide_approval js w s d comment db).1
  unfolding decide_approval
  decide_approval-Evolves s d comment db =
      continue-Evolves db (checked_decision js w s d comment d1.row) d1 _ first λ r e.
        continue-Evolves db _ inserted.1 _ (Evolves-trans db d1 inserted.1 first second) λ _ _.
          Evolves-trans db inserted.1 _ (Evolves-trans db d1 inserted.1 first second) (
            Evolves-trans inserted.1 (settle_decision js w d comment r inserted.1) _
              (settle_decision-Evolves d comment r inserted.1 (λ t f.
                required_kept d1 (w.others 3 (w.others 2 inserted.1)) r t
                  (Evolves-trans d1 inserted.1 _ second (
                    Evolves-trans inserted.1 (w.others 2 inserted.1) _ (h 2 inserted.1)
                      (h 3 (w.others 2 inserted.1))))
                  (checked_decision-row s d comment d1.row r e) f))
              (answer-Evolves 4 3 s (settle_decision js w d comment r inserted.1)))
    where
      d1 : Db Rest
      d1 = read_row js w 0 0 db

      inserted : Step Rest (Unit {0})
      inserted = insert_decision js w s d comment (w.clock 1) (w.others 1 d1)

      first : Evolves db d1
      first = read_row-Evolves 0 0 db

      second : Evolves d1 inserted.1
      second =
          Evolves-trans d1 (w.others 1 d1) inserted.1 (h 1 d1)
            (insert_decision-Evolves s d comment (w.clock 1) (w.others 1 d1))

  cancel_approval-Evolves : (s : Subject) (db : Db Rest) → Evolves db (cancel_approval js w s db).1
  unfolding cancel_approval
  cancel_approval-Evolves s db =
      let d1 = read_row js w 0 0 db in
      continue-Evolves db (checked_cancel js w s d1.row) d1 _ (read_row-Evolves 0 0 db) λ _ _.
        Evolves-trans db d1 _ (read_row-Evolves 0 0 db) (
          Evolves-trans d1 (w.others 1 d1) _ (h 1 d1) (
            Evolves-trans (w.others 1 d1) (cancel_statement (w.clock 1) (w.others 1 d1)) _
              (cancel-Evolves (w.clock 1) (w.others 1 d1))
              (answer-Evolves 2 2 s (cancel_statement (w.clock 1) (w.others 1 d1)))))

  claimed-Evolves :
      (decrypt : String → Option Spec) (s : Subject) (db : Db Rest)
      → Evolves db (claimed js w decrypt s db).1
  unfolding claimed
  claimed-Evolves decrypt s db =
      let d = read_row js w 2 2 db in
      continue-Evolves db _ d _ (read_row-Evolves 2 2 db)
        (λ p e. Evolves-trans db d _ (read_row-Evolves 2 2 db) (h 3 d))

  claim_approval_execution-Evolves :
      (decrypt : String → Option Spec) (s : Subject) (db : Db Rest)
      → Evolves db (claim_approval_execution js w decrypt s db).1
  unfolding claim_approval_execution
  claim_approval_execution-Evolves decrypt s db =
      let d1 = read_row js w 0 0 db in
      let seen = w.others 1 d1 in
      let begun = Evolves-trans db d1 seen (read_row-Evolves 0 0 db) (h 1 d1) in
      continue-Evolves db (checked_claim js w s d1.row) d1 _ (read_row-Evolves 0 0 db) λ _ _.
        if-Evolves db (claims (w.clock 1) seen) _ _
          (Evolves-trans db seen _ begun (
            Evolves-trans seen (claim_statement (w.clock 1) seen) _ (claim-Evolves (w.clock 1) seen)
              (claimed-Evolves decrypt s (claim_statement (w.clock 1) seen))))
          begun

  finish_approval_execution-Evolves :
      (o : Outcome) (run problem : String) (db : Db Rest)
      → Evolves db (finish_approval_execution js w o run problem db)
  unfolding finish_approval_execution
  finish_approval_execution-Evolves o run problem db =
      Evolves-trans db (w.others 0 db) _ (h 0 db) (finish-Evolves o (w.clock 0) _ _ (w.others 0 db))

  -- Where what other workers do between the statements takes nothing back, no handler does: the row
  -- and the count that it requires stay, approvals are not lost, and an approval that counts as
  -- approved has as many as it requires if it had them before.
  pub operations-Evolves :
      (s : Subject) (d : Decision) (comment : String) (decrypt : String → Option Spec) (o : Outcome)
      (run problem : String) (db : Db Rest)
      → Evolves db (decide_approval js w s d comment db).1
        × Evolves db (cancel_approval js w s db).1
        × Evolves db (claim_approval_execution js w decrypt s db).1
        × Evolves db (read_executing_approval js w decrypt s db).1
        × Evolves db (finish_approval_execution js w o run problem db)
  unfolding read_executing_approval
  operations-Evolves s d comment decrypt o run problem db = (
    decide_approval-Evolves s d comment db,
    cancel_approval-Evolves s db,
    claim_approval_execution-Evolves decrypt s db,
    read_row-Evolves 0 0 db,
    finish_approval_execution-Evolves o run problem db,
  )
