-- ===== src/Approvals/Gates.antt =====
-- The operations of src/operations/approvals/approval-gates.ts on an approval.
use freeipa_admin_dashboard.Base.{
  ℕ, suc, ◌+◌, ◌*◌, String, Bool, true, false, ◌&&◌, ◌||◌, not, Option, none, some, List, [], ◌∷◌,
  str_eq, Result, ok, err, guard, given, ◌>>=◌, ◌>>◌, if◌then◌else◌, leb, any, keep, find, length,
  includes, is_blank, ◌++◌,
}
use freeipa_admin_dashboard.Base.Json.{Value, str, array, items}
use freeipa_admin_dashboard.Base.Language.{Language}
use freeipa_admin_dashboard.Approvals.Policy.{Requirement, Subject, clean_text, role_texts}
use freeipa_admin_dashboard.Approvals.Spec.{Spec}
use freeipa_admin_dashboard.Approvals.Table.{
  Decision, Row, DecisionRow, Db, Failure, is_open, is_pending, is_approved, is_executing,
  is_approval, Outcome, expire_approvals, reject_statement, approve_statement, cancel_statement,
  claim_statement, claims, finish_statement, approve, reject, pending, not_found, not_pending,
  not_eligible, comment_missing, already_decided, only_requester, not_cancellable, not_approved,
  claim_lost, spec_unreadable, type_error,
}

abbrev pub decision_of : Option DecisionRow → Option Decision
decision_of none = none
decision_of (some d) = some d.decision

abbrev pub undecided : Option Decision → Bool
undecided none = true
undecided (some d) = false

-- `actions` and the counts of `PublicApproval`, with the row whose columns are copied.
pub record PublicApproval (Rest : Type 0) : Type 0 where
  pub row : Row Rest
  pub approvals : ℕ
  pub rejections : ℕ
  pub my_decision : Option Decision
  pub can_approve : Bool
  pub can_reject : Bool
  pub can_cancel : Bool
  pub can_execute : Bool

module _ (js : Language) where
  unfoldable pub is_same_identity : String → String → Bool
  is_same_identity a b = str_eq (js.lower a) (js.lower b)

  unfoldable pub parse_json_array : String → List Value
  unfolding items
  parse_json_array s = elim (js.parse s) [
    | none ↦ []
    | some v ↦ elim v [ array vs ↦ items vs | _ ↦ [] ]
  ]

  -- `map((group) => group.toLowerCase())` throws where an item is no text.
  abbrev lower_texts : List Value → Result Failure (List String)
  lower_texts [] = ok []
  lower_texts (str s ∷ r) = lower_texts r >>= λ texts. ok (js.lower s ∷ texts)
  lower_texts (_ ∷ r) = err type_error

  module _ {Rest : Type 0} where
    unfoldable pub is_requester : Row Rest → Subject → Bool
    unfolding is_same_identity
    is_requester r s = is_same_identity r.requester_identity s.identity

    unfoldable pub is_eligible_approver : Row Rest → Subject → Result Failure Bool
    unfolding is_requester parse_json_array
    is_eligible_approver r s =
        if r.requester_cannot_approve && is_requester r s then ok false else (do
          groups ← lower_texts (parse_json_array r.approver_groups_json)
          ok (
              includes (role_texts (parse_json_array r.approver_roles_json)) s.role
              || any (λ g. includes groups (js.lower g)) s.groups))

    unfoldable pub public_from_row :
        List DecisionRow → Row Rest → Subject → Result Failure (PublicApproval Rest)
    unfolding is_same_identity is_requester is_eligible_approver
    public_from_row rows r s = is_eligible_approver r s >>= λ eligible.
        let mine = decision_of (find (λ d. is_same_identity d.approver_identity s.identity) rows) in
        ok (record {
          row = r;
          approvals = length (keep is_approval rows);
          rejections = length (keep (λ d. not (is_approval d)) rows);
          my_decision = mine;
          can_approve = is_pending r.status && eligible && undecided mine;
          can_reject = is_pending r.status && eligible && undecided mine;
          can_cancel = is_requester r s && is_open r.status;
          can_execute = is_requester r s && is_approved r.status;
        })

-- The world of a handler: the time of each reading of the clock, and what other workers make of the
-- approval before each statement.
pub record World (Rest : Type 0) : Type 0 where
  pub clock : ℕ → ℕ
  pub others : ℕ → Db Rest → Db Rest

abbrev pub Step : Type 0 → Type 0 → Type 0
Step Rest A = Result Failure A × Db Rest

abbrev pub continue :
    {Rest A B : Type 0} → Result Failure A → Db Rest → (A → Step Rest B) → Step Rest B
continue (ok a) db next = next a
continue (err problem) db next = (err problem, db)

module _ (js : Language) {Rest : Type 0} (w : World Rest) where
  -- `readRow`: the expiry, then the row.
  unfoldable pub read_row : ℕ → ℕ → Db Rest → Db Rest
  unfolding expire_approvals
  read_row pause reading db = expire_approvals (w.clock reading) (w.others pause db)

  -- The end of each handler: the row is read again, and then its decisions.
  unfoldable pub answer : ℕ → ℕ → Subject → Db Rest → Step Rest (PublicApproval Rest)
  unfolding read_row public_from_row
  answer pause reading s db =
      let d = read_row pause reading db in
      continue (given d.row not_found) d
        λ r. let seen = w.others (suc pause) d in (public_from_row js seen.decisions r s, seen)

  -- `"reject"` wants a comment.
  abbrev wants_comment : Decision → Bool
  wants_comment approve = false
  wants_comment reject = true

  unfoldable pub may_decide : Subject → Decision → String → Row Rest → Result Failure (Unit {0})
  unfolding is_eligible_approver
  may_decide s d comment r = do
    guard (is_pending r.status) not_pending
    eligible ← is_eligible_approver js r s
    guard eligible not_eligible
    guard (not (wants_comment d) || not (is_blank (clean_text js (some (str comment)) 500)))
        comment_missing

  unfoldable pub checked_decision :
      Subject → Decision → String → Option (Row Rest) → Result Failure (Row Rest)
  unfolding may_decide
  checked_decision s d comment row = do r ← given row not_found; may_decide s d comment r; ok r

  unfoldable pub decision_row : Subject → Decision → String → ℕ → DecisionRow
  unfolding clean_text
  decision_row s d comment now =
      let text = clean_text js (some (str comment)) 500 in
      record {
        approver_identity = js.slice 160 s.identity;
        approver_role = s.role;
        decision = d;
        comment = if is_blank text then none else some text;
        decided_at = now;
      }

  -- The key of the table admits one decision of an identity.
  unfoldable pub has_decided : String → Db Rest → Bool
  has_decided identity db = any (λ d. str_eq d.approver_identity identity) db.decisions

  -- The decisions are in the order of their times, so that a new one is the last.
  unfoldable pub insert_decision : Subject → Decision → String → ℕ → Db Rest → Step Rest (Unit {0})
  unfolding decision_row has_decided
  insert_decision s d comment now db =
      if has_decided (js.slice 160 s.identity) db
      then (err already_decided, db)
      else (ok tt, record db { decisions = db.decisions ++ (decision_row s d comment now ∷ []) })

  -- What follows the decision: the row is rejected, or approved once there are enough approvals.
  unfoldable pub settle_decision : Decision → String → Row Rest → Db Rest → Db Rest
  unfolding clean_text reject_statement approve_statement
  settle_decision reject comment r db =
      reject_statement (w.clock 2) (clean_text js (some (str comment)) 500) (w.others 2 db)
  settle_decision approve comment r db =
      let seen = w.others 2 db in
      if leb r.required_approvals (length (keep is_approval seen.decisions))
      then approve_statement (w.clock 2) (w.others 3 seen)
      else seen

  unfoldable pub decide_approval :
      Subject → Decision → String → Db Rest → Step Rest (PublicApproval Rest)
  unfolding read_row checked_decision insert_decision settle_decision answer
  decide_approval s d comment db =
      let d1 = read_row 0 0 db in
      continue (checked_decision s d comment d1.row) d1 λ r.
        let inserted = insert_decision s d comment (w.clock 1) (w.others 1 d1) in
        continue inserted.0 inserted.1 λ _. answer 4 3 s (settle_decision d comment r inserted.1)

  unfoldable pub checked_cancel : Subject → Option (Row Rest) → Result Failure (Row Rest)
  unfolding is_requester
  checked_cancel s row = do
    r ← given row not_found
    guard (is_requester js r s) only_requester
    guard (is_open r.status) not_cancellable
    ok r

  unfoldable pub cancel_approval : Subject → Db Rest → Step Rest (PublicApproval Rest)
  unfolding read_row checked_cancel cancel_statement answer
  cancel_approval s db =
      let d1 = read_row 0 0 db in
      continue (checked_cancel s d1.row) d1
        λ _. answer 2 2 s (cancel_statement (w.clock 1) (w.others 1 d1))

  unfoldable pub checked_claim : Subject → Option (Row Rest) → Result Failure (Row Rest)
  unfolding is_requester
  checked_claim s row = do
    r ← given row not_found
    guard (is_requester js r s) only_requester
    guard (is_approved r.status) not_approved
    ok r

  -- The specification is decrypted between the two readings of the answer.
  unfoldable pub claimed :
      (String → Option Spec) → Subject → Db Rest → Step Rest (PublicApproval Rest × Spec)
  unfolding read_row public_from_row
  claimed decrypt s db =
      let d = read_row 2 2 db in
      continue
        (do
          r ← given d.row not_found
          spec ← given (decrypt r.encrypted_spec) spec_unreadable
          ok (r, spec))
        d
        λ (r, spec).
          let seen = w.others 3 d in
          (public_from_row js seen.decisions r s >>= λ p. ok (p, spec), seen)

  unfoldable pub claim_approval_execution :
      (String → Option Spec) → Subject → Db Rest → Step Rest (PublicApproval Rest × Spec)
  unfolding read_row checked_claim claims claim_statement claimed
  claim_approval_execution decrypt s db =
      let d1 = read_row 0 0 db in
      continue (checked_claim s d1.row) d1 λ _.
        let seen = w.others 1 d1 in
        if claims (w.clock 1) seen
        then claimed decrypt s (claim_statement (w.clock 1) seen)
        else (err claim_lost, seen)

  abbrev executing_by :
      (String → Option Spec) → Subject → Option (Row Rest) → Option (Row Rest × Spec)
  executing_by decrypt s none = none
  executing_by decrypt s (some r) =
      if is_executing r.status && is_requester js r s
      then elim (decrypt r.encrypted_spec) [ none ↦ none | some spec ↦ some (r, spec) ]
      else none

  unfoldable pub read_executing_approval :
      (String → Option Spec) → Subject → Db Rest → Option (Row Rest × Spec) × Db Rest
  unfolding read_row is_requester
  read_executing_approval decrypt s db =
      let d1 = read_row 0 0 db in (executing_by decrypt s d1.row, d1)

  abbrev or_null : String → Option String
  or_null t = if is_blank t then none else some t

  unfoldable pub finish_approval_execution : Outcome → String → String → Db Rest → Db Rest
  unfolding clean_text finish_statement
  finish_approval_execution o run problem db =
      finish_statement o (w.clock 0) (or_null (js.slice 160 run))
        (or_null (clean_text js (some (str problem)) 500)) (w.others 0 db)

  -- The row that `createApprovalRequest` inserts.
  unfoldable pub created_row :
      Subject → Requirement → (List String → String) → String → ℕ → Rest → Row Rest
  created_row s q to_json encrypted now rest = record {
    requester_identity = js.slice 160 s.identity;
    status = pending;
    required_approvals = q.required_approvals;
    approver_roles_json = to_json q.approver_roles;
    approver_groups_json = to_json q.approver_groups;
    requester_cannot_approve = q.requester_cannot_approve;
    encrypted_spec = encrypted;
    expires_at = now + q.expires_minutes * 60000;
    updated_at = now;
    approved_at = none;
    executed_at = none;
    run_id = none;
    error = none;
    rest = rest;
  }

  -- The identifier is new, so there is no row and no decision before.
  unfoldable pub create_approval_request :
      Subject
      → Requirement
      → (List String → String)
      → String
      → Rest
      → Step Rest (PublicApproval Rest)
  unfolding created_row answer
  create_approval_request s q to_json encrypted rest =
      answer 0 1 s
        (record { row = some (created_row s q to_json encrypted (w.clock 0) rest); decisions = [] })
