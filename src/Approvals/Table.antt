-- ===== src/Approvals/Table.antt =====
-- The tables of src/operations/approvals/approval-gates.ts: the row of one approval, its decisions,
-- and each statement on them.
use freeipa_admin_dashboard.Base.{
  ℕ, String, Bool, true, false, ◌&&◌, Option, none, some, List, if◌then◌else◌, ltb, leb,
}

pub data Decision : Type 0 where
  approve reject : Decision

pub data Status : Type 0 where
  pending approved rejected cancelled expired executing executed failed unknown : Status

-- The row of operation_approvals; the texts of `status` are those of `Status`, and the columns that
-- are only copied to the public view are left to `Rest`.
pub record Row (Rest : Type 0) : Type 0 where
  pub requester_identity : String
  pub status : Status
  pub required_approvals : ℕ
  pub approver_roles_json : String
  pub approver_groups_json : String
  pub requester_cannot_approve : Bool
  pub encrypted_spec : String
  pub expires_at : ℕ
  pub updated_at : ℕ
  pub approved_at : Option ℕ
  pub executed_at : Option ℕ
  pub run_id : Option String
  pub error : Option String
  pub rest : Rest

-- The row of operation_approval_decisions; its key is the approval and the approver's identity.
pub record DecisionRow : Type 0 where
  pub approver_identity : String
  pub approver_role : String
  pub decision : Decision
  pub comment : Option String
  pub decided_at : ℕ

-- What the database holds of one approval, whose identifier has 160 characters at most.
pub record Db (Rest : Type 0) : Type 0 where
  pub row : Option (Row Rest)
  pub decisions : List DecisionRow

pub data Failure : Type 0 where
  not_found not_pending not_eligible comment_missing already_decided : Failure
  only_requester not_cancellable not_approved claim_lost spec_unreadable type_error : Failure

abbrev pub is_open : Status → Bool
is_open pending = true
is_open approved = true
is_open _ = false

abbrev pub is_pending : Status → Bool
is_pending pending = true
is_pending _ = false

abbrev pub is_approved : Status → Bool
is_approved approved = true
is_approved _ = false

abbrev pub is_executing : Status → Bool
is_executing executing = true
is_executing _ = false

abbrev pub is_approval : DecisionRow → Bool
is_approval d = elim d.decision [ approve ↦ true | reject ↦ false ]

-- What `finishApprovalExecution` may be called with.
pub data Outcome : Type 0 where
  was_executed was_failed was_unknown : Outcome

abbrev pub finished : Outcome → Status
finished was_executed = executed
finished was_failed = failed
finished was_unknown = unknown

abbrev pub executed_time : Outcome → ℕ → Option ℕ
executed_time was_executed now = some now
executed_time _ now = none

-- The statements, each on the row of the approval.
module _ {Rest : Type 0} where
  unfoldable pub changed :
      (Row Rest → Bool) → (Row Rest → Row Rest) → Option (Row Rest) → Option (Row Rest)
  changed test change none = none
  changed test change (some r) = some (if test r then change r else r)

  unfoldable pub change_if : (Row Rest → Bool) → (Row Rest → Row Rest) → Db Rest → Db Rest
  unfolding changed
  change_if test change db = record db { row = changed test change db.row }

  unfoldable pub expire_approvals : ℕ → Db Rest → Db Rest
  unfolding change_if
  expire_approvals now =
      change_if (λ r. is_open r.status && leb r.expires_at now)
        (λ r. record r { status = expired; updated_at = now })

  unfoldable pub reject_statement : ℕ → String → Db Rest → Db Rest
  unfolding change_if
  reject_statement now comment =
      change_if (λ r. is_pending r.status)
        (λ r. record r { status = rejected; updated_at = now; error = some comment })

  unfoldable pub approve_statement : ℕ → Db Rest → Db Rest
  unfolding change_if
  approve_statement now =
      change_if (λ r. is_pending r.status)
        (λ r. record r { status = approved; approved_at = some now; updated_at = now })

  unfoldable pub cancel_statement : ℕ → Db Rest → Db Rest
  unfolding change_if
  cancel_statement now =
      change_if (λ r. is_open r.status) (λ r. record r { status = cancelled; updated_at = now })

  unfoldable pub is_claimable : ℕ → Row Rest → Bool
  is_claimable now r = is_approved r.status && ltb now r.expires_at

  unfoldable pub claim_statement : ℕ → Db Rest → Db Rest
  unfolding change_if is_claimable
  claim_statement now =
      change_if (is_claimable now) (λ r. record r { status = executing; updated_at = now })

  -- The count of rows that the claim changes is 1, and not 0.
  unfoldable pub claims_row : ℕ → Option (Row Rest) → Bool
  unfolding is_claimable
  claims_row now none = false
  claims_row now (some r) = is_claimable now r

  unfoldable pub claims : ℕ → Db Rest → Bool
  unfolding claims_row
  claims now db = claims_row now db.row

  unfoldable pub finish_statement : Outcome → ℕ → Option String → Option String → Db Rest → Db Rest
  unfolding change_if
  finish_statement o now run problem =
      change_if (λ r. is_executing r.status)
        (λ r. record r {
          status = finished o;
          run_id = run;
          error = problem;
          executed_at = executed_time o now;
          updated_at = now;
        })
