-- ===== src/Approvals/Claims.antt =====
-- The claims that a sequence of statements makes of an approval of
-- src/operations/approvals/approval-gates.ts.
use freeipa_admin_dashboard.Base.{
  ℕ, ◌+◌, String, Option, none, some, List, [], ◌∷◌, if◌then◌else◌, ◌++◌,
}
use freeipa_admin_dashboard.Approvals.Table.{
  Status, pending, approved, Row, DecisionRow, Db, Outcome, expire_approvals, reject_statement,
  approve_statement, cancel_statement, claim_statement, claims, finish_statement,
}

-- The statements on the row; the time, and what else a statement writes.
pub data Statement : Type 0 where
  expire cancel claim approve : ℕ → Statement
  reject : ℕ → String → Statement
  finish : Outcome → ℕ → Option String → Option String → Statement
  insert : DecisionRow → Statement

module _ {Rest : Type 0} where
  unfoldable pub perform : Statement → Db Rest → Db Rest
  perform (expire now) db = expire_approvals now db
  perform (cancel now) db = cancel_statement now db
  perform (claim now) db = claim_statement now db
  perform (approve now) db = approve_statement now db
  perform (reject now comment) db = reject_statement now comment db
  perform (finish o now run problem) db = finish_statement o now run problem db
  perform (insert d) db = record db { decisions = db.decisions ++ (d ∷ []) }

  -- The count of rows that the statement claims.
  unfoldable pub claimed_by : Statement → Db Rest → ℕ
  claimed_by (claim now) db = if claims now db then 1 else 0
  claimed_by _ db = 0

  -- The claims that a sequence of statements makes.
  unfoldable pub claims_of : List Statement → Db Rest → ℕ
  claims_of [] db = 0
  claims_of (s ∷ ss) db = claimed_by s db + claims_of ss (perform s db)

-- How many claims a status still admits.
unfoldable chances : Status → ℕ
chances pending = 1
chances approved = 1
chances _ = 0

module _ {Rest : Type 0} where
  unfoldable chances_of : Option (Row Rest) → ℕ
  unfolding chances
  chances_of none = 0
  chances_of (some r) = chances r.status
