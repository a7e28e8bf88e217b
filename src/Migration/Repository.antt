-- ===== src/Migration/Repository.antt =====
-- src/storage/migration/operation/storage-migration-operation-repository.ts: the statements on the
-- row of a migration, each in one batch with the caller's audit statements.
use freeipa_admin_dashboard.Base.{
  ℕ, String, Bool, ◌&&◌, Option, none, some, List, [], ◌∷◌, str_eq, Result, ok, err, guard, ◌>>=◌,
  ◌>>◌, if◌then◌else◌, ltb, leb, ◌==◌, includes,
}
use freeipa_admin_dashboard.Migration.Operation.{
  Operation, Row, Error, apply_conflict, unavailable, request_invalid, max_safe, failure_codes,
  normalize_migration_operation_row,
}

-- What the binding of the database is: absent, or a database that throws, or one that answers.
pub data Connection : Type 0 where
  missing unreachable reachable : Connection

-- A throw of the database is no `MigrationOperationError`.
pub data Failure : Type 0 where
  refused : Error → Failure
  database_threw : Failure

-- `safeInteger`, which refuses a request here.
unfoldable pub request_integer : ℕ → ℕ → ℕ → Result Failure ℕ
request_integer n low high =
    if leb low n && leb n high && leb n max_safe then ok n else err (refused request_invalid)

abbrev pub conflict : Failure
conflict = refused (record { code = apply_conflict; status = 409 })

-- The database: the row with the key 'main', and the tables that audit statements write, which
-- are of any type.
pub record Db (Trail : Type 0) : Type 0 where
  pub connection : Connection
  pub row : Option Row
  pub trail : Trail

-- An UPDATE, or the INSERT, of the row: the rows that it changed, of which there is one at most.
pub data Change : Type 0 where
  no_row : Change
  one_row : Row → Change

unfoldable pub update_where : (Row → Bool) → (Row → Row) → Option Row → Change
update_where test change none = no_row
update_where test change (some r) = if test r then one_row (change r) else no_row

abbrev pub has_state : Row → List String → Bool
has_state r states = includes states r.state

-- `BeginInput`.
pub record BeginInput : Type 0 where
  pub operation_id : String
  pub maintenance_operation_id : String
  pub from_version : ℕ
  pub target_version : ℕ
  pub total_count : ℕ
  pub now : ℕ

unfoldable pub begun_row : BeginInput → Row
begun_row input = record {
  operation_id = input.operation_id;
  maintenance_operation_id = input.maintenance_operation_id;
  from_version = input.from_version;
  target_version = input.target_version;
  total_count = input.total_count;
  applied_count = 0;
  state = "running";
  created_at = input.now;
  started_at = input.now;
  updated_at = input.now;
  completed_at = none;
  failure_code = none;
}

-- `INSERT … ON CONFLICT(id) DO UPDATE … WHERE state IN ('succeeded', 'reconciled', 'interrupted')`.
unfoldable pub begin_statement : BeginInput → Option Row → Change
unfolding update_where begun_row
begin_statement input none = one_row (begun_row input)
begin_statement input (some r) =
    update_where (λ r. has_state r ("succeeded" ∷ "reconciled" ∷ "interrupted" ∷ []))
      (λ _. begun_row input) (some r)

unfoldable pub progress_statement : String → ℕ → ℕ → Option Row → Change
unfolding update_where
progress_statement id applied now =
    update_where
      (λ r.
        has_state r ("running" ∷ [])
        && str_eq r.operation_id id
        && ltb r.applied_count applied
        && leb applied r.total_count)
      (λ r. record r { applied_count = applied; updated_at = now })

-- The statements of `completeMigrationOperation` and `markMigrationReconciled` differ in the state
-- that they set and in those that they ask for.
unfoldable pub finish_statement : String → List String → String → ℕ → ℕ → Option Row → Change
unfolding update_where
finish_statement new from id count now =
    update_where (λ r. has_state r from && str_eq r.operation_id id && r.total_count == count)
      (λ r. record r {
        state = new;
        applied_count = count;
        updated_at = now;
        completed_at = some now;
        failure_code = none;
      })

unfoldable pub fail_statement : String → String → ℕ → Option Row → Change
unfolding update_where
fail_statement id code now =
    update_where (λ r. has_state r ("running" ∷ []) && str_eq r.operation_id id)
      (λ r. record r {
        state = "failed";
        updated_at = now;
        completed_at = some now;
        failure_code = some code;
      })

unfoldable pub interrupt_statement : String → ℕ → Option Row → Change
unfolding update_where
interrupt_statement id now =
    update_where (λ r. has_state r ("running" ∷ "failed" ∷ []) && str_eq r.operation_id id)
      (λ r. record r {
        state = "interrupted";
        updated_at = now;
        completed_at = some now;
        failure_code = none;
      })

-- The audit statements of a batch: `none` where one of them throws, which rolls the batch back.
abbrev pub Audit : Type 0 → Type 0
Audit Trail = Trail → Option Trail

abbrev pub Outcome : Type 0 → Type 0
Outcome Trail = Result Failure (Unit {0}) × Db Trail

unfoldable pub loaded : Option Row → Result Failure (Option Operation)
unfolding normalize_migration_operation_row
loaded none = ok none
loaded (some r) = elim (normalize_migration_operation_row r) [
  | ok o ↦ ok (some o)
  | err problem ↦ err (refused problem)
]

-- The row that `beginMigrationOperation` returns is checked after the batch.
abbrev pub returned : Result Failure (Unit {0}) → Result Error Operation → Result Failure Operation
returned (err problem) row = err problem
returned (ok _) (ok row) = ok row
returned (ok _) (err problem) = err (refused problem)

module _ {Trail : Type 0} where
  unfoldable pub require_db : Db Trail → Result Failure (Unit {0})
  require_db db = elim db.connection [
    | missing ↦ err (refused unavailable)
    | unreachable ↦ ok tt
    | reachable ↦ ok tt
  ]

  -- The batch is one transaction; the count of changes is looked at after it is committed.
  unfoldable pub commit : Change → Option Trail → Db Trail → Outcome Trail
  commit change none db = (err database_threw, db)
  commit no_row (some t) db = (err conflict, record db { trail = t })
  commit (one_row r) (some t) db = (ok tt, record db { row = some r; trail = t })

  abbrev pub over : Connection → Db Trail → Outcome Trail → Outcome Trail
  over missing db outcome = (err (refused unavailable), db)
  over unreachable db outcome = (err database_threw, db)
  over reachable db outcome = outcome

  unfoldable pub run_batch : (Option Row → Change) → Audit Trail → Db Trail → Outcome Trail
  unfolding commit
  run_batch statement audit db =
      over db.connection db (commit (statement db.row) (audit db.trail) db)

  -- What is checked before the batch, then the batch; the first step is `requireDb`.
  abbrev pub after {ℓ} :
      {A : Type ℓ} → Result Failure A → (A → Outcome Trail) → Db Trail → Outcome Trail
  after (ok a) next db = next a
  after (err problem) next db = (err problem, db)

  unfoldable pub load_migration_operation : Db Trail → Result Failure (Option Operation)
  unfolding loaded
  load_migration_operation db = elim db.connection [
    | missing ↦ err (refused unavailable)
    | unreachable ↦ err (refused unavailable)
    | reachable ↦ loaded db.row
  ]

  unfoldable pub checked_begin : BeginInput → Db Trail → Result Failure (Unit {0})
  unfolding require_db request_integer
  checked_begin input db = do
    require_db db
    _ ← request_integer input.now 0 max_safe
    _ ← request_integer input.from_version 0 1000
    _ ← request_integer input.target_version input.from_version 1000
    _ ← request_integer input.total_count 1 1000
    ok tt

  unfoldable pub begin_migration_operation :
      BeginInput → Audit Trail → Db Trail → Result Failure Operation × Db Trail
  unfolding checked_begin begin_statement run_batch normalize_migration_operation_row
  begin_migration_operation input audit db =
      let o = after (checked_begin input db) (λ _. run_batch (begin_statement input) audit db) db in
      (returned o.0 (normalize_migration_operation_row (begun_row input)), o.1)

  unfoldable pub record_migration_progress : String → ℕ → ℕ → Audit Trail → Db Trail → Outcome Trail
  unfolding require_db request_integer progress_statement run_batch
  record_migration_progress id applied now audit db =
      after (do require_db db; _ ← request_integer applied 1 1000; request_integer now 0 max_safe)
        (λ _. run_batch (progress_statement id applied now) audit db) db

  unfoldable pub checked_count : ℕ → ℕ → Db Trail → Result Failure ℕ
  unfolding require_db request_integer
  checked_count count now db = do
    require_db db
    _ ← request_integer count 1 1000
    request_integer now 0 max_safe

  unfoldable pub complete_migration_operation :
      String → ℕ → ℕ → Audit Trail → Db Trail → Outcome Trail
  unfolding checked_count finish_statement run_batch
  complete_migration_operation id count now audit db =
      after (checked_count count now db)
        (λ _. run_batch (finish_statement "succeeded" ("running" ∷ []) id count now) audit db) db

  unfoldable pub checked_code : String → ℕ → Db Trail → Result Failure ℕ
  unfolding require_db request_integer failure_codes
  checked_code code now db = do
    require_db db
    guard (includes failure_codes code) (refused request_invalid)
    request_integer now 0 max_safe

  unfoldable pub fail_migration_operation :
      String → String → ℕ → Audit Trail → Db Trail → Outcome Trail
  unfolding checked_code fail_statement run_batch
  fail_migration_operation id code now audit db =
      after (checked_code code now db) (λ _. run_batch (fail_statement id code now) audit db) db

  unfoldable pub mark_migration_interrupted : String → ℕ → Audit Trail → Db Trail → Outcome Trail
  unfolding require_db request_integer interrupt_statement run_batch
  mark_migration_interrupted id now audit db =
      after (do require_db db; request_integer now 0 max_safe)
        (λ _. run_batch (interrupt_statement id now) audit db) db

  unfoldable pub mark_migration_reconciled : String → ℕ → ℕ → Audit Trail → Db Trail → Outcome Trail
  unfolding checked_count finish_statement run_batch
  mark_migration_reconciled id count now audit db =
      after (checked_count count now db)
        (λ _.
          run_batch (finish_statement "reconciled" ("running" ∷ "failed" ∷ []) id count now) audit
            db)
        db
