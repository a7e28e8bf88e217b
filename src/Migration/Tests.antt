-- ===== src/Migration/Tests.antt =====
-- The theorems of this tree at concrete rows.
use freeipa_admin_dashboard.Base.{
  ℕ, suc, ◌+◌, ◌≤◌, ◌<◌, String, ◌≡◌, ◌↔◌, refl, ◌⊎◌, true, false, Option, none, some, ok, err,
  arith,
}
use freeipa_admin_dashboard.Migration.Operation.{
  Row, Operation, running, normalize_migration_operation_row,
}
use freeipa_admin_dashboard.Migration.Readable.{
  IsVacant, IsReadable, begin_migration_operation-IsReadable,
}
use freeipa_admin_dashboard.Migration.Repository.{
  BeginInput, begun_row, begin_statement, checked_begin, begin_migration_operation, Db, reachable,
  Failure, Audit, record_migration_progress, run_batch, commit, progress_statement, update_where,
  require_db, request_integer,
}
use freeipa_admin_dashboard.Migration.Progress.{Command, progress, perform, IsMove, perform-IsMove}
use freeipa_admin_dashboard.Migration.Kept.{perform-IsReadable}
use freeipa_admin_dashboard.Migration.Lock.{
  LockRow, Options, natural, quiet, lock_ttl, inspect_portal_migration_lock,
  acquire_portal_migration_lock, acquire_portal_migration_lock-owns,
  acquire_portal_migration_lock-held, inspect-acquire_iff, acquire_from, delete_stale, insert_or,
  bounded_migration_lock_ttl,
}

abbrev row_in : String → Row
row_in state = record {
  operation_id = "migration_00000000-0000-4000-8000-000000000000";
  maintenance_operation_id = "maintenance_00000000-0000-4000-8000-000000000000";
  from_version = 3;
  target_version = 5;
  total_count = 2;
  applied_count = 0;
  state = state;
  created_at = 10;
  started_at = 10;
  updated_at = 10;
  completed_at = none;
  failure_code = none;
}

abbrev db_of : Row → Db ℕ
db_of r = record { connection = reachable; row = some r; trail = 0 }

abbrev audited : Audit ℕ
audited n = some (suc n)

abbrev one_applied : Command
one_applied = progress "migration_00000000-0000-4000-8000-000000000000" 1 20

perform-IsMove_example :
    ((e : Failure) × ((perform one_applied audited (db_of (row_in "running"))).0 ≡ err e)
      × ((perform one_applied audited (db_of (row_in "running"))).1.row ≡ some (row_in "running")))
    ⊎ ((r : Row) × (s : Row) × ((perform one_applied audited (db_of (row_in "running"))).0 ≡ ok tt)
        × (◌≡◌ {A = Option Row} (some (row_in "running")) (some r))
        × ((perform one_applied audited (db_of (row_in "running"))).1.row ≡ some s)
        × IsMove one_applied r s)
perform-IsMove_example = perform-IsMove one_applied audited (db_of (row_in "running"))

moved :
    (perform one_applied audited (db_of (row_in "running"))).1.row
    ≡ some (record (row_in "running") { applied_count = 1; updated_at = 20 })
unfolding perform record_migration_progress run_batch commit progress_statement update_where
    require_db request_integer
moved = refl

abbrev options : Options
options = record { max_lock_attempts = none; ttl_ms = some (natural 5); lock_ttl_ms = none }

abbrev ours : LockRow
ours = record { owner = "w1"; acquired_at = 5000 }

taken :
    acquire_portal_migration_lock options
      (λ k. 5000)
      quiet
      "w1"
      (some (record { owner = "w2"; acquired_at = 100 }))
    ≡ (true, some ours)
unfolding acquire_portal_migration_lock acquire_from delete_stale insert_or lock_ttl
    bounded_migration_lock_ttl
taken = refl

acquire_portal_migration_lock-owns_example :
    (k : ℕ) × (k < 20) × (ours ≡ record { owner = "w1"; acquired_at = 5000 })
acquire_portal_migration_lock-owns_example =
    acquire_portal_migration_lock-owns options (λ k. 5000) quiet "w1"
      (some (record { owner = "w2"; acquired_at = 100 })) ours taken

within : (k : ℕ) → 5500 ≤ 5000 + lock_ttl options
unfolding lock_ttl bounded_migration_lock_ttl
within k = omega arith

acquire_portal_migration_lock-held_example :
    acquire_portal_migration_lock options (λ k. 5500) quiet "w2" (some ours) ≡ (false, some ours)
acquire_portal_migration_lock-held_example =
    acquire_portal_migration_lock-held options (λ k. 5500) "w2" ours within

inspect-acquire_iff_example :
    ((inspect_portal_migration_lock options 7000 (some (some ours))).blocking ≡ false) ↔ (
      (acquire_portal_migration_lock
        (record options { max_lock_attempts = some 1 })
        (λ _. 7000)
        quiet
        "w2"
        (some ours)).0
      ≡ true)
inspect-acquire_iff_example = inspect-acquire_iff options 7000 "w2" ours (omega arith) (omega arith)

abbrev input : BeginInput
input = record {
  operation_id = "migration_00000000-0000-4000-8000-000000000000";
  maintenance_operation_id = "maintenance_00000000-0000-4000-8000-000000000000";
  from_version = 3;
  target_version = 5;
  total_count = 2;
  now = 10;
}

abbrev started : Operation
started = record {
  operation_id = "migration_00000000-0000-4000-8000-000000000000";
  maintenance_operation_id = "maintenance_00000000-0000-4000-8000-000000000000";
  from_version = 3;
  target_version = 5;
  total_count = 2;
  applied_count = 0;
  state = running;
  created_at = 10;
  started_at = 10;
  updated_at = 10;
  completed_at = none;
  failure_code = none;
  recovery_required = true;
}

begun : (begin_migration_operation input audited (db_of (row_in "succeeded"))).0 ≡ ok started
unfolding begin_migration_operation checked_begin begin_statement run_batch commit update_where
    require_db request_integer begun_row normalize_migration_operation_row
begun = refl

begin_migration_operation-IsReadable_example :
    IsVacant (some (row_in "succeeded"))
    × ((begin_migration_operation input audited (db_of (row_in "succeeded"))).1.row
        ≡ some (begun_row input))
    × IsReadable (begun_row input)
begin_migration_operation-IsReadable_example =
    begin_migration_operation-IsReadable input audited (db_of (row_in "succeeded")) started begun

abbrev misnamed : BeginInput
misnamed = record input { operation_id = "unnamed" }

-- The batch is committed before the row is checked.
committed_unchecked :
    (begin_migration_operation misnamed audited (db_of (row_in "succeeded"))).1.row
    ≡ some (begun_row misnamed)
unfolding begin_migration_operation checked_begin begin_statement run_batch commit update_where
    require_db request_integer begun_row normalize_migration_operation_row
committed_unchecked = refl

begun-IsReadable : IsReadable (begun_row input)
begun-IsReadable =
    (begin_migration_operation-IsReadable input audited (db_of (row_in "succeeded")) started
      begun).2

perform-IsReadable_example :
    (s : Row) × ((perform one_applied audited (db_of (begun_row input))).1.row ≡ some s)
    × IsReadable s
perform-IsReadable_example =
    perform-IsReadable one_applied audited (db_of (begun_row input)) (begun_row input) refl
      begun-IsReadable
