-- ===== src/Migration/Operation.antt =====
-- src/storage/migration/operation/storage-migration-operation.ts: the checks of the row of a
-- migration, its confirmation phrase and its public view.
use Prim.Native.Char.{code}
use Prim.Native.String
use Prim.Native.String.{[] as nil, ◌∷◌ as ◌⋮◌}
use freeipa_admin_dashboard.Base.{
  ℕ, ◌+◌, String, Bool, true, false, ◌&&◌, ◌||◌, not, Option, none, some, List, [], ◌∷◌, ◌++◌,
  str_eq, Result, ok, err, guard, given, rethrow, ◌>>=◌, ◌>>◌, if◌then◌else◌, leb, ◌==◌, includes,
  matches, any_case, uuid_classes, js_length,
}

pub data MigrationState : Type 0 where
  running succeeded failed interrupted reconciled : MigrationState

-- `PublicMigrationOperationState`.
pub data PublicState : Type 0 where
  idle : PublicState
  stored : MigrationState → PublicState

pub data Code : Type 0 where
  operation_unavailable apply_request_invalid apply_conflict : Code

-- `MigrationOperationError`.
pub record Error : Type 0 where
  pub code : Code
  pub status : ℕ

abbrev pub unavailable : Error
unavailable = record { code = operation_unavailable; status = 503 }

abbrev pub request_invalid : Error
request_invalid = record { code = apply_request_invalid; status = 400 }

-- `MigrationOperationRow`.
pub record Operation : Type 0 where
  pub operation_id : String
  pub maintenance_operation_id : String
  pub from_version : ℕ
  pub target_version : ℕ
  pub total_count : ℕ
  pub applied_count : ℕ
  pub state : MigrationState
  pub created_at : ℕ
  pub started_at : ℕ
  pub updated_at : ℕ
  pub completed_at : Option ℕ
  pub failure_code : Option String
  pub recovery_required : Bool

-- The row of portal_migration_operations with the key 'main': columns TEXT and INTEGER, the last
-- two of which may be NULL.
pub record Row : Type 0 where
  pub operation_id : String
  pub maintenance_operation_id : String
  pub from_version : ℕ
  pub target_version : ℕ
  pub total_count : ℕ
  pub applied_count : ℕ
  pub state : String
  pub created_at : ℕ
  pub started_at : ℕ
  pub updated_at : ℕ
  pub completed_at : Option ℕ
  pub failure_code : Option String

unfoldable pub state_text : MigrationState → String
state_text running = "running"
state_text succeeded = "succeeded"
state_text failed = "failed"
state_text interrupted = "interrupted"
state_text reconciled = "reconciled"

-- The lookup in `states`.
unfoldable pub state_of : String → Option MigrationState
state_of s =
    if str_eq s "running"
    then some running
    else if str_eq s "succeeded"
    then some succeeded
    else if str_eq s "failed"
    then some failed
    else if str_eq s "interrupted"
    then some interrupted
    else if str_eq s "reconciled"
    then some reconciled
    else none

unfoldable pub failure_codes : List String
failure_codes =
    "migration_apply_failed" ∷ "migration_apply_execution_failed"
    ∷ "migration_apply_progress_failed" ∷ "migration_apply_verification_failed"
    ∷ "migration_apply_audit_failed" ∷ "migration_apply_lock_lost"
    ∷ "migration_apply_release_failed" ∷ "migration_reconcile_failed"
    ∷ "migration_reconcile_restore_required" ∷ "migration_recovery_required" ∷ []

unfoldable pub is_operation_id : String → Bool
unfolding matches any_case uuid_classes
is_operation_id s = matches (any_case "migration_" ++ uuid_classes) s

unfoldable pub is_maintenance_id : String → Bool
unfolding matches any_case uuid_classes
is_maintenance_id s = matches (any_case "maintenance_" ++ uuid_classes) s

abbrev pub max_safe : ℕ
max_safe = 9007199254740991

-- `safeInteger` on a number that is not negative.
unfoldable pub safe_integer : ℕ → ℕ → ℕ → Result Error ℕ
safe_integer n low high =
    if leb low n && leb n high && leb n max_safe then ok n else err unavailable

unfoldable pub nullable_integer : Option ℕ → Result Error (Option ℕ)
unfolding safe_integer
nullable_integer none = ok none
nullable_integer (some n) = do m ← safe_integer n 0 max_safe; ok (some m)

unfoldable pub safe_operation_id : String → Result Error String
unfolding is_operation_id
safe_operation_id s = if is_operation_id s then ok s else err unavailable

unfoldable pub safe_maintenance_id : String → Error → Result Error String
unfolding is_maintenance_id
safe_maintenance_id s problem = if is_maintenance_id s then ok s else err problem

-- `createMigrationOperationId` with the identifier that `uuid` returns.
unfoldable pub create_migration_operation_id : String → Result Error String
unfolding safe_operation_id
create_migration_operation_id uuid = safe_operation_id (String.◌++◌ "migration_" uuid)

-- A number in the text of a template; the conversion is the language's.
unfoldable pub migration_apply_confirmation :
    (ℕ → String) → Option String → ℕ → ℕ → Result Error String
unfolding safe_maintenance_id safe_integer
migration_apply_confirmation decimal none from target = err request_invalid
migration_apply_confirmation decimal (some id) from target = do
  maintenance_id ← safe_maintenance_id id request_invalid
  f ← rethrow (λ _. request_invalid) (safe_integer from 0 1000)
  t ← rethrow (λ _. request_invalid) (safe_integer target f 1000)
  ok (
      String.◌++◌ "APPLY:" (
        String.◌++◌ maintenance_id
          (String.◌++◌ ":" (String.◌++◌ (decimal f) (String.◌++◌ ":" (decimal t))))))

abbrev pub is_none {ℓ} : {A : Type ℓ} → Option A → Bool
is_none none = true
is_none (some a) = false

unfoldable pub failure_code_of : Option String → Result Error (Option String)
unfolding failure_codes
failure_code_of none = ok none
failure_code_of (some s) = if includes failure_codes s then ok (some s) else err unavailable

-- The three tests of the state against the other columns.
unfoldable pub is_consistent : MigrationState → ℕ → ℕ → Option ℕ → Option String → Bool
is_consistent running total applied completed failure = is_none completed && is_none failure
is_consistent succeeded total applied completed failure =
    not (is_none completed) && is_none failure && applied == total
is_consistent reconciled total applied completed failure =
    not (is_none completed) && is_none failure && applied == total
is_consistent failed total applied completed failure = not (is_none completed)
is_consistent interrupted total applied completed failure = not (is_none completed)

unfoldable pub needs_recovery : MigrationState → Bool
needs_recovery running = true
needs_recovery failed = true
needs_recovery _ = false

unfoldable pub normalize_migration_operation_row : Row → Result Error Operation
unfolding safe_operation_id safe_maintenance_id safe_integer nullable_integer failure_code_of
    state_of is_consistent needs_recovery
normalize_migration_operation_row row = do
  id ← safe_operation_id row.operation_id
  maintenance ← safe_maintenance_id row.maintenance_operation_id unavailable
  from ← safe_integer row.from_version 0 1000
  target ← safe_integer row.target_version from 1000
  total ← safe_integer row.total_count 0 1000
  applied ← safe_integer row.applied_count 0 total
  state ← given (state_of row.state) unavailable
  created ← safe_integer row.created_at 0 max_safe
  started ← safe_integer row.started_at 0 max_safe
  updated ← safe_integer row.updated_at 0 max_safe
  completed ← nullable_integer row.completed_at
  failure ← failure_code_of row.failure_code
  guard (is_consistent state total applied completed failure) unavailable
  ok (record {
    operation_id = id;
    maintenance_operation_id = maintenance;
    from_version = from;
    target_version = target;
    total_count = total;
    applied_count = applied;
    state = state;
    created_at = created;
    started_at = started;
    updated_at = updated;
    completed_at = completed;
    failure_code = failure;
    recovery_required = needs_recovery state;
  })

-- `PublicMigrationOperation`.
pub record PublicOperation : Type 0 where
  pub state : PublicState
  pub operation_id : Option String
  pub from_version : ℕ
  pub current_version : ℕ
  pub target_version : ℕ
  pub total_count : ℕ
  pub applied_count : ℕ
  pub created_at : Option ℕ
  pub started_at : Option ℕ
  pub updated_at : Option ℕ
  pub completed_at : Option ℕ
  pub failure_code : Option String
  pub recovery_required : Bool
  pub correlation_id : Option String

unfoldable pub public_idle_migration_operation : PublicOperation
public_idle_migration_operation = record {
  state = idle;
  operation_id = none;
  from_version = 0;
  current_version = 0;
  target_version = 0;
  total_count = 0;
  applied_count = 0;
  created_at = none;
  started_at = none;
  updated_at = none;
  completed_at = none;
  failure_code = none;
  recovery_required = false;
  correlation_id = none;
}

abbrev alphanumeric : String → Bool
alphanumeric nil = true
alphanumeric (c ⋮ s) =
    ((leb 48 (code c) && leb (code c) 57)
      || (leb 65 (code c) && leb (code c) 90)
      || (leb 97 (code c) && leb (code c) 122))
    && alphanumeric s

-- /^cor_[a-z0-9]{20,92}$/i
abbrev starts_cor : String → Bool
starts_cor (a ⋮ b ⋮ c ⋮ d ⋮ s) =
    (code a == 99 || code a == 67)
    && (code b == 111 || code b == 79)
    && (code c == 114 || code c == 82)
    && code d == 95
    && alphanumeric s
    && leb 20 (js_length s)
    && leb (js_length s) 92
starts_cor _ = false

unfoldable pub is_correlation_id : String → Bool
unfolding js_length
is_correlation_id s = starts_cor s

abbrev checked_correlation : Option String → Option String
checked_correlation none = none
checked_correlation (some s) = if is_correlation_id s then some s else none

unfoldable pub public_migration_operation : Operation → Option String → PublicOperation
unfolding is_correlation_id
public_migration_operation row correlation = record {
  state = stored row.state;
  operation_id = some row.operation_id;
  from_version = row.from_version;
  current_version = row.from_version + row.applied_count;
  target_version = row.target_version;
  total_count = row.total_count;
  applied_count = row.applied_count;
  created_at = some row.created_at;
  started_at = some row.started_at;
  updated_at = some row.updated_at;
  completed_at = row.completed_at;
  failure_code = row.failure_code;
  recovery_required = row.recovery_required;
  correlation_id = checked_correlation correlation;
}
