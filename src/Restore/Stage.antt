-- ===== src/Restore/Stage.antt =====
-- The stage of a restore as it is checked: src/backup/restore/backup-restore-stage-repository.ts,
-- the columns of portal_backup_restore_stages and the input of a call.
use freeipa_admin_dashboard.Base.{
  ℕ, ltb, leb, String, ◌&&◌, not, Option, none, some, List, [], ◌∷◌, ◌++◌, str_eq, Result, ok, err,
  guard, given, ◌>>=◌, ◌>>◌, if◌then◌else◌, is_blank, js_length, matches, times, any_case,
  uuid_classes, is_hex,
}
use freeipa_admin_dashboard.Base.Json.{Value, str, Items, end, item}
use freeipa_admin_dashboard.Base.Language.{Language}
use freeipa_admin_dashboard.Restore.Domains.{
  Domain, PolicyFailure, RestorePolicy, validate_selective_restore_domains,
}

pub data StageOperation : Type 0 where
  restore rollback : StageOperation

pub data StageStatus : Type 0 where
  prepared committing cancelled committed expired : StageStatus

-- `RestoreStageRecord`.
pub record Stage : Type 0 where
  pub id : String
  pub operation : StageOperation
  pub actor_identity : String
  pub selected_domains : List Domain
  pub stage_secret_hash : String
  pub source_binding_hash : String
  pub recovery_binding_hash : String
  pub source_schema_version : ℕ
  pub current_schema_version : ℕ
  pub status : StageStatus
  pub created_at : ℕ
  pub expires_at : ℕ
  pub completed_at : Option ℕ

-- `CreateRestoreStageInput`, and the columns of a row, of the types of the table.
pub record StageInput : Type 0 where
  pub id : String
  pub operation : String
  pub actor_identity : String
  pub selected_domains : Value
  pub stage_secret_hash : String
  pub source_binding_hash : String
  pub recovery_binding_hash : String
  pub source_schema_version : ℕ
  pub current_schema_version : ℕ
  pub created_at : ℕ
  pub expires_at : ℕ

pub record StageRow : Type 0 where
  pub id : String
  pub operation : String
  pub actor_identity : String
  pub selected_domains_json : String
  pub stage_secret_hash : String
  pub source_binding_hash : String
  pub recovery_binding_hash : String
  pub source_schema_version : ℕ
  pub current_schema_version : ℕ
  pub status : String
  pub created_at : ℕ
  pub expires_at : ℕ
  pub completed_at : Option ℕ

-- `CancelRestoreStageInput`.
pub record CancelInput : Type 0 where
  pub id : String
  pub actor_identity : String
  pub stage_secret_hash : String
  pub now : ℕ

-- The codes of the errors, and the error of the policy, which `createRestoreStage` lets through.
pub data StageFailure : Type 0 where
  stage_invalid stage_cancelled stage_committed stage_expired : StageFailure
  policy : PolicyFailure → StageFailure

abbrev pub max_safe : ℕ
max_safe = 9007199254740991

unfoldable pub integer : ℕ → ℕ → Result StageFailure ℕ
integer minimum n = guard (leb n max_safe && leb minimum n) stage_invalid >>= λ _. ok n

unfoldable pub hash : String → Result StageFailure String
unfolding matches times is_hex
hash s = guard (matches (times 64 is_hex) s) stage_invalid >>= λ _. ok s

unfoldable pub stage_id : String → Result StageFailure String
unfolding matches any_case uuid_classes
stage_id s = guard (matches (any_case "restore_" ++ uuid_classes) s) stage_invalid >>= λ _. ok s

abbrev pub operation_text : StageOperation → String
operation_text restore = "restore"
operation_text rollback = "rollback"

unfoldable pub operation_of : String → Result StageFailure StageOperation
operation_of s =
    if str_eq s "restore"
    then ok restore
    else if str_eq s "rollback"
    then ok rollback
    else err stage_invalid

abbrev pub status_text : StageStatus → String
status_text prepared = "prepared"
status_text committing = "committing"
status_text cancelled = "cancelled"
status_text committed = "committed"
status_text expired = "expired"

unfoldable pub status_value : String → Result StageFailure StageStatus
status_value s =
    if str_eq s "prepared"
    then ok prepared
    else if str_eq s "committing"
    then ok committing
    else if str_eq s "cancelled"
    then ok cancelled
    else if str_eq s "committed"
    then ok committed
    else if str_eq s "expired"
    then ok expired
    else err stage_invalid

abbrev pub with_policy : Result PolicyFailure RestorePolicy → Result StageFailure (List Domain)
with_policy (ok p) = ok p.selected_domains
with_policy (err e) = err (policy e)

-- The policy's error is the stage's where a row is read.
abbrev pub or_invalid : Result PolicyFailure RestorePolicy → Result StageFailure (List Domain)
or_invalid (ok p) = ok p.selected_domains
or_invalid (err e) = err stage_invalid

abbrev pub completed : Option ℕ → Result StageFailure (Option ℕ)
completed none = ok none
completed (some n) = integer 0 n >>= λ m. ok (some m)

abbrev pub text_items : List String → Items
text_items [] = end
text_items (s ∷ r) = item (str s) (text_items r)

module _ (js : Language) where
  unfoldable pub actor : String → Result StageFailure String
  unfolding js_length
  actor s =
      guard (not (is_blank (js.trim s)) && leb (js_length (js.trim s)) 320) stage_invalid >>= λ _.
      ok (js.trim s)

  unfoldable pub selected_domains_of : String → Result StageFailure (List Domain)
  unfolding validate_selective_restore_domains
  selected_domains_of json = do
    parsed ← given (js.parse json) stage_invalid
    or_invalid (validate_selective_restore_domains (some parsed))

  unfoldable pub normalize_row : StageRow → Result StageFailure Stage
  unfolding integer hash stage_id operation_of status_value actor selected_domains_of
  normalize_row row = do
    completed_at ← completed row.completed_at
    id ← stage_id row.id
    operation ← operation_of row.operation
    actor_identity ← actor row.actor_identity
    domains ← selected_domains_of row.selected_domains_json
    secret ← hash row.stage_secret_hash
    source ← hash row.source_binding_hash
    recovery ← hash row.recovery_binding_hash
    source_version ← integer 1 row.source_schema_version
    current_version ← integer 1 row.current_schema_version
    status ← status_value row.status
    created_at ← integer 1 row.created_at
    expires_at ← integer 1 row.expires_at
    ok (record {
      id = id;
      operation = operation;
      actor_identity = actor_identity;
      selected_domains = domains;
      stage_secret_hash = secret;
      source_binding_hash = source;
      recovery_binding_hash = recovery;
      source_schema_version = source_version;
      current_schema_version = current_version;
      status = status;
      created_at = created_at;
      expires_at = expires_at;
      completed_at = completed_at;
    })

  unfoldable pub validate_create_input : StageInput → Result StageFailure Stage
  unfolding integer hash stage_id operation_of actor validate_selective_restore_domains
  validate_create_input input = do
    id ← stage_id input.id
    operation ← operation_of input.operation
    actor_identity ← actor input.actor_identity
    domains ← with_policy (validate_selective_restore_domains (some input.selected_domains))
    secret ← hash input.stage_secret_hash
    source ← hash input.source_binding_hash
    recovery ← hash input.recovery_binding_hash
    source_version ← integer 1 input.source_schema_version
    current_version ← integer 1 input.current_schema_version
    created_at ← integer 1 input.created_at
    expires_at ← integer 1 input.expires_at
    guard (ltb created_at expires_at) stage_invalid
    ok (record {
      id = id;
      operation = operation;
      actor_identity = actor_identity;
      selected_domains = domains;
      stage_secret_hash = secret;
      source_binding_hash = source;
      recovery_binding_hash = recovery;
      source_schema_version = source_version;
      current_schema_version = current_version;
      status = prepared;
      created_at = created_at;
      expires_at = expires_at;
      completed_at = none;
    })
