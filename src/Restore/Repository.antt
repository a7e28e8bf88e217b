-- ===== src/Restore/Repository.antt =====
-- The operations of src/backup/restore/backup-restore-stage-repository.ts, on the row of
-- portal_backup_restore_stages with the identifier of the call.
use freeipa_admin_dashboard.Base.{
  ℕ, ltb, leb, String, Bool, ◌&&◌, ◌||◌, not, Option, none, some, str_eq, Result, ok, err, ◌>>=◌,
  if◌then◌else◌,
}
use freeipa_admin_dashboard.Base.Json.{array}
use freeipa_admin_dashboard.Base.Language.{Language}
use freeipa_admin_dashboard.Restore.Domains.{domain_texts}
use freeipa_admin_dashboard.Restore.Stage.{
  Stage, StageInput, StageRow, CancelInput, StageFailure, integer, hash, stage_id, operation_text,
  status_text, text_items, actor, normalize_row, validate_create_input, prepared, committing,
  cancelled, committed, expired, stage_invalid, stage_cancelled, stage_committed, stage_expired,
}

module _ (js : Language) where
  -- The row of the INSERT.
  unfoldable pub row_of : Stage → StageRow
  row_of stage = record {
    id = stage.id;
    operation = operation_text stage.operation;
    actor_identity = stage.actor_identity;
    selected_domains_json = js.stringify (array (text_items (domain_texts stage.selected_domains)));
    stage_secret_hash = stage.stage_secret_hash;
    source_binding_hash = stage.source_binding_hash;
    recovery_binding_hash = stage.recovery_binding_hash;
    source_schema_version = stage.source_schema_version;
    current_schema_version = stage.current_schema_version;
    status = status_text stage.status;
    created_at = stage.created_at;
    expires_at = stage.expires_at;
    completed_at = stage.completed_at;
  }

  abbrev pub insert_stage : Option StageRow → Stage → Result StageFailure Stage × Option StageRow
  insert_stage none stage = (ok stage, some (row_of stage))
  insert_stage (some row) stage = (err stage_invalid, some row)

  abbrev pub create_with :
      Result StageFailure Stage → Option StageRow → Result StageFailure Stage × Option StageRow
  create_with (err e) db = (err e, db)
  create_with (ok stage) db = insert_stage db stage

  -- The table and its state after the call.
  unfoldable pub create_restore_stage :
      StageInput → Option StageRow → Result StageFailure Stage × Option StageRow
  unfolding validate_create_input row_of
  create_restore_stage input db = create_with (validate_create_input js input) db

  unfoldable pub load_restore_stage : String → Option StageRow → Result StageFailure (Option Stage)
  unfolding stage_id normalize_row
  load_restore_stage id none = stage_id id >>= λ _. ok none
  load_restore_stage id (some row) =
      stage_id id >>= λ _. normalize_row js row >>= λ stage. ok (some stage)

  unfoldable pub is_cancellable : String → String → ℕ → StageRow → Bool
  is_cancellable who secret now row =
      str_eq row.actor_identity who
      && str_eq row.stage_secret_hash secret
      && str_eq row.status "prepared"
      && ltb now row.expires_at

  -- Why a row was not cancelled.
  unfoldable pub refusal : String → String → ℕ → Option Stage → StageFailure
  refusal who secret now none = stage_invalid
  refusal who secret now (some stage) =
      if not (str_eq stage.actor_identity who) || not (str_eq stage.stage_secret_hash secret)
      then stage_invalid
      else elim stage.status [
        | cancelled ↦ stage_cancelled
        | committed ↦ stage_committed
        | committing ↦ stage_committed
        | expired ↦ stage_expired
        | prepared ↦ if leb stage.expires_at now then stage_expired else stage_invalid
      ]

  abbrev pub refused :
      String → String → ℕ → Result StageFailure (Option Stage) → Result StageFailure (Unit {0})
  refused who secret now (err e) = err e
  refused who secret now (ok stage) = err (refusal who secret now stage)

  -- The statement, and what follows where it changed no row; `others` is what other workers do
  -- before the row is read again.
  unfoldable pub cancel_checked :
      (Option StageRow → Option StageRow)
      → String
      → String
      → String
      → ℕ
      → Option StageRow
      → Result StageFailure (Unit {0}) × Option StageRow
  unfolding load_restore_stage refusal is_cancellable
  cancel_checked others id who secret now none =
      (refused who secret now (load_restore_stage id (others none)), others none)
  cancel_checked others id who secret now (some row) =
      if is_cancellable who secret now row
      then (ok tt, some (record row { status = "cancelled"; completed_at = some now }))
      else (refused who secret now (load_restore_stage id (others (some row))), others (some row))

  -- The identifier, the actor, the hash of the secret and the time of a call.
  unfoldable pub cancel_arguments : CancelInput → Result StageFailure (String × String × String × ℕ)
  unfolding stage_id actor hash integer
  cancel_arguments input = do
    id ← stage_id input.id
    who ← actor js input.actor_identity
    secret ← hash input.stage_secret_hash
    now ← integer 1 input.now
    ok (id, who, secret, now)

  unfoldable pub cancel_with :
      (Option StageRow → Option StageRow)
      → Result StageFailure (String × String × String × ℕ)
      → Option StageRow
      → Result StageFailure (Unit {0}) × Option StageRow
  unfolding cancel_checked
  cancel_with others (err e) db = (err e, db)
  cancel_with others (ok (id, who, secret, now)) db = cancel_checked others id who secret now db

  unfoldable pub cancel_restore_stage :
      (Option StageRow → Option StageRow)
      → CancelInput
      → Option StageRow
      → Result StageFailure (Unit {0}) × Option StageRow
  unfolding cancel_arguments cancel_with
  cancel_restore_stage others input db = cancel_with others (cancel_arguments input) db
