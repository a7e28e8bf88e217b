-- ===== src/Maintenance/Transitions.antt =====
-- src/recovery/maintenance/maintenance-repository.ts: the reading of the row and the five transitions.
-- The database is passed along; what other requests do between the reading, the batch and the second
-- reading of an operation is a function on the database, so that every interleaving is covered.
use freeipa_admin_dashboard.Base.{
  ℕ, String, Bool, true, false, ◌&&◌, not, Option, none, some, List, [], str_eq, Result, ok, err,
  guard, ◌>>=◌, ◌>>◌, if◌then◌else◌, ltb, leb, ◌==◌,
}
use freeipa_admin_dashboard.Base.Json.{Value, str, object, Fields, is_text}
use freeipa_admin_dashboard.Maintenance.Mode.{
  State, inactive, entering, active, verifying, exiting, Action, enter, verify, exit, complete,
  cancel, Error, fail_as, state_unavailable, transition_failed, confirmation_required,
  transition_invalid, prepare_expired, controller_invalid, state_text, maintenance_confirmation,
  validate_maintenance_verification,
}
use freeipa_admin_dashboard.Maintenance.Rows.{
  IntCell, absent, int, negative, text_cell, Row, MaintenanceRow, Runtime, unavailable, safe_now,
  operation_id_of, controller_secret_of, controller_hash, fixed_hash_equal, normalize_row, filled,
}

-- The binding `DB`: `online` is false while its calls throw. `sessions` is portal_sessions.
pub record Db : Type 0 where
  pub online : Bool
  pub row : Option Row
  pub sessions : List String

-- What others do to the database before the batch of an operation and behind it.
pub record Interference : Type 0 where
  pub before_batch : Db → Db
  pub after_batch : Db → Db

unfoldable pub load_raw : Runtime → Db → Result Error (Option MaintenanceRow)
load_raw rt db =
    if db.online
    then elim db.row [ none ↦ ok none | some v ↦ normalize_row rt v >>= (λ r. ok (some r)) ]
    else err unavailable

-- Every error that is thrown here carries a code already, and passes the handler as it is.
unfoldable pub load_maintenance_state : Runtime → Db → Result Error (Option MaintenanceRow)
unfolding load_raw
load_maintenance_state rt db = load_raw rt db

abbrev pub is_unavailable : Error → Bool
is_unavailable e = elim e.code [ state_unavailable ↦ true | _ ↦ false ]

unfoldable pub transition_error : Error → Error
unfolding fail_as
transition_error e = if is_unavailable e then fail_as transition_failed 500 else e

abbrev pub caught {ℓ} : {A : Type ℓ} → (Error → Error) → Result Error A → Result Error A
caught f (ok a) = ok a
caught f (err e) = err (f e)

-- `UPDATE portal_maintenance_state SET … WHERE …` with its count of changes.
unfoldable pub update_row : (Row → Bool) → (Row → Row) → Db → Db × ℕ
update_row test change db = elim db.row [
  | none ↦ (db, 0)
  | some v ↦ if test v then (record db { row = some (change v) }, 1) else (db, 0)
]

-- `column = ?` in SQL, where NULL equals nothing.
abbrev pub cell_is : Option String → String → Bool
cell_is none t = false
cell_is (some s) t = str_eq s t

-- `column > ?` in SQL: NULL is not, and a text sorts behind every number.
abbrev pub cell_after : IntCell → ℕ → Bool
cell_after absent n = false
cell_after (int m) n = ltb n m
cell_after (negative m) n = false
cell_after (text_cell s) n = true

pub record TransitionInput : Type 0 where
  pub operation_id : Option Value
  pub controller_secret : Option Value
  pub confirmation : Option Value
  pub now : ℕ
  pub verification : Option Value

pub record Context : Type 0 where
  pub id : String
  pub hash : String
  pub now : ℕ

unfoldable pub is_expected : Option MaintenanceRow → State → String → Bool
unfolding state_text
is_expected none s id = false
is_expected (some r) s id =
    str_eq (state_text r.state) (state_text s)
    && cell_is r.operation_id id
    && filled r.controller_secret_hash

abbrev pub stored_hash : Option MaintenanceRow → String
stored_hash none = ""
stored_hash (some r) = elim r.controller_secret_hash [ none ↦ "" | some h ↦ h ]

abbrev pub is_entering : State → Bool
is_entering entering = true
is_entering _ = false

-- `row.expiresAt === null || row.expiresAt <= now`.
abbrev pub is_expired : Option MaintenanceRow → ℕ → Bool
is_expired none n = true
is_expired (some r) n = elim r.expires_at [ none ↦ true | some m ↦ leb m n ]

unfoldable pub authorize_transition :
    Runtime → Db → TransitionInput → Action → State → Result Error Context
unfolding operation_id_of controller_secret_of maintenance_confirmation safe_now load_raw
    is_expected controller_hash fixed_hash_equal fail_as is_text
authorize_transition rt db input action expected = do
  id ← operation_id_of input.operation_id
  secret ← controller_secret_of input.controller_secret
  phrase ← maintenance_confirmation action id
  guard (is_text input.confirmation phrase) (fail_as confirmation_required 422)
  now ← safe_now input.now
  row ← load_raw rt db
  guard (is_expected row expected id) (fail_as transition_invalid 409)
  guard (not (is_entering expected && is_expired row now)) (fail_as prepare_expired 409)
  hash ← controller_hash (rt.hash secret)
  guard (fixed_hash_equal (stored_hash row) hash) (fail_as controller_invalid 409)
  ok (record { id = id; hash = hash; now = now })

abbrev pub has_state : Option MaintenanceRow → State → Bool
has_state none s = false
has_state (some r) s = str_eq (state_text r.state) (state_text s)

unfoldable pub finish_transition : Runtime → ℕ → State → Db → Result Error MaintenanceRow
unfolding fail_as
finish_transition rt changes expected db = do
  guard (changes == 1) (fail_as transition_invalid 409)
  row ← load_raw rt db
  guard (has_state row expected) (fail_as transition_failed 500)
  elim row [ none ↦ err (fail_as transition_failed 500) | some r ↦ ok r ]

unfoldable pub settle : Runtime → Interference → Db × ℕ → State → Result Error MaintenanceRow × Db
settle rt i (written, changes) target =
    let after = i.after_batch written in
    (caught transition_error (finish_transition rt changes target after), after)

-- `db.batch(…)`, which runs in one transaction or throws, and the reading behind it.
unfoldable pub run_batch :
    Runtime → Interference → (Db → Db × ℕ) → State → Db → Result Error MaintenanceRow × Db
unfolding fail_as
run_batch rt i batch target db =
    let before = i.before_batch db in
    if before.online
    then settle rt i (batch before) target
    else (err (fail_as transition_failed 500), before)

-- An operation whose checks have passed runs its batch; one that threw leaves the database alone.
abbrev pub proceed :
    Result Error Context
    → (Context → Result Error MaintenanceRow × Db)
    → Db
    → Result Error MaintenanceRow × Db
proceed (ok c) run db = run c
proceed (err e) run db = (err (transition_error e), db)

-- `WHERE id = 'main' AND state = … AND operation_id = ? AND controller_secret_hash = ?`.
abbrev pub held_by : String → Context → Row → Bool
held_by state c v =
    str_eq v.state state && cell_is v.operation_id c.id && cell_is v.controller_secret_hash c.hash

-- `DELETE FROM portal_sessions WHERE EXISTS (…)`, the second statement of the batch.
unfoldable pub revoke : Context → Db → Db
revoke c db = elim db.row [
  | none ↦ db
  | some v ↦ if held_by "active" c v then record db { sessions = [] } else db
]

unfoldable pub enter_batch : Context → Db → Db × ℕ
enter_batch c db =
    let (activated, changes) =
      update_row (λ v. held_by "entering" c v && cell_after v.expires_at c.now)
        (λ v. record v { state = "active"; updated_at = int c.now; expires_at = absent }) db in
    (revoke c activated, changes)

unfoldable pub verify_batch : Context → Db → Db × ℕ
verify_batch c =
    update_row (held_by "active" c) (λ v. record v { state = "verifying"; updated_at = int c.now })

-- `JSON.stringify` of the five keys, each with "ok".
abbrev full_json : Runtime → String
full_json rt = rt.stringify (
    object (
      Fields.field "integrity" (str "ok") (
        Fields.field "schema" (str "ok") (
          Fields.field "administratorAccess" (str "ok") (
            Fields.field "settingsDecryption" (str "ok")
              (Fields.field "auditWrite" (str "ok") Fields.done))))))

unfoldable pub exit_batch : Runtime → Context → Db → Db × ℕ
exit_batch rt c =
    update_row (held_by "verifying" c) (λ v. record v {
      state = "exiting";
      verification_json = full_json rt;
      updated_at = int c.now;
    })

-- The row of an operation that is over: inactive, with the time of its completion.
abbrev pub cleared : ℕ → Row → Row
cleared now v = record v {
  state = "inactive";
  operation_id = none;
  actor_identity = none;
  actor_groups_json = "[]";
  controller_secret_hash = none;
  created_at = absent;
  updated_at = int now;
  expires_at = absent;
  completed_at = int now;
  failure_code = none;
  verification_json = "{}";
}

unfoldable pub complete_batch : Context → Db → Db × ℕ
complete_batch c = update_row (held_by "exiting" c) (cleared c.now)

unfoldable pub cancel_batch : Context → Db → Db × ℕ
cancel_batch c =
    update_row (λ v. held_by "entering" c v && cell_after v.expires_at c.now) (cleared c.now)

-- The checks of `exitMaintenance`: the request first, the report of the verification then.
abbrev pub authorize_exit : Runtime → Db → TransitionInput → Result Error Context
authorize_exit rt db input = do
  c ← authorize_transition rt db input exit verifying
  v ← validate_maintenance_verification input.verification
  ok c

module _ (rt : Runtime) (i : Interference) (input : TransitionInput) (db : Db) where
  unfoldable pub enter_maintenance : Result Error MaintenanceRow × Db
  enter_maintenance =
      proceed (authorize_transition rt db input enter entering)
        (λ c. run_batch rt i (enter_batch c) active db) db

  unfoldable pub start_maintenance_verification : Result Error MaintenanceRow × Db
  start_maintenance_verification =
      proceed (authorize_transition rt db input verify active)
        (λ c. run_batch rt i (verify_batch c) verifying db) db

  unfoldable pub exit_maintenance : Result Error MaintenanceRow × Db
  exit_maintenance =
      proceed (authorize_exit rt db input) (λ c. run_batch rt i (exit_batch rt c) exiting db) db

  unfoldable pub complete_maintenance : Result Error MaintenanceRow × Db
  complete_maintenance =
      proceed (authorize_transition rt db input complete exiting)
        (λ c. run_batch rt i (complete_batch c) inactive db) db

  unfoldable pub cancel_maintenance : Result Error MaintenanceRow × Db
  cancel_maintenance =
      proceed (authorize_transition rt db input cancel entering)
        (λ c. run_batch rt i (cancel_batch c) inactive db) db
