-- ===== src/Maintenance/Tests.antt =====
-- A life of maintenance from its preparation to its end, and the theorems at its steps.
use freeipa_admin_dashboard.Base.{
  ℕ, String, true, false, Option, none, some, [], ◌∷◌, ◌≡◌, ◌≢◌, ◌⊎◌, ◌↔◌, refl, arith, str_eq,
  js_length, ok, err, if◌then◌else◌,
}
use freeipa_admin_dashboard.Base.Json.{Value, str, array, object, end, field, done}
use freeipa_admin_dashboard.Maintenance.Mode.{
  State, entering, Code, enter, cancel, Verification, transition_failed, state_unavailable,
  same_hash, validate_maintenance_verification, is_hash, is_controller_secret, full_verification,
  no_verification, verify_maintenance_controller_secret,
}
use freeipa_admin_dashboard.Maintenance.Rows.{
  IntCell, absent, int, Row, MaintenanceRow, Runtime, normalize_row, fixed_hash_equal,
}
use freeipa_admin_dashboard.Maintenance.Transitions.{
  Db, Interference, TransitionInput, exit_maintenance, update_row, authorize_transition, run_batch,
  settle, finish_transition, enter_batch, exit_batch, revoke, enter_maintenance, transition_error,
  load_raw,
}
use freeipa_admin_dashboard.Maintenance.Preparation.{
  PrepareOptions, prepare_maintenance, prepare_claim, claim_batch, claim_row, settle_prepare,
  finish_prepare, initialize, claimed, initial_row, prepare_error,
}
use freeipa_admin_dashboard.Maintenance.Secrets.{
  fixed_hash_equal-eq-true_iff, verify_maintenance_controller_secret_iff,
}
use freeipa_admin_dashboard.Maintenance.Operations.{IsPerformed, perform, perform-IsPerformed}
use freeipa_admin_dashboard.Maintenance.Report.{IsReport, exit_maintenance-IsReport}
use freeipa_admin_dashboard.Maintenance.Prepare.{
  IsExpired, prepare_maintenance-ne-unavailable, prepare_maintenance_exclusive, perform_expired,
}
use freeipa_admin_dashboard.Maintenance.Gate.{
  IsOpen, forwarded, handle_maintenance_gate, handle_maintenance_scheduled_gate,
  handle_maintenance_gate_iff,
}

abbrev hash_text : String
hash_text = "0123456789abcdef0123456789abcdef0123456789abcdef0123456789abcdef"

abbrev secret_text : String
secret_text = "abcdefghijklmnopqrstuvwxyz-0123456789_ABCDE"

abbrev id_text : String
id_text = "maintenance_00000000-0000-4000-8000-000000000000"

abbrev report : Value
report = object (
    field "integrity" (str "ok") (
      field "schema" (str "ok") (
        field "administratorAccess" (str "ok")
          (field "settingsDecryption" (str "ok") (field "auditWrite" (str "ok") done)))))

-- The texts "[]", "{}" and "report" stand for the values that the program stores.
abbrev runtime : Runtime
runtime = record {
  trim = λ s. s;
  number_of = λ s. none;
  show = λ v. "";
  parse = λ s.
      if str_eq s "[]"
      then some (array end)
      else if str_eq s "{}"
      then some (object done)
      else if str_eq s "report"
      then some report
      else none;
  stringify = λ v. elim v [ array is ↦ "[]" | _ ↦ "report" ];
  sort = λ l. l;
  hash = λ s. hash_text;
}

abbrev idle : Interference
idle = record { before_batch = λ d. d; after_batch = λ d. d }

abbrev actor : Value
actor = object (field "identity" (str "ann@example") (field "groups" (array end) done))

abbrev options : PrepareOptions
options = record { now = 1000; ttl_ms = none; new_id = id_text; new_secret = secret_text }

abbrev fresh : Db
fresh = record { online = true; row = none; sessions = "s1" ∷ "s2" ∷ [] }

abbrev ask : String → ℕ → TransitionInput
ask phrase now = record {
  operation_id = some (str id_text);
  controller_secret = some (str secret_text);
  confirmation = some (str phrase);
  now = now;
  verification = some report;
}

abbrev stored : String → IntCell → Row
stored state expires = record {
  state = state;
  operation_id = some id_text;
  actor_identity = some "ann@example";
  actor_groups_json = "[]";
  controller_secret_hash = some hash_text;
  created_at = int 1000;
  updated_at = int 1000;
  expires_at = expires;
  completed_at = absent;
  failure_code = none;
  verification_json = "{}";
}

abbrev with_row : Row → Db
with_row v = record { online = true; row = some v; sessions = "s1" ∷ [] }

abbrev loaded : State → Option ℕ → Verification → MaintenanceRow
loaded state expires v = record {
  state = state;
  operation_id = some id_text;
  actor_identity = some "ann@example";
  actor_groups = [];
  controller_secret_hash = some hash_text;
  created_at = some 1000;
  updated_at = some 1000;
  expires_at = expires;
  completed_at = none;
  failure_code = none;
  verification = v;
}

all_of : Unit {0}
unfolding normalize_row prepare_maintenance prepare_claim claim_batch claim_row settle_prepare
    finish_prepare initialize update_row claimed initial_row authorize_transition run_batch settle
    finish_transition enter_batch exit_batch revoke enter_maintenance exit_maintenance
    no_verification full_verification transition_error prepare_error load_raw is_controller_secret
    is_hash js_length same_hash validate_maintenance_verification
all_of = tt

abbrev nothing_verified : Verification
nothing_verified = record {
  integrity = false;
  schema = false;
  administrator_access = false;
  settings_decryption = false;
  audit_write = false;
}

abbrev all_verified : Verification
all_verified = record {
  integrity = true;
  schema = true;
  administrator_access = true;
  settings_decryption = true;
  audit_write = true;
}

prepared :
    (prepare_maintenance runtime idle (some actor) options fresh).0
    ≡ ok (loaded entering (some 901000) nothing_verified, secret_text)
unfolding all_of
prepared = refl

abbrev at_two : MaintenanceRow → MaintenanceRow
at_two r = record r { updated_at = some 2000 }

abbrev enter_phrase : String
enter_phrase = "ENTER:maintenance_00000000-0000-4000-8000-000000000000"

abbrev exit_phrase : String
exit_phrase = "EXIT:maintenance_00000000-0000-4000-8000-000000000000"

entered :
    (perform enter runtime idle
      (ask enter_phrase 2000)
      (with_row (stored "entering" (int 901000)))).0
    ≡ ok (at_two (loaded State.active none nothing_verified))
unfolding all_of
entered = refl

sessions_revoked :
    (perform enter runtime idle
      (ask enter_phrase 2000)
      (with_row (stored "entering" (int 901000)))).1.sessions
    ≡ []
unfolding all_of
sessions_revoked = refl

exited :
    (exit_maintenance runtime idle (ask exit_phrase 2000) (with_row (stored "verifying" absent))).0
    ≡ ok (at_two (loaded State.exiting none all_verified))
unfolding all_of
exited = refl

perform-IsPerformed_example :
    IsPerformed enter runtime idle
      (ask enter_phrase 2000)
      (with_row (stored "entering" (int 901000)))
      (at_two (loaded State.active none nothing_verified))
perform-IsPerformed_example =
    perform-IsPerformed enter runtime idle (ask enter_phrase 2000)
      (with_row (stored "entering" (int 901000))) entered

exit_maintenance-IsReport_example : IsReport (some report)
exit_maintenance-IsReport_example =
    exit_maintenance-IsReport runtime idle (ask exit_phrase 2000)
      (with_row (stored "verifying" absent)) exited

fixed_hash_equal-eq-true_iff_example :
    (fixed_hash_equal hash_text hash_text ≡ true)
    ↔ ((is_hash hash_text ≡ true) × (hash_text ≡ hash_text))
fixed_hash_equal-eq-true_iff_example = fixed_hash_equal-eq-true_iff hash_text hash_text

hash_text-IsHash : is_hash hash_text ≡ true
unfolding is_hash
hash_text-IsHash = refl

verify_maintenance_controller_secret_iff_example :
    (verify_maintenance_controller_secret
        (λ s. hash_text)
        (some (str hash_text))
        (some (str secret_text))
      ≡ true)
    ↔ ((is_controller_secret secret_text ≡ true) × (hash_text ≡ hash_text))
verify_maintenance_controller_secret_iff_example =
    verify_maintenance_controller_secret_iff (λ s. hash_text) (λ s. hash_text-IsHash) hash_text
      secret_text

abbrev offline : Db
offline = record fresh { online = false }

prepare_offline :
    (prepare_maintenance runtime idle (some actor) options offline).0
    ≡ err (record { code = transition_failed; status = 500 })
unfolding all_of
prepare_offline = refl

prepare_maintenance-ne-unavailable_example : ◌≢◌ {A = Code} transition_failed state_unavailable
prepare_maintenance-ne-unavailable_example =
    prepare_maintenance-ne-unavailable runtime idle (some actor) options offline prepare_offline

prepare_maintenance_exclusive_example :
    (fresh.row ≡ none) ⊎ ((v : Row) × (fresh.row ≡ some v) × (v.state ≡ "inactive"))
prepare_maintenance_exclusive_example =
    prepare_maintenance_exclusive runtime idle (some actor) options fresh prepared

abbrev late : Db
late = with_row (stored "entering" (int 901000))

late-IsExpired : IsExpired runtime late 901000
unfolding all_of
late-IsExpired =
    (loaded entering (some 901000) nothing_verified, refl, refl, (901000, refl, omega arith))

abbrev cancel_phrase : String
cancel_phrase = "CANCEL:maintenance_00000000-0000-4000-8000-000000000000"

perform_expired_example :
    ((perform cancel runtime idle (ask cancel_phrase 901000) late).1 ≡ late)
    × ((r : MaintenanceRow)
        → (perform cancel runtime idle (ask cancel_phrase 901000) late).0 ≢ ok r)
perform_expired_example =
    perform_expired cancel runtime idle (ask cancel_phrase 901000) late late-IsExpired

handle_maintenance_gate_iff_example :
    ((handle_maintenance_gate runtime (λ v. none) "/api/integrations/users" (some fresh) false
        ≡ forwarded)
      ↔ IsOpen runtime (λ v. none) fresh)
    × ((handle_maintenance_scheduled_gate runtime (λ v. none) (some fresh) false ≡ true)
        ↔ IsOpen runtime (λ v. none) fresh)
handle_maintenance_gate_iff_example =
    handle_maintenance_gate_iff runtime (λ v. none) "/api/integrations/users" fresh false refl refl
      refl refl
