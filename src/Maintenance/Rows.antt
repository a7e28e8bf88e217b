-- ===== src/Maintenance/Rows.antt =====
-- src/recovery/maintenance/maintenance-repository.ts: the row of portal_maintenance_state, the
-- checks that it passes when it is loaded, and the checks of a request.
use freeipa_admin_dashboard.Base.{
  ℕ, String, Bool, true, false, ◌&&◌, ◌||◌, not, Option, none, some, List, map, str_eq, Result, ok,
  err, guard, ◌>>=◌, ◌>>◌, if◌then◌else◌, ltb, leb, ◌==◌, length, all, any, includes, unique,
  is_blank, js_length,
}
use freeipa_admin_dashboard.Base.Json.{
  Value, null, str, array, object, Items, items, entries, is_text,
}
use freeipa_admin_dashboard.Maintenance.Mode.{
  State, Error, fail_as, request_invalid, controller_invalid, state_unavailable, transition_failed,
  state_of, is_inactive, Verification, verification_keys, failure_codes, is_operation_id,
  is_controller_secret, is_hash, same_hash, max_safe,
}

-- A column of the affinity INTEGER; `negative n` is the number -(n + 1).
pub data IntCell : Type 0 where
  absent : IntCell
  int : ℕ → IntCell
  negative : ℕ → IntCell
  text_cell : String → IntCell

-- The columns of the row with the key 'main', a column TEXT that may be NULL as an option.
pub record Row : Type 0 where
  pub state : String
  pub operation_id : Option String
  pub actor_identity : Option String
  pub actor_groups_json : String
  pub controller_secret_hash : Option String
  pub created_at : IntCell
  pub updated_at : IntCell
  pub expires_at : IntCell
  pub completed_at : IntCell
  pub failure_code : Option String
  pub verification_json : String

-- `MaintenanceRow`.
pub record MaintenanceRow : Type 0 where
  pub state : State
  pub operation_id : Option String
  pub actor_identity : Option String
  pub actor_groups : List String
  pub controller_secret_hash : Option String
  pub created_at : Option ℕ
  pub updated_at : Option ℕ
  pub expires_at : Option ℕ
  pub completed_at : Option ℕ
  pub failure_code : Option String
  pub verification : Verification

-- The functions of the language that the file calls: `String.prototype.trim`, `Number` of a text
-- (`none`: no natural number), `String` of a value that is no text, `JSON.parse` (`none`: it
-- throws), `JSON.stringify`, `Array.prototype.sort` and the hash of a secret.
pub record Runtime : Type 0 where
  pub trim : String → String
  pub number_of : String → Option ℕ
  pub show : Value → String
  pub parse : String → Option Value
  pub stringify : Value → String
  pub sort : List String → List String
  pub hash : String → String

abbrev pub unavailable : Error
unavailable = record { code = state_unavailable; status = 503 }

abbrev pub invalid_request : Error
invalid_request = record { code = request_invalid; status = 400 }

unfoldable pub optional_integer : Runtime → IntCell → Result Error (Option ℕ)
optional_integer rt absent = ok none
optional_integer rt (int n) = if leb n max_safe then ok (some n) else err unavailable
optional_integer rt (negative n) = err unavailable
optional_integer rt (text_cell s) = elim (rt.number_of s) [
  | none ↦ err unavailable
  | some n ↦ if leb n max_safe then ok (some n) else err unavailable
]

-- `safeInteger(value ?? Date.now())`; 0 stands for every number that is not a natural number too.
unfoldable pub safe_now : ℕ → Result Error ℕ
safe_now n = if leb 1 n && leb n max_safe then ok n else err invalid_request

unfoldable pub operation_id_of : Option Value → Result Error String
operation_id_of (some (str s)) = if is_operation_id s then ok s else err invalid_request
operation_id_of _ = err invalid_request

unfoldable pub controller_secret_of : Option Value → Result Error String
unfolding fail_as
controller_secret_of (some (str s)) =
    if is_controller_secret s then ok s else err (fail_as controller_invalid 409)
controller_secret_of _ = err (fail_as controller_invalid 409)

unfoldable pub controller_hash : String → Result Error String
unfolding fail_as
controller_hash s = if is_hash s then ok s else err (fail_as transition_failed 500)

unfoldable pub fixed_hash_equal : String → String → Bool
fixed_hash_equal expected actual = is_hash expected && is_hash actual && same_hash expected actual

-- `String(item ?? "").trim()`.
unfoldable pub trimmed : Runtime → Option Value → String
trimmed rt none = rt.trim ""
trimmed rt (some null) = rt.trim ""
trimmed rt (some (str s)) = rt.trim s
trimmed rt (some v) = rt.trim (rt.show v)

abbrev pub too_long : String → Bool
too_long s = ltb 320 (js_length s)

unfoldable pub parse_json_object : Runtime → String → Result Error (List (String × Value))
unfolding entries
parse_json_object rt s =
    if ltb 16384 (js_length s)
    then err unavailable
    else elim (rt.parse s) [ some (object fs) ↦ ok (entries fs) | _ ↦ err unavailable ]

unfoldable pub accept_groups : List String → Result Error (List String)
accept_groups groups = do
  guard (not (any (λ g. is_blank g || too_long g) groups)) unavailable
  guard (length (unique groups) == length groups) unavailable
  ok groups

parse_group_items : Runtime → Items → Result Error (List String)
unfolding items accept_groups trimmed
parse_group_items rt is = do
  guard (not (ltb 128 (length (items is)))) unavailable
  accept_groups (map (λ v. trimmed rt (some v)) (items is))

unfoldable pub parse_groups : Runtime → String → Result Error (List String)
unfolding parse_group_items
parse_groups rt s =
    if ltb 65536 (js_length s)
    then err unavailable
    else elim (rt.parse s) [ some (array is) ↦ parse_group_items rt is | _ ↦ err unavailable ]

abbrev has_key : List (String × Value) → String → Bool
has_key o k = any (λ e. str_eq e.0 k) o

-- Each entry must be an allowed key with the value "ok", so a key is "ok" when it is present.
unfoldable pub parse_verification : Runtime → String → Result Error Verification
unfolding parse_json_object is_text
parse_verification rt s = do
  o ← parse_json_object rt s
  guard (all (λ e. includes verification_keys e.0 && is_text (some e.1) "ok") o) unavailable
  ok (record {
    integrity = has_key o "integrity";
    schema = has_key o "schema";
    administrator_access = has_key o "administratorAccess";
    settings_decryption = has_key o "settingsDecryption";
    audit_write = has_key o "auditWrite";
  })

abbrev pub is_some {ℓ} : {A : Type ℓ} → Option A → Bool
is_some (some a) = true
is_some none = false

abbrev pub filled : Option String → Bool
filled (some s) = not (is_blank s)
filled none = false

parse_state : String → Result Error State
unfolding state_of
parse_state s = elim (state_of s) [ some st ↦ ok st | none ↦ err unavailable ]

optional_operation_id : Option String → Result Error (Option String)
optional_operation_id none = ok none
optional_operation_id (some s) = if is_operation_id s then ok (some s) else err invalid_request

optional_hash : Option String → Result Error (Option String)
unfolding controller_hash
optional_hash none = ok none
optional_hash (some s) = do h ← controller_hash s; ok (some h)

optional_failure_code : Option String → Result Error (Option String)
optional_failure_code none = ok none
optional_failure_code (some s) = if includes failure_codes s then ok (some s) else err unavailable

trimmed_identity : Runtime → Option String → Option String
trimmed_identity rt none = none
trimmed_identity rt (some s) = some (rt.trim s)

-- `actorIdentity !== null && (!actorIdentity || actorIdentity.length > 320)`.
bad_identity : Option String → Bool
bad_identity none = false
bad_identity (some s) = is_blank s || too_long s

-- An inactive row names no operation; any other row names one, with its actor and its secret.
unfoldable pub has_consistent_state : MaintenanceRow → Bool
unfolding is_inactive
has_consistent_state r =
    if is_inactive r.state
    then not (is_some r.operation_id)
      && not (is_some r.actor_identity)
      && not (is_some r.controller_secret_hash)
      && not (is_some r.created_at)
      && not (is_some r.expires_at)
    else filled r.operation_id
      && filled r.actor_identity
      && filled r.controller_secret_hash
      && is_some r.created_at

unfoldable pub normalize_row : Runtime → Row → Result Error MaintenanceRow
unfolding parse_state optional_operation_id optional_hash optional_integer optional_failure_code
    parse_groups parse_verification bad_identity trimmed_identity has_consistent_state
normalize_row rt v = do
  state ← parse_state v.state
  operation_id ← optional_operation_id v.operation_id
  let actor_identity = trimmed_identity rt v.actor_identity
  secret_hash ← optional_hash v.controller_secret_hash
  created_at ← optional_integer rt v.created_at
  updated_at ← optional_integer rt v.updated_at
  expires_at ← optional_integer rt v.expires_at
  completed_at ← optional_integer rt v.completed_at
  failure_code ← optional_failure_code v.failure_code
  actor_groups ← parse_groups rt v.actor_groups_json
  verification ← parse_verification rt v.verification_json
  guard (is_some updated_at && not (bad_identity actor_identity)) unavailable
  let r : MaintenanceRow = record {
    state = state;
    operation_id = operation_id;
    actor_identity = actor_identity;
    actor_groups = actor_groups;
    controller_secret_hash = secret_hash;
    created_at = created_at;
    updated_at = updated_at;
    expires_at = expires_at;
    completed_at = completed_at;
    failure_code = failure_code;
    verification = verification;
  }
  guard (has_consistent_state r) unavailable
  ok r
