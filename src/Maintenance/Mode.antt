-- ===== src/Maintenance/Mode.antt =====
-- src/recovery/maintenance/maintenance-mode.ts: the states of maintenance, the checks of what a
-- request or a row carries, the confirmation phrase and the two views of the status.
use Prim.Native.String
use freeipa_admin_dashboard.Base.{
  ℕ, String, Bool, true, false, ◌&&◌, not, Option, none, some, List, [], ◌∷◌, ◌++◌, str_eq, Result,
  ok, err, guard, ◌>>◌, if◌then◌else◌, ◌==◌, length, all, includes, matches, times, any_case,
  uuid_classes, is_hex, is_base64_url,
}
use freeipa_admin_dashboard.Base.Json.{Value, null, str, object, entries, get, is_text}
use freeipa_admin_dashboard.Base.Compare.{codes, difference_from}

pub data State : Type 0 where
  inactive entering active verifying exiting failed : State

pub data Action : Type 0 where
  enter verify exit complete cancel : Action

unfoldable pub state_text : State → String
state_text inactive = "inactive"
state_text entering = "entering"
state_text active = "active"
state_text verifying = "verifying"
state_text exiting = "exiting"
state_text failed = "failed"

-- The lookup in `MAINTENANCE_STATES`.
unfoldable pub state_of : String → Option State
state_of s =
    if str_eq s "inactive"
    then some inactive
    else if str_eq s "entering"
    then some entering
    else if str_eq s "active"
    then some active
    else if str_eq s "verifying"
    then some verifying
    else if str_eq s "exiting"
    then some exiting
    else if str_eq s "failed"
    then some failed
    else none

-- The fields of `Partial<MaintenanceVerification>`: true where the key is present with "ok".
pub record Verification : Type 0 where
  pub integrity : Bool
  pub schema : Bool
  pub administrator_access : Bool
  pub settings_decryption : Bool
  pub audit_write : Bool

unfoldable pub no_verification : Verification
no_verification = record {
  integrity = false;
  schema = false;
  administrator_access = false;
  settings_decryption = false;
  audit_write = false;
}

unfoldable pub full_verification : Verification
full_verification = record {
  integrity = true;
  schema = true;
  administrator_access = true;
  settings_decryption = true;
  audit_write = true;
}

-- The error codes of this file and of maintenance-repository.ts, and the status that goes along.
pub data Code : Type 0 where
  request_invalid controller_invalid verification_invalid : Code
  state_unavailable transition_failed operation_conflict : Code
  confirmation_required transition_invalid prepare_expired : Code

pub record Error : Type 0 where
  pub code : Code
  pub status : ℕ

unfoldable pub fail_as : Code → ℕ → Error
fail_as c n = record { code = c; status = n }

abbrev pub verification_keys : List String
verification_keys =
    "integrity" ∷ "schema" ∷ "administratorAccess" ∷ "settingsDecryption" ∷ "auditWrite" ∷ []

abbrev pub failure_codes : List String
failure_codes =
    "maintenance_state_unavailable" ∷ "maintenance_transition_failed"
    ∷ "maintenance_verification_failed" ∷ "maintenance_recovery_failed" ∷ []

-- `operationIdPattern`, `controllerSecretPattern` and `sha256Pattern`.
unfoldable pub is_operation_id : String → Bool
unfolding matches any_case uuid_classes
is_operation_id s = matches (any_case "maintenance_" ++ uuid_classes) s

unfoldable pub is_controller_secret : String → Bool
unfolding matches times is_base64_url
is_controller_secret s = matches (times 43 is_base64_url) s

unfoldable pub is_hash : String → Bool
unfolding matches times is_hex
is_hash s = matches (times 64 is_hex) s

-- `Number.MAX_SAFE_INTEGER`.
abbrev pub max_safe : ℕ
max_safe = 9007199254740991

-- The loop over 64 characters; both texts have passed the pattern, so they are that long.
unfoldable pub same_hash : String → String → Bool
unfolding difference_from
same_hash expected actual = difference_from 0 (codes expected) (codes actual) == 0

unfoldable pub safe_operation_id : Option Value → Option String
safe_operation_id (some (str s)) = if is_operation_id s then some s else none
safe_operation_id _ = none

unfoldable pub safe_failure_code : Option Value → Option String
safe_failure_code (some (str s)) = if includes failure_codes s then some s else none
safe_failure_code _ = none

unfoldable pub safe_verification : Option Value → Verification
unfolding get entries is_text no_verification
safe_verification (some (object fs)) = record {
  integrity = is_text (get "integrity" (entries fs)) "ok";
  schema = is_text (get "schema" (entries fs)) "ok";
  administrator_access = is_text (get "administratorAccess" (entries fs)) "ok";
  settings_decryption = is_text (get "settingsDecryption" (entries fs)) "ok";
  audit_write = is_text (get "auditWrite" (entries fs)) "ok";
}
safe_verification _ = no_verification

pub record Normalized : Type 0 where
  pub state : State
  pub operation_id : Option String
  pub created_at : Option ℕ
  pub updated_at : Option ℕ
  pub expires_at : Option ℕ
  pub completed_at : Option ℕ
  pub failure_code : Option String
  pub verification : Verification

abbrev empty_status : State → Option String → Normalized
empty_status s code = record {
  state = s;
  operation_id = none;
  created_at = none;
  updated_at = none;
  expires_at = none;
  completed_at = none;
  failure_code = code;
  verification = record {
    integrity = false;
    schema = false;
    administrator_access = false;
    settings_decryption = false;
    audit_write = false;
  };
}

-- `value ?? other` on optional texts.
abbrev or_else : Option String → Option String → Option String
or_else (some s) t = some s
or_else none t = t

-- The state that `normalizedStatus` reads: anything but the text of a state is `failed`.
unfoldable pub read_state : Option Value → State
unfolding state_of
read_state (some (str s)) = elim (state_of s) [ some st ↦ st | none ↦ failed ]
read_state _ = failed

unfoldable pub is_inactive : State → Bool
is_inactive inactive = true
is_inactive _ = false

pub record PublicStatus : Type 0 where
  pub maintenance : Bool
  pub state : State
  pub updated_at : Option ℕ
  pub recovery_required : Bool

pub record AdminStatus : Type 0 where
  pub maintenance : Bool
  pub state : State
  pub updated_at : Option ℕ
  pub recovery_required : Bool
  pub operation_id : Option String
  pub created_at : Option ℕ
  pub expires_at : Option ℕ
  pub completed_at : Option ℕ
  pub failure_code : Option String
  pub verification : Verification

abbrev is_failed : State → Bool
is_failed failed = true
is_failed _ = false

-- `Number(value)` where it is a safe integer that is not negative, and `none` for every other
-- result: the conversion of a text, a list or an object to a number is the language's.
module _ (number_of : Value → Option ℕ) where
  unfoldable pub safe_timestamp : Option Value → Option ℕ
  safe_timestamp none = none
  safe_timestamp (some null) = none
  safe_timestamp (some v) = number_of v

  normalized_object : List (String × Value) → Normalized
  unfolding get safe_timestamp safe_operation_id safe_failure_code safe_verification read_state
  normalized_object o =
      let st = read_state (get "state" o) in
      let code = safe_failure_code (get "failureCode" o) in
      record {
        state = st;
        operation_id = safe_operation_id (get "operationId" o);
        created_at = safe_timestamp (get "createdAt" o);
        updated_at = safe_timestamp (get "updatedAt" o);
        expires_at = safe_timestamp (get "expiresAt" o);
        completed_at = safe_timestamp (get "completedAt" o);
        failure_code =
            if is_failed st then or_else code (some "maintenance_state_unavailable") else code;
        verification = safe_verification (get "verification" o);
      }

  unfoldable pub normalized_status : Option Value → Normalized
  unfolding normalized_object entries
  normalized_status none = empty_status inactive none
  normalized_status (some null) = empty_status inactive none
  normalized_status (some (object fs)) = normalized_object (entries fs)
  normalized_status (some _) = empty_status failed (some "maintenance_state_unavailable")

  unfoldable pub public_maintenance_status : Option Value → PublicStatus
  unfolding normalized_status is_inactive
  public_maintenance_status value =
      let n = normalized_status value in
      record {
        maintenance = not (is_inactive n.state);
        state = n.state;
        updated_at = n.updated_at;
        recovery_required = not (is_inactive n.state);
      }

  unfoldable pub admin_maintenance_status : Option Value → AdminStatus
  unfolding normalized_status is_inactive
  admin_maintenance_status value =
      let n = normalized_status value in
      record {
        maintenance = not (is_inactive n.state);
        state = n.state;
        operation_id = n.operation_id;
        created_at = n.created_at;
        updated_at = n.updated_at;
        expires_at = n.expires_at;
        completed_at = n.completed_at;
        recovery_required = not (is_inactive n.state);
        failure_code = n.failure_code;
        verification = n.verification;
      }

abbrev prefix : Action → String
prefix enter = "ENTER"
prefix verify = "VERIFY"
prefix exit = "EXIT"
prefix complete = "RESUME"
prefix cancel = "CANCEL"

-- The phrase that a request repeats to confirm an action on an operation.
unfoldable pub maintenance_confirmation : Action → String → Result Error String
unfolding is_operation_id fail_as
maintenance_confirmation a id = do
  guard (is_operation_id id) (fail_as request_invalid 400)
  ok (String.◌++◌ (String.◌++◌ (prefix a) ":") id)

abbrev is_ok_at : List (String × Value) → String → Bool
is_ok_at o key = is_text (get key o) "ok"

unfoldable pub is_full_verification : Option Value → Bool
unfolding get entries is_text
is_full_verification (some (object fs)) =
    (length (entries fs) == 5)
    && all (λ e. includes verification_keys e.0) (entries fs)
    && all (is_ok_at (entries fs)) verification_keys
is_full_verification _ = false

unfoldable pub validate_maintenance_verification : Option Value → Result Error Verification
unfolding is_full_verification fail_as full_verification
validate_maintenance_verification value = do
  guard (is_full_verification value) (fail_as verification_invalid 422)
  ok full_verification

module _ (sha256 : String → String) where
  -- The digest of the secret in hexadecimal: `crypto.subtle.digest` is the argument `sha256`.
  unfoldable pub hash_maintenance_controller_secret : Option Value → Result Error String
  unfolding is_controller_secret fail_as
  hash_maintenance_controller_secret (some (str s)) = do
    guard (is_controller_secret s) (fail_as controller_invalid 400)
    ok (sha256 s)
  hash_maintenance_controller_secret _ = err (fail_as controller_invalid 400)

  unfoldable pub verify_maintenance_controller_secret : Option Value → Option Value → Bool
  unfolding is_controller_secret is_hash same_hash
  verify_maintenance_controller_secret (some (str expected)) (some (str secret)) =
      is_hash expected && is_controller_secret secret && same_hash expected (sha256 secret)
  verify_maintenance_controller_secret _ _ = false
