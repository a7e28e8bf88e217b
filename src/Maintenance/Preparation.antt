-- ===== src/Maintenance/Preparation.antt =====
-- `prepareMaintenance` of src/recovery/maintenance/maintenance-repository.ts: the claim of the row by a
-- new operation.
use freeipa_admin_dashboard.Base.{
  ℕ, ◌+◌, String, Bool, false, ◌&&◌, ◌||◌, not, Option, none, some, List, [], ◌∷◌, map, str_eq,
  Result, ok, err, guard, ◌>>=◌, ◌>>◌, if◌then◌else◌, leb, ◌==◌, length, any, keep, unique,
  is_blank,
}
use freeipa_admin_dashboard.Base.Json.{
  Value, str, array, object, Items, end, item, items, entries, get,
}
use freeipa_admin_dashboard.Maintenance.Mode.{
  entering, Error, fail_as, state_unavailable, transition_failed, operation_conflict, state_text,
}
use freeipa_admin_dashboard.Maintenance.Rows.{
  absent, int, Row, MaintenanceRow, Runtime, invalid_request, safe_now, operation_id_of,
  controller_secret_of, controller_hash, trimmed, too_long,
}
use freeipa_admin_dashboard.Maintenance.Transitions.{
  is_unavailable, Db, Interference, load_raw, transition_error, caught, update_row, cell_is,
  Context,
}

pub record Actor : Type 0 where
  pub identity : String
  pub groups : List String

actor_from : Runtime → Option Value → List Value → Result Error Actor
unfolding trimmed
actor_from rt identity_value group_values = do
  let identity = trimmed rt identity_value
  guard (not (is_blank identity || too_long identity)) invalid_request
  guard (leb (length group_values) 128) invalid_request
  let groups =
      rt.sort (keep (λ g. not (is_blank g)) (unique (map (λ v. trimmed rt (some v)) group_values)))
  guard (not (any too_long groups)) invalid_request
  ok (record { identity = identity; groups = groups })

unfoldable pub actor_context : Runtime → Option Value → Result Error Actor
unfolding actor_from get entries items
actor_context rt (some (object fs)) = elim (get "groups" (entries fs)) [
  | some (array is) ↦ actor_from rt (get "identity" (entries fs)) (items is)
  | _ ↦ err invalid_request
]
actor_context rt _ = err invalid_request

-- `PrepareOptions` with what its functions return; `ttl_ms` is none where it is left out.
pub record PrepareOptions : Type 0 where
  pub now : ℕ
  pub ttl_ms : Option ℕ
  pub new_id : String
  pub new_secret : String

unfoldable pub safe_ttl : Option ℕ → Result Error ℕ
safe_ttl none = ok 900000
safe_ttl (some n) = if leb 60000 n && leb n 3600000 then ok n else err invalid_request

groups_json : List String → Items
groups_json [] = end
groups_json (g ∷ gs) = item (str g) (groups_json gs)

-- `INSERT OR IGNORE` of the inactive row, then the claim of an inactive row.
unfoldable pub initial_row : ℕ → Row
initial_row now = record {
  state = "inactive";
  operation_id = none;
  actor_identity = none;
  actor_groups_json = "[]";
  controller_secret_hash = none;
  created_at = absent;
  updated_at = int now;
  expires_at = absent;
  completed_at = absent;
  failure_code = none;
  verification_json = "{}";
}

unfoldable pub initialize : ℕ → Db → Db
unfolding initial_row
initialize now db = elim db.row [ none ↦ record db { row = some (initial_row now) } | some v ↦ db ]

unfoldable pub claimed : Runtime → Actor → Context → ℕ → Row → Row
unfolding groups_json
claimed rt actor c expires_at v = record v {
  state = "entering";
  operation_id = some c.id;
  actor_identity = some actor.identity;
  actor_groups_json = rt.stringify (array (groups_json actor.groups));
  controller_secret_hash = some c.hash;
  created_at = int c.now;
  updated_at = int c.now;
  expires_at = int expires_at;
  completed_at = absent;
  failure_code = none;
  verification_json = "{}";
}

unfoldable pub claim_batch : Runtime → Actor → Context → ℕ → Db → Db × ℕ
claim_batch rt actor c expires_at db =
    update_row (λ v. str_eq v.state "inactive") (claimed rt actor c expires_at)
      (initialize c.now db)

pub record Claim : Type 0 where
  pub actor : Actor
  pub context : Context
  pub expires_at : ℕ
  pub secret : String

unfoldable pub prepare_claim : Runtime → Option Value → PrepareOptions → Result Error Claim
unfolding actor_context safe_now safe_ttl operation_id_of controller_secret_of controller_hash
prepare_claim rt actor_value options = do
  actor ← actor_context rt actor_value
  now ← safe_now options.now
  ttl ← safe_ttl options.ttl_ms
  id ← operation_id_of (some (str options.new_id))
  secret ← controller_secret_of (some (str options.new_secret))
  hash ← controller_hash (rt.hash secret)
  ok (record {
    actor = actor;
    context = record { id = id; hash = hash; now = now };
    expires_at = now + ttl;
    secret = secret;
  })

-- `row.operationId !== id || row.controllerSecretHash !== hash` as well as the state.
abbrev is_claimed_by : Context → Option MaintenanceRow → Bool
is_claimed_by c none = false
is_claimed_by c (some r) =
    str_eq (state_text r.state) (state_text entering)
    && cell_is r.operation_id c.id
    && cell_is r.controller_secret_hash c.hash

unfoldable pub finish_prepare : Runtime → Claim → ℕ → Db → Result Error (MaintenanceRow × String)
unfolding fail_as
finish_prepare rt claim changes db = do
  guard (changes == 1) (fail_as operation_conflict 409)
  row ← load_raw rt db
  guard (is_claimed_by claim.context row) (fail_as transition_failed 500)
  elim row [ none ↦ err (fail_as transition_failed 500) | some r ↦ ok (r, claim.secret) ]

-- The handler of `prepareMaintenance`: `transitionError` first, then one more look at the code.
unfoldable pub prepare_error : Error → Error
unfolding transition_error fail_as
prepare_error e =
    let n = transition_error e in if is_unavailable n then fail_as state_unavailable 503 else n

unfoldable pub settle_prepare :
    Runtime → Interference → Claim → Db × ℕ → Result Error (MaintenanceRow × String) × Db
settle_prepare rt i claim (written, changes) =
    let after = i.after_batch written in
    (caught prepare_error (finish_prepare rt claim changes after), after)

unfoldable pub claim_row :
    Runtime → Interference → Db → Result Error Claim → Result Error (MaintenanceRow × String) × Db
unfolding fail_as
claim_row rt i db (err e) = (err (prepare_error e), db)
claim_row rt i db (ok claim) =
    let before = i.before_batch db in
    if before.online
    then settle_prepare rt i claim
        (claim_batch rt claim.actor claim.context claim.expires_at before)
    else (err (prepare_error (fail_as transition_failed 500)), before)

unfoldable pub prepare_maintenance :
    Runtime
    → Interference
    → Option Value
    → PrepareOptions
    → Db
    → Result Error (MaintenanceRow × String) × Db
prepare_maintenance rt i actor_value options db =
    claim_row rt i db (prepare_claim rt actor_value options)
