-- ===== src/Maintenance/Gate.antt =====
-- worker/maintenance-mode-gate.ts: which requests reach the portal while maintenance is on.
use freeipa_admin_dashboard.Base.{
  ℕ, String, Bool, true, false, ◌&&◌, not, Option, none, some, List, [], ◌∷◌, ◌≡◌, ◌⊎◌, ◌↔◌, inl,
  inr, refl, sym, ◌∙◌, subst, arith, str_eq, Result, ok, err, if◌then◌else◌, includes,
}
use text.Mathlib.Text.{starts_with}
use freeipa_admin_dashboard.Base.Json.{Value, null, nat, str, object, field, done}
use freeipa_admin_dashboard.Maintenance.Mode.{
  State, inactive, entering, active, verifying, exiting, failed, PublicStatus, is_inactive,
  state_text, public_maintenance_status, Error,
}
use freeipa_admin_dashboard.Maintenance.Rows.{Runtime, MaintenanceRow}
use freeipa_admin_dashboard.Maintenance.Transitions.{Db, load_maintenance_state}

abbrev public_status_path : String
public_status_path = "/api/maintenance/status"

abbrev health_path : String
health_path = "/api/integrations/health"

abbrev immediately_allowed : List String
immediately_allowed =
    "/api/admin/maintenance/status" ∷ "/api/admin/maintenance/prepare"
    ∷ "/api/admin/maintenance/enter" ∷ "/api/admin/maintenance/verification/start"
    ∷ "/api/admin/maintenance/exit" ∷ "/api/admin/maintenance/complete"
    ∷ "/api/admin/maintenance/cancel" ∷ "/api/admin/maintenance/verification/smoke"
    ∷ "/api/schema/status" ∷ "/api/admin/storage/status" ∷ "/api/admin/storage/integrity/check"
    ∷ "/api/admin/storage/migrations/preflight" ∷ []

-- What the gate answers: the response of the portal as it is, or with the state in its headers;
-- the status; or 503 with an error code and the state.
pub data Reply : Type 0 where
  forwarded : Reply
  forwarded_with : State → Reply
  status_of : PublicStatus → Reply
  unavailable_503 : Bool → State → Reply

-- The row as the value that `publicMaintenanceStatus` is handed; it reads these two keys of it.
abbrev row_value : Option MaintenanceRow → Option Value
row_value none = none
row_value (some r) = some (
    object (
      field "state" (str (state_text r.state))
        (field "updatedAt" (elim r.updated_at [ none ↦ null | some n ↦ nat n ]) done)))

pub record MaintenanceRead : Type 0 where
  pub status : PublicStatus
  pub unreadable : Bool

unfoldable pub unavailable_status : PublicStatus
unavailable_status = record {
  maintenance = true;
  state = failed;
  updated_at = none;
  recovery_required = true;
}

module _ (rt : Runtime) (number_of : Value → Option ℕ) where
  unfoldable pub read_maintenance : Option Db → MaintenanceRead
  unfolding unavailable_status
  read_maintenance none = record { status = unavailable_status; unreadable = true }
  read_maintenance (some db) = elim (load_maintenance_state rt db) [
    | ok row ↦ record {
      status = public_maintenance_status number_of (row_value row);
      unreadable = false;
    }
    | err e ↦ record { status = unavailable_status; unreadable = true }
  ]

  is_unbound : Option Db → Bool
  is_unbound none = true
  is_unbound (some db) = false

  active_response : MaintenanceRead → Reply
  active_response r = unavailable_503 r.unreadable r.status.state

  -- `bypass` is the marker of the schema tests; `none` is an environment with no database.
  unfoldable pub handle_maintenance_gate : String → Option Db → Bool → Reply
  unfolding is_unbound active_response
  handle_maintenance_gate path db bypass =
      let read = read_maintenance db in
      if not (starts_with path "/api/")
      then forwarded
      else if includes immediately_allowed path
      then forwarded
      else if is_unbound db && bypass
      then forwarded
      else if str_eq path public_status_path
      then status_of read.status
      else if str_eq path health_path
      then forwarded_with read.status.state
      else if not (is_inactive read.status.state)
      then active_response read
      else forwarded

  -- Whether the scheduled work of the portal runs.
  unfoldable pub handle_maintenance_scheduled_gate : Option Db → Bool → Bool
  unfolding is_unbound
  handle_maintenance_scheduled_gate db bypass =
      if is_unbound db && bypass then true else is_inactive (read_maintenance db).status.state

  status-state :
      (s : State) (v : Value)
      → (public_maintenance_status number_of
          (some (object (field "state" (str (state_text s)) (field "updatedAt" v done))))).state
        ≡ s
  unfolding public_maintenance_status state_text
  status-state inactive v = refl
  status-state entering v = refl
  status-state active v = refl
  status-state verifying v = refl
  status-state exiting v = refl
  status-state failed v = refl

  -- The gate lets a request pass where there is no row, or an inactive one.
  abbrev pub IsOpenLoad : Result Error (Option MaintenanceRow) → Type 0
  IsOpenLoad m = (m ≡ ok none) ⊎ ((r : MaintenanceRow) × (m ≡ ok (some r)) × (r.state ≡ inactive))

  abbrev pub IsOpen : Db → Type 0
  IsOpen db = IsOpenLoad (load_maintenance_state rt db)

  read_of : Result Error (Option MaintenanceRow) → MaintenanceRead
  read_of m = elim m [
    | ok row ↦ record {
      status = public_maintenance_status number_of (row_value row);
      unreadable = false;
    }
    | err e ↦ record { status = unavailable_status; unreadable = true }
  ]

  is_inactive-eq-true : (s : State) → is_inactive s ≡ true → s ≡ inactive
  unfolding is_inactive
  is_inactive-eq-true s h = ground arith

  inactive_of : (r : MaintenanceRow) → IsOpenLoad (ok (some r)) → is_inactive r.state ≡ true
  unfolding is_inactive
  inactive_of r (inl e) = cc
  inactive_of r (inr (q, e, here)) = ground arith

  not_open : (e : Error) → IsOpenLoad (err e) → ⊥
  not_open e (inl h) = cc
  not_open e (inr (q, h, here)) = cc

  open_iff :
      (m : Result Error (Option MaintenanceRow))
      → (is_inactive (read_of m).status.state ≡ true) ↔ IsOpenLoad m
  unfolding read_of unavailable_status
  open_iff (ok none) = (λ _. inl refl, λ _. unfold public_maintenance_status in refl)
  open_iff (ok (some r)) =
      let same = status-state r.state (elim r.updated_at [ none ↦ null | some n ↦ nat n ]) in
      (
        λ h. inr (r, refl, sym same ∙ is_inactive-eq-true _ h),
        λ h. subst (λ s. is_inactive s ≡ true) (sym same) (inactive_of r h),
      )
  open_iff (err e) = (λ h. absurd (failed_is_active h), λ h. absurd (not_open e h))
    where
      failed_is_active : is_inactive failed ≡ true → ⊥
      failed_is_active h = unfold is_inactive in cc

  gate_bool :
      (b : Bool) (r : MaintenanceRead)
      → ((if not b then active_response r else forwarded) ≡ forwarded) ↔ (b ≡ true)
  unfolding active_response
  gate_bool true r = (λ _. refl, λ _. refl)
  gate_bool false r = (λ h. cc, λ h. cc)

  -- A request under /api/ that is neither always allowed, nor for the status, nor for the health
  -- check reaches the portal exactly when maintenance is off: no row is stored or the row loads as
  -- inactive. A row that cannot be loaded stops it. The scheduled work runs under the same condition.
  pub handle_maintenance_gate_iff :
      (path : String) (db : Db) (bypass : Bool)
      → starts_with path "/api/" ≡ true
      → includes immediately_allowed path ≡ false
      → str_eq path public_status_path ≡ false
      → str_eq path health_path ≡ false
      → ((handle_maintenance_gate path (some db) bypass ≡ forwarded) ↔ IsOpen db)
        × ((handle_maintenance_scheduled_gate (some db) bypass ≡ true) ↔ IsOpen db)
  unfolding handle_maintenance_gate handle_maintenance_scheduled_gate read_maintenance read_of
  handle_maintenance_gate_iff path db bypass api listed status health =
      let o = open_iff (load_maintenance_state rt db) in
      let g =
        gate_bool (is_inactive (read_of (load_maintenance_state rt db)).status.state)
          (read_of (load_maintenance_state rt db)) in
      (rw (api, listed, status, health) (λ h. o.0 (g.0 h), λ h. g.1 (o.1 h)), o)
