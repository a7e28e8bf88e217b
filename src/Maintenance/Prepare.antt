-- ===== src/Maintenance/Prepare.antt =====
-- Starting maintenance, and an operation that was prepared and not entered in time.
use freeipa_admin_dashboard.Base.{
  ℕ, ◌≤◌, String, Bool, true, false, Option, none, some, ◌≡◌, ◌≢◌, ◌⊎◌, inl, inr, refl, sym, ap,
  ◌∙◌, arith, str_eq, eq_iff, Result, ok, err, >>=-elim, guard-elim, if◌then◌else◌, subst, ◌==◌,
  Option-cases, ==_iff,
}
use freeipa_admin_dashboard.Base.Json.{Value}
use freeipa_admin_dashboard.Maintenance.Mode.{
  entering, verifying, Action, enter, verify, exit, complete, cancel, Error, state_unavailable,
}
use freeipa_admin_dashboard.Maintenance.Rows.{Row, MaintenanceRow, Runtime}
use freeipa_admin_dashboard.Maintenance.Transitions.{
  Db, Interference, TransitionInput, Context, load_raw, caught, authorize_transition,
  authorize_exit, exit_maintenance, proceed, enter_maintenance, start_maintenance_verification,
  complete_maintenance, cancel_maintenance,
}
use freeipa_admin_dashboard.Maintenance.Preparation.{
  PrepareOptions, prepare_maintenance, prepare_error, claim_row, settle_prepare, prepare_claim,
  claim_batch, initialize, finish_prepare, Claim,
}
use freeipa_admin_dashboard.Maintenance.Operations.{perform, source, update_row-count}
use freeipa_admin_dashboard.Maintenance.Ownership.{authorize_transition-eq-ok}

prepare_error-ne-unavailable : (e : Error) → (prepare_error e).code ≢ state_unavailable
unfolding prepare_error
prepare_error-ne-unavailable e = ground arith

err_injective : {A : Type 0} {x y : Error} → ◌≡◌ {A = Result Error A} (err x) (err y) → x ≡ y
err_injective h = cc

caught-code :
    {A : Type 0} (m : Result Error A) {e : Error}
    → caught prepare_error m ≡ err e
    → e.code ≢ state_unavailable
caught-code (ok a) h = cc
caught-code (err e) {e = e'} h =
    let same : prepare_error e ≡ e' = err_injective h in
    subst (λ x. x.code ≢ state_unavailable) same (prepare_error-ne-unavailable e)

reached-code :
    {A : Type 0} (up : Bool) (m : Result Error A × Db) (e : Error) (d : Db) {x : Error}
    → (m.0 ≡ err x → x.code ≢ state_unavailable)
    → (if up then m else (err (prepare_error e), d)).0 ≡ err x
    → x.code ≢ state_unavailable
reached-code true m e d settled h = settled h
reached-code false m e d settled h =
    subst (λ x. x.code ≢ state_unavailable) (err_injective h) (prepare_error-ne-unavailable e)

claim_row-code :
    (rt : Runtime) (i : Interference) (db : Db) (m : Result Error Claim) {x : Error}
    → (claim_row rt i db m).0 ≡ err x
    → x.code ≢ state_unavailable
unfolding claim_row settle_prepare
claim_row-code rt i db (err e) h =
    subst (λ x. x.code ≢ state_unavailable) (err_injective h) (prepare_error-ne-unavailable e)
claim_row-code rt i db (ok claim) h =
    reached-code (i.before_batch db).online _ _ _ (λ k. caught-code _ k) h

-- `prepareMaintenance` never fails with the code maintenance_state_unavailable, whatever the
-- request, the database and other workers do.
pub prepare_maintenance-ne-unavailable :
    (rt : Runtime) (i : Interference) (actor : Option Value) (options : PrepareOptions) (db : Db)
    {e : Error}
    → (prepare_maintenance rt i actor options db).0 ≡ err e
    → e.code ≢ state_unavailable
unfolding prepare_maintenance
prepare_maintenance-ne-unavailable rt i actor options db h =
    claim_row-code rt i db (prepare_claim rt actor options) h

caught-prepare_error-eq-ok :
    {A : Type 0} (m : Result Error A) {a : A} → caught prepare_error m ≡ ok a → m ≡ ok a
caught-prepare_error-eq-ok (ok a) h = h
caught-prepare_error-eq-ok (err e) h = cc

finish_prepare-count :
    (rt : Runtime) (c : Claim) (n : ℕ) (db : Db) {r : MaintenanceRow × String}
    → finish_prepare rt c n db ≡ ok r
    → n ≡ 1
unfolding finish_prepare
finish_prepare-count rt c n db h = guard-elim (n == 1) _ _ h λ one _. (==_iff n 1).0 one

initialize-row : (now : ℕ) (db : Db) {v : Row} → db.row ≡ some v → (initialize now db).row ≡ some v
unfolding initialize
initialize-row now db h = ground arith

same_state : {v w : Row} → ◌≡◌ {A = Option Row} (some v) (some w) → w.state ≡ v.state
same_state h = cc

claim_test :
    (rt : Runtime) (c : Claim) (db : Db) {v : Row}
    → db.row ≡ some v
    → (claim_batch rt c.actor c.context c.expires_at db).1 ≡ 1
    → str_eq v.state "inactive" ≡ true
unfolding claim_batch
claim_test rt c db found h =
    let (w, here, test, _) = update_row-count _ _ (initialize c.context.now db) h in
    let same = same_state (sym (initialize-row c.context.now db found) ∙ here) in
    subst (λ t. str_eq t "inactive" ≡ true) same test

claim_batch-count :
    (rt : Runtime) (c : Claim) (db : Db)
    → (claim_batch rt c.actor c.context c.expires_at db).1 ≡ 1
    → (db.row ≡ none) ⊎ ((v : Row) × (db.row ≡ some v) × (v.state ≡ "inactive"))
unfolding claim_batch
claim_batch-count rt c db h = elim (Option-cases db.row) [
  | inl absent ↦ inl absent
  | inr (v, found) ↦ inr (v, found, (eq_iff v.state "inactive").0 (claim_test rt c db found h))
]

reached-ok :
    {A : Type 0} (up : Bool) (m : Result Error A × Db) (e : Error) (d : Db) {a : A}
    → (if up then m else (err e, d)).0 ≡ ok a
    → m.0 ≡ ok a
reached-ok true m e d h = h
reached-ok false m e d h = cc

claim_row_exclusive :
    (rt : Runtime) (i : Interference) (db : Db) (m : Result Error Claim)
    {r : MaintenanceRow × String}
    → (claim_row rt i db m).0 ≡ ok r
    → ((i.before_batch db).row ≡ none)
      ⊎ ((v : Row) × ((i.before_batch db).row ≡ some v) × (v.state ≡ "inactive"))
unfolding claim_row settle_prepare
claim_row_exclusive rt i db (err e) h = cc
claim_row_exclusive rt i db (ok c) h = claim_batch-count rt c (i.before_batch db) (
    finish_prepare-count rt c _ _
      (caught-prepare_error-eq-ok _ (reached-ok (i.before_batch db).online _ _ _ h)))

-- A prepared operation claims an inactive row: just before its batch there was no row yet, or one
-- in the state inactive.
pub prepare_maintenance_exclusive :
    (rt : Runtime) (i : Interference) (actor : Option Value) (options : PrepareOptions) (db : Db)
    {r : MaintenanceRow × String}
    → (prepare_maintenance rt i actor options db).0 ≡ ok r
    → ((i.before_batch db).row ≡ none)
      ⊎ ((v : Row) × ((i.before_batch db).row ≡ some v) × (v.state ≡ "inactive"))
unfolding prepare_maintenance
prepare_maintenance_exclusive rt i actor options db h =
    claim_row_exclusive rt i db (prepare_claim rt actor options) h

-- What a request can find once a prepared operation has expired: the loaded row is entering, and
-- its deadline is not after the time of the request.
abbrev pub IsExpired : Runtime → Db → ℕ → Type 0
IsExpired rt db now =
    (r : MaintenanceRow) × (load_raw rt db ≡ ok (some r))
    × (r.state ≡ entering)
    × ((t : ℕ) × (r.expires_at ≡ some t) × (t ≤ now))

not_authorized :
    (a : Action) (rt : Runtime) (input : TransitionInput) (db : Db) {c : Context}
    → IsExpired rt db input.now
    → authorize_transition rt db input a (source a) ≢ ok c
not_authorized a rt input db (r, loaded, state, (t, deadline, late)) h =
    let p = authorize_transition-eq-ok rt db input a (source a) h in
    let same : p.row ≡ r = some_ok (sym p.loaded ∙ loaded) in
    let (u, due, early) = p.fresh (sym p.state ∙ ap (λ m. m.state) same ∙ state) in
    let both = some_time (sym due ∙ ap (λ m. m.expires_at) same ∙ deadline) in
    let now = p.stamped in absurd (omega arith)
  where
    some_ok :
        {x y : MaintenanceRow}
        → ◌≡◌ {A = Result Error (Option MaintenanceRow)} (ok (some x)) (ok (some y))
        → x ≡ y
    some_ok e = cc

    some_time : {x y : ℕ} → some x ≡ some y → x ≡ y
    some_time e = cc

proceed-refused :
    (m : Result Error Context) (run : Context → Result Error MaintenanceRow × Db) (db : Db)
    → ((c : Context) → m ≢ ok c)
    → ((proceed m run db).1 ≡ db) × ((r : MaintenanceRow) → (proceed m run db).0 ≢ ok r)
proceed-refused (ok c) run db h = absurd (h c refl)
proceed-refused (err e) run db h = (refl, λ r. cc)

-- An operation that was prepared and has expired is refused by every operation of the repository
-- that moves maintenance on, cancellation included, and none of them changes the database. Since
-- a new operation claims an inactive row only, the repository offers no way out of this state.
pub perform_expired :
    (a : Action) (rt : Runtime) (i : Interference) (input : TransitionInput) (db : Db)
    → IsExpired rt db input.now
    → ((perform a rt i input db).1 ≡ db)
      × ((r : MaintenanceRow) → (perform a rt i input db).0 ≢ ok r)
unfolding enter_maintenance start_maintenance_verification exit_maintenance complete_maintenance
    cancel_maintenance
perform_expired enter rt i input db x =
    proceed-refused _ _ db (λ c. not_authorized enter rt input db x)
perform_expired verify rt i input db x =
    proceed-refused _ _ db (λ c. not_authorized verify rt input db x)
perform_expired exit rt i input db x = proceed-refused (authorize_exit rt db input) _ db λ c e.
    >>=-elim (authorize_transition rt db input exit verifying) _ e
      λ c' passed _. not_authorized exit rt input db x passed
perform_expired complete rt i input db x =
    proceed-refused _ _ db (λ c. not_authorized complete rt input db x)
perform_expired cancel rt i input db x =
    proceed-refused _ _ db (λ c. not_authorized cancel rt input db x)
