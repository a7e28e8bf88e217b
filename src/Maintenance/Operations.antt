-- ===== src/Maintenance/Operations.antt =====
-- The five operations that move the row, under one name, and what a successful one has found.
use freeipa_admin_dashboard.Base.{
  ℕ, String, Bool, true, false, ◌&&◌, Option, none, some, ◌≡◌, refl, sym, ap, ◌∙◌, arith, str_eq,
  eq_iff, Result, ok, err, >>=-elim, guard-elim, if◌then◌else◌, ◌==◌, ok_injective, ==_iff,
}
use freeipa_admin_dashboard.Maintenance.Mode.{
  State, inactive, entering, active, verifying, exiting, Action, enter, verify, exit, complete,
  cancel, state_text, Error, validate_maintenance_verification, fail_as, transition_failed,
}
use freeipa_admin_dashboard.Maintenance.Rows.{Row, MaintenanceRow, Runtime}
use freeipa_admin_dashboard.Maintenance.Transitions.{
  Db, Interference, TransitionInput, Context, load_raw, update_row, authorize_transition, run_batch,
  enter_maintenance, start_maintenance_verification, exit_maintenance, complete_maintenance,
  cancel_maintenance, cell_is, held_by, enter_batch, verify_batch, exit_batch, complete_batch,
  cancel_batch, settle, revoke, finish_transition, has_state, caught, proceed,
}
use freeipa_admin_dashboard.Maintenance.Ownership.{
  IsAuthorized, authorize_transition-eq-ok, state_text_injective, id_fact,
}

-- The state from which an action starts, and the one to which it leads.
abbrev pub source : Action → State
source enter = entering
source verify = active
source exit = verifying
source complete = exiting
source cancel = entering

abbrev pub target : Action → State
target enter = active
target verify = verifying
target exit = exiting
target complete = inactive
target cancel = inactive

abbrev pub perform :
    Action → Runtime → Interference → TransitionInput → Db → Result Error MaintenanceRow × Db
perform enter = enter_maintenance
perform verify = start_maintenance_verification
perform exit = exit_maintenance
perform complete = complete_maintenance
perform cancel = cancel_maintenance

abbrev pub batch : Action → Runtime → Context → Db → Db × ℕ
batch enter rt = enter_batch
batch verify rt = verify_batch
batch exit rt = exit_batch rt
batch complete rt = complete_batch
batch cancel rt = cancel_batch

pub update_row-count :
    (test : Row → Bool) (change : Row → Row) (db : Db)
    → (update_row test change db).1 ≡ 1
    → (v : Row) × (db.row ≡ some v)
      × (test v ≡ true)
      × ((update_row test change db).0 ≡ record db { row = some (change v) })
unfolding update_row
update_row-count test change db h = ground arith

-- A batch that changed the row found it in the action's first state, held by the operation and the
-- secret of the request, and left it in the action's second state.
pub record Moved (a : Action) (c : Context) (before after : Db) : Type 0 where
  pub row : Row
  pub found : before.row ≡ some row
  pub state : row.state ≡ state_text (source a)
  pub operation : row.operation_id ≡ some c.id
  pub owner : row.controller_secret_hash ≡ some c.hash
  pub left : Row
  pub stored : after.row ≡ some left
  pub moved : left.state ≡ state_text (target a)

held_by-eq-true :
    (state : String) (c : Context) (v : Row)
    → held_by state c v ≡ true
    → (v.state ≡ state) × (v.operation_id ≡ some c.id) × (v.controller_secret_hash ≡ some c.hash)
held_by-eq-true state c v h =
    let parts : (str_eq v.state state ≡ true)
        × (cell_is v.operation_id c.id ≡ true)
        × (cell_is v.controller_secret_hash c.hash ≡ true) =
      ground arith in
    (
      (eq_iff v.state state).0 parts.0,
      id_fact v.operation_id c.id parts.1,
      id_fact v.controller_secret_hash c.hash parts.2,
    )

-- An update under `held_by`, perhaps with one more condition.
update_row-Moved :
    (a : Action) (c : Context) (test : Row → Bool) (change : Row → Row) (db : Db)
    → ((v : Row) → test v ≡ true → held_by (state_text (source a)) c v ≡ true)
    → ((v : Row) → (change v).state ≡ state_text (target a))
    → (update_row test change db).1 ≡ 1
    → Moved a c db (update_row test change db).0
update_row-Moved a c test change db tested changed h =
    let (v, found, passed, written) = update_row-count test change db h in
    let (state, operation, owner) = held_by-eq-true _ c v (tested v passed) in
    record {
      row = v;
      found = found;
      state = state;
      operation = operation;
      owner = owner;
      left = change v;
      stored = ap (λ d. d.row) written;
      moved = changed v;
    }

and-left : (a b : Bool) → (a && b) ≡ true → a ≡ true
and-left a b h = ground arith

revoke-row : (c : Context) (db : Db) → (revoke c db).row ≡ db.row
unfolding revoke
revoke-row c db = ground arith

enter-Moved :
    (c : Context) (db : Db) → (enter_batch c db).1 ≡ 1 → Moved enter c db (enter_batch c db).0
unfolding enter_batch state_text
enter-Moved c db h =
    let m = update_row-Moved enter c _ _ db (λ v t. and-left _ _ t) (λ v. refl) h in
    record {
      row = m.row;
      found = m.found;
      state = m.state;
      operation = m.operation;
      owner = m.owner;
      left = m.left;
      stored = revoke-row c _ ∙ m.stored;
      moved = m.moved;
    }

batch-Moved :
    (a : Action) (rt : Runtime) (c : Context) (db : Db)
    → (batch a rt c db).1 ≡ 1
    → Moved a c db (batch a rt c db).0
unfolding verify_batch exit_batch complete_batch cancel_batch state_text
batch-Moved enter rt c db h = enter-Moved c db h
batch-Moved verify rt c db h = update_row-Moved verify c _ _ db (λ v t. t) (λ v. refl) h
batch-Moved exit rt c db h = update_row-Moved exit c _ _ db (λ v t. t) (λ v. refl) h
batch-Moved complete rt c db h = update_row-Moved complete c _ _ db (λ v t. t) (λ v. refl) h
batch-Moved cancel rt c db h =
    update_row-Moved cancel c _ _ db (λ v t. and-left _ _ t) (λ v. refl) h

finish_transition-eq-ok :
    (rt : Runtime) (n : ℕ) (s : State) (db : Db) {r : MaintenanceRow}
    → finish_transition rt n s db ≡ ok r
    → (n ≡ 1) × (r.state ≡ s)
unfolding finish_transition
finish_transition-eq-ok rt n s db h = guard-elim (n == 1) _ _ h λ one h1.
    >>=-elim (load_raw rt db) _ h1 λ row loaded h2.
      guard-elim (has_state row s) _ _ h2 λ here h3. ((==_iff n 1).0 one, final row here h3)
  where
    final :
        {r : MaintenanceRow} (o : Option MaintenanceRow)
        → has_state o s ≡ true
        → elim o [ none ↦ err (fail_as transition_failed 500) | some q ↦ ok q ] ≡ ok r
        → r.state ≡ s
    final none here k = cc
    final (some q) here k =
        ap (λ m. m.state) (sym (ok_injective k)) ∙ state_text_injective q.state s here

caught-eq-ok :
    (f : Error → Error) (m : Result Error MaintenanceRow) {r : MaintenanceRow}
    → caught f m ≡ ok r
    → m ≡ ok r
caught-eq-ok f (ok a) h = h
caught-eq-ok f (err e) h = cc

choice :
    (up : Bool) (p : Result Error MaintenanceRow × Db) (e : Error) (d : Db) {r : MaintenanceRow}
    → (if up then p else (err e, d)).0 ≡ ok r
    → (up ≡ true) × (p.0 ≡ ok r) × ((if up then p else (err e, d)).1 ≡ p.1)
choice true p e d h = (refl, h, refl)
choice false p e d h = cc

run_batch-eq-ok :
    (rt : Runtime) (i : Interference) (b : Db → Db × ℕ) (s : State) (db : Db) {r : MaintenanceRow}
    → (run_batch rt i b s db).0 ≡ ok r
    → ((i.before_batch db).online ≡ true)
      × ((b (i.before_batch db)).1 ≡ 1)
      × (r.state ≡ s)
      × ((run_batch rt i b s db).1 ≡ i.after_batch (b (i.before_batch db)).0)
unfolding run_batch settle
run_batch-eq-ok rt i b s db h =
    let (up, ran, left) = choice (i.before_batch db).online _ _ _ h in
    let (one, here) = finish_transition-eq-ok rt _ s _ (caught-eq-ok _ _ ran) in
    (up, one, here, left)

pub proceed-eq-ok :
    (m : Result Error Context) (run : Context → Result Error MaintenanceRow × Db) (db : Db)
    {r : MaintenanceRow}
    → (proceed m run db).0 ≡ ok r
    → (c : Context) × (m ≡ ok c) × ((run c).0 ≡ ok r) × ((proceed m run db).1 ≡ (run c).1)
proceed-eq-ok (ok c) run db h = (c, refl, h, refl)
proceed-eq-ok (err e) run db h = cc

-- What an operation that returns a row has established.
pub record IsPerformed (a : Action) (rt : Runtime) (i : Interference) (input : TransitionInput)
    (db : Db) (r : MaintenanceRow) : Type 0 where
  pub context : Context
  pub authorized : IsAuthorized rt db input a (source a) context
  pub moved : Moved a context (i.before_batch db) (batch a rt context (i.before_batch db)).0
  pub state : r.state ≡ target a
  pub left : (perform a rt i input db).1 ≡ i.after_batch (batch a rt context (i.before_batch db)).0

module _ (rt : Runtime) (i : Interference) (input : TransitionInput) (db : Db)
    {r : MaintenanceRow} where
  -- The operations share this proof: `m` checks the request, the batch moves the row.
  performed :
      (a : Action) (m : Result Error Context)
      → ((c : Context) → m ≡ ok c → authorize_transition rt db input a (source a) ≡ ok c)
      → let out = proceed m (λ c. run_batch rt i (batch a rt c) (target a) db) db in
        perform a rt i input db ≡ out → out.0 ≡ ok r → IsPerformed a rt i input db r
  performed a m checked same h =
      let (c, passed, ran, final) = proceed-eq-ok m _ db h in
      let (up, one, here, left) = run_batch-eq-ok rt i (batch a rt c) (target a) db ran in
      record {
        context = c;
        authorized = authorize_transition-eq-ok rt db input a (source a) (checked c passed);
        moved = batch-Moved a rt c (i.before_batch db) one;
        state = here;
        left = ap (λ o. o.1) same ∙ final ∙ left;
      }

-- An operation that moves maintenance on, and returns a row, was asked for by the holder of the
-- operation: the request names the operation, carries a secret whose hash is the stored one and
-- repeats the phrase of this very action. When the batch ran, whatever others had done to the
-- database since, the row still was in the action's first state and held by that operation and
-- hash; the batch left it in the action's second state, and the returned row is in that state.
pub perform-IsPerformed :
    (a : Action) (rt : Runtime) (i : Interference) (input : TransitionInput) (db : Db)
    {r : MaintenanceRow}
    → (perform a rt i input db).0 ≡ ok r
    → IsPerformed a rt i input db r
unfolding enter_maintenance start_maintenance_verification exit_maintenance complete_maintenance
    cancel_maintenance
perform-IsPerformed enter rt i input db h = performed rt i input db enter _ (λ c e. e) refl h
perform-IsPerformed verify rt i input db h = performed rt i input db verify _ (λ c e. e) refl h
perform-IsPerformed exit rt i input db h =
    performed rt i input db exit _
      (λ c e. >>=-elim (authorize_transition rt db input exit verifying) _ e λ c' passed e1.
        >>=-elim (validate_maintenance_verification input.verification) _ e1
          λ v valid e2. passed ∙ e2)
      refl h
perform-IsPerformed complete rt i input db h = performed rt i input db complete _ (λ c e. e) refl h
perform-IsPerformed cancel rt i input db h = performed rt i input db cancel _ (λ c e. e) refl h
