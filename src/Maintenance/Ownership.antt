-- ===== src/Maintenance/Ownership.antt =====
-- Who may move the row, and along which edges: the operations of maintenance-repository.ts.
use freeipa_admin_dashboard.Base.{
  ℕ, ◌<◌, String, true, not, Option, none, some, ◌≡◌, refl, ap, ◌∙◌, arith, str_eq, eq_iff, ok,
  >>=-elim, guard-elim, ok_injective, subst, ◌&&◌, leb,
}
use freeipa_admin_dashboard.Base.Json.{Value, str, is_text}
use freeipa_admin_dashboard.Maintenance.Mode.{
  State, inactive, entering, active, verifying, exiting, failed, Action, state_text,
  maintenance_confirmation,
}
use freeipa_admin_dashboard.Maintenance.Rows.{
  MaintenanceRow, Runtime, operation_id_of, controller_secret_of, controller_hash, fixed_hash_equal,
  safe_now, filled,
}
use freeipa_admin_dashboard.Maintenance.Secrets.{fixed_hash_equal-eq-true_iff}
use freeipa_admin_dashboard.Maintenance.Transitions.{
  Db, TransitionInput, Context, load_raw, is_expected, authorize_transition, cell_is, stored_hash,
  is_entering, is_expired,
}

pub state_text_injective : (s t : State) → str_eq (state_text s) (state_text t) ≡ true → s ≡ t
unfolding state_text
state_text_injective inactive inactive h = refl
state_text_injective entering entering h = refl
state_text_injective active active h = refl
state_text_injective verifying verifying h = refl
state_text_injective exiting exiting h = refl
state_text_injective failed failed h = refl
state_text_injective _ _ h = cc

-- What has been checked of a request that is let through.
pub record IsAuthorized (rt : Runtime) (db : Db) (input : TransitionInput) (action : Action)
    (expected : State) (c : Context) : Type 0 where
  pub secret : String
  pub row : MaintenanceRow
  pub phrase : String
  pub asked : input.operation_id ≡ some (str c.id)
  pub shown : input.controller_secret ≡ some (str secret)
  pub worded : maintenance_confirmation action c.id ≡ ok phrase
  pub confirmed : input.confirmation ≡ some (str phrase)
  pub loaded : load_raw rt db ≡ ok (some row)
  pub state : row.state ≡ expected
  pub operation : row.operation_id ≡ some c.id
  pub owner : row.controller_secret_hash ≡ some (rt.hash secret)
  pub hash : c.hash ≡ rt.hash secret
  pub stamped : c.now ≡ input.now
  pub fresh : expected ≡ entering → (t : ℕ) × (row.expires_at ≡ some t) × (c.now < t)

controller_hash-eq-ok : (s : String) {t : String} → controller_hash s ≡ ok t → t ≡ s
unfolding controller_hash
controller_hash-eq-ok s h = ground arith

safe_now-eq-ok : (n : ℕ) {m : ℕ} → safe_now n ≡ ok m → m ≡ n
unfolding safe_now
safe_now-eq-ok n h = ground arith

operation_id_of-eq-ok :
    (v : Option Value) {id : String} → operation_id_of v ≡ ok id → v ≡ some (str id)
unfolding operation_id_of
operation_id_of-eq-ok v h = ground arith

controller_secret_of-eq-ok :
    (v : Option Value) {s : String} → controller_secret_of v ≡ ok s → v ≡ some (str s)
unfolding controller_secret_of
controller_secret_of-eq-ok v h = ground arith

is_text_text :
    (v : Option Value) (t : String)
    → is_text v t ≡ true
    → (s : String) × (v ≡ some (str s)) × (str_eq s t ≡ true)
unfolding is_text
is_text_text v t h = ground arith

is_text-eq-true : (v : Option Value) (t : String) → is_text v t ≡ true → v ≡ some (str t)
is_text-eq-true v t h =
    let (s, e, same) = is_text_text v t h in e ∙ ap (λ x. some (str x)) ((eq_iff s t).0 same)

pub id_fact : (o : Option String) (id : String) → cell_is o id ≡ true → o ≡ some id
id_fact none id h = cc
id_fact (some t) id h = ap some ((eq_iff t id).0 h)

hash_fact :
    (o : Option String)
    → filled o ≡ true
    → (hash : String) → fixed_hash_equal (elim o [ none ↦ "" | some h ↦ h ]) hash ≡ true
    → o ≡ some hash
hash_fact none f hash h = cc
hash_fact (some t) f hash h = ap some ((fixed_hash_equal-eq-true_iff t hash).0 h).1

fresh_fact :
    (s : State) (o : Option ℕ) (now : ℕ)
    → s ≡ entering
    → not (is_entering s && elim o [ none ↦ true | some m ↦ leb m now ]) ≡ true
    → (t : ℕ) × (o ≡ some t) × (now < t)
fresh_fact s none now e h = absurd (ground arith)
fresh_fact s (some m) now e h = (m, refl, ground arith)

-- The hash of a loaded row, and the checks of the row that come before and behind it.
row_checks :
    (s : State) (o : Option MaintenanceRow) (id hash : String) (now : ℕ)
    → is_expected o s id ≡ true
    → not (is_entering s && is_expired o now) ≡ true
    → fixed_hash_equal (stored_hash o) hash ≡ true
    → (r : MaintenanceRow) × (o ≡ some r)
      × (r.state ≡ s)
      × (r.operation_id ≡ some id)
      × (r.controller_secret_hash ≡ some hash)
      × (s ≡ entering → (t : ℕ) × (r.expires_at ≡ some t) × (now < t))
unfolding is_expected
row_checks s none id hash now expected fresh owner = cc
row_checks s (some r) id hash now expected fresh owner = (
  r,
  refl,
  state_text_injective r.state s (ground arith),
  id_fact r.operation_id id (ground arith),
  hash_fact r.controller_secret_hash (ground arith) hash owner,
  λ e. fresh_fact s r.expires_at now e fresh,
)

pub authorize_transition-eq-ok :
    (rt : Runtime) (db : Db) (input : TransitionInput) (a : Action) (s : State) {c : Context}
    → authorize_transition rt db input a s ≡ ok c
    → IsAuthorized rt db input a s c
unfolding authorize_transition
authorize_transition-eq-ok rt db input a s h =
    >>=-elim (operation_id_of input.operation_id) _ h λ id asked h1.
      >>=-elim (controller_secret_of input.controller_secret) _ h1 λ secret shown h2.
        >>=-elim (maintenance_confirmation a id) _ h2 λ phrase worded h3.
          guard-elim (is_text input.confirmation phrase) _ _ h3 λ confirmed h4.
            >>=-elim (safe_now input.now) _ h4 λ now stamped h5.
              >>=-elim (load_raw rt db) _ h5 λ row loaded h6.
                guard-elim (is_expected row s id) _ _ h6 λ expected h7.
                  guard-elim _ _ _ h7 λ fresh h8.
                    >>=-elim (controller_hash (rt.hash secret)) _ h8 λ hash hashed h9.
                      guard-elim _ _ _ h9 λ owner h10.
                        let (r, found, state, operation, holder, alive) =
                          row_checks s row id hash now expected fresh owner in
                        let same : hash ≡ rt.hash secret =
                          controller_hash-eq-ok (rt.hash secret) hashed in
                        subst (λ k. IsAuthorized rt db input a s k) (ok_injective h10)
                          (record {
                            secret = secret;
                            row = r;
                            phrase = phrase;
                            asked = operation_id_of-eq-ok _ asked;
                            shown = controller_secret_of-eq-ok _ shown;
                            worded = worded;
                            confirmed = is_text-eq-true _ _ confirmed;
                            loaded = loaded ∙ ap ok found;
                            state = state;
                            operation = operation;
                            owner = holder ∙ ap some same;
                            hash = same;
                            stamped = safe_now-eq-ok input.now stamped;
                            fresh = alive;
                          })
