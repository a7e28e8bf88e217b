-- ===== src/Maintenance/Report.antt =====
-- The report of src/recovery/maintenance/maintenance-mode.ts that `exitMaintenance` asks for.
use freeipa_admin_dashboard.Base.{
  String, ◌≡◌, refl, sym, ap, ◌∙◌, ◌↔◌, subst, Bool, true, false, ◌&&◌, Option, none, some, List,
  [], ◌∷◌, str_eq, eq_iff, &&-eq-true_iff, false-ne-true, includes, all, if◌then◌else◌, ◌||◌, ok,
  >>=-elim, guard-elim, ◌==◌, length,
}
use freeipa_admin_dashboard.Base.Json.{
  Value, null, bool, nat, other_number, str, array, object, Fields, entries, get, is_text,
}
use freeipa_admin_dashboard.Maintenance.Mode.{
  exit, Verification, verifying, verification_keys, validate_maintenance_verification,
  is_full_verification,
}
use freeipa_admin_dashboard.Maintenance.Rows.{MaintenanceRow, Runtime}
use freeipa_admin_dashboard.Maintenance.Transitions.{
  Db, Interference, TransitionInput, authorize_transition, authorize_exit, exit_maintenance,
}
use freeipa_admin_dashboard.Maintenance.Operations.{proceed-eq-ok}

-- A report as the map that it is: the five checks and no other key, each with the text "ok".
unfoldable pub IsReport : Option Value → Type 0
IsReport v =
    (fs : Fields) × (v ≡ some (object fs))
    × ((key : String) (value : Value)
        → (get key (entries fs) ≡ some value)
          ↔ ((includes verification_keys key ≡ true) × (value ≡ str "ok")))

both : (a b : Bool) → (a && b) ≡ true → (a ≡ true) × (b ≡ true)
both a b = (&&-eq-true_iff a b).0

get-included :
    (keys : List String) (es : List (String × Value)) (key : String) {value : Value}
    → all (λ e. includes keys e.0) es ≡ true
    → get key es ≡ some value
    → includes keys key ≡ true
unfolding get
get-included keys [] key h k = cc
get-included keys ((name, v) ∷ es) key h k =
    let (here, there) = both (includes keys name) (all (λ e. includes keys e.0) es) h in
    by_test (str_eq name key) refl here k (get-included keys es key there)
  where
    by_test :
        {value : Value} (b : Bool)
        → str_eq name key ≡ b
        → includes keys name ≡ true
        → (if b then some v else get key es) ≡ some value
        → (get key es ≡ some value → includes keys key ≡ true)
        → includes keys key ≡ true
    by_test true e here k later = subst (λ s. includes keys s ≡ true) ((eq_iff name key).0 e) here
    by_test false e here k later = later k

all-included :
    (p : String → Bool) (keys : List String) (key : String)
    → all p keys ≡ true
    → includes keys key ≡ true
    → p key ≡ true
all-included p [] key h k = absurd (false-ne-true k)
all-included p (name ∷ keys) key h k =
    let (here, there) = both (p name) (all p keys) h in
    by_test (str_eq name key) refl here k (all-included p keys key there)
  where
    by_test :
        (b : Bool)
        → str_eq name key ≡ b
        → p name ≡ true
        → (b || includes keys key) ≡ true
        → (includes keys key ≡ true → p key ≡ true)
        → p key ≡ true
    by_test true e here k later = subst (λ s. p s ≡ true) ((eq_iff name key).0 e) here
    by_test false e here k later = later k

is_text-eq-true : (v : Option Value) (t : String) → is_text v t ≡ true → v ≡ some (str t)
unfolding is_text
is_text-eq-true (some (str s)) t h = ap (λ x. some (str x)) ((eq_iff s t).0 h)
is_text-eq-true (some null) t h = absurd (false-ne-true h)
is_text-eq-true (some (bool b)) t h = absurd (false-ne-true h)
is_text-eq-true (some (nat n)) t h = absurd (false-ne-true h)
is_text-eq-true (some other_number) t h = absurd (false-ne-true h)
is_text-eq-true (some (array vs)) t h = absurd (false-ne-true h)
is_text-eq-true (some (object fs)) t h = absurd (false-ne-true h)
is_text-eq-true none t h = absurd (false-ne-true h)

same_value : {a b : Value} → ◌≡◌ {A = Option Value} (some a) (some b) → b ≡ a
same_value h = cc

full-IsReport : (v : Option Value) → is_full_verification v ≡ true → IsReport v
unfolding is_full_verification IsReport
full-IsReport (some (object fs)) h =
    let (counted, listed) =
      both (length (entries fs) == 5 && all (λ e. includes verification_keys e.0) (entries fs))
        (all (λ key. is_text (get key (entries fs)) "ok") verification_keys) h in
    let known =
      (both (length (entries fs) == 5) (all (λ e. includes verification_keys e.0) (entries fs))
        counted).1 in
    let passed : (key : String)
        → includes verification_keys key ≡ true
        → get key (entries fs) ≡ some (str "ok") =
      λ key k. is_text-eq-true (get key (entries fs)) "ok" (
        all-included (λ key. is_text (get key (entries fs)) "ok") verification_keys key listed k) in
    (
      fs,
      refl,
      λ key value. (
        λ k.
            let one = get-included verification_keys (entries fs) key known k in
            (one, same_value (sym (passed key one) ∙ k)),
        λ (one, same). passed key one ∙ ap some (sym same),
      ),
    )
full-IsReport (some null) h = absurd (false-ne-true h)
full-IsReport (some (bool b)) h = absurd (false-ne-true h)
full-IsReport (some (nat n)) h = absurd (false-ne-true h)
full-IsReport (some other_number) h = absurd (false-ne-true h)
full-IsReport (some (str t)) h = absurd (false-ne-true h)
full-IsReport (some (array vs)) h = absurd (false-ne-true h)
full-IsReport none h = absurd (false-ne-true h)

valid-IsReport :
    (v : Option Value) {w : Verification} → validate_maintenance_verification v ≡ ok w → IsReport v
unfolding validate_maintenance_verification
valid-IsReport v h = guard-elim (is_full_verification v) _ _ h λ full _. full-IsReport v full

-- Maintenance is exited only with a report that, as a map, has the five checks as its keys, no
-- other key, and the text "ok" at each.
pub exit_maintenance-IsReport :
    (rt : Runtime) (i : Interference) (input : TransitionInput) (db : Db) {r : MaintenanceRow}
    → (exit_maintenance rt i input db).0 ≡ ok r
    → IsReport input.verification
unfolding exit_maintenance
exit_maintenance-IsReport rt i input db h =
    let (c, passed, _, _) = proceed-eq-ok (authorize_exit rt db input) _ db h in
    >>=-elim (authorize_transition rt db input exit verifying) _ passed λ c' _ e1.
      >>=-elim (validate_maintenance_verification input.verification) _ e1
        λ v valid _. valid-IsReport input.verification valid
