-- ===== src/Catalog/Sources.antt =====
-- Where the policy that `readCatalogPolicySet` of src/operations/catalog/catalog-policies.ts returns
-- is from.
use freeipa_admin_dashboard.Base.{
  String, ◌≡◌, refl, ap, sym, subst, true, false, Option, none, some, ok, >>=-elim, if-elim, given,
  rethrow, rethrow-ok, ok_injective, is_blank, false-ne-true, ◌∙◌,
}
use freeipa_admin_dashboard.Base.Json.{Value}
use freeipa_admin_dashboard.Catalog.Policies.{
  PolicySet, PolicyError, Runtime, sanitize_catalog_policy_set, default_policy, stored_invalid,
  environment_unparsed, environment_refused,
}
use freeipa_admin_dashboard.Catalog.Store.{
  PolicyEnv, PolicyRead, Stored, database, environment, default_source, read_default, read_variable,
  read_from, read_stored, read_environment, read_catalog_policy_set,
}
use freeipa_admin_dashboard.Catalog.Checked.{IsWellFormed, read_from-IsWellFormed}

unfoldable IsDefault : PolicyRead → Type 0
IsDefault read =
    (read.source ≡ default_source) × (read.updated_at ≡ none) × (read.policy ≡ default_policy)

-- The text is that of the policy: it parses, and the check of its value gives the policy.
unfoldable pub Holds : Runtime → String → PolicySet → Type 0
Holds rt json p = (v : Value) × (rt.parse json ≡ some v) × (sanitize_catalog_policy_set rt v ≡ ok p)

unfoldable pub IsFromVariable : Runtime → Option String → PolicyRead → Type 0
unfolding IsDefault
IsFromVariable rt none read = IsDefault read
IsFromVariable rt (some json) read =
    (is_blank json ≡ true → IsDefault read)
    × (is_blank json ≡ false
        → (read.source ≡ environment) × (read.updated_at ≡ none) × Holds rt json read.policy)

-- The row before the variable, and the variable before the default.
unfoldable pub IsFrom : Runtime → Option (Option Stored) → Option String → PolicyRead → Type 0
IsFrom rt (some (some row)) json read =
    (read.source ≡ database)
    × (read.updated_at ≡ some row.updated_at)
    × Holds rt row.policy_json read.policy
IsFrom rt (some none) json read = IsFromVariable rt json read
IsFrom rt none json read = IsFromVariable rt json read

given-some : {A : Type 0} (o : Option A) (e : PolicyError) {a : A} → given o e ≡ ok a → o ≡ some a
given-some (some x) e h = ap some (ok_injective h)
given-some none e h = cc

read_default-IsDefault : (read : PolicyRead) → read_default ≡ ok read → IsDefault read
unfolding read_default IsDefault
read_default-IsDefault read h =
    subst
      (λ (q : PolicyRead).
        (q.source ≡ default_source) × (q.updated_at ≡ none) × (q.policy ≡ default_policy))
      (ok_injective h) (refl, refl, refl)

module _ (rt : Runtime) where
  read_variable-Holds :
      (json : String) (read : PolicyRead)
      → read_variable rt json ≡ ok read
      → (read.source ≡ environment) × (read.updated_at ≡ none) × Holds rt json read.policy
  unfolding read_variable Holds
  read_variable-Holds json read h =
      >>=-elim (given (rt.parse json) environment_unparsed) _ h λ v parsed k.
        >>=-elim (rethrow environment_refused (sanitize_catalog_policy_set rt v)) _ k λ p checked l.
          subst
            (λ (q : PolicyRead).
              (q.source ≡ environment) × (q.updated_at ≡ none) × Holds rt json q.policy)
            (ok_injective l)
            (
              refl,
              refl,
              (
                v,
                given-some (rt.parse json) environment_unparsed parsed,
                rethrow-ok environment_refused (sanitize_catalog_policy_set rt v) checked,
              ),
            )

  read_environment-IsFromVariable :
      (json : Option String) (read : PolicyRead)
      → read_environment rt json ≡ ok read
      → IsFromVariable rt json read
  unfolding read_environment IsFromVariable
  read_environment-IsFromVariable none read h = read_default-IsDefault read h
  read_environment-IsFromVariable (some json) read h =
      if-elim (is_blank json) h
        (λ t k. (λ _. read_default-IsDefault read k, λ f. absurd (false-ne-true (sym f ∙ t))))
        (λ f k. (λ t. absurd (false-ne-true (sym f ∙ t)), λ _. read_variable-Holds json read k))

  read_stored-Holds :
      (row : Stored) (read : PolicyRead)
      → read_stored rt row ≡ ok read
      → (read.source ≡ database)
        × (read.updated_at ≡ some row.updated_at)
        × Holds rt row.policy_json read.policy
  unfolding read_stored Holds
  read_stored-Holds row read h =
      >>=-elim (given (rt.parse row.policy_json) stored_invalid) _ h λ v parsed k.
        >>=-elim (rethrow (λ _. stored_invalid) (sanitize_catalog_policy_set rt v)) _ k
          λ p checked l.
            subst
              (λ (q : PolicyRead).
                (q.source ≡ database)
                × (q.updated_at ≡ some row.updated_at)
                × Holds rt row.policy_json q.policy)
              (ok_injective l)
              (
                refl,
                refl,
                (
                  v,
                  given-some (rt.parse row.policy_json) stored_invalid parsed,
                  rethrow-ok (λ _. stored_invalid) (sanitize_catalog_policy_set rt v) checked,
                ),
              )

  read_from-IsFrom :
      (db : Option (Option Stored)) (json : Option String) (read : PolicyRead)
      → read_from rt db json ≡ ok read
      → IsFrom rt db json read
  unfolding read_from IsFrom
  read_from-IsFrom none json read h = read_environment-IsFromVariable json read h
  read_from-IsFrom (some none) json read h = read_environment-IsFromVariable json read h
  read_from-IsFrom (some (some row)) json read h = read_stored-Holds row read h

-- A policy that is read is well formed and comes from the first of the row, a variable that is not
-- empty and the default: where there is a row or such a variable, its text parses and the check of
-- its value gives the policy; a text that fails either is not passed over for what comes after it.
pub read_catalog_policy_set-IsFrom :
    (rt : Runtime) (env : PolicyEnv) (read : PolicyRead)
    → read_catalog_policy_set rt env ≡ ok read
    → IsWellFormed read.policy × IsFrom rt env.db env.portal_catalog_policies_json read
unfolding read_catalog_policy_set
read_catalog_policy_set-IsFrom rt env read h = (
  read_from-IsWellFormed rt env.db env.portal_catalog_policies_json read h,
  read_from-IsFrom rt env.db env.portal_catalog_policies_json read h,
)
