-- ===== src/Catalog/Store.antt =====
-- The policy's row and variable, read and saved: the second half of
-- src/operations/catalog/catalog-policies.ts.
use freeipa_admin_dashboard.Base.{
  ℕ, String, Option, none, some, Result, ok, err, ◌>>=◌, given, rethrow, if◌then◌else◌, is_blank,
}
use freeipa_admin_dashboard.Base.Json.{Value}
use freeipa_admin_dashboard.Catalog.Policies.{
  PolicySet, PolicyError, storage_unavailable, stored_invalid, environment_unparsed,
  environment_refused, Runtime, default_policy, sanitize_catalog_policy_set,
}

-- The row with the key 'current'.
pub record Stored : Type 0 where
  pub policy_json : String
  pub updated_at : ℕ

-- `PolicyEnv`: a database, if there is one, with its row, if there is one.
pub record PolicyEnv : Type 0 where
  pub db : Option (Option Stored)
  pub portal_catalog_policies_json : Option String

pub data Source : Type 0 where
  database environment default_source : Source

pub record PolicyRead : Type 0 where
  pub policy : PolicySet
  pub source : Source
  pub updated_at : Option ℕ

unfoldable pub read_default : Result PolicyError PolicyRead
unfolding default_policy
read_default = ok (record { policy = default_policy; source = default_source; updated_at = none })

module _ (rt : Runtime) where
  -- A throw of `JSON.parse` or of the check becomes one error.
  unfoldable pub read_stored : Stored → Result PolicyError PolicyRead
  unfolding sanitize_catalog_policy_set
  read_stored row = do
    v ← given (rt.parse row.policy_json) stored_invalid
    p ← rethrow (λ _. stored_invalid) (sanitize_catalog_policy_set rt v)
    ok (record { policy = p; source = database; updated_at = some row.updated_at })

  unfoldable pub read_variable : String → Result PolicyError PolicyRead
  unfolding sanitize_catalog_policy_set
  read_variable json = do
    v ← given (rt.parse json) environment_unparsed
    p ← rethrow environment_refused (sanitize_catalog_policy_set rt v)
    ok (record { policy = p; source = environment; updated_at = none })

  unfoldable pub read_environment : Option String → Result PolicyError PolicyRead
  unfolding read_variable read_default
  read_environment none = read_default
  read_environment (some json) = if is_blank json then read_default else read_variable json

  unfoldable pub read_from : Option (Option Stored) → Option String → Result PolicyError PolicyRead
  unfolding read_stored read_environment
  read_from none json = read_environment json
  read_from (some none) json = read_environment json
  read_from (some (some row)) json = read_stored row

  unfoldable pub read_catalog_policy_set : PolicyEnv → Result PolicyError PolicyRead
  unfolding read_from
  read_catalog_policy_set env = read_from env.db env.portal_catalog_policies_json

  unfoldable pub stored :
      PolicyEnv → ℕ → Result PolicyError PolicySet → Result PolicyError (PolicySet × ℕ) × PolicyEnv
  stored env now (err problem) = (err problem, env)
  stored env now (ok p) = (
    ok (p, now),
    record env { db = some (some (record { policy_json = rt.stringify p; updated_at = now })) },
  )

  -- The result, and the environment after it.
  unfoldable pub save_catalog_policy_set :
      PolicyEnv → Value → ℕ → Result PolicyError (PolicySet × ℕ) × PolicyEnv
  unfolding sanitize_catalog_policy_set stored
  save_catalog_policy_set env value now = elim env.db [
    | none ↦ (err storage_unavailable, env)
    | some row ↦ stored env now (sanitize_catalog_policy_set rt value)
  ]
