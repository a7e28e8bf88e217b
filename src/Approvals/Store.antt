-- ===== src/Approvals/Store.antt =====
-- Where the approval policy comes from and goes to: `readApprovalPolicySet` and
-- `saveApprovalPolicySet` of src/operations/approvals/approval-gates.ts.
use freeipa_admin_dashboard.Base.{
  ℕ, String, Option, none, some, Result, ok, err, rethrow, given, ◌>>=◌, if◌then◌else◌, is_blank,
}
use freeipa_admin_dashboard.Base.Json.{Value}
use freeipa_admin_dashboard.Base.Language.{Language}
use freeipa_admin_dashboard.Approvals.Policy.{
  PolicySet, PolicyError, default_policy, sanitize_approval_policy_set,
}

-- The row of approval_policy_sets, and the database and the variable of the environment.
pub record StoredPolicy : Type 0 where
  pub policy_json : String
  pub updated_at : ℕ

pub record PolicyEnv : Type 0 where
  pub db : Option (Option StoredPolicy)
  pub policies_json : String

pub data PolicySource : Type 0 where
  database environment default : PolicySource

pub record PolicyRead : Type 0 where
  pub policy : PolicySet
  pub source : PolicySource
  pub updated_at : Option ℕ

-- A text that `JSON.parse` refuses, and what the two sources make of an error.
pub data StoreError : Type 0 where
  not_json database_unavailable stored_invalid : StoreError
  refused : PolicyError → StoreError
  environment_invalid : StoreError → StoreError

module _ (js : Language) where
  unfoldable pub check_policy : Value → Result StoreError PolicySet
  unfolding sanitize_approval_policy_set
  check_policy v = elim (sanitize_approval_policy_set js v) [
    | ok p ↦ ok p
    | err problem ↦ err (refused problem)
  ]

  unfoldable pub parse_policy : String → Result StoreError PolicySet
  unfolding check_policy
  parse_policy text = given (js.parse text) not_json >>= check_policy

  unfoldable pub read_environment : String → Result StoreError PolicyRead
  unfolding parse_policy
  read_environment text =
      if is_blank text
      then ok (record { policy = default_policy; source = default; updated_at = none })
      else (rethrow environment_invalid (parse_policy text) >>= λ p.
          ok (record { policy = p; source = environment; updated_at = none }))

  unfoldable pub read_approval_policy_set : PolicyEnv → Result StoreError PolicyRead
  unfolding parse_policy read_environment
  read_approval_policy_set env = elim env.db [
    | some (some row) ↦ rethrow (λ _. stored_invalid) (parse_policy row.policy_json) >>= λ p.
        ok (record { policy = p; source = database; updated_at = some row.updated_at })
    | _ ↦ read_environment env.policies_json
  ]

  -- The answer, and the environment after it; `to_json` is `JSON.stringify` of a policy.
  unfoldable pub save_approval_policy_set :
      (PolicySet → String) → ℕ → Value → PolicyEnv → Result StoreError (PolicySet × ℕ) × PolicyEnv
  unfolding check_policy
  save_approval_policy_set to_json now v env = elim env.db [
    | none ↦ (err database_unavailable, env)
    | some old ↦ elim (check_policy v) [
      | err problem ↦ (err problem, env)
      | ok p ↦ (
        ok (p, now),
        record env { db = some (some (record { policy_json = to_json p; updated_at = now })) },
      )
    ]
  ]
