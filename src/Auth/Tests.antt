-- ===== src/Auth/Tests.antt =====
-- The theorems of this tree at concrete requests.
use mathlib.Core.List.{Memᴰ}
use mathlib.Core.List.Memᴰ.{head, tail}
use freeipa_admin_dashboard.Base.{
  ◌≤◌, String, ◌≡◌, ◌≢◌, refl, true, Option, none, some, List, [], ◌∷◌, arith, inl, inr,
}
use freeipa_admin_dashboard.Auth.Permissions.{
  operator, admin, freeipa_write, backup_restore_commit, role_has_permission, rank, assigned_role,
  role_has_permission_monotone,
}
use freeipa_admin_dashboard.Auth.Contracts.{
  Contract, post, admin_session, admin_or_service_admin, mutation, portal_route_contracts,
  find_portal_route_contract,
}
use freeipa_admin_dashboard.Auth.Router.{
  RouteMatch, compile, path_segments, match_portal_route, compiled_routes,
}
use freeipa_admin_dashboard.Auth.Order.{FitsSegment}
use freeipa_admin_dashboard.Auth.Matching.{
  Serves, match_portal_route_lem, match_portal_route_complete,
}
use freeipa_admin_dashboard.Auth.Registry.{registered-IsFound}
use freeipa_admin_dashboard.Auth.Plan.{
  Stage, request_context, authentication, authorization, same_origin, portal_route_security_plan,
  needs_authority, is_admin_mutation, matched-needs_authority, matched-is_admin_mutation,
}

all_of : Unit {0}
unfolding role_has_permission rank assigned_role match_portal_route compiled_routes path_segments
    needs_authority is_admin_mutation portal_route_contracts Serves compile
all_of = tt

role_has_permission_monotone_example : role_has_permission admin freeipa_write ≡ true
unfolding all_of
role_has_permission_monotone_example =
    role_has_permission_monotone operator admin freeipa_write (omega arith) refl

abbrev request_path : String
request_path = "/api/auth/users/u1/password"

abbrev contract_or : Contract → Option RouteMatch → Contract
contract_or c none = c
contract_or c (some r) = r.contract

abbrev reset : RouteMatch
reset = record {
  contract = record {
    id = "auth.users.password-reset";
    method = post;
    path = "/api/auth/users/:userId/password";
    owner = "worker/local-secure-entry.ts";
    auth = admin_session;
    permission = none;
    conditional_permissions = none;
    required_role = none;
    mutation = mutation;
    same_origin = true;
    error_owner = none;
  };
  params = ("userId", "u1") ∷ [];
}

reset_matched : match_portal_route post request_path ≡ some reset
unfolding all_of
reset_matched = refl

match_portal_route_lem_example :
    (actual : List String) × (path_segments request_path ≡ some actual)
    × Memᴰ reset.contract portal_route_contracts
    × Serves post actual (compile reset.contract)
    × ((c : Contract)
        → Memᴰ c portal_route_contracts
        → Serves post actual (compile c)
        → (compile c).static_segments ≤ (compile reset.contract).static_segments)
match_portal_route_lem_example = match_portal_route_lem post request_path reset reset_matched

reset_listed : Memᴰ reset.contract portal_route_contracts
unfolding all_of
reset_listed =
    tail (tail (tail (tail (tail (tail (tail (tail (tail (tail (tail (head refl)))))))))))

abbrev request_segments : List String
request_segments = "api" ∷ "auth" ∷ "users" ∷ "u1" ∷ "password" ∷ []

request_segments_lem : path_segments request_path ≡ some request_segments
unfolding all_of
request_segments_lem = refl

reset-Serves : Serves post request_segments (compile reset.contract)
unfolding all_of FitsSegment
reset-Serves = (
  refl,
  (
    inr (refl, refl),
    (inr (refl, refl), (inr (refl, refl), (inl (refl, refl), (inr (refl, refl), tt)))),
  ),
)

match_portal_route_complete_example : match_portal_route post request_path ≢ none
match_portal_route_complete_example =
    match_portal_route_complete reset.contract request_path request_segments reset_listed
      request_segments_lem reset-Serves

abbrev commit_path : String
commit_path = "/api/admin/backups/import/encrypted/commit"

abbrev commit : RouteMatch
commit = record {
  contract = record {
    id = "backup.restore.commit";
    method = post;
    path = "/api/admin/backups/import/encrypted/commit";
    owner = "worker/backup-selective-restore-dispatch.ts";
    auth = admin_or_service_admin;
    permission = some backup_restore_commit;
    conditional_permissions = none;
    required_role = some admin;
    mutation = mutation;
    same_origin = true;
    error_owner = none;
  };
  params = [];
}

commit_matched : match_portal_route post commit_path ≡ some commit
unfolding all_of
commit_matched = refl

commit_needs : needs_authority commit.contract ≡ true
unfolding all_of
commit_needs = refl

reset_mutates : is_admin_mutation reset.contract ≡ true
unfolding all_of
reset_mutates = refl

matched-needs_authority_example :
    (rest : List Stage) × ((portal_route_security_plan commit.contract).stages
      ≡ request_context ∷ authentication ∷ authorization ∷ rest)
matched-needs_authority_example =
    matched-needs_authority post commit_path commit commit_matched commit_needs

matched-is_admin_mutation_example :
    (portal_route_security_plan reset.contract).stages
    ≡ request_context ∷ authentication ∷ authorization ∷ same_origin ∷ []
matched-is_admin_mutation_example =
    matched-is_admin_mutation post request_path reset reset_matched reset_mutates

registered-IsFound_example :
    ((d : Contract) × (find_portal_route_contract post reset.contract.path ≡ some d)
      × (d.id ≡ reset.contract.id))
    × ((r : RouteMatch) × (match_portal_route post reset.contract.path ≡ some r)
        × (r.contract.id ≡ reset.contract.id))
registered-IsFound_example = registered-IsFound reset.contract reset_listed
