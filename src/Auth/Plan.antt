-- ===== src/Auth/Plan.antt =====
-- src/auth/portal-route-security-plan.ts: the list of stages that describes the guards of a route. No
-- worker runs the list: the wrappers of the workers guard the requests, in orders of their own.
use mathlib.Core.List.{Memᴰ}
use freeipa_admin_dashboard.Base.{
  String, ◌≡◌, refl, arith, Bool, true, false, Option, none, some, List, [], ◌∷◌, ◌++◌,
  if◌then◌else◌, all, ◌&&◌, ◌||◌, not,
}
use freeipa_admin_dashboard.Auth.Permissions.{Role, Permission}
use freeipa_admin_dashboard.Auth.Contracts.{
  Contract, AuthBoundary, public, local_session, Mutation, read, mutation, portal_route_contracts,
}
use freeipa_admin_dashboard.Auth.Contracts.{Method}
use freeipa_admin_dashboard.Auth.Router.{RouteMatch, match_portal_route}
use freeipa_admin_dashboard.Auth.Matching.{match_portal_route_lem}
use freeipa_admin_dashboard.Auth.Registry.{all-Memᴰ}

pub data Stage : Type 0 where
  request_context authentication authorization same_origin : Stage

-- `PortalRouteSecurityPlan`.
pub record SecurityPlan : Type 0 where
  pub route_id : String
  pub auth : AuthBoundary
  pub permission : Option Permission
  pub conditional_permissions : List Permission
  pub required_role : Option Role
  pub mutation : Mutation
  pub same_origin : Bool
  pub stages : List Stage

unfoldable pub is_public : AuthBoundary → Bool
is_public public = true
is_public _ = false

abbrev or_nothing : Option (List Permission) → List Permission
or_nothing (some ps) = ps
or_nothing none = []

unfoldable pub portal_route_security_plan : Contract → SecurityPlan
unfolding is_public
portal_route_security_plan c = record {
  route_id = c.id;
  auth = c.auth;
  permission = c.permission;
  conditional_permissions = or_nothing c.conditional_permissions;
  required_role = c.required_role;
  mutation = c.mutation;
  same_origin = c.same_origin;
  stages =
      request_context
      ∷ ((if is_public c.auth then [] else authentication ∷ authorization ∷ [])
          ++ (if c.same_origin then same_origin ∷ [] else []));
}

abbrev is_given {ℓ} : {A : Type ℓ} → Option A → Bool
is_given none = false
is_given (some a) = true

-- The registry asks a permission or a role for the route.
unfoldable pub needs_authority : Contract → Bool
needs_authority c =
    is_given c.permission || is_given c.conditional_permissions || is_given c.required_role

-- A mutation behind a boundary that only an administrator's session or token passes.
unfoldable pub is_admin_mutation : Contract → Bool
is_admin_mutation c = is_admin c.auth && is_mutation c.mutation
  where
    is_admin : AuthBoundary → Bool
    is_admin public = false
    is_admin local_session = false
    is_admin _ = true

    is_mutation : Mutation → Bool
    is_mutation read = false
    is_mutation mutation = true

-- The two tests that every line of the registry passes.
unfoldable pub is_sound : Contract → Bool
unfolding needs_authority is_admin_mutation is_public
is_sound c =
    (not (needs_authority c) || not (is_public c.auth))
    && (not (is_admin_mutation c) || c.same_origin)

contracts_sound : all is_sound portal_route_contracts ≡ true
unfolding portal_route_contracts is_sound
contracts_sound = refl

sound : (c : Contract) → Memᴰ c portal_route_contracts → is_sound c ≡ true
sound c t = all-Memᴰ is_sound portal_route_contracts t contracts_sound

sound-private :
    (c : Contract) → is_sound c ≡ true → needs_authority c ≡ true → is_public c.auth ≡ false
unfolding is_sound
sound-private c h n = ground arith

sound-same_origin :
    (c : Contract) → is_sound c ≡ true → is_admin_mutation c ≡ true → c.same_origin ≡ true
unfolding is_sound
sound-same_origin c h n = ground arith

-- The plan of a matched route for which the registry asks a permission or a role lists the request's
-- context, the authentication and the authorization, in this order, before anything else.
pub matched-needs_authority :
    (m : Method) (pathname : String) (result : RouteMatch)
    → match_portal_route m pathname ≡ some result
    → needs_authority result.contract ≡ true
    → (rest : List Stage) × ((portal_route_security_plan result.contract).stages
        ≡ request_context ∷ authentication ∷ authorization ∷ rest)
unfolding portal_route_security_plan
matched-needs_authority m pathname result h n =
    let (actual, e, listed, serves, best) = match_portal_route_lem m pathname result h in
    (
      (if result.contract.same_origin then same_origin ∷ [] else []),
      rw (sound-private result.contract (sound result.contract listed) n) refl,
    )

admin-private : (c : Contract) → is_admin_mutation c ≡ true → is_public c.auth ≡ false
unfolding is_admin_mutation is_public
admin-private c h = ground arith

-- The plan of a matched route that mutates behind an administrator's boundary lists all four
-- stages, the check of the origin as the last.
pub matched-is_admin_mutation :
    (m : Method) (pathname : String) (result : RouteMatch)
    → match_portal_route m pathname ≡ some result
    → is_admin_mutation result.contract ≡ true
    → (portal_route_security_plan result.contract).stages
      ≡ request_context ∷ authentication ∷ authorization ∷ same_origin ∷ []
unfolding portal_route_security_plan
matched-is_admin_mutation m pathname result h n =
    let (actual, e, listed, serves, best) = match_portal_route_lem m pathname result h in
    rw
      (
        admin-private result.contract n,
        sound-same_origin result.contract (sound result.contract listed) n,
      )
      refl
