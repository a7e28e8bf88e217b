-- ===== src/Auth/Router.antt =====
-- src/auth/portal-route-router.ts: a path as segments, the registry sorted by how specific a
-- pattern is, and the search for the route of a request.
use Prim.Native.Char.{code}
use Prim.Native.String.{[] as nil, ◌∷◌ as ◌⋮◌}
use freeipa_admin_dashboard.Base.{
  ℕ, String, Bool, false, ◌||◌, not, Option, none, some, List, [], ◌∷◌, map, str_eq, if◌then◌else◌,
  ◌==◌, ltb, length, keep, is_blank,
}
use freeipa_admin_dashboard.Auth.Contracts.{Contract, Method, is_method, portal_route_contracts}

-- `text.startsWith(c)` and `text.includes(c)` for one character.
abbrev pub starts_with : ℕ → String → Bool
starts_with k nil = false
starts_with k (c ⋮ s) = code c == k

abbrev pub has_character : ℕ → String → Bool
has_character k nil = false
has_character k (c ⋮ s) = code c == k || has_character k s

abbrev pub from_second : String → String
from_second nil = nil
from_second (c ⋮ s) = s

-- `text.split("/")`.
abbrev pub split_slash : String → List String
split_slash nil = nil ∷ []
split_slash (c ⋮ s) = let rest = split_slash s in if code c == 47 then nil ∷ rest else extend rest
  where
    extend : List String → List String
    extend [] = (c ⋮ nil) ∷ []
    extend (x ∷ xs) = (c ⋮ x) ∷ xs

unfoldable pub path_segments : String → Option (List String)
path_segments path =
    if not (starts_with 47 path) || has_character 63 path || has_character 35 path
    then none
    else if str_eq path "/"
    then some []
    else some (split_slash (from_second path))

unfoldable pub is_parameter : String → Bool
is_parameter segment = starts_with 58 segment

pub record CompiledRoute : Type 0 where
  pub contract : Contract
  pub segments : List String
  pub static_segments : ℕ

abbrev segments_or_none : Option (List String) → List String
segments_or_none (some s) = s
segments_or_none none = []

unfoldable pub compile : Contract → CompiledRoute
unfolding path_segments is_parameter
compile c =
    let s = segments_or_none (path_segments c.path) in
    record {
      contract = c;
      segments = s;
      static_segments = length (keep (λ x. not (is_parameter x)) s);
    }

-- The comparison of `sort` is negative.
unfoldable pub comes_before : CompiledRoute → CompiledRoute → Bool
comes_before l r =
    if l.static_segments == r.static_segments
    then ltb (length r.segments) (length l.segments)
    else ltb r.static_segments l.static_segments

-- `Array.prototype.sort`, which is stable.
unfoldable pub insert : CompiledRoute → List CompiledRoute → List CompiledRoute
unfolding comes_before
insert x [] = x ∷ []
insert x (y ∷ ys) = let rest = insert x ys in if comes_before y x then y ∷ rest else x ∷ y ∷ ys

unfoldable pub sort : List CompiledRoute → List CompiledRoute
unfolding insert
sort [] = []
sort (x ∷ xs) = insert x (sort xs)

unfoldable pub compiled_routes : List CompiledRoute
unfolding compile sort portal_route_contracts
compiled_routes = sort (map compile portal_route_contracts)

-- `params[name] = value`.
abbrev pub put_parameter : String → String → List (String × String) → List (String × String)
put_parameter k v [] = (k, v) ∷ []
put_parameter k v ((n, w) ∷ r) =
    let rest = put_parameter k v r in if str_eq n k then (k, v) ∷ r else (n, w) ∷ rest

-- One turn of the loop: `none` leaves it.
unfoldable pub read_segment :
    String → String → List (String × String) → Option (List (String × String))
unfolding is_parameter
read_segment e v params =
    if is_parameter e
    then (if is_blank v then none else some (put_parameter (from_second e) v params))
    else (if str_eq e v then some params else none)

abbrev pub and_then {ℓ κ} : {A : Type ℓ} {B : Type κ} → Option A → (A → Option B) → Option B
and_then none f = none
and_then (some a) f = f a

-- The loop, with the parameters read so far; a list that ends early has `undefined` in its place.
unfoldable pub match_from :
    List String → List String → List (String × String) → Option (List (String × String))
unfolding read_segment
match_from [] actual params = some params
match_from (e ∷ es) [] params = none
match_from (e ∷ es) (v ∷ vs) params = and_then (read_segment e v params) (match_from es vs)

unfoldable pub match_segments : List String → List String → Option (List (String × String))
unfolding match_from
match_segments pattern actual =
    if length pattern == length actual then match_from pattern actual [] else none

-- `PortalRouteMatch`.
pub record RouteMatch : Type 0 where
  pub contract : Contract
  pub params : List (String × String)

abbrev pub as_match : Contract → List (String × String) → Option RouteMatch
as_match c params = some (record { contract = c; params = params })

-- The body of the loop over the routes: `none` goes on with the next one.
unfoldable pub try_route : Method → List String → CompiledRoute → Option RouteMatch
unfolding match_segments is_method
try_route m actual r =
    if is_method r.contract.method m
    then and_then (match_segments r.segments actual) (as_match r.contract)
    else none

abbrev pub or_next {ℓ} : {A : Type ℓ} → Option A → Option A → Option A
or_next (some a) o = some a
or_next none o = o

unfoldable pub first_match : Method → List String → List CompiledRoute → Option RouteMatch
unfolding try_route
first_match m actual [] = none
first_match m actual (r ∷ rs) = or_next (try_route m actual r) (first_match m actual rs)

unfoldable pub match_portal_route : Method → String → Option RouteMatch
unfolding path_segments first_match compiled_routes
match_portal_route m pathname =
    and_then (path_segments pathname) (λ actual. first_match m actual compiled_routes)
