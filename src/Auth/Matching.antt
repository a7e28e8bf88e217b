-- ===== src/Auth/Matching.antt =====
-- The search of src/auth/portal-route-router.ts against the patterns that fit a path.
use mathlib.Core.List.{Memᴰ}
use mathlib.Core.List.Memᴰ
use freeipa_admin_dashboard.Base.{
  ◌≤◌, String, ◌≡◌, ◌≢◌, refl, ap, sym, ◌∙◌, subst, ◌⊎◌, inl, inr, Bool, true, false, Option, none,
  some, List, [], ◌∷◌, map, All, arith, if◌then◌else◌, ◌↔◌,
}
use freeipa_admin_dashboard.Auth.Contracts.{
  Contract, Method, get, post, put, delete, is_method, portal_route_contracts,
}
use freeipa_admin_dashboard.Auth.Router.{
  CompiledRoute, RouteMatch, compile, insert, comes_before, sort, compiled_routes, path_segments,
  match_segments, as_match, try_route, or_next, first_match, match_portal_route,
}
use freeipa_admin_dashboard.Auth.Order.{
  Fits, IsSorted, All-Memᴰ, All-of_Memᴰ, All-sort, sort-IsSorted, match_segments-Fits,
  Fits-match_segments, none-ne-some, if-some, and_then-elim,
}

is_method_iff : (a b : Method) → (is_method a b ≡ true) ↔ (a ≡ b)
unfolding is_method
is_method_iff get get = (λ h. refl, λ h. refl)
is_method_iff post post = (λ h. refl, λ h. refl)
is_method_iff put put = (λ h. refl, λ h. refl)
is_method_iff delete delete = (λ h. refl, λ h. refl)
is_method_iff get post = (λ h. absurd cc, λ h. absurd cc)
is_method_iff get put = (λ h. absurd cc, λ h. absurd cc)
is_method_iff get delete = (λ h. absurd cc, λ h. absurd cc)
is_method_iff post get = (λ h. absurd cc, λ h. absurd cc)
is_method_iff post put = (λ h. absurd cc, λ h. absurd cc)
is_method_iff post delete = (λ h. absurd cc, λ h. absurd cc)
is_method_iff put get = (λ h. absurd cc, λ h. absurd cc)
is_method_iff put post = (λ h. absurd cc, λ h. absurd cc)
is_method_iff put delete = (λ h. absurd cc, λ h. absurd cc)
is_method_iff delete get = (λ h. absurd cc, λ h. absurd cc)
is_method_iff delete post = (λ h. absurd cc, λ h. absurd cc)
is_method_iff delete put = (λ h. absurd cc, λ h. absurd cc)

-- The route serves the method and its pattern fits the segments of the path.
unfoldable pub Serves : Method → List String → CompiledRoute → Type 0
unfolding Fits
Serves m actual r = (r.contract.method ≡ m) × Fits r.segments actual

unfoldable pub IsFirst : Method → List String → List CompiledRoute → RouteMatch → Type 0
unfolding Serves
IsFirst m actual rs result =
    (r : CompiledRoute) × Memᴰ r rs
    × (r.contract ≡ result.contract)
    × Serves m actual r
    × All (λ s. Serves m actual s → s.static_segments ≤ r.static_segments) rs

All-weaken {ℓ κ ν} :
    {A : Type ℓ} (P : A → Type κ) (Q : A → Type ν) (xs : List A)
    → ((a : A) → P a → Q a)
    → All P xs
    → All Q xs
All-weaken P Q [] f h = tt
All-weaken P Q (x ∷ xs) f h = (f x h.0, All-weaken P Q xs f h.1)

IsFirst-tail :
    (m : Method) (actual : List String) (r : CompiledRoute) (rs : List CompiledRoute)
    (result : RouteMatch)
    → (Serves m actual r → ⊥)
    → IsFirst m actual rs result
    → IsFirst m actual (r ∷ rs) result
unfolding IsFirst
IsFirst-tail m actual r rs result unserved (s, member, c, serves, best) =
    (s, Memᴰ.tail member, c, serves, (λ h. absurd (unserved h), best))

try_route-Serves :
    (m : Method) (actual : List String) (r : CompiledRoute) (result : RouteMatch)
    → try_route m actual r ≡ some result
    → (r.contract ≡ result.contract) × Serves m actual r
unfolding try_route Serves
try_route-Serves m actual r result h =
    let (same, t) = if-some (is_method r.contract.method m) h in
    and_then-elim (match_segments r.segments actual) (as_match r.contract) t λ ps e k. (
      ap (λ (o : RouteMatch). o.contract) (some_injective k),
      ((is_method_iff r.contract.method m).0 same, match_segments-Fits r.segments actual ps e),
    )
  where
    some_injective : {A : Type 0} {a b : A} → ◌≡◌ {A = Option A} (some a) (some b) → a ≡ b
    some_injective k = cc

Serves-try_route :
    (m : Method) (actual : List String) (r : CompiledRoute)
    → Serves m actual r
    → (result : RouteMatch) × (try_route m actual r ≡ some result)
unfolding try_route Serves
Serves-try_route m actual r (same, fits) =
    let (ps, e) = Fits-match_segments r.segments actual fits in
    (
      record { contract = r.contract; params = ps },
      rw ((is_method_iff r.contract.method m).1 same, e) refl,
    )

or_next-cases {ℓ} :
    {A : Type ℓ} (o p : Option A) {a : A}
    → or_next o p ≡ some a
    → (o ≡ some a) ⊎ ((o ≡ none) × (p ≡ some a))
or_next-cases (some x) p h = inl h
or_next-cases none p h = inr (refl, h)

first_match-IsFirst :
    (m : Method) (actual : List String) (rs : List CompiledRoute) (result : RouteMatch)
    → IsSorted rs
    → first_match m actual rs ≡ some result
    → IsFirst m actual rs result
unfolding first_match IsSorted IsFirst
first_match-IsFirst m actual [] result sorted h = absurd cc
first_match-IsFirst m actual (r ∷ rs) result sorted h =
    elim (or_next-cases (try_route m actual r) (first_match m actual rs) h) [
      | inl e ↦
          let (c, serves) = try_route-Serves m actual r result e in
          (
            r,
            Memᴰ.head refl,
            c,
            serves,
            (
              λ s. omega arith,
              All-weaken (λ y. y.static_segments ≤ r.static_segments)
                  (λ s. Serves m actual s → s.static_segments ≤ r.static_segments) rs
                  (λ s below _. below) sorted.0,
            ),
          )
      | inr e ↦
          IsFirst-tail m actual r rs result
            (λ h. none-ne-some e.0 (Serves-try_route m actual r h).1)
            (first_match-IsFirst m actual rs result sorted.1 e.1)
    ]

or_next-none {ℓ} : {A : Type ℓ} (o p : Option A) → or_next o p ≡ none → (o ≡ none) × (p ≡ none)
or_next-none (some x) p h = absurd cc
or_next-none none p h = (refl, h)

Serves-first_match :
    (m : Method) (actual : List String) (r : CompiledRoute) (rs : List CompiledRoute)
    → Memᴰ r rs
    → Serves m actual r
    → first_match m actual rs ≢ none
unfolding first_match
Serves-first_match m actual r [] member h e = absurd (Memᴰ.not-nil member)
Serves-first_match m actual r (s ∷ rs) (Memᴰ.head p) h e =
    let (result, t) = Serves-try_route m actual s (subst (Serves m actual) p h) in
    none-ne-some (or_next-none (try_route m actual s) (first_match m actual rs) e).0 t
Serves-first_match m actual r (s ∷ rs) (Memᴰ.tail p) h e =
    Serves-first_match m actual r rs p h
      (or_next-none (try_route m actual s) (first_match m actual rs) e).1

Memᴰ-sort : (r : CompiledRoute) (rs : List CompiledRoute) → Memᴰ r (sort rs) → Memᴰ r rs
Memᴰ-sort r rs h =
    All-Memᴰ (λ s. Memᴰ s rs) (sort rs) h
      (All-sort (λ s. Memᴰ s rs) rs (All-of_Memᴰ (λ s. Memᴰ s rs) rs (λ s t. t)))

Memᴰ-if {ℓ} :
    {A : Type ℓ} {a : A} (b : Bool) {xs ys : List A}
    → Memᴰ a xs
    → Memᴰ a ys
    → Memᴰ a (if b then xs else ys)
Memᴰ-if true h k = h
Memᴰ-if false h k = k

Memᴰ-insert :
    (r x : CompiledRoute) (ys : List CompiledRoute) → Memᴰ r (x ∷ ys) → Memᴰ r (insert x ys)
unfolding insert
Memᴰ-insert r x [] h = h
Memᴰ-insert r x (y ∷ ys) h =
    Memᴰ-if (comes_before y x) (later (Memᴰ.cases_cons h) (Memᴰ-insert r x ys)) h
  where
    later :
        (r ≡ x) ⊎ Memᴰ r (y ∷ ys)
        → (Memᴰ r (x ∷ ys) → Memᴰ r (insert x ys))
        → Memᴰ r (y ∷ insert x ys)
    later (inl e) below = Memᴰ.tail (below (Memᴰ.head e))
    later (inr t) below = elim (Memᴰ.cases_cons t) [
      | inl e ↦ Memᴰ.head e
      | inr u ↦ Memᴰ.tail (below (Memᴰ.tail u))
    ]

sort-Memᴰ : (r : CompiledRoute) (rs : List CompiledRoute) → Memᴰ r rs → Memᴰ r (sort rs)
unfolding sort
sort-Memᴰ r (x ∷ rs) (Memᴰ.head e) = Memᴰ-insert r x (sort rs) (Memᴰ.head e)
sort-Memᴰ r (x ∷ rs) (Memᴰ.tail t) = Memᴰ-insert r x (sort rs) (Memᴰ.tail (sort-Memᴰ r rs t))
sort-Memᴰ r [] h = absurd (Memᴰ.not-nil h)

compile_contract : (c : Contract) → (compile c).contract ≡ c
unfolding compile
compile_contract c = refl

-- What is found among the compiled routes of any registry.
IsFirst-registry :
    (m : Method) (actual : List String) (cs : List Contract) (result : RouteMatch)
    → IsFirst m actual (sort (map compile cs)) result
    → Memᴰ result.contract cs
      × Serves m actual (compile result.contract)
      × ((c : Contract)
          → Memᴰ c cs
          → Serves m actual (compile c)
          → (compile c).static_segments ≤ (compile result.contract).static_segments)
unfolding IsFirst
IsFirst-registry m actual cs result (r, member, same, serves, best) =
    let (c, listed, e) = Memᴰ.of_map compile cs (Memᴰ-sort r (map compile cs) member) in
    let is_c : c ≡ result.contract =
      sym (compile_contract c) ∙ ap (λ (s : CompiledRoute). s.contract) e ∙ same in
    let found : r ≡ compile result.contract = sym e ∙ ap compile is_c in
    (
      subst (λ d. Memᴰ d cs) is_c listed,
      subst (Serves m actual) found serves,
      λ d t h.
          subst (λ (s : CompiledRoute). (compile d).static_segments ≤ s.static_segments) found
            (All-Memᴰ (λ s. Serves m actual s → s.static_segments ≤ r.static_segments)
              (sort (map compile cs)) (sort-Memᴰ (compile d) (map compile cs) (Memᴰ.map compile t))
              best h),
    )

compiled_routes_lem : compiled_routes ≡ sort (map compile portal_route_contracts)
unfolding compiled_routes
compiled_routes_lem = refl

-- A route found for a path stands in the registry, serves the method, and its pattern fits the
-- path's segments; no route of the registry that serves the request has more fixed segments.
pub match_portal_route_lem :
    (m : Method) (pathname : String) (result : RouteMatch)
    → match_portal_route m pathname ≡ some result
    → (actual : List String) × (path_segments pathname ≡ some actual)
      × Memᴰ result.contract portal_route_contracts
      × Serves m actual (compile result.contract)
      × ((c : Contract)
          → Memᴰ c portal_route_contracts
          → Serves m actual (compile c)
          → (compile c).static_segments ≤ (compile result.contract).static_segments)
unfolding match_portal_route
match_portal_route_lem m pathname result h =
    and_then-elim (path_segments pathname) (λ actual. first_match m actual compiled_routes) h
      λ actual e k.
        let (listed, serves, best) = IsFirst-registry m actual portal_route_contracts result (
          first_match-IsFirst m actual (sort (map compile portal_route_contracts)) result
            (sort-IsSorted (map compile portal_route_contracts))
            (subst (λ rs. first_match m actual rs ≡ some result) compiled_routes_lem k)) in
        (actual, e, listed, serves, best)

-- A request whose path fits a route of the registry, for the method of that route, is matched.
pub match_portal_route_complete :
    (c : Contract) (pathname : String) (actual : List String)
    → Memᴰ c portal_route_contracts
    → path_segments pathname ≡ some actual
    → Serves c.method actual (compile c)
    → match_portal_route c.method pathname ≢ none
unfolding match_portal_route
match_portal_route_complete c pathname actual member e serves h =
    Serves-first_match c.method actual (compile c) compiled_routes
      (subst (λ rs. Memᴰ (compile c) rs) (sym compiled_routes_lem)
        (sort-Memᴰ (compile c) (map compile portal_route_contracts) (Memᴰ.map compile member)))
      serves (sym (rw (e) refl) ∙ h)
