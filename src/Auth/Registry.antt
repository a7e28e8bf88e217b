-- ===== src/Auth/Registry.antt =====
-- The lines of the registry of src/auth/portal-route-contract.ts among one another.
use mathlib.Core.List.{Memᴰ}
use mathlib.Core.List.Memᴰ
use freeipa_admin_dashboard.Base.{
  String, ◌≡◌, refl, sym, subst, Bool, true, false, ◌&&◌, Option, none, some, List, [], ◌∷◌, all,
  &&-eq-true_iff, str_eq, eq_iff,
}
use freeipa_admin_dashboard.Auth.Contracts.{
  Contract, portal_route_contracts, find_portal_route_contract,
}
use freeipa_admin_dashboard.Auth.Router.{RouteMatch, compiled_routes, match_portal_route}

pub all-Memᴰ {ℓ} :
    {A : Type ℓ} (p : A → Bool) {a : A} (xs : List A) → Memᴰ a xs → all p xs ≡ true → p a ≡ true
all-Memᴰ p [] t h = absurd (Memᴰ.not-nil t)
all-Memᴰ p (x ∷ xs) (Memᴰ.head e) h =
    subst (λ b. p b ≡ true) (sym e) ((&&-eq-true_iff (p x) (all p xs)).0 h).0
all-Memᴰ p (x ∷ xs) (Memᴰ.tail t) h = all-Memᴰ p xs t ((&&-eq-true_iff (p x) (all p xs)).0 h).1

abbrev has_id : String → Option Contract → Bool
has_id i none = false
has_id i (some c) = str_eq c.id i

abbrev matched : Option RouteMatch → Option Contract
matched none = none
matched (some r) = some r.contract

unfoldable pub is_found : Contract → Bool
is_found c =
    has_id c.id (find_portal_route_contract c.method c.path)
    && has_id c.id (matched (match_portal_route c.method c.path))

every_found : all is_found portal_route_contracts ≡ true
unfolding is_found find_portal_route_contract match_portal_route compiled_routes
    portal_route_contracts
every_found = refl

has_id-elim :
    (i : String) (o : Option Contract)
    → has_id i o ≡ true
    → (d : Contract) × (o ≡ some d) × (d.id ≡ i)
has_id-elim i (some d) h = (d, refl, (eq_iff d.id i).0 h)
has_id-elim i none h = absurd cc

matched-elim :
    (i : String) (o : Option RouteMatch)
    → has_id i (matched o) ≡ true
    → (r : RouteMatch) × (o ≡ some r) × (r.contract.id ≡ i)
matched-elim i (some r) h = (r, refl, (eq_iff r.contract.id i).0 h)
matched-elim i none h = absurd cc

-- No line of the registry hides another: by its method and its pattern taken as a path, each line
-- is the one that both the lookup by path and the matching find.
pub registered-IsFound :
    (c : Contract)
    → Memᴰ c portal_route_contracts
    → ((d : Contract) × (find_portal_route_contract c.method c.path ≡ some d) × (d.id ≡ c.id))
      × ((r : RouteMatch) × (match_portal_route c.method c.path ≡ some r) × (r.contract.id ≡ c.id))
unfolding is_found
registered-IsFound c t =
    let parts =
      (&&-eq-true_iff (has_id c.id (find_portal_route_contract c.method c.path))
          (has_id c.id (matched (match_portal_route c.method c.path)))).0
        (all-Memᴰ is_found portal_route_contracts t every_found) in
    (
      has_id-elim c.id (find_portal_route_contract c.method c.path) parts.0,
      matched-elim c.id (match_portal_route c.method c.path) parts.1,
    )
