-- ===== src/Client/Routes/Ports.antt =====
-- client.go: FindClientRouteByServerPeerSvcPortId.
use hodu.Prelude.{
  ℕ, ◌≡◌, false, List, [], ◌∷◌, none, some, arith, Bool-cases, Option-cases, inl, inr, lookup,
  has_key, HasUniqueKeys, has_key-lookup, ◌==◌,
}
use hodu.Client.Routes.{
  RouteEntry, ClientRoutes, PortSearch, found, not_found, panics, is_port, search_port,
  find_client_route_by_port,
}
use hodu.Client.Routes.Valid.{IsValid}

-- What the search for the route of a port is to give.
abbrev pub PortResult : ℕ → List (ℕ × ℕ) → (ℕ → RouteEntry) → PortSearch → Type 0
PortResult port m route (found ref) =
    (id : ℕ) × (lookup id m ≡ some ref) × ((route ref).listen_port ≡ some port)
PortResult port m route not_found =
    (id ref : ℕ)
    → lookup id m ≡ some ref
    → (p : ℕ) × ((route ref).listen_port ≡ some p) × (p == port ≡ false)
PortResult port m route panics =
    (id : ℕ) × (ref : ℕ) × (lookup id m ≡ some ref) × ((route ref).listen_port ≡ none)

module _ (port : ℕ) (route : ℕ → RouteEntry) where
  later :
      (id ref : ℕ) (m : List (ℕ × ℕ)) (o : PortSearch)
      → has_key id m ≡ false
      → (p : ℕ) → (route ref).listen_port ≡ some p
      → p == port ≡ false
      → PortResult port m route o
      → PortResult port ((id, ref) ∷ m) route o
  later id ref m (found q) new p e ne (i, h, l) = (i, ground (arith, has_key-lookup i q m h), l)
  later id ref m not_found new p e ne h = λ i q l. elim (Bool-cases (id == i)) [
    | inl it ↦ (p, ground arith, ne)
    | inr other ↦ h i q (ground arith)
  ]
  later id ref m panics new p e ne (i, q, h, l) = (i, q, ground (arith, has_key-lookup i q m h), l)

  search_port-PortResult :
      (m : List (ℕ × ℕ)) → HasUniqueKeys m → PortResult port m route (search_port port m route)
  unfolding search_port
  search_port-PortResult [] u = λ id ref h. absurd (ground (arith, h))
  search_port-PortResult ((id, ref) ∷ m) (new, u) = elim (Option-cases (route ref).listen_port) [
    | inl e ↦ rw (search_port, is_port, e) (id, ref, ground arith, e)
    | inr (p, e) ↦ elim (Bool-cases (p == port)) [
      | inl it ↦ rw (search_port, is_port, e, it) (id, ground arith, ground arith)
      | inr other ↦
          rw (search_port, is_port, e, other)
            (later id ref m (search_port port m route) new p e other (search_port-PortResult m u))
    ]
  ]

-- Looking up the route of a port in valid tables: a route that is found is in the table and has the
-- port; if there is none, every route in the table knows its port and has another; and the
-- search dereferences a nil address only if some route in the table has not been told its port yet.
pub find_client_route_by_port-PortResult :
    (others port : ℕ) (s : ClientRoutes)
    → IsValid others s
    → PortResult port s.route_map s.route (find_client_route_by_port port s)
unfolding find_client_route_by_port
find_client_route_by_port-PortResult others port s v =
    search_port-PortResult port s.route s.route_map v.unique
