-- ===== src/Client/Routes/Runs.antt =====
-- client.go: the tables of the routes stay valid.
use hodu.Prelude.{
  ℕ, refl, List, [], ◌∷◌, Option, none, some, arith, Bool-cases, Option-cases, inl, inr, ltb, ◌+◌,
}
use hodu.Prelude.Results.{Result, ok, err}
use hodu.Client.Routes.{
  RouteError, ClientRoutes, PortSearch, found, not_found, panics, set_route, drop_client_route,
  find_client_route_by_port, remove_client_route, remove_client_route_by_port, non_existent_route,
}
use hodu.Client.Routes.Events.{
  start_lifetime, end_lifetime, extend_lifetime, reset_lifetime, end_route, set_listen_port,
  RouteEvent, added, removed_by_id, removed_by_port, route_stopped, lifetime_ended, route_ended,
  lifetime_started, extended, port_known, reset, or_same, route_step, route_steps,
}
use hodu.Client.Routes.Valid.{
  IsValid, set_route-IsValid, same_IsValid, req_stop_client_route-IsValid,
  drop_client_route-IsValid, add_client_route-IsValid, remove_client_route_by_id-IsValid,
  remove_client_route-IsValid,
}
use hodu.Client.Routes.Ports.{PortResult, find_client_route_by_port-PortResult}

module _ (others : ℕ) (s : ClientRoutes) (v : IsValid others s) where
  abbrev pub after_search : PortSearch → Option (ClientRoutes × Result RouteError Unit)
  after_search (found ref) = some (drop_client_route (s.route ref).id ref s, ok tt)
  after_search not_found = some (s, err non_existent_route)
  after_search panics = none

  after_search-IsValid :
      (port : ℕ) (o : PortSearch)
      → PortResult port s.route_map s.route o
      → IsValid others (or_same s (after_search o))
  after_search-IsValid port (found ref) (id, h, l) =
      drop_client_route-IsValid others s v (s.route ref).id ref (ground (arith, v.keyed id ref))
  after_search-IsValid port not_found r = v
  after_search-IsValid port panics r = v

  remove_client_route_by_port-IsValid :
      (port : ℕ) → IsValid others (or_same s (remove_client_route_by_port port s))
  unfolding remove_client_route_by_port
  remove_client_route_by_port-IsValid port =
      after_search-IsValid port (find_client_route_by_port port s)
        (find_client_route_by_port-PortResult others port s v)

  start_lifetime-IsValid : (now ref : ℕ) → IsValid others (start_lifetime now ref s)
  unfolding start_lifetime
  start_lifetime-IsValid now ref = elim (Bool-cases (ltb 0 (s.route ref).lifetime)) [
    | inl e ↦
        rw (start_lifetime, e)
          (set_route-IsValid others s v ref
            (record (s.route ref) {
              lifetime_start = now;
              lifetime_timer = some (now + (s.route ref).lifetime);
            })
            refl (λ due h. ground (arith, h)))
    | inr e ↦ rw (start_lifetime, e) v
  ]

  end_lifetime-IsValid : (ref : ℕ) → IsValid others (end_lifetime ref s)
  unfolding end_lifetime
  end_lifetime-IsValid ref =
      let r = record (s.route ref) { lifetime_timer = none } in
      req_stop_client_route-IsValid others (set_route ref r s)
        (set_route-IsValid others s v ref r refl (λ due h. absurd (ground (arith, h)))) ref

  extend_lifetime-IsValid : (lifetime ref : ℕ) → IsValid others (extend_lifetime lifetime ref s).0
  unfolding extend_lifetime
  extend_lifetime-IsValid lifetime ref = elim (Option-cases (s.route ref).lifetime_timer) [
    | inl e ↦ rw (extend_lifetime, e) v
    | inr (due, e) ↦
        rw (extend_lifetime, e)
          (same_IsValid others _
            (set_route-IsValid others s v ref
              (record (s.route ref) {
                lifetime = (s.route ref).lifetime + lifetime;
                lifetime_timer =
                    some ((s.route ref).lifetime_start + ((s.route ref).lifetime + lifetime));
              })
              refl (λ d h. ground (arith, h)))
            _ _)
  ]

  reset_lifetime-IsValid :
      (now lifetime ref : ℕ) → IsValid others (reset_lifetime now lifetime ref s).0
  unfolding reset_lifetime
  reset_lifetime-IsValid now lifetime ref = elim (Option-cases (s.route ref).lifetime_timer) [
    | inl e ↦ rw (reset_lifetime, e) v
    | inr (due, e) ↦
        rw (reset_lifetime, e)
          (same_IsValid others _
            (set_route-IsValid others s v ref
              (record (s.route ref) {
                lifetime = lifetime;
                lifetime_start = now;
                lifetime_timer = some (now + lifetime);
              })
              refl (λ d h. ground (arith, h)))
            _ _)
  ]

  pub route_step-IsValid : (e : RouteEvent) → IsValid others (route_step e s)
  unfolding route_step end_route set_listen_port
  route_step-IsValid (added now rc) = add_client_route-IsValid others s v now rc
  route_step-IsValid (removed_by_id id) = remove_client_route_by_id-IsValid others s v id
  route_step-IsValid (removed_by_port port) = remove_client_route_by_port-IsValid port
  route_step-IsValid (route_stopped ref) = req_stop_client_route-IsValid others s v ref
  route_step-IsValid (lifetime_ended ref) = end_lifetime-IsValid ref
  route_step-IsValid (route_ended ref) =
      same_IsValid others (remove_client_route ref s).0 (remove_client_route-IsValid others s v ref)
        _ _
  route_step-IsValid (lifetime_started now ref) = start_lifetime-IsValid now ref
  route_step-IsValid (extended lifetime ref) = extend_lifetime-IsValid lifetime ref
  route_step-IsValid (port_known port ref) =
      set_route-IsValid others s v ref (record (s.route ref) { listen_port = some port }) refl
        (v.timed ref)
  route_step-IsValid (reset now lifetime ref) = reset_lifetime-IsValid now lifetime ref

-- Whatever happens to the routes of a connection, the table stays valid: no id stands twice, an id
-- leads to the route that has it and is not 0, the count of routes is that of the table and of the
-- other connections, and a timer fires when the lifetime of its route has passed since its start,
-- after extensions and resets too.
pub route_steps-IsValid :
    (others : ℕ) (es : List RouteEvent) (s : ClientRoutes)
    → IsValid others s
    → IsValid others (route_steps es s)
unfolding route_steps
route_steps-IsValid others [] s v = v
route_steps-IsValid others (e ∷ es) s v =
    route_steps-IsValid others es (route_step e s) (route_step-IsValid others s v e)
