-- ===== src/Client/Routes/Saved.antt =====
-- client.go: the persister knows the routes of the table.
use hodu.Prelude.{
  ℕ, ◌≡◌, refl, true, false, List, [], ◌∷◌, Option, none, some, arith, Bool, Bool-cases,
  Option-cases, inl, inr, lookup, has_key, has_key-delete_key, ltb, ◌==◌, if◌then◌else◌,
}
use hodu.Client.Routes.{
  RouteConfig, ClientRoutes, PortSearch, found, not_found, panics, PersisterCall, save, delete,
  put_client_route, enter_assigned, add_client_route, req_stop_client_route, drop_client_route,
  find_client_route_by_port, remove_client_route, remove_client_route_by_id,
  remove_client_route_by_port,
}
use hodu.Client.Routes.Events.{
  start_lifetime, end_lifetime, extend_lifetime, reset_lifetime, end_route, set_listen_port,
  RouteEvent, added, removed_by_id, removed_by_port, route_stopped, lifetime_ended, route_ended,
  lifetime_started, extended, port_known, reset, or_same, route_step, route_steps,
}
use hodu.Client.Routes.Valid.{IsValid}
use hodu.Client.Routes.Runs.{after_search, route_step-IsValid}

-- Whether the last call about a route has saved it.
abbrev pub is_saved : ℕ → List PersisterCall → Bool
is_saved id [] = false
is_saved id (save j ∷ cs) = if j == id then true else is_saved id cs
is_saved id (delete j ∷ cs) = if j == id then false else is_saved id cs

abbrev pub IsSaved : ClientRoutes → Type 0
IsSaved s = s.has_persister ≡ true → (id : ℕ) → is_saved id s.calls ≡ has_key id s.route_map

-- A lifetime is changed for a route whose id is in the table.
abbrev pub IsHeld : RouteEvent → ClientRoutes → Type 0
IsHeld (extended lifetime ref) s = has_key (s.route ref).id s.route_map ≡ true
IsHeld (reset now lifetime ref) s = has_key (s.route ref).id s.route_map ≡ true
IsHeld _ s = Unit

abbrev pub AreHeld : List RouteEvent → ClientRoutes → Type 0
AreHeld [] s = Unit
AreHeld (e ∷ es) s = IsHeld e s × AreHeld es (route_step e s)

module _ (others : ℕ) (s : ClientRoutes) (v : IsValid others s) (h : IsSaved s) where
  put_client_route-IsSaved :
      (now id next : ℕ) (rc : RouteConfig)
      → IsSaved (put_client_route now id rc (record s { route_next_id = next }))
  unfolding put_client_route
  put_client_route-IsSaved now id next rc p k = rw p (ground (arith, h p k))

  drop_client_route-IsSaved :
      (id ref : ℕ) → (s.route ref).id ≡ id → IsSaved (drop_client_route id ref s)
  unfolding drop_client_route req_stop_client_route
  drop_client_route-IsSaved id ref e p k =
      ground (arith, p, e, h p k, has_key-delete_key k id s.route_map)

  enter_assigned-IsSaved :
      (now : ℕ) (rc : RouteConfig) (r : Option ℕ × ℕ) → IsSaved (enter_assigned now rc r s).0
  unfolding enter_assigned
  enter_assigned-IsSaved now rc (none, next) = h
  enter_assigned-IsSaved now rc (some id, next) = put_client_route-IsSaved now id next rc

  add_client_route-IsSaved : (now : ℕ) (rc : RouteConfig) → IsSaved (add_client_route now rc s).0
  unfolding add_client_route
  add_client_route-IsSaved now rc = elim (Bool-cases (rc.id == 0)) [
    | inl auto ↦ rw (add_client_route, auto) (enter_assigned-IsSaved now rc _)
    | inr given ↦ elim (Bool-cases (has_key rc.id s.route_map)) [
      | inl taken ↦ rw (add_client_route, given, taken) h
      | inr free ↦
          rw (add_client_route, given, free) (put_client_route-IsSaved now rc.id s.route_next_id rc)
    ]
  ]

  remove_client_route_by_id-IsSaved : (id : ℕ) → IsSaved (remove_client_route_by_id id s).0
  unfolding remove_client_route_by_id
  remove_client_route_by_id-IsSaved id = elim (Option-cases (lookup id s.route_map)) [
    | inl e ↦ rw (remove_client_route_by_id, e) h
    | inr (r, e) ↦
        rw (remove_client_route_by_id, e) (drop_client_route-IsSaved id r (v.keyed id r e).0)
  ]

  remove_client_route-IsSaved : (ref : ℕ) → IsSaved (remove_client_route ref s).0
  unfolding remove_client_route
  remove_client_route-IsSaved ref = elim (Option-cases (lookup (s.route ref).id s.route_map)) [
    | inl e ↦ rw (remove_client_route, e) h
    | inr (r, e) ↦ elim (Bool-cases (r == ref)) [
      | inl it ↦
          rw (remove_client_route, e, it) (drop_client_route-IsSaved (s.route ref).id ref refl)
      | inr not_it ↦ rw (remove_client_route, e, not_it) h
    ]
  ]

  after_search-IsSaved : (o : PortSearch) → IsSaved (or_same s (after_search others s v o))
  after_search-IsSaved (found ref) = drop_client_route-IsSaved (s.route ref).id ref refl
  after_search-IsSaved not_found = h
  after_search-IsSaved panics = h

  extend_lifetime-IsSaved :
      (lifetime ref : ℕ)
      → has_key (s.route ref).id s.route_map ≡ true
      → IsSaved (extend_lifetime lifetime ref s).0
  unfolding extend_lifetime
  extend_lifetime-IsSaved lifetime ref held = elim (Option-cases (s.route ref).lifetime_timer) [
    | inl e ↦ rw (extend_lifetime, e) h
    | inr (due, e) ↦ rw (extend_lifetime, e) (λ p k. rw p (ground (arith, h p k)))
  ]

  reset_lifetime-IsSaved :
      (now lifetime ref : ℕ)
      → has_key (s.route ref).id s.route_map ≡ true
      → IsSaved (reset_lifetime now lifetime ref s).0
  unfolding reset_lifetime
  reset_lifetime-IsSaved now lifetime ref held = elim (Option-cases (s.route ref).lifetime_timer) [
    | inl e ↦ rw (reset_lifetime, e) h
    | inr (due, e) ↦ rw (reset_lifetime, e) (λ p k. rw p (ground (arith, h p k)))
  ]

  start_lifetime-IsSaved : (now ref : ℕ) → IsSaved (start_lifetime now ref s)
  unfolding start_lifetime
  start_lifetime-IsSaved now ref = elim (Bool-cases (ltb 0 (s.route ref).lifetime)) [
    | inl e ↦ rw (start_lifetime, e) h
    | inr e ↦ rw (start_lifetime, e) h
  ]

  route_step-IsSaved : (e : RouteEvent) → IsHeld e s → IsSaved (route_step e s)
  unfolding route_step end_route set_listen_port end_lifetime req_stop_client_route
      remove_client_route_by_port
  route_step-IsSaved (added now rc) held = add_client_route-IsSaved now rc
  route_step-IsSaved (removed_by_id id) held = remove_client_route_by_id-IsSaved id
  route_step-IsSaved (removed_by_port port) held =
      after_search-IsSaved (find_client_route_by_port port s)
  route_step-IsSaved (route_stopped ref) held = h
  route_step-IsSaved (lifetime_ended ref) held = h
  route_step-IsSaved (route_ended ref) held = remove_client_route-IsSaved ref
  route_step-IsSaved (lifetime_started now ref) held = start_lifetime-IsSaved now ref
  route_step-IsSaved (extended lifetime ref) held = extend_lifetime-IsSaved lifetime ref held
  route_step-IsSaved (port_known port ref) held = h
  route_step-IsSaved (reset now lifetime ref) held = reset_lifetime-IsSaved now lifetime ref held

-- On a client with a persister, where lifetimes are only changed for routes whose id is in the table:
-- whatever happens to the routes, the last call about an id has saved it exactly if it is in the
-- table.
pub route_steps-IsSaved :
    (others : ℕ) (es : List RouteEvent) (s : ClientRoutes)
    → IsValid others s
    → IsSaved s
    → AreHeld es s
    → IsSaved (route_steps es s)
unfolding route_steps
route_steps-IsSaved others [] s v h held = h
route_steps-IsSaved others (e ∷ es) s v h (held, rest) =
    route_steps-IsSaved others es (route_step e s) (route_step-IsValid others s v e)
      (route_step-IsSaved others s v h e held) rest
