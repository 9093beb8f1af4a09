-- ===== src/Client/Routes/Events.antt =====
-- client.go: the lifetime of a route (`RunTask`, `ExtendLifetime`, `ResetLifetime`), and what can
-- happen to the routes of a connection, one event at a time.
use hodu.Prelude.{ℕ, ◌+◌, List, [], ◌∷◌, Option, none, some, ltb, if◌then◌else◌}
use hodu.Prelude.Results.{Result, ok, err}
use hodu.Client.Peers.Tasks.{remove_ref}
use hodu.Client.Routes.{
  RouteConfig, ClientRoutes, RouteError, prohibited, save, persist, set_route, add_client_route,
  req_stop_client_route, remove_client_route, remove_client_route_by_id,
  remove_client_route_by_port,
}

-- RunTask as its goroutine starts to wait: `if r.Lifetime > 0 { ... }`
unfoldable pub start_lifetime : ℕ → ℕ → ClientRoutes → ClientRoutes
start_lifetime now ref s =
    let r = s.route ref in
    if ltb 0 r.lifetime
    then set_route ref (record r { lifetime_start = now; lifetime_timer = some (now + r.lifetime) })
        s
    else s

-- And after its loop, at a stop or at the end of the lifetime.
unfoldable pub end_lifetime : ℕ → ClientRoutes → ClientRoutes
unfolding req_stop_client_route
end_lifetime ref s =
    req_stop_client_route ref (set_route ref (record (s.route ref) { lifetime_timer = none }) s)

-- ExtendLifetime
unfoldable pub extend_lifetime : ℕ → ℕ → ClientRoutes → ClientRoutes × Result RouteError Unit
extend_lifetime lifetime ref s =
    let r = s.route ref in
    elim r.lifetime_timer [
      | none ↦ (s, err prohibited)
      | some due ↦ (
        persist (save r.id) (
            set_route ref
              (record r {
                lifetime = r.lifetime + lifetime;
                lifetime_timer = some (r.lifetime_start + (r.lifetime + lifetime));
              })
              s),
        ok tt,
      )
    ]

-- ResetLifetime, with a lifetime that is not negative
unfoldable pub reset_lifetime : ℕ → ℕ → ℕ → ClientRoutes → ClientRoutes × Result RouteError Unit
reset_lifetime now lifetime ref s =
    let r = s.route ref in
    elim r.lifetime_timer [
      | none ↦ (s, err prohibited)
      | some due ↦ (
        persist (save r.id) (
            set_route ref
              (record r {
                lifetime = lifetime;
                lifetime_start = now;
                lifetime_timer = some (now + lifetime);
              })
              s),
        ok tt,
      )
    ]

-- The end of RunTask
unfoldable pub end_route : ℕ → ClientRoutes → ClientRoutes
end_route ref s =
    let t = (remove_client_route ref s).0 in record t { route_list = remove_ref ref t.route_list }

-- The case PACKET_KIND_ROUTE_STARTED of ReportPacket, on the port
unfoldable pub set_listen_port : ℕ → ℕ → ClientRoutes → ClientRoutes
set_listen_port port ref s = set_route ref (record (s.route ref) { listen_port = some port }) s

pub data RouteEvent : Type 0 where
  added : ℕ → RouteConfig → RouteEvent
  removed_by_id removed_by_port route_stopped lifetime_ended route_ended : ℕ → RouteEvent
  lifetime_started extended port_known : ℕ → ℕ → RouteEvent
  reset : ℕ → ℕ → ℕ → RouteEvent

abbrev pub or_same : ClientRoutes → Option (ClientRoutes × Result RouteError Unit) → ClientRoutes
or_same s none = s
or_same s (some r) = r.0

unfoldable pub route_step : RouteEvent → ClientRoutes → ClientRoutes
route_step (added now rc) s = (add_client_route now rc s).0
route_step (removed_by_id id) s = (remove_client_route_by_id id s).0
route_step (removed_by_port port) s = or_same s (remove_client_route_by_port port s)
route_step (route_stopped ref) s = req_stop_client_route ref s
route_step (lifetime_ended ref) s = end_lifetime ref s
route_step (route_ended ref) s = end_route ref s
route_step (lifetime_started now ref) s = start_lifetime now ref s
route_step (extended lifetime ref) s = (extend_lifetime lifetime ref s).0
route_step (port_known port ref) s = set_listen_port port ref s
route_step (reset now lifetime ref) s = (reset_lifetime now lifetime ref s).0

unfoldable pub route_steps : List RouteEvent → ClientRoutes → ClientRoutes
unfolding route_step
route_steps [] s = s
route_steps (e ∷ es) s = route_steps es (route_step e s)
