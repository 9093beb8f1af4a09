-- ===== src/Receive/Answers.antt =====
-- server.go: every request for a route is answered.
use hodu.Prelude.{ℕ, ◌≡◌, ◌⊎◌, inl, inr, refl, Bool, true, false, none, some, [], ◌∷◌, ◌++◌}
use hodu.Route.Routes.{
  Route, Routes, Added, added, failed, existent_route, existent_name, not_listening,
  port_not_unique, add_route,
}
use hodu.Route.Routes.Valid.{AddResult, add_route-AddResult}
use hodu.Receive.{
  Receiver, RouteRequest, sent_route_started, sent_route_stopped, stops_route, answer_start,
  route_start, handle_packet,
}

-- The route is there, as asked for: its id leads to it, and its port to it and this connection.
abbrev pub IsOpen : ℕ → Receiver → Route → Type 0
IsOpen id t r =
    (t.routes.route_map id ≡ some r)
    × (t.routes.svc_port_map r.svc_port ≡ some (record { conn_id = t.conn_id; route_id = id }))

-- What a ROUTE_START is to come to.
abbrev pub StartResult : RouteRequest → Bool → Receiver → Receiver → Type 0
StartResult x true s t =
    (t.ended ≡ s.ended)
    × (((r : Route) × (s.routes.route_map x.route_id ≡ none)
          × IsOpen x.route_id t r
          × (t.handed ≡ s.handed ++ (sent_route_started r.id r.svc_port ∷ [])))
        ⊎ ((t.routes ≡ s.routes) × (t.handed ≡ s.handed ++ (sent_route_stopped x.route_id ∷ []))))
StartResult x false s t =
    (t.ended ≡ true)
    × (((r : Route) × (s.routes.route_map x.route_id ≡ none)
          × IsOpen x.route_id t r
          × (t.handed ≡ s.handed ++ (stops_route r.ref ∷ [])))
        ⊎ ((t.routes ≡ s.routes) × (t.handed ≡ s.handed)))

answered :
    (x : RouteRequest) (sends : Bool) (s : Receiver) (r : Routes × Added)
    → AddResult s.conn_id x.route_id x.target_name x.listening s.routes r
    → StartResult x sends s (answer_start sends x.route_id r s)
answered x true s (t, failed existent_route) h = (refl, inr (h.1, refl))
answered x true s (t, failed existent_name) h = (refl, inr (h.1, refl))
answered x true s (t, failed not_listening) h = (refl, inr (h.1, refl))
answered x true s (t, failed port_not_unique) h = (refl, inr (h.1, refl))
answered x false s (t, failed existent_route) h = (refl, inr (h.1, refl))
answered x false s (t, failed existent_name) h = (refl, inr (h.1, refl))
answered x false s (t, failed not_listening) h = (refl, inr (h.1, refl))
answered x false s (t, failed port_not_unique) h = (refl, inr (h.1, refl))
answered x true s (t, added r) (new, here, l, free, port, n) =
    (refl, inl (r, new, (here, port), refl))
answered x false s (t, added r) (new, here, l, free, port, n) =
    (refl, inl (r, new, (here, port), refl))

-- A request for a route, with whether the answer can be sent. If it can, there is exactly one: either
-- the route was not there and is open now, its id leads to it and its port to it and this connection,
-- and the client is told that it is started; or the tables are as before, and the client is told that
-- the route is stopped. If it cannot, the loop ends, and a route that was opened is asked to stop.
pub route_start-StartResult :
    (x : RouteRequest) (sends : Bool) (s : Receiver)
    → StartResult x sends s (handle_packet (route_start (some x)) sends s)
unfolding handle_packet
route_start-StartResult x sends s =
    answered x sends s
      (add_route s.conn_id x.route_id x.option x.target_addr x.target_name x.listening s.routes)
      (add_route-AddResult s.conn_id x.route_id x.option x.target_addr x.target_name s.routes
        x.listening)
