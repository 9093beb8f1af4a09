-- ===== src/Client/Packets/Handshake.antt =====
-- client.go and server.go: the request for a route between a client and the server.
use Prim.Native.String.{String}
use hodu.Prelude.{
  ℕ, ◌≡◌, ◌⊎◌, inl, inr, refl, Bool, true, Option, none, some, List, [], ◌∷◌, ◌++◌, arith,
  Bool-cases,
}
use hodu.Route.Routes.{Route}
use hodu.Receive.{
  Receiver, RouteRequest, Handed, sent_route_started, sent_route_stopped, route_start,
  handle_packet,
}
use hodu.Receive.Answers.{route_start-StartResult}
use hodu.Receive.Kept.{IsValid, handle_packet-IsValid}
use hodu.Client.Peers.{
  ClientRoute, ClientReport, req_stop_ptc, req_stop_ptcs, route_started, route_stopped,
  report_to_route, take_route_started, req_stop_route,
}
use hodu.Client.Packets.{
  ClientLink, ServerPacket, route_started_packet, route_stopped_packet, with_shared,
  report_packet_to, dispatch_packet,
}

-- The packet in which an answer goes to the client; an address resolves to the port that it names.
abbrev pub packet_of : String → String → Handed → Option ServerPacket
packet_of addr net (sent_route_started id port) = some (
    route_started_packet (
      some (record { route_id = id; target_addr = addr; service_net = net; resolved = some port })))
packet_of addr net (sent_route_stopped id) = some (
    route_stopped_packet
      (some (record { route_id = id; target_addr = addr; service_net = net; resolved = none })))
packet_of addr net _ = none

stopped_stays : (m : List (ℕ × ℕ)) (r : ClientRoute) → (req_stop_ptcs m r).stop_req ≡ r.stop_req
unfolding req_stop_ptcs req_stop_ptc
stopped_stays [] r = refl
stopped_stays ((id, ref) ∷ m) r = stopped_stays m (req_stop_ptc ref r)

req_stop_route-stop_req : (r : ClientRoute) → (req_stop_route r).stop_req ≡ true
unfolding req_stop_route
req_stop_route-stop_req r = elim (Bool-cases r.stop_req) [
  | inl e ↦ ground (arith, e)
  | inr e ↦ ground (arith, e, stopped_stays r.ptc_map (record r { stop_req = true }))
]

module _ (x : RouteRequest) (addr net : String) (sends : Bool) (s t : Receiver)
    (c : ClientLink) where
  -- The server and the client agree on the route: it is open on the port that the client knows, or
  -- there is no new route, and the client's is asked to stop.
  abbrev pub Agree : ClientRoute → Type 0
  Agree q =
      ((r : Route) × (t.routes.route_map x.route_id ≡ some r) × (q.listen_addr ≡ some r.svc_port))
      ⊎ ((t.routes ≡ s.routes) × (q.stop_req ≡ true))

  -- The one answer, as the client takes it.
  abbrev pub Agreed : Type 0
  Agreed =
      (h : Handed) × (p : ServerPacket) × (q : ClientRoute) × (t.handed ≡ s.handed ++ (h ∷ []))
      × (packet_of addr net h ≡ some p)
      × ((dispatch_packet p sends c).0.route_map x.route_id ≡ some q)
      × Agree q

  module _ (old : ClientRoute) (here : c.route_map x.route_id ≡ some old) where
    reported :
        (rep : ClientReport)
        → (report_packet_to x.route_id 0 rep sends c).route_map x.route_id
          ≡ some (report_to_route c.ptc_limit sends 0 rep (with_shared c old))
    unfolding report_packet_to
    reported rep = rw (report_packet_to, here) (ground arith)

    started_Agreed :
        (r : Route)
        → r.id ≡ x.route_id
        → t.routes.route_map x.route_id ≡ some r
        → t.handed ≡ s.handed ++ (sent_route_started r.id r.svc_port ∷ [])
        → Agreed
    unfolding dispatch_packet report_to_route take_route_started
    started_Agreed r same found sent = (
      sent_route_started r.id r.svc_port,
      route_started_packet (
          some (record {
            route_id = r.id;
            target_addr = addr;
            service_net = net;
            resolved = some r.svc_port;
          })),
      report_to_route c.ptc_limit sends 0 (route_started (some (addr, net, some r.svc_port)))
          (with_shared c old),
      sent,
      refl,
      rw same (reported (route_started (some (addr, net, some r.svc_port)))),
      inl (r, found, refl),
    )

    stopped_Agreed :
        t.routes ≡ s.routes → t.handed ≡ s.handed ++ (sent_route_stopped x.route_id ∷ []) → Agreed
    unfolding dispatch_packet report_to_route
    stopped_Agreed same sent = (
      sent_route_stopped x.route_id,
      route_stopped_packet (
          some (record {
            route_id = x.route_id;
            target_addr = addr;
            service_net = net;
            resolved = none;
          })),
      report_to_route c.ptc_limit sends 0 route_stopped (with_shared c old),
      sent,
      refl,
      reported route_stopped,
      inr (same, req_stop_route-stop_req (with_shared c old)),
    )

-- A client that has a route asks a server with valid tables for it, and the server's answer can be
-- sent: the server sends one answer, and when the client has taken it, the two agree. Either the
-- server's table leads from the route's id to a route, and the client knows the port that it listens
-- on; or the server's tables are as before, and the client's route is asked to stop.
pub route_start-Agreed :
    (others : ℕ) (x : RouteRequest) (addr net : String) (sends : Bool) (s : Receiver)
    (c : ClientLink) (old : ClientRoute)
    → IsValid others s
    → c.route_map x.route_id ≡ some old
    → Agreed x addr net sends s (handle_packet (route_start (some x)) true s) c
route_start-Agreed others x addr net sends s c old v here =
    let t = handle_packet (route_start (some x)) true s in
    let w = handle_packet-IsValid others s v (route_start (some x)) true in
    elim (route_start-StartResult x true s).1 [
      | inl (r, new, (found, port), sent) ↦
          started_Agreed x addr net sends s t c old here r (w.routes.keyed x.route_id r found) found
            sent
      | inr (same, sent) ↦ stopped_Agreed x addr net sends s t c old here same sent
    ]
