-- ===== src/Receive.antt =====
-- server.go: what the server does with the packets of one client (`ServerConn.receive_from_stream`),
-- over the tables of Conns, Route and Sessions and the peers of PeerConn.
-- Opening a listener and sending are outcomes that come with a packet. The events of terminals and
-- proxies are passed on, and what is done for them is not modelled here.
pub mod Answers
pub mod Kept
mod Tests
use Prim.Native.String.{String}
use hodu.Prelude.{
  ℕ, Bool, true, false, Option, none, some, List, [], ◌∷◌, ◌++◌, map, if◌then◌else◌, update, lookup,
}
use hodu.Conns.{
  Conns, describe, Described, blank_token_refused, numeric_token_refused, duplicate_token_refused,
  token_unchanged, token_set,
}
use hodu.Route.Routes.{
  Route, Routes, Added, added, failed, add_route, Removed, removed, non_existent,
  remove_route_by_id,
}
use hodu.PeerConn.{PeerConn, Report, peer_eof, other, report_packet}
use hodu.Sessions.Rxc.{ServerRxc, Rxcs, Effect, asks_stop, RxcPacket, handle_rxc_event}

pub data Handed : Type 0 where
  sent_route_started : ℕ → ℕ → Handed
  sent_route_stopped : ℕ → Handed
  stops_route : ℕ → Handed
  sent_conn_error : Described → Handed
  -- ReqStop of the connection reaches its routes and sessions.
  fans_out : Handed
  notifies : String → Handed
  rxc_effect : Effect → Handed
  to_rpty to_rpx : ℕ → Handed

pub record Receiver : Type 0 where
  -- the connection, by its pointer and its id
  pub ref : ℕ
  pub conn_id : ℕ
  pub conns : Conns
  pub routes : Routes
  -- the peers of a route, by its pointer, and the peers by theirs
  pub peers : ℕ → List (ℕ × ℕ)
  pub peer : ℕ → PeerConn
  pub rxcs : Rxcs
  pub handed : List Handed
  -- after the label `done`
  pub ended : Bool

-- The fields of a RouteDesc that count, with the port that a listener gets, if it can be opened.
pub record RouteRequest : Type 0 where
  pub route_id : ℕ
  pub option : ℕ
  pub target_addr : String
  pub target_name : String
  pub listening : Option ℕ

-- A packet, of which none is one with other data than its kind has.
pub data ClientPacket : Type 0 where
  route_start : Option RouteRequest → ClientPacket
  route_stop : Option ℕ → ClientPacket
  peer_event : Option (ℕ × ℕ × Report) → ClientPacket
  conn_desc conn_notice : Option String → ClientPacket
  rpty_event rpx_event : Option ℕ → ClientPacket
  rxc_event : RxcPacket → Option (ℕ × ℕ × List ℕ) → Bool → ClientPacket
  other_packet : ClientPacket

abbrev pub hand : Handed → Receiver → Receiver
hand h s = record s { handed = s.handed ++ (h ∷ []) }

abbrev pub end_if : Bool → Receiver → Receiver
end_if b s = record s { ended = b }

-- A send that fails ends the loop.
abbrev pub send_or_end : Bool → Handed → Receiver → Receiver
send_or_end true h s = hand h s
send_or_end false h s = end_if true s

abbrev pub send_or_stop : Bool → ℕ → Handed → Receiver → Receiver
send_or_stop true route h s = hand h s
send_or_stop false route h s = end_if true (hand (stops_route route) s)

-- The answer to ROUTE_START
abbrev pub answer_start : Bool → ℕ → Routes × Added → Receiver → Receiver
answer_start sends id (t, failed e) s =
    send_or_end sends (sent_route_stopped id) (record s { routes = t })
answer_start sends id (t, added r) s =
    send_or_stop sends r.ref (sent_route_started r.id r.svc_port) (record s { routes = t })

-- The answer to ROUTE_STOP; the removal has asked the route to stop.
abbrev pub answer_stop : Bool → Routes × Removed → Receiver → Receiver
answer_stop sends (t, non_existent) s = record s { routes = t }
answer_stop sends (t, removed r) s =
    send_or_stop sends r.ref (sent_route_stopped r.id)
      (hand (stops_route r.ref) (record s { routes = t }))

-- ServerConn.ReportPacket and ServerRoute.ReportPacket
unfoldable pub report : ℕ → ℕ → Report → Receiver → Receiver
report route_id peer_id r s = elim (s.routes.route_map route_id) [
  | none ↦ s
  | some route ↦ elim (lookup peer_id (s.peers route.ref)) [
    | none ↦ s
    | some pts ↦ record s { peer = update s.peer pts (report_packet r (s.peer pts)) }
  ]
]

-- The kinds of peer packets that the loop has a case for.
abbrev pub is_reported : Report → Bool
is_reported peer_eof = false
is_reported other = false
is_reported _ = true

-- What a CONN_DESC hands out, and whether ReqStop is called for the first time.
abbrev pub refuse : Bool → Described → Receiver → Receiver
refuse true d s = hand (sent_conn_error d) s
refuse false d s = hand fans_out (hand (sent_conn_error d) s)

abbrev pub answer_desc : Bool → Conns × Described → Receiver → Receiver
answer_desc stopped (c, token_unchanged) s = record s { conns = c }
answer_desc stopped (c, token_set) s = record s { conns = c }
answer_desc stopped (c, blank_token_refused) s =
    refuse stopped blank_token_refused (record s { conns = c })
answer_desc stopped (c, numeric_token_refused) s =
    refuse stopped numeric_token_refused (record s { conns = c })
answer_desc stopped (c, duplicate_token_refused) s =
    refuse stopped duplicate_token_refused (record s { conns = c })

-- One packet, and whether a send works.
unfoldable pub handle_packet : ClientPacket → Bool → Receiver → Receiver
unfolding report
handle_packet (route_start none) sends s = s
handle_packet (route_start (some x)) sends s =
    answer_start sends x.route_id
      (add_route s.conn_id x.route_id x.option x.target_addr x.target_name x.listening s.routes) s
handle_packet (route_stop none) sends s = s
handle_packet (route_stop (some id)) sends s = answer_stop sends (remove_route_by_id id s.routes) s
handle_packet (peer_event none) sends s = s
handle_packet (peer_event (some (route_id, peer_id, r))) sends s =
    if is_reported r then report route_id peer_id r s else s
handle_packet (conn_desc none) sends s = s
handle_packet (conn_desc (some token)) sends s =
    answer_desc (s.conns.cts s.ref).stop_req (describe s.ref token s.conns) s
handle_packet (conn_notice none) sends s = s
handle_packet (conn_notice (some text)) sends s = hand (notifies text) s
handle_packet (rpty_event none) sends s = s
handle_packet (rpty_event (some id)) sends s = hand (to_rpty id) s
handle_packet (rpx_event none) sends s = s
handle_packet (rpx_event (some id)) sends s = hand (to_rpx id) s
handle_packet (rxc_event kind none succeeds) sends s = s
handle_packet (rxc_event kind (some (id, flags, bytes)) succeeds) sends s =
    let (t, es, r) = handle_rxc_event kind id flags bytes succeeds s.rxcs in
    record s { rxcs = t; handed = s.handed ++ map rxc_effect es }
handle_packet other_packet sends s = s

-- The end of the stream or an error of it, or a packet.
pub data Incoming : Type 0 where
  stream_ended : Incoming
  received : ClientPacket → Bool → Incoming

abbrev pub receive_one : Incoming → Receiver → Receiver
receive_one stream_ended s = end_if true s
receive_one (received p sends) s = handle_packet p sends s

-- The loop, until the connection is asked to stop.
unfoldable pub receive : List Incoming → Receiver → Receiver
unfolding handle_packet
receive [] s = s
receive (i ∷ is) s =
    let rest = receive is (receive_one i s) in
    if s.ended then s else if (s.conns.cts s.ref).stop_req then end_if true s else rest

abbrev pub asks_each : List (ℕ × ServerRxc) → List Handed
asks_each [] = []
asks_each ((id, rxc) ∷ m) = rxc_effect (asks_stop rxc) ∷ asks_each m

-- receive_from_stream: after the loop every session is asked to stop.
unfoldable pub receive_from_stream : List Incoming → Receiver → Receiver
unfolding receive
receive_from_stream is s =
    let t = receive is s in
    if t.ended then record t { handed = t.handed ++ asks_each t.rxcs.rxc_map } else t
