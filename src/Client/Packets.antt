-- ===== src/Client/Packets.antt =====
-- client.go: what the client does with the packets of a server (`ClientConn.dispatch_packet`,
-- `ClientConn.ReportPacket`), over the routes of Client.Peers.
-- The events of terminals, proxies and commands are passed on, and so are notices.
pub mod Handshake
use Prim.Native.String.{String}
use hodu.Prelude.{
  ℕ, Bool, true, false, Option, none, some, List, [], ◌∷◌, ◌++◌, ◌==◌, if◌then◌else◌, update, ℤ,
}
use hodu.Client.Peers.{
  ClientRoute, PeerPacket, ClientReport, route_started, route_stopped, other, peer_started,
  peer_aborted, peer_stopped, peer_eof, peer_data, report_to_route,
}

-- What is passed on.
pub data PassedOn : Type 0 where
  notice_to : String → PassedOn
  rpty_to rpx_to rxc_to : ℕ → PassedOn

-- The connection, with what its routes share: the count of peers and the stream to the server.
pub record ClientLink : Type 0 where
  pub route_map : ℕ → Option ClientRoute
  pub ptc_limit : ℤ
  -- stats.peers
  pub peers : ℤ
  pub sent : List PeerPacket
  pub close_on_conn_error : Bool
  pub passed_on : List PassedOn

-- RouteDesc, with what its address resolves to
pub record RouteNews : Type 0 where
  pub route_id : ℕ
  pub target_addr : String
  pub service_net : String
  pub resolved : Option ℕ

-- A packet of a server, of which none is one with other data than its kind has.
pub data ServerPacket : Type 0 where
  route_started_packet route_stopped_packet : Option RouteNews → ServerPacket
  peer_started_packet peer_stopped_packet peer_eof_packet : Option (ℕ × ℕ) → ServerPacket
  peer_data_packet : Option (ℕ × ℕ × List ℕ) → Bool → ServerPacket
  conn_error_packet : Option ℕ → ServerPacket
  conn_notice_packet : Option String → ServerPacket
  rpty_packet rpx_packet rxc_packet : Option ℕ → ServerPacket
  other_packet : ServerPacket

-- A route that works on what it shares with the others.
abbrev pub with_shared : ClientLink → ClientRoute → ClientRoute
with_shared s r = record r { peers = s.peers; sent = s.sent }

abbrev pub keep_route : ℕ → ClientRoute → ClientLink → ClientLink
keep_route id r s = record s {
  route_map = update s.route_map id (some r);
  peers = r.peers;
  sent = r.sent;
}

-- ClientConn.ReportPacket, with whether a send works
unfoldable pub report_packet_to : ℕ → ℕ → ClientReport → Bool → ClientLink → ClientLink
report_packet_to route_id pts_id r sends s = elim (s.route_map route_id) [
  | none ↦ s
  | some route ↦
      keep_route route_id (report_to_route s.ptc_limit sends pts_id r (with_shared s route)) s
]

abbrev pub pass_on : PassedOn → ClientLink → ClientLink
pass_on p s = record s { passed_on = s.passed_on ++ (p ∷ []) }

-- dispatch_packet, with whether the connection goes on
unfoldable pub dispatch_packet : ServerPacket → Bool → ClientLink → ClientLink × Bool
unfolding report_packet_to
dispatch_packet (route_started_packet none) sends s = (s, true)
dispatch_packet (route_started_packet (some x)) sends s = (
  report_packet_to x.route_id 0 (route_started (some (x.target_addr, x.service_net, x.resolved)))
      sends s,
  true,
)
dispatch_packet (route_stopped_packet none) sends s = (s, true)
dispatch_packet (route_stopped_packet (some x)) sends s =
    (report_packet_to x.route_id 0 route_stopped sends s, true)
dispatch_packet (peer_started_packet none) sends s = (s, true)
dispatch_packet (peer_started_packet (some (route_id, peer_id))) sends s =
    (report_packet_to route_id peer_id (peer_started true) sends s, true)
dispatch_packet (peer_stopped_packet none) sends s = (s, true)
dispatch_packet (peer_stopped_packet (some (route_id, peer_id))) sends s =
    (report_packet_to route_id peer_id (peer_stopped true) sends s, true)
dispatch_packet (peer_eof_packet none) sends s = (s, true)
dispatch_packet (peer_eof_packet (some (route_id, peer_id))) sends s =
    (report_packet_to route_id peer_id (peer_eof true) sends s, true)
dispatch_packet (peer_data_packet none works) sends s = (s, true)
dispatch_packet (peer_data_packet (some (route_id, peer_id, bytes)) works) sends s =
    (report_packet_to route_id peer_id (peer_data (some bytes) works) sends s, true)
dispatch_packet (conn_error_packet none) sends s = (s, true)
dispatch_packet (conn_error_packet (some error_id)) sends s =
    (s, if s.close_on_conn_error then false else true)
dispatch_packet (conn_notice_packet none) sends s = (s, true)
dispatch_packet (conn_notice_packet (some text)) sends s = (pass_on (notice_to text) s, true)
dispatch_packet (rpty_packet none) sends s = (s, true)
dispatch_packet (rpty_packet (some id)) sends s = (pass_on (rpty_to id) s, true)
dispatch_packet (rpx_packet none) sends s = (s, true)
dispatch_packet (rpx_packet (some id)) sends s = (pass_on (rpx_to id) s, true)
dispatch_packet (rxc_packet none) sends s = (s, true)
dispatch_packet (rxc_packet (some id)) sends s = (pass_on (rxc_to id) s, true)
dispatch_packet other_packet sends s = (s, true)
