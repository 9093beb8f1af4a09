-- ===== src/Client/Peers.antt =====
-- client.go, client-peer.go: the peers of one route on the client (`ClientRoute`, `ClientPeerConn`),
-- which it connects to when the server reports a peer of its own.
-- Pointers are numbers, under which the peers are stored. Dialing, sending and writing are Go's and
-- the operating system's: their outcomes are arguments.
pub mod Tasks
pub mod Counting
pub mod Quiet
pub mod Answers
pub mod Dialing
pub mod Forwarding
mod Tests
use Prim.Native.String.{String}
use hodu.Prelude.{
  ℕ, ◌+◌, Bool, true, false, List, [], ◌∷◌, ◌++◌, Option, none, some, ◌==◌, if◌then◌else◌, update,
  ℤ, inc, dec, lookup, delete_key,
}
use hodu.Prelude.Results.{Result, ok, err}
use hodu.Route.Peers.{is_over}

pub record Ptc : Type 0 where
  pub conn_id : ℕ
  pub pts_eof : Bool
  pub stop_req : Bool
  -- the socket: what is closed, and what was written to it
  pub closed : Bool
  pub write_closed : Bool
  pub written : List (List ℕ)

-- What goes to the server about a peer of a route.
pub data PeerPacket : Type 0 where
  sent_started sent_aborted sent_stopped : ℕ → ℕ → PeerPacket
  sent_data : ℕ → ℕ → List ℕ → PeerPacket

pub record ClientRoute : Type 0 where
  pub id : ℕ
  pub listen_addr : Option ℕ
  pub svc_addr : String
  pub svc_net : String
  pub ptc_map : List (ℕ × ℕ)
  pub ptc_cancel_map : List (ℕ × ℕ)
  pub stop_req : Bool
  -- what waits in stop_chan
  pub stops : ℕ
  -- the peers, by pointer, and the next pointer, also of dials
  pub ptc : ℕ → Ptc
  pub next_ref : ℕ
  -- the dials under way, with the peer id of each, and those that were cancelled
  pub dials : List (ℕ × ℕ)
  pub cancelled : List ℕ
  -- the peers whose task runs
  pub tasks : List ℕ
  -- stats.peers of the client, and its list of all peers
  pub peers : ℤ
  pub ptc_list : List ℕ
  -- what was sent to the server
  pub sent : List PeerPacket

pub data PtcError : Type 0 where
  non_existent_peer conflicting_peer : PtcError

-- psc.Send, where it works
abbrev pub send_if : Bool → PeerPacket → ClientRoute → ClientRoute
send_if works p s = if works then record s { sent = s.sent ++ (p ∷ []) } else s

-- ClientPeerConn.ReqStop
abbrev pub stop_ptc : Ptc → Ptc
stop_ptc c = if c.stop_req then c else record c { stop_req = true; closed = true }

abbrev pub set_ptc : ℕ → Ptc → ClientRoute → ClientRoute
set_ptc ref c s = record s { ptc = update s.ptc ref c }

unfoldable pub req_stop_ptc : ℕ → ClientRoute → ClientRoute
req_stop_ptc ref s = set_ptc ref (stop_ptc (s.ptc ref)) s

-- ClientPeerConn.CloseWrite
unfoldable pub close_write : ℕ → ClientRoute → ClientRoute
close_write ref s =
    let c = s.ptc ref in
    set_ptc ref (if c.pts_eof then c else record c { pts_eof = true; write_closed = true }) s

-- AddNewClientPeerConn
unfoldable pub add_ptc : ℕ → ClientRoute → ClientRoute
add_ptc pts_id s = record s {
  ptc = update s.ptc s.next_ref (record {
    conn_id = pts_id;
    pts_eof = false;
    stop_req = false;
    closed = false;
    write_closed = false;
    written = [];
  });
  ptc_map = (pts_id, s.next_ref) ∷ delete_key pts_id s.ptc_map;
  peers = inc s.peers;
  ptc_list = s.ptc_list ++ (s.next_ref ∷ []);
  next_ref = s.next_ref + 1;
}

-- RemoveClientPeerConn
unfoldable pub remove_ptc : ℕ → ClientRoute → ClientRoute × Result PtcError Unit
unfolding req_stop_ptc
remove_ptc ref s = elim (lookup (s.ptc ref).conn_id s.ptc_map) [
  | none ↦ (s, err non_existent_peer)
  | some c ↦
      if c == ref
      then (
        req_stop_ptc ref
            (record s { ptc_map = delete_key (s.ptc ref).conn_id s.ptc_map; peers = dec s.peers }),
        ok tt,
      )
      else (s, err conflicting_peer)
]

unfoldable pub req_stop_ptcs : List (ℕ × ℕ) → ClientRoute → ClientRoute
unfolding req_stop_ptc
req_stop_ptcs [] s = s
req_stop_ptcs ((id, ref) ∷ m) s = req_stop_ptcs m (req_stop_ptc ref s)

-- ClientRoute.ReqStop
unfoldable pub req_stop_route : ClientRoute → ClientRoute
unfolding req_stop_ptcs
req_stop_route s =
    let t = req_stop_ptcs s.ptc_map (record s { stop_req = true }) in
    if s.stop_req then s else record t { stops = t.stops + 1 }

-- ConnectToPeer up to the dial, as its own goroutine
unfoldable pub start_connect : ℕ → ClientRoute → ClientRoute
start_connect pts_id s = record s {
  ptc_cancel_map = (pts_id, s.next_ref) ∷ delete_key pts_id s.ptc_cancel_map;
  dials = (s.next_ref, pts_id) ∷ s.dials;
  next_ref = s.next_ref + 1;
}

-- How a dial ends: without a TCP connection, or with one, and whether then the sends work, that of
-- PEER_STARTED first.
pub data Dialed : Type 0 where
  not_connected : Bool → Dialed
  connected : Bool → Bool → Dialed

-- The rest of ConnectToPeer, of the dial for the peer `pts_id`.
unfoldable pub end_connect : ℕ → Dialed → ClientRoute → ClientRoute
unfolding add_ptc
end_connect pts_id (not_connected sends) s = send_if sends (sent_aborted s.id pts_id) s
end_connect pts_id (connected true sends) s =
    let t = add_ptc pts_id s in
    send_if true (sent_started s.id pts_id) (record t { tasks = s.next_ref ∷ t.tasks })
end_connect pts_id (connected false sends) s =
    let t = send_if sends (sent_aborted s.id pts_id) (add_ptc pts_id s) in
    set_ptc s.next_ref (record (t.ptc s.next_ref) { closed = true }) t

unfoldable pub finish_connect : ℕ → Dialed → ClientRoute → ClientRoute
unfolding end_connect
finish_connect dial d s = elim (lookup dial s.dials) [
  | none ↦ s
  | some pts_id ↦ end_connect pts_id d (record s {
    ptc_cancel_map = delete_key pts_id s.ptc_cancel_map;
    dials = delete_key dial s.dials;
  })
]

-- `cancel, ok = r.ptc_cancel_map[ptc.conn_id]; if ok { cancel() }`
abbrev pub cancel_dial : ℕ → ClientRoute → ClientRoute
cancel_dial pts_id s = elim (lookup pts_id s.ptc_cancel_map) [
  | none ↦ s
  | some dial ↦ record s { cancelled = dial ∷ s.cancelled }
]

abbrev pub is_ref : ℕ → Option ℕ → Bool
is_ref ref none = false
is_ref ref (some c) = c == ref

-- DisconnectFromPeer, which returns no error
unfoldable pub disconnect_from_peer : ℕ → ClientRoute → ClientRoute
unfolding req_stop_ptc
disconnect_from_peer ref s =
    let id = (s.ptc ref).conn_id in
    req_stop_ptc ref (if is_ref ref (lookup id s.ptc_map) then cancel_dial id s else s)

-- What ReportPacket is told: whether the event's data has the type that it should have, with the
-- address that the text resolves to, the bytes, and whether they can be written.
pub data ClientReport : Type 0 where
  route_started : Option (String × String × Option ℕ) → ClientReport
  route_stopped other : ClientReport
  peer_started peer_aborted peer_stopped peer_eof : Bool → ClientReport
  peer_data : Option (List ℕ) → Bool → ClientReport

unfoldable pub take_route_started : Option (String × String × Option ℕ) → ClientRoute → ClientRoute
unfolding req_stop_route
take_route_started none s = req_stop_route s
take_route_started (some (target, net, none)) s = req_stop_route s
take_route_started (some (target, net, some addr)) s = record s {
  listen_addr = some addr;
  svc_addr = target;
  svc_net = net;
}

-- The case PACKET_KIND_PEER_STARTED, with the limit of peers and whether a send works.
unfoldable pub take_peer_started : ℤ → Bool → ℕ → Bool → ClientRoute → ClientRoute
unfolding start_connect
take_peer_started limit sends pts_id valid s =
    if valid
    then if is_over limit s.peers
      then send_if sends (sent_aborted s.id pts_id) s
      else start_connect pts_id s
    else s

-- The cases PACKET_KIND_PEER_ABORTED and PACKET_KIND_PEER_STOPPED, for a peer that was found.
unfoldable pub take_peer_stopped : Bool → ℕ → ClientRoute → ClientRoute
unfolding req_stop_ptc disconnect_from_peer
take_peer_stopped valid ref s = if valid then disconnect_from_peer ref s else req_stop_ptc ref s

unfoldable pub take_peer_eof : Bool → ℕ → ClientRoute → ClientRoute
unfolding req_stop_ptc close_write
take_peer_eof valid ref s = if valid then close_write ref s else req_stop_ptc ref s

unfoldable pub take_peer_data : Option (List ℕ) → Bool → ℕ → ClientRoute → ClientRoute
unfolding req_stop_ptc
take_peer_data none works ref s = req_stop_ptc ref s
take_peer_data (some bytes) works ref s =
    let c = s.ptc ref in
    if works
    then set_ptc ref (record c { written = c.written ++ (bytes ∷ []) }) s
    else req_stop_ptc ref s

-- `ptc = r.FindClientPeerConnById(pts_id); if ptc != nil { ... }`
abbrev pub if_peer : ℕ → (ℕ → ClientRoute → ClientRoute) → ClientRoute → ClientRoute
if_peer pts_id f s = elim (lookup pts_id s.ptc_map) [ none ↦ s | some ref ↦ f ref s ]

-- ClientRoute.ReportPacket
unfoldable pub report_to_route : ℤ → Bool → ℕ → ClientReport → ClientRoute → ClientRoute
unfolding req_stop_route take_route_started take_peer_started take_peer_stopped take_peer_eof
    take_peer_data
report_to_route limit sends pts_id (route_started d) s = take_route_started d s
report_to_route limit sends pts_id route_stopped s = req_stop_route s
report_to_route limit sends pts_id (peer_started valid) s =
    take_peer_started limit sends pts_id valid s
report_to_route limit sends pts_id (peer_aborted valid) s =
    if_peer pts_id (take_peer_stopped valid) s
report_to_route limit sends pts_id (peer_stopped valid) s =
    if_peer pts_id (take_peer_stopped valid) s
report_to_route limit sends pts_id (peer_eof valid) s = if_peer pts_id (take_peer_eof valid) s
report_to_route limit sends pts_id (peer_data d works) s = if_peer pts_id (take_peer_data d works) s
report_to_route limit sends pts_id other s = s
