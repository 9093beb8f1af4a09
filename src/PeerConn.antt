-- ===== src/PeerConn.antt =====
-- server-peer.go: `ServerPeerConn`, between the goroutines that report packets of the client to it,
-- those that request its stop, and its own task. A step is one atomic operation: a compare-and-swap
-- that succeeds, a send, a receive. Since a swap succeeds once, at most one goroutine (the stopper)
-- goes through `ReqStop`, and at most one (the starter) sends the news of a start.
pub mod Sends
pub mod Stopping
mod Tests
use hodu.Prelude.{
  ℕ, ◌+◌, Bool, true, false, List, [], ◌∷◌, ◌++◌, Option, none, some, ltb, if◌then◌else◌, length,
  drop,
}

-- Where the stopper stands in `ReqStop`.
pub data Stopper : Type 0 where
  idle at_stop_send at_started_swap at_started_send at_stopped_swap at_stopped_send at_close ended :
      Stopper

pub data Starter : Type 0 where
  absent at_send sent : Starter

pub record PeerConn : Type 0 where
  pub stop_chan : List Bool
  pub stop_req : Bool
  pub client_peer_status_chan : List Bool
  pub client_peer_started : Bool
  pub client_peer_stopped : Bool
  pub client_peer_eof : Bool
  -- the connection: what was written to it, in the order of the packets, and what is closed
  pub written : List (List ℕ)
  pub write_closed : Bool
  pub closed : Bool
  pub stopper : Stopper
  pub starter : Starter

-- Both channels are made with this size.
abbrev pub channel_size : ℕ
channel_size = 8

-- NewServerPeerConn
abbrev pub new_peer_conn : PeerConn
new_peer_conn = record {
  stop_chan = [];
  stop_req = false;
  client_peer_status_chan = [];
  client_peer_started = false;
  client_peer_stopped = false;
  client_peer_eof = false;
  written = [];
  write_closed = false;
  closed = false;
  stopper = idle;
  starter = absent;
}

abbrev pub has_room : List Bool → Bool
has_room c = ltb (length c) channel_size

-- The first swap of `ReqStop`.
unfoldable pub req_stop : PeerConn → PeerConn
req_stop s = if s.stop_req then s else record s { stop_req = true; stopper = at_stop_send }

-- The stopper's next operation; none if it has none or waits for room in a channel.
unfoldable pub stopper_step : PeerConn → Option PeerConn
stopper_step s = elim s.stopper [
  | idle ↦ none
  | at_stop_send ↦
      if has_room s.stop_chan
      then some (record s { stop_chan = s.stop_chan ++ (true ∷ []); stopper = at_started_swap })
      else none
  | at_started_swap ↦
      if s.client_peer_started
      then some (record s { stopper = at_stopped_swap })
      else some (record s { client_peer_started = true; stopper = at_started_send })
  | at_started_send ↦
      if has_room s.client_peer_status_chan
      then some (record s {
        client_peer_status_chan = s.client_peer_status_chan ++ (false ∷ []);
        stopper = at_stopped_swap;
      })
      else none
  | at_stopped_swap ↦
      if s.client_peer_stopped
      then some (record s { stopper = at_close })
      else some (record s { client_peer_stopped = true; stopper = at_stopped_send })
  | at_stopped_send ↦
      if has_room s.client_peer_status_chan
      then some (record s {
        client_peer_status_chan = s.client_peer_status_chan ++ (false ∷ []);
        stopper = at_close;
      })
      else none
  | at_close ↦ some (record s { closed = true; stopper = ended })
  | ended ↦ none
]

-- The starter's send.
unfoldable pub starter_step : PeerConn → Option PeerConn
starter_step s = elim s.starter [
  | absent ↦ none
  | at_send ↦
      if has_room s.client_peer_status_chan
      then some (record s {
        client_peer_status_chan = s.client_peer_status_chan ++ (true ∷ []);
        starter = sent;
      })
      else none
  | sent ↦ none
]

-- ReportPacket. A packet of data has the bytes, or none if it is invalid, and whether writing them
-- works.
pub data Report : Type 0 where
  peer_started peer_aborted peer_stopped peer_eof other : Report
  peer_data : Option (List ℕ) → Bool → Report

unfoldable pub report_packet : Report → PeerConn → PeerConn
unfolding req_stop
report_packet peer_started s =
    if s.client_peer_started then s else record s { client_peer_started = true; starter = at_send }
report_packet peer_aborted s = req_stop s
report_packet peer_stopped s = req_stop s
report_packet peer_eof s =
    if s.client_peer_eof then s else record s { client_peer_eof = true; write_closed = true }
report_packet (peer_data none ok) s = req_stop s
report_packet (peer_data (some bytes) ok) s =
    if s.client_peer_eof
    then req_stop s
    else if ok
    then record s { written = s.written ++ (bytes ∷ []) }
    else req_stop s
report_packet other s = s

pub data Event : Type 0 where
  reported : Report → Event
  stop_requested : Event
  stopper_goes starter_goes : Event
  -- the task receives from a channel
  stop_received status_received : Event

abbrev pub or_stay : Option PeerConn → PeerConn → PeerConn
or_stay none s = s
or_stay (some s') s = s'

abbrev pub step : Event → PeerConn → PeerConn
step (reported r) s = report_packet r s
step stop_requested s = req_stop s
step stopper_goes s = or_stay (stopper_step s) s
step starter_goes s = or_stay (starter_step s) s
step stop_received s = record s { stop_chan = drop 1 s.stop_chan }
step status_received s = record s { client_peer_status_chan = drop 1 s.client_peer_status_chan }

abbrev pub steps : List Event → PeerConn → PeerConn
steps [] s = s
steps (e ∷ es) s = steps es (step e s)
