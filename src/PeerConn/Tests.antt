-- ===== src/PeerConn/Tests.antt =====
-- The theorems on a peer at concrete sequences of events.
use hodu.Prelude.{◌≡◌, refl, true, some, List, [], ◌∷◌}
use hodu.PeerConn.{
  PeerConn, new_peer_conn, Event, reported, stop_requested, stopper_goes, starter_goes,
  peer_started, peer_data, report_packet, req_stop, stopper_step, starter_step, steps,
}
use hodu.PeerConn.Sends.{NobodyWaits, steps-NobodyWaits}
use hodu.PeerConn.Stopping.{Stopped, stop_steps, steps-Stopped}

-- The client reports a start while the peer is being stopped, then data.
abbrev events : List Event
events =
    reported peer_started
    ∷ stop_requested
    ∷ stopper_goes
    ∷ stopper_goes
    ∷ starter_goes
    ∷ stopper_goes
    ∷ reported (peer_data (some (1 ∷ 2 ∷ [])) true)
    ∷ []

steps-NobodyWaits_example : NobodyWaits (steps events new_peer_conn)
steps-NobodyWaits_example = steps-NobodyWaits events

events_stop : (steps events new_peer_conn).stop_req ≡ true
unfolding report_packet req_stop stopper_step starter_step
events_stop = refl

steps-Stopped_example : Stopped (stop_steps 6 (steps events new_peer_conn))
steps-Stopped_example = steps-Stopped events events_stop

abbrev at_eof : PeerConn
at_eof = record new_peer_conn { client_peer_eof = true; write_closed = true }
