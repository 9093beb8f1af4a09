-- ===== src/PeerConn/Sends.antt =====
-- server-peer.go: no goroutine waits for room in a channel of a peer.
use hodu.Prelude.{
  ℕ, ◌+◌, ◌≤◌, ◌≡◌, refl, Bool, true, false, not, ◌||◌, List, [], ◌∷◌, Option, none, some,
  if◌then◌else◌, length, length-append, length-drop, arith,
}
use hodu.PeerConn.{
  Stopper, idle, at_stop_send, at_started_swap, at_started_send, at_stopped_swap, at_stopped_send,
  at_close, ended, Starter, absent, at_send, sent, PeerConn, new_peer_conn, req_stop, stopper_step,
  starter_step, Report, peer_started, peer_aborted, peer_stopped, peer_eof, other, peer_data,
  report_packet, Event, reported, stop_requested, stopper_goes, starter_goes, stop_received,
  status_received, or_stay, step, steps,
}

-- The statuses that the stopper may still send, besides one that follows a swap to come.
abbrev stopper_owes : Stopper → ℕ
stopper_owes idle = 1
stopper_owes at_stop_send = 1
stopper_owes at_started_swap = 1
stopper_owes at_started_send = 2
stopper_owes at_stopped_swap = 1
stopper_owes at_stopped_send = 1
stopper_owes at_close = 0
stopper_owes ended = 0

abbrev stop_owed : Stopper → ℕ
stop_owed idle = 1
stop_owed at_stop_send = 1
stop_owed at_started_swap = 0
stop_owed at_started_send = 0
stop_owed at_stopped_swap = 0
stop_owed at_stopped_send = 0
stop_owed at_close = 0
stop_owed ended = 0

abbrev starter_owes : Starter → ℕ
starter_owes absent = 0
starter_owes at_send = 1
starter_owes sent = 0

abbrev pub is_idle : Stopper → Bool
is_idle idle = true
is_idle at_stop_send = false
is_idle at_started_swap = false
is_idle at_started_send = false
is_idle at_stopped_swap = false
is_idle at_stopped_send = false
is_idle at_close = false
is_idle ended = false

pub record WithinBounds (s : PeerConn) : Type 0 where
  pub stops : length s.stop_chan + stop_owed s.stopper ≤ 1
  pub statuses :
      length s.client_peer_status_chan
        + (if s.client_peer_started then 0 else 1)
        + starter_owes s.starter
        + stopper_owes s.stopper
      ≤ 2
  pub idle_too : is_idle s.stopper ≡ not s.stop_req

req_stop-WithinBounds : (s : PeerConn) → WithinBounds s → WithinBounds (req_stop s)
unfolding req_stop
req_stop-WithinBounds s w = ground (arith, w.stops, w.statuses, w.idle_too)

report_packet-WithinBounds :
    (r : Report) (s : PeerConn) → WithinBounds s → WithinBounds (report_packet r s)
unfolding report_packet
report_packet-WithinBounds peer_started s w = ground (arith, w.stops, w.statuses, w.idle_too)
report_packet-WithinBounds peer_aborted s w = req_stop-WithinBounds s w
report_packet-WithinBounds peer_stopped s w = req_stop-WithinBounds s w
report_packet-WithinBounds peer_eof s w = ground (arith, w.stops, w.statuses, w.idle_too)
report_packet-WithinBounds (peer_data none ok) s w = req_stop-WithinBounds s w
report_packet-WithinBounds (peer_data (some bytes) ok) s w =
    ground (arith, w.stops, w.statuses, w.idle_too, req_stop-WithinBounds s w)
report_packet-WithinBounds other s w = w

stopper_step-WithinBounds :
    (s : PeerConn) → WithinBounds s → WithinBounds (or_stay (stopper_step s) s)
unfolding stopper_step
stopper_step-WithinBounds s w = ground (
  arith,
  w.stops,
  w.statuses,
  w.idle_too,
  length-append s.stop_chan (true ∷ []),
  length-append s.client_peer_status_chan (false ∷ []),
)

starter_step-WithinBounds :
    (s : PeerConn) → WithinBounds s → WithinBounds (or_stay (starter_step s) s)
unfolding starter_step
starter_step-WithinBounds s w =
    ground
      (arith, w.stops, w.statuses, w.idle_too, length-append s.client_peer_status_chan (true ∷ []))

pub step-WithinBounds : (e : Event) (s : PeerConn) → WithinBounds s → WithinBounds (step e s)
step-WithinBounds (reported r) s w = report_packet-WithinBounds r s w
step-WithinBounds stop_requested s w = req_stop-WithinBounds s w
step-WithinBounds stopper_goes s w = stopper_step-WithinBounds s w
step-WithinBounds starter_goes s w = starter_step-WithinBounds s w
step-WithinBounds stop_received s w = record {
  stops = omega (arith, w.stops, length-drop 1 s.stop_chan);
  statuses = w.statuses;
  idle_too = w.idle_too;
}
step-WithinBounds status_received s w = record {
  stops = w.stops;
  statuses = omega (arith, w.statuses, length-drop 1 s.client_peer_status_chan);
  idle_too = w.idle_too;
}

pub steps-WithinBounds :
    (es : List Event) (s : PeerConn) → WithinBounds s → WithinBounds (steps es s)
steps-WithinBounds [] s w = w
steps-WithinBounds (e ∷ es) s w = steps-WithinBounds es (step e s) (step-WithinBounds e s w)

pub new_peer_conn-WithinBounds : WithinBounds new_peer_conn
new_peer_conn-WithinBounds = record { stops = omega arith; statuses = omega arith; idle_too = refl }

abbrev is_there {ℓ} : {A : Type ℓ} → Option A → Bool
is_there none = false
is_there (some a) = true

abbrev pub is_ended : Stopper → Bool
is_ended ended = true
is_ended idle = false
is_ended at_stop_send = false
is_ended at_started_swap = false
is_ended at_started_send = false
is_ended at_stopped_swap = false
is_ended at_stopped_send = false
is_ended at_close = false

abbrev is_at_send : Starter → Bool
is_at_send absent = false
is_at_send at_send = true
is_at_send sent = false

-- Whoever is at an operation can do it now.
pub record NobodyWaits (s : PeerConn) : Type 0 where
  pub stopper_runs : (is_there (stopper_step s) || is_idle s.stopper || is_ended s.stopper) ≡ true
  pub starter_runs : is_there (starter_step s) ≡ is_at_send s.starter
  pub one_stop : length s.stop_chan ≤ 1
  pub two_statuses : length s.client_peer_status_chan ≤ 2

WithinBounds-NobodyWaits : (s : PeerConn) → WithinBounds s → NobodyWaits s
unfolding stopper_step starter_step
WithinBounds-NobodyWaits s w = record {
  stopper_runs = ground (arith, w.stops, w.statuses);
  starter_runs = ground (arith, w.statuses);
  one_stop = omega (arith, w.stops);
  two_statuses = omega (arith, w.statuses);
}

-- In every state that a new peer can come to by packets of the client, requests to stop, and the
-- operations of the goroutines that serve them and of its own task, in any order: there is at most
-- one message in `stop_chan` and at most two in `client_peer_status_chan`, which both have room for
-- 8, and so whoever is at a send can do it at once.
pub steps-NobodyWaits : (es : List Event) → NobodyWaits (steps es new_peer_conn)
steps-NobodyWaits es =
    WithinBounds-NobodyWaits (steps es new_peer_conn)
      (steps-WithinBounds es new_peer_conn new_peer_conn-WithinBounds)
