-- ===== src/PeerConn/Stopping.antt =====
-- server-peer.go: a stop that is requested ends, and nothing is written to a peer after its end.
use hodu.Prelude.{
  ℕ, zero, suc, ◌-◌, ◌≤◌, ◌≡◌, refl, ◌∙◌, Bool, true, false, List, [], ◌∷◌, none, some, arith,
}
use hodu.PeerConn.{
  Stopper, idle, at_stop_send, at_started_swap, at_started_send, at_stopped_swap, at_stopped_send,
  at_close, ended, PeerConn, new_peer_conn, req_stop, stopper_step, starter_step, Report,
  peer_started, peer_aborted, peer_stopped, peer_eof, other, peer_data, report_packet, Event,
  reported, stop_requested, stopper_goes, starter_goes, stop_received, status_received, or_stay,
  step, steps,
}
use hodu.PeerConn.Sends.{
  WithinBounds, is_ended, steps-WithinBounds, step-WithinBounds, new_peer_conn-WithinBounds,
}

-- The state after so many operations of the stopper.
abbrev pub stop_steps : ℕ → PeerConn → PeerConn
stop_steps zero s = s
stop_steps (suc n) s = stop_steps n (step stopper_goes s)

-- The operations that the stopper has left at most.
abbrev stop_rank : Stopper → ℕ
stop_rank idle = 0
stop_rank at_stop_send = 6
stop_rank at_started_swap = 5
stop_rank at_started_send = 4
stop_rank at_stopped_swap = 3
stop_rank at_stopped_send = 2
stop_rank at_close = 1
stop_rank ended = 0

-- The peer is closed, and its flags say that it has been started and stopped.
pub record Stopped (s : PeerConn) : Type 0 where
  pub at_end : s.stopper ≡ ended
  pub is_closed : s.closed ≡ true
  pub is_stopped : s.client_peer_stopped ≡ true
  pub is_started : s.client_peer_started ≡ true

abbrev past_started : Stopper → Bool
past_started idle = false
past_started at_stop_send = false
past_started at_started_swap = false
past_started at_started_send = true
past_started at_stopped_swap = true
past_started at_stopped_send = true
past_started at_close = true
past_started ended = true

abbrev past_stopped : Stopper → Bool
past_stopped idle = false
past_stopped at_stop_send = false
past_stopped at_started_swap = false
past_stopped at_started_send = false
past_stopped at_stopped_swap = false
past_stopped at_stopped_send = true
past_stopped at_close = true
past_stopped ended = true

-- What the stopper has done on its way.
record Marked (s : PeerConn) : Type 0 where
  has_closed : is_ended s.stopper ≡ true → s.closed ≡ true
  has_stopped : past_stopped s.stopper ≡ true → s.client_peer_stopped ≡ true
  has_started : past_started s.stopper ≡ true → s.client_peer_started ≡ true

req_stop-Marked : (s : PeerConn) → Marked s → Marked (req_stop s)
unfolding req_stop
req_stop-Marked s m = ground (arith, m.has_closed, m.has_stopped, m.has_started)

report_packet-Marked : (r : Report) (s : PeerConn) → Marked s → Marked (report_packet r s)
unfolding report_packet
report_packet-Marked peer_started s m = ground (arith, m.has_closed, m.has_stopped, m.has_started)
report_packet-Marked peer_aborted s m = req_stop-Marked s m
report_packet-Marked peer_stopped s m = req_stop-Marked s m
report_packet-Marked peer_eof s m = ground (arith, m.has_closed, m.has_stopped, m.has_started)
report_packet-Marked (peer_data none ok) s m = req_stop-Marked s m
report_packet-Marked (peer_data (some bytes) ok) s m =
    ground (arith, m.has_closed, m.has_stopped, m.has_started, req_stop-Marked s m)
report_packet-Marked other s m = m

stopper_step-Marked : (s : PeerConn) → Marked s → Marked (or_stay (stopper_step s) s)
unfolding stopper_step
stopper_step-Marked s m = ground (arith, m.has_closed, m.has_stopped, m.has_started)

starter_step-Marked : (s : PeerConn) → Marked s → Marked (or_stay (starter_step s) s)
unfolding starter_step
starter_step-Marked s m = ground (arith, m.has_closed, m.has_stopped, m.has_started)

step-Marked : (e : Event) (s : PeerConn) → Marked s → Marked (step e s)
step-Marked (reported r) s m = report_packet-Marked r s m
step-Marked stop_requested s m = req_stop-Marked s m
step-Marked stopper_goes s m = stopper_step-Marked s m
step-Marked starter_goes s m = starter_step-Marked s m
step-Marked stop_received s m = record {
  has_closed = m.has_closed;
  has_stopped = m.has_stopped;
  has_started = m.has_started;
}
step-Marked status_received s m = record {
  has_closed = m.has_closed;
  has_stopped = m.has_stopped;
  has_started = m.has_started;
}

steps-Marked : (es : List Event) (s : PeerConn) → Marked s → Marked (steps es s)
steps-Marked [] s m = m
steps-Marked (e ∷ es) s m = steps-Marked es (step e s) (step-Marked e s m)

stop_rank-step :
    (s : PeerConn)
    → WithinBounds s
    → (stop_rank (step stopper_goes s).stopper ≤ stop_rank s.stopper - 1)
      × ((step stopper_goes s).stop_req ≡ s.stop_req)
unfolding stopper_step
stop_rank-step s w = ground (arith, w.stops, w.statuses)

-- The stopper has got to its end.
stop_steps-Stopped :
    (n : ℕ) (s : PeerConn)
    → WithinBounds s
    → Marked s
    → s.stop_req ≡ true
    → stop_rank s.stopper ≤ n
    → Stopped (stop_steps n s)
stop_steps-Stopped zero s w m e r =
    ground (arith, w.idle_too, m.has_closed, m.has_stopped, m.has_started)
stop_steps-Stopped (suc n) s w m e r =
    let (less, same) = stop_rank-step s w in
    stop_steps-Stopped n (step stopper_goes s) (step-WithinBounds stopper_goes s w)
      (step-Marked stopper_goes s m) (same ∙ e) (omega (arith, less))

stop_rank-le : (s : Stopper) → stop_rank s ≤ 6
stop_rank-le s = ground arith

-- In every state that a new peer can come to in which a stop has been requested, six operations of the
-- goroutine that stops it are enough to close the connection; the flags of the peer then say that it was
-- started and stopped.
pub steps-Stopped :
    (es : List Event)
    → (steps es new_peer_conn).stop_req ≡ true
    → Stopped (stop_steps 6 (steps es new_peer_conn))
steps-Stopped es e =
    stop_steps-Stopped 6 (steps es new_peer_conn)
      (steps-WithinBounds es new_peer_conn new_peer_conn-WithinBounds)
      (steps-Marked es new_peer_conn
        (record { has_closed = λ x. cc; has_stopped = λ x. cc; has_started = λ x. cc }))
      e (stop_rank-le (steps es new_peer_conn).stopper)

module _ (s : PeerConn) (eof : s.client_peer_eof ≡ true) where
  same_step : (e : Event) → ((step e s).client_peer_eof ≡ true) × ((step e s).written ≡ s.written)
  unfolding report_packet req_stop stopper_step starter_step
  same_step e = ground arith

-- Once the client has reported the end of its data, no packet of data is written to the peer any
-- more, whatever else happens.
pub written-steps :
    (es : List Event) (s : PeerConn) → s.client_peer_eof ≡ true → (steps es s).written ≡ s.written
written-steps [] s eof = refl
written-steps (e ∷ es) s eof =
    written-steps es (step e s) (same_step s eof e).0 ∙ (same_step s eof e).1
