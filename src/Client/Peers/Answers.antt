-- ===== src/Client/Peers/Answers.antt =====
-- client.go: how often the client answers the peers that the server starts.
use hodu.Prelude.{
  ℕ, ◌+◌, ◌<◌, ◌≡◌, refl, Bool, true, false, List, [], ◌∷◌, none, some, arith, Bool-cases,
  Option-cases, inl, inr, if◌then◌else◌, bit, not, length, length-delete_key, lookup, has_key,
  has_key-lookup, has_key-delete_key, delete_key, delete_key-HasUniqueKeys, HasUniqueKeys, ℤ,
}
use hodu.Route.Peers.{is_over}
use hodu.Client.Peers.{
  ClientRoute, PeerPacket, sent_started, sent_aborted, send_if, add_ptc, start_connect, Dialed,
  not_connected, connected, end_connect, finish_connect, ClientReport, route_started, route_stopped,
  other, peer_started, peer_aborted, peer_stopped, peer_eof, peer_data, take_route_started,
  take_peer_started, take_peer_stopped, take_peer_eof, take_peer_data, report_to_route,
}
use hodu.Client.Peers.Tasks.{
  PeerEvent, reported, dial_ended, task_ended, route_stop_requested, peer_step, peer_steps,
}
use hodu.Client.Peers.Quiet.{
  is_answer, answers, count-append, Quiet, req_stop_route-Quiet, if_peer-Quiet,
  take_peer_stopped-Quiet, take_peer_eof-Quiet, take_peer_data-Quiet, end_task-Quiet,
}

-- How many starts of a peer an event brings.
abbrev pub asked : PeerEvent → ℕ
asked (reported limit sends pts_id (peer_started valid)) = bit valid
asked _ = 0

abbrev pub asked_by_all : List PeerEvent → ℕ
asked_by_all [] = 0
asked_by_all (e ∷ es) = asked e + asked_by_all es

-- How many answers an event would have to give and cannot send.
abbrev pub unsent_after : Dialed → ℕ
unsent_after (not_connected sends) = bit (not sends)
unsent_after (connected true sends) = 0
unsent_after (connected false sends) = bit (not sends)

abbrev pub unsent : PeerEvent → ClientRoute → ℕ
unsent (reported limit sends pts_id (peer_started true)) s =
    if is_over limit s.peers then bit (not sends) else 0
unsent (dial_ended dial d) s = elim (lookup dial s.dials) [
  | none ↦ 0
  | some pts_id ↦ unsent_after d
]
unsent _ s = 0

abbrev pub unsent_by_all : List PeerEvent → ClientRoute → ℕ
unsent_by_all [] s = 0
unsent_by_all (e ∷ es) s = unsent e s + unsent_by_all es (peer_step e s)

-- The dials under way have each a number of their own, which was given out before.
pub record IsDialing (s : ClientRoute) : Type 0 where
  pub unique : HasUniqueKeys s.dials
  pub old : (k : ℕ) → has_key k s.dials ≡ true → k < s.next_ref

-- The starts are answered, or are dialed for, or their answer could not be sent.
abbrev Balanced : ℕ → ℕ → ClientRoute → ClientRoute → Type 0
Balanced a u s t = IsDialing t × (answers t + length t.dials + u ≡ answers s + length s.dials + a)

Quiet-Balanced : (s t : ClientRoute) → IsDialing s → Quiet s t → Balanced 0 0 s t
Quiet-Balanced s t v (a, d, n) =
    (record { unique = rw d v.unique; old = rw (d, n) v.old }, rw (a, d) refl)

-- A packet about a peer is sent, or cannot be.
send_if-answers :
    (sends : Bool) (p : PeerPacket) (s : ClientRoute)
    → is_answer p ≡ true
    → answers (send_if sends p s) + bit (not sends) ≡ answers s + 1
send_if-answers true p s h = ground (arith, count-append is_answer s.sent (p ∷ []))
send_if-answers false p s h = omega arith

take_peer_started-Balanced :
    (limit : ℤ) (sends : Bool) (pts_id : ℕ) (s : ClientRoute)
    → IsDialing s
    → Balanced 1
        (if is_over limit s.peers then bit (not sends) else 0)
        s
        (take_peer_started limit sends pts_id true s)
unfolding take_peer_started start_connect
take_peer_started-Balanced limit sends pts_id s v = elim (Bool-cases (is_over limit s.peers)) [
  | inl e ↦ rw (take_peer_started, e) (over sends)
  | inr e ↦
      rw (take_peer_started, e)
        (record { unique = (absent, v.unique); old = λ k h. ground (arith, v.old k) }, omega arith)
]
  where
    absent : has_key s.next_ref s.dials ≡ false
    absent = elim (Bool-cases (has_key s.next_ref s.dials)) [
      | inl h ↦ absurd (omega (arith, v.old s.next_ref h))
      | inr h ↦ h
    ]

    over : (b : Bool) → Balanced 1 (bit (not b)) s (send_if b (sent_aborted s.id pts_id) s)
    over true = (
      record { unique = v.unique; old = v.old },
      omega (arith, send_if-answers true (sent_aborted s.id pts_id) s refl),
    )
    over false = (v, omega arith)

report_to_route-Balanced :
    (limit : ℤ) (sends : Bool) (pts_id : ℕ) (r : ClientReport) (s : ClientRoute)
    → IsDialing s
    → let e = reported limit sends pts_id r in
      Balanced (asked e) (unsent e s) s (report_to_route limit sends pts_id r s)
unfolding report_to_route take_route_started take_peer_started
report_to_route-Balanced limit sends pts_id (route_started none) s v =
    Quiet-Balanced s _ v (req_stop_route-Quiet s)
report_to_route-Balanced limit sends pts_id (route_started (some (target, net, none))) s v =
    Quiet-Balanced s _ v (req_stop_route-Quiet s)
report_to_route-Balanced limit sends pts_id (route_started (some (target, net, some addr))) s v =
    Quiet-Balanced s _ v (refl, refl, refl)
report_to_route-Balanced limit sends pts_id route_stopped s v =
    Quiet-Balanced s _ v (req_stop_route-Quiet s)
report_to_route-Balanced limit sends pts_id (peer_started true) s v =
    take_peer_started-Balanced limit sends pts_id s v
report_to_route-Balanced limit sends pts_id (peer_started false) s v = (v, refl)
report_to_route-Balanced limit sends pts_id (peer_aborted valid) s v =
    Quiet-Balanced s _ v
      (if_peer-Quiet pts_id (take_peer_stopped valid) s (take_peer_stopped-Quiet valid s))
report_to_route-Balanced limit sends pts_id (peer_stopped valid) s v =
    Quiet-Balanced s _ v
      (if_peer-Quiet pts_id (take_peer_stopped valid) s (take_peer_stopped-Quiet valid s))
report_to_route-Balanced limit sends pts_id (peer_eof valid) s v =
    Quiet-Balanced s _ v
      (if_peer-Quiet pts_id (take_peer_eof valid) s (take_peer_eof-Quiet valid s))
report_to_route-Balanced limit sends pts_id (peer_data d works) s v =
    Quiet-Balanced s _ v
      (if_peer-Quiet pts_id (take_peer_data d works) s (take_peer_data-Quiet d works s))
report_to_route-Balanced limit sends pts_id other s v = (v, refl)

-- The end of a dial that is no longer under way.
end_connect-Balanced :
    (pts_id : ℕ) (d : Dialed) (s : ClientRoute)
    → IsDialing s
    → Balanced 1 (unsent_after d) s (end_connect pts_id d s)
unfolding end_connect add_ptc
end_connect-Balanced pts_id (not_connected true) s v = (
  record { unique = v.unique; old = v.old },
  omega (arith, send_if-answers true (sent_aborted s.id pts_id) s refl),
)
end_connect-Balanced pts_id (not_connected false) s v = (v, omega arith)
end_connect-Balanced pts_id (connected true sends) s v = (
  record { unique = v.unique; old = λ k h. omega (arith, v.old k h) },
  omega (arith, send_if-answers true (sent_started s.id pts_id) s refl),
)
end_connect-Balanced pts_id (connected false true) s v = (
  record { unique = v.unique; old = λ k h. omega (arith, v.old k h) },
  omega (arith, send_if-answers true (sent_aborted s.id pts_id) s refl),
)
end_connect-Balanced pts_id (connected false false) s v =
    (record { unique = v.unique; old = λ k h. omega (arith, v.old k h) }, omega arith)

finish_connect-Balanced :
    (dial : ℕ) (d : Dialed) (s : ClientRoute)
    → IsDialing s
    → Balanced 0 (unsent (dial_ended dial d) s) s (finish_connect dial d s)
unfolding finish_connect
finish_connect-Balanced dial d s v = elim (Option-cases (lookup dial s.dials)) [
  | inl e ↦ rw (finish_connect, e) (v, ground arith)
  | inr (pts_id, e) ↦
      let left = record s {
        ptc_cancel_map = delete_key pts_id s.ptc_cancel_map;
        dials = delete_key dial s.dials;
      } in
      let lost : unsent (dial_ended dial d) s ≡ unsent_after d = ground arith in
      let here : has_key dial s.dials ≡ true = has_key-lookup dial pts_id s.dials e in
      let (w, sum) = end_connect-Balanced pts_id d left (record {
        unique = delete_key-HasUniqueKeys dial s.dials v.unique;
        old = λ k h. ground (arith, v.old k, has_key-delete_key k dial s.dials);
      }) in
      rw (finish_connect, e)
        (w, omega (arith, sum, lost, length-delete_key dial s.dials v.unique here))
]

peer_step-Balanced :
    (e : PeerEvent) (s : ClientRoute)
    → IsDialing s
    → Balanced (asked e) (unsent e s) s (peer_step e s)
unfolding peer_step
peer_step-Balanced (reported limit sends pts_id r) s v =
    report_to_route-Balanced limit sends pts_id r s v
peer_step-Balanced (dial_ended dial d) s v = finish_connect-Balanced dial d s v
peer_step-Balanced (task_ended sends ref) s v = Quiet-Balanced s _ v (end_task-Quiet sends ref s)
peer_step-Balanced route_stop_requested s v = Quiet-Balanced s _ v (req_stop_route-Quiet s)

-- Whatever happens to the peers of a route whose dials have each a number of their own: the packets
-- that a peer is started or aborted, the dials under way and the answers that could not be sent
-- are together as many as there were before and as valid PEER_STARTED packets came since.
pub peer_steps-answers :
    (es : List PeerEvent) (s : ClientRoute)
    → IsDialing s
    → answers (peer_steps es s) + length (peer_steps es s).dials + unsent_by_all es s
      ≡ answers s + length s.dials + asked_by_all es
unfolding peer_steps
peer_steps-answers [] s v = refl
peer_steps-answers (e ∷ es) s v =
    let (w, sum) = peer_step-Balanced e s v in
    omega (arith, sum, peer_steps-answers es (peer_step e s) w)
