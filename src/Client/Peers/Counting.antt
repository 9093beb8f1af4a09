-- ===== src/Client/Peers/Counting.antt =====
-- client.go: how the count of peers (`stats.peers`) is related to the table of a route.
use hodu.Prelude.{
  ℕ, ◌+◌, ◌≡◌, refl, true, false, List, [], ◌∷◌, Option, none, some, arith, Bool-cases,
  Option-cases, inl, inr, if◌then◌else◌, pos, lookup, has_key, delete_key, HasUniqueKeys, length,
  length-delete_key, delete_key-HasUniqueKeys, delete_key_absent, has_key-delete_key,
  has_key-lookup, ◌==◌, Bool, ℤ,
}
use hodu.Client.Peers.{
  ClientRoute, send_if, sent_stopped, req_stop_ptc, close_write, add_ptc, remove_ptc, req_stop_ptcs,
  req_stop_route, start_connect, Dialed, not_connected, connected, end_connect, finish_connect,
  disconnect_from_peer, ClientReport, route_started, route_stopped, other, peer_started,
  peer_aborted, peer_stopped, peer_eof, peer_data, take_route_started, take_peer_started,
  take_peer_stopped, take_peer_eof, take_peer_data, if_peer, report_to_route,
}
use hodu.Client.Peers.Tasks.{
  end_task, PeerEvent, reported, dial_ended, task_ended, route_stop_requested, peer_step,
  peer_steps,
}

-- The count of peers, where the other routes have `others` of them.
pub record IsCounted (others : ℕ) (s : ClientRoute) : Type 0 where
  pub unique : HasUniqueKeys s.ptc_map
  pub counted : s.peers ≡ pos (others + length s.ptc_map)

-- How many peers an addition under an id replaces in the table.
abbrev pub replaced : ℕ → ClientRoute → ℕ
replaced pts_id s = if has_key pts_id s.ptc_map then 1 else 0

-- And an event.
abbrev pub replaced_by : PeerEvent → ClientRoute → ℕ
replaced_by (reported limit sends pts_id r) s = 0
replaced_by (dial_ended dial (not_connected sends)) s = 0
replaced_by (dial_ended dial (connected started sends)) s = elim (lookup dial s.dials) [
  | none ↦ 0
  | some pts_id ↦ replaced pts_id s
]
replaced_by (task_ended sends ref) s = 0
replaced_by route_stop_requested s = 0

-- And a sequence of events.
abbrev pub replaced_by_all : List PeerEvent → ClientRoute → ℕ
replaced_by_all [] s = 0
replaced_by_all (e ∷ es) s = replaced_by e s + replaced_by_all es (peer_step e s)

abbrev HasSame : ClientRoute → ClientRoute → Type 0
HasSame s t = (t.ptc_map ≡ s.ptc_map) × (t.peers ≡ s.peers)

same_IsCounted : (n : ℕ) (s t : ClientRoute) → IsCounted n s → HasSame s t → IsCounted n t
same_IsCounted n s t v (m, p) = record { unique = rw m v.unique; counted = rw (m, p) v.counted }

req_stop_ptcs-HasSame : (m : List (ℕ × ℕ)) (s : ClientRoute) → HasSame s (req_stop_ptcs m s)
unfolding req_stop_ptcs req_stop_ptc
req_stop_ptcs-HasSame [] s = (refl, refl)
req_stop_ptcs-HasSame ((id, ref) ∷ m) s =
    ground (arith, req_stop_ptcs-HasSame m (req_stop_ptc ref s))

req_stop_route-HasSame : (s : ClientRoute) → HasSame s (req_stop_route s)
unfolding req_stop_route
req_stop_route-HasSame s =
    ground (arith, req_stop_ptcs-HasSame s.ptc_map (record s { stop_req = true }))

module _ (n pts_id : ℕ) (s : ClientRoute) (v : IsCounted n s) where
  add_ptc-IsCounted : IsCounted (n + replaced pts_id s) (add_ptc pts_id s)
  unfolding add_ptc
  add_ptc-IsCounted = record {
    unique = (
      ground (arith, has_key-delete_key pts_id pts_id s.ptc_map),
      delete_key-HasUniqueKeys pts_id s.ptc_map v.unique,
    );
    counted = ground (
      arith,
      v.counted,
      length-delete_key pts_id s.ptc_map v.unique,
      delete_key_absent pts_id s.ptc_map,
    );
  }

  end_connect-IsCounted :
      (started sends : Bool)
      → IsCounted (n + replaced pts_id s) (end_connect pts_id (connected started sends) s)
  unfolding end_connect
  end_connect-IsCounted true sends =
      same_IsCounted _ (add_ptc pts_id s) _ add_ptc-IsCounted (refl, refl)
  end_connect-IsCounted false true =
      same_IsCounted _ (add_ptc pts_id s) _ add_ptc-IsCounted (refl, refl)
  end_connect-IsCounted false false =
      same_IsCounted _ (add_ptc pts_id s) _ add_ptc-IsCounted (refl, refl)

remove_ptc-IsCounted :
    (n ref : ℕ) (s : ClientRoute) → IsCounted n s → IsCounted n (remove_ptc ref s).0
unfolding remove_ptc req_stop_ptc
remove_ptc-IsCounted n ref s v = elim (Option-cases (lookup (s.ptc ref).conn_id s.ptc_map)) [
  | inl e ↦ rw (remove_ptc, e) v
  | inr (c, e) ↦ elim (Bool-cases (c == ref)) [
    | inl it ↦
        rw (remove_ptc, e, it)
          (record {
            unique = delete_key-HasUniqueKeys (s.ptc ref).conn_id s.ptc_map v.unique;
            counted = ground (
              arith,
              v.counted,
              has_key-lookup (s.ptc ref).conn_id c s.ptc_map e,
              length-delete_key (s.ptc ref).conn_id s.ptc_map v.unique,
            );
          })
    | inr not_it ↦ rw (remove_ptc, e, not_it) v
  ]
]

before_end-HasSame :
    (sends : Bool) (ref : ℕ) (s : ClientRoute)
    → HasSame s (req_stop_ptc ref (send_if sends (sent_stopped s.id (s.ptc ref).conn_id) s))
unfolding req_stop_ptc
before_end-HasSame true ref s = (refl, refl)
before_end-HasSame false ref s = (refl, refl)

end_task-IsCounted :
    (n : ℕ) (sends : Bool) (ref : ℕ) (s : ClientRoute)
    → IsCounted n s
    → IsCounted n (end_task sends ref s)
unfolding end_task
end_task-IsCounted n sends ref s v =
    let t = req_stop_ptc ref (send_if sends (sent_stopped s.id (s.ptc ref).conn_id) s) in
    same_IsCounted n (remove_ptc ref t).0 _
      (remove_ptc-IsCounted n ref t (same_IsCounted n s t v (before_end-HasSame sends ref s)))
      (refl, refl)

still : (n : ℕ) (s : ClientRoute) → IsCounted n s → IsCounted (n + 0) s
still n s v = record { unique = v.unique; counted = ground (arith, v.counted) }

-- The state in which a dial is no longer under way.
abbrev ended : ℕ → ℕ → ClientRoute → ClientRoute
ended dial pts_id s = record s {
  ptc_cancel_map = delete_key pts_id s.ptc_cancel_map;
  dials = delete_key dial s.dials;
}

finish_connect-IsCounted :
    (n dial : ℕ) (d : Dialed) (s : ClientRoute)
    → IsCounted n s
    → IsCounted (n + replaced_by (dial_ended dial d) s) (finish_connect dial d s)
unfolding finish_connect end_connect
finish_connect-IsCounted n dial (not_connected true) s v =
    elim (Option-cases (lookup dial s.dials)) [
      | inl e ↦ rw (finish_connect, e) (same_IsCounted _ s _ (still n s v) (refl, refl))
      | inr (pts_id, e) ↦ rw (finish_connect, e) (same_IsCounted _ s _ (still n s v) (refl, refl))
    ]
finish_connect-IsCounted n dial (not_connected false) s v =
    elim (Option-cases (lookup dial s.dials)) [
      | inl e ↦ rw (finish_connect, e) (same_IsCounted _ s _ (still n s v) (refl, refl))
      | inr (pts_id, e) ↦ rw (finish_connect, e) (same_IsCounted _ s _ (still n s v) (refl, refl))
    ]
finish_connect-IsCounted n dial (connected started sends) s v =
    elim (Option-cases (lookup dial s.dials)) [
      | inl e ↦ rw (finish_connect, replaced_by, e) (still n s v)
      | inr (pts_id, e) ↦
          rw (finish_connect, replaced_by, e)
            (end_connect-IsCounted n pts_id (ended dial pts_id s)
              (same_IsCounted n s _ v (refl, refl)) started sends)
    ]

module _ (s : ClientRoute) where
  disconnect_from_peer-HasSame : (ref : ℕ) → HasSame s (disconnect_from_peer ref s)
  unfolding disconnect_from_peer req_stop_ptc
  disconnect_from_peer-HasSame ref = ground arith

  -- What is done to a peer that was found leaves the table.
  if_peer-HasSame :
      (pts_id : ℕ) (f : ℕ → ClientRoute → ClientRoute)
      → ((ref : ℕ) → HasSame s (f ref s))
      → HasSame s (if_peer pts_id f s)
  if_peer-HasSame pts_id f h = elim (Option-cases (lookup pts_id s.ptc_map)) [
    | inl e ↦ rw (if_peer, e) (refl, refl)
    | inr (ref, e) ↦ rw (if_peer, e) (h ref)
  ]

  take_peer_stopped-HasSame : (valid : Bool) (ref : ℕ) → HasSame s (take_peer_stopped valid ref s)
  unfolding take_peer_stopped req_stop_ptc
  take_peer_stopped-HasSame valid ref = ground (arith, disconnect_from_peer-HasSame ref)

  take_peer_eof-HasSame : (valid : Bool) (ref : ℕ) → HasSame s (take_peer_eof valid ref s)
  unfolding take_peer_eof req_stop_ptc close_write
  take_peer_eof-HasSame valid ref = ground arith

  take_peer_data-HasSame :
      (d : Option (List ℕ)) (works : Bool) (ref : ℕ) → HasSame s (take_peer_data d works ref s)
  unfolding take_peer_data req_stop_ptc
  take_peer_data-HasSame d works ref = ground arith

  report_to_route-HasSame :
      (limit : ℤ) (sends : Bool) (pts_id : ℕ) (r : ClientReport)
      → HasSame s (report_to_route limit sends pts_id r s)
  unfolding report_to_route take_route_started take_peer_started start_connect
  report_to_route-HasSame limit sends pts_id (route_started none) = req_stop_route-HasSame s
  report_to_route-HasSame limit sends pts_id (route_started (some (target, net, none))) =
      req_stop_route-HasSame s
  report_to_route-HasSame limit sends pts_id (route_started (some (target, net, some addr))) =
      (refl, refl)
  report_to_route-HasSame limit sends pts_id route_stopped = req_stop_route-HasSame s
  report_to_route-HasSame limit sends pts_id (peer_started valid) = ground arith
  report_to_route-HasSame limit sends pts_id (peer_aborted valid) =
      if_peer-HasSame pts_id (take_peer_stopped valid) (take_peer_stopped-HasSame valid)
  report_to_route-HasSame limit sends pts_id (peer_stopped valid) =
      if_peer-HasSame pts_id (take_peer_stopped valid) (take_peer_stopped-HasSame valid)
  report_to_route-HasSame limit sends pts_id (peer_eof valid) =
      if_peer-HasSame pts_id (take_peer_eof valid) (take_peer_eof-HasSame valid)
  report_to_route-HasSame limit sends pts_id (peer_data d works) =
      if_peer-HasSame pts_id (take_peer_data d works) (take_peer_data-HasSame d works)
  report_to_route-HasSame limit sends pts_id other = (refl, refl)

peer_step-IsCounted :
    (n : ℕ) (e : PeerEvent) (s : ClientRoute)
    → IsCounted n s
    → IsCounted (n + replaced_by e s) (peer_step e s)
unfolding peer_step
peer_step-IsCounted n (reported limit sends pts_id r) s v =
    same_IsCounted _ s _ (still n s v) (report_to_route-HasSame s limit sends pts_id r)
peer_step-IsCounted n (dial_ended dial d) s v = finish_connect-IsCounted n dial d s v
peer_step-IsCounted n (task_ended sends ref) s v =
    still n (end_task sends ref s) (end_task-IsCounted n sends ref s v)
peer_step-IsCounted n route_stop_requested s v =
    same_IsCounted _ s _ (still n s v) (req_stop_route-HasSame s)

-- Whatever happens to the peers of a route whose peers are counted once each, the count afterwards is
-- that of the table and the other routes, and one more for every peer that another peer with its id
-- has replaced in the table: no later event takes these back. No id stands twice in the table.
pub peer_steps-IsCounted :
    (n : ℕ) (es : List PeerEvent) (s : ClientRoute)
    → IsCounted n s
    → IsCounted (n + replaced_by_all es s) (peer_steps es s)
unfolding peer_steps
peer_steps-IsCounted n [] s v = still n s v
peer_steps-IsCounted n (e ∷ es) s v =
    let ih =
      peer_steps-IsCounted (n + replaced_by e s) es (peer_step e s) (peer_step-IsCounted n e s v) in
    record { unique = ih.unique; counted = ground (arith, ih.counted) }
