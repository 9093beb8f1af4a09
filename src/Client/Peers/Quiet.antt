-- ===== src/Client/Peers/Quiet.antt =====
-- client.go: what the client does about the peers of a route without an answer to the server.
use hodu.Prelude.{
  ℕ, ◌+◌, ◌≡◌, refl, Bool, true, false, List, [], ◌∷◌, ◌++◌, Option, none, some, arith,
  Option-cases, inl, inr, count, lookup,
}
use hodu.Client.Peers.{
  ClientRoute, PeerPacket, sent_started, sent_aborted, sent_stopped, sent_data, send_if,
  req_stop_ptc, close_write, remove_ptc, req_stop_ptcs, req_stop_route, disconnect_from_peer,
  take_peer_stopped, take_peer_eof, take_peer_data, if_peer,
}
use hodu.Client.Peers.Tasks.{end_task}

-- The packets that answer a start of a peer.
abbrev pub is_answer : PeerPacket → Bool
is_answer (sent_started id pts_id) = true
is_answer (sent_aborted id pts_id) = true
is_answer (sent_stopped id pts_id) = false
is_answer (sent_data id pts_id bytes) = false

abbrev pub answers : ClientRoute → ℕ
answers s = count is_answer s.sent

pub count-append :
    {A : Type 0} (p : A → Bool) (xs ys : List A) → count p (xs ++ ys) ≡ count p xs + count p ys
count-append p [] ys = omega arith
count-append p (x ∷ xs) ys = omega (arith, count-append p xs ys)

-- No answer, no dial and no new pointer.
abbrev pub Quiet : ClientRoute → ClientRoute → Type 0
Quiet s t = (answers t ≡ answers s) × (t.dials ≡ s.dials) × (t.next_ref ≡ s.next_ref)

req_stop_ptcs-Quiet : (m : List (ℕ × ℕ)) (s : ClientRoute) → Quiet s (req_stop_ptcs m s)
unfolding req_stop_ptcs req_stop_ptc
req_stop_ptcs-Quiet [] s = (refl, refl, refl)
req_stop_ptcs-Quiet ((id, ref) ∷ m) s = req_stop_ptcs-Quiet m (req_stop_ptc ref s)

pub req_stop_route-Quiet : (s : ClientRoute) → Quiet s (req_stop_route s)
unfolding req_stop_route
req_stop_route-Quiet s =
    ground (arith, req_stop_ptcs-Quiet s.ptc_map (record s { stop_req = true }))

disconnect_from_peer-Quiet : (ref : ℕ) (s : ClientRoute) → Quiet s (disconnect_from_peer ref s)
unfolding disconnect_from_peer req_stop_ptc
disconnect_from_peer-Quiet ref s = (ground arith, ground arith, ground arith)

pub if_peer-Quiet :
    (pts_id : ℕ) (f : ℕ → ClientRoute → ClientRoute) (s : ClientRoute)
    → ((ref : ℕ) → Quiet s (f ref s))
    → Quiet s (if_peer pts_id f s)
if_peer-Quiet pts_id f s h = elim (Option-cases (lookup pts_id s.ptc_map)) [
  | inl e ↦ rw (if_peer, e) (refl, refl, refl)
  | inr (ref, e) ↦ rw (if_peer, e) (h ref)
]

pub take_peer_stopped-Quiet :
    (valid : Bool) (s : ClientRoute) (ref : ℕ) → Quiet s (take_peer_stopped valid ref s)
unfolding take_peer_stopped req_stop_ptc
take_peer_stopped-Quiet true s ref = disconnect_from_peer-Quiet ref s
take_peer_stopped-Quiet false s ref = (refl, refl, refl)

pub take_peer_eof-Quiet :
    (valid : Bool) (s : ClientRoute) (ref : ℕ) → Quiet s (take_peer_eof valid ref s)
unfolding take_peer_eof req_stop_ptc close_write
take_peer_eof-Quiet true s ref = (refl, refl, refl)
take_peer_eof-Quiet false s ref = (refl, refl, refl)

pub take_peer_data-Quiet :
    (d : Option (List ℕ)) (works : Bool) (s : ClientRoute) (ref : ℕ)
    → Quiet s (take_peer_data d works ref s)
unfolding take_peer_data req_stop_ptc
take_peer_data-Quiet none works s ref = (refl, refl, refl)
take_peer_data-Quiet (some bytes) true s ref = (refl, refl, refl)
take_peer_data-Quiet (some bytes) false s ref = (refl, refl, refl)

remove_ptc-Quiet : (ref : ℕ) (s : ClientRoute) → Quiet s (remove_ptc ref s).0
unfolding remove_ptc req_stop_ptc
remove_ptc-Quiet ref s = (ground arith, ground arith, ground arith)

pub end_task-Quiet : (sends : Bool) (ref : ℕ) (s : ClientRoute) → Quiet s (end_task sends ref s)
unfolding end_task req_stop_ptc
end_task-Quiet true ref s =
    let p = sent_stopped s.id (s.ptc ref).conn_id in
    let (a, d, n) = remove_ptc-Quiet ref (req_stop_ptc ref (send_if true p s)) in
    (omega (arith, a, count-append is_answer s.sent (p ∷ [])), d, n)
end_task-Quiet false ref s = remove_ptc-Quiet ref (req_stop_ptc ref s)
