-- ===== src/Client/Peers/Forwarding.antt =====
-- client-peer.go: the task of a peer sends what it reads to the server.
use hodu.Prelude.{
  ℕ, ◌≡◌, refl, true, false, List, [], ◌∷◌, ◌++◌, arith, Bool, Bool-cases, Option-cases, inl, inr,
  if◌then◌else◌, lookup, lookup-delete_key, append_assoc, append-nil, ◌==◌, ◌∙◌, ap, sym, subst,
}
use hodu.Client.Peers.{
  ClientRoute, PeerPacket, sent_stopped, sent_data, send_if, is_ref, req_stop_ptc, remove_ptc,
}
use hodu.Client.Peers.Tasks.{end_task, Read, send_read, goes_on, run_task}

-- The bytes of the packets of data of one peer, and no other packets.
abbrev pub IsDataOf : ℕ → ℕ → List ℕ → List PeerPacket → Type 0
IsDataOf id conn_id bytes [] = bytes ≡ []
IsDataOf id conn_id bytes (sent_data i c b ∷ ps) =
    (i ≡ id) × (c ≡ conn_id) × (rest : List ℕ) × (bytes ≡ b ++ rest) × IsDataOf id conn_id rest ps
IsDataOf id conn_id bytes (_ ∷ ps) = ⊥

abbrev pub read_bytes : List Read → List ℕ
read_bytes [] = []
read_bytes (r ∷ rs) = r.buf ++ read_bytes rs

abbrev pub AllGoOn : List Read → Type 0
AllGoOn [] = Unit
AllGoOn (r ∷ rs) = (goes_on r ≡ true) × AllGoOn rs

-- What the task of a peer has done at its end, after bytes of reads; whether its last send works.
abbrev pub HasForwarded : Bool → List ℕ → ℕ → ClientRoute → ClientRoute → Type 0
HasForwarded sends bytes ref s t =
    (ps : List PeerPacket) × IsDataOf s.id (s.ptc ref).conn_id bytes ps
    × (t.sent
        ≡ s.sent ++ (ps ++ (if sends then sent_stopped s.id (s.ptc ref).conn_id ∷ [] else [])))
    × ((t.ptc ref).stop_req ≡ true)
    × (is_ref ref (lookup (s.ptc ref).conn_id t.ptc_map) ≡ false)

-- What the removal of a peer that is asked to stop leaves.
abbrev IsLeft : ℕ → ClientRoute → ClientRoute → Type 0
IsLeft ref s t =
    (t.sent ≡ s.sent)
    × ((t.ptc ref).stop_req ≡ true)
    × (is_ref ref (lookup (s.ptc ref).conn_id t.ptc_map) ≡ false)

remove_ptc-IsLeft :
    (ref : ℕ) (s : ClientRoute) → (s.ptc ref).stop_req ≡ true → IsLeft ref s (remove_ptc ref s).0
unfolding remove_ptc req_stop_ptc
remove_ptc-IsLeft ref s h = elim (Option-cases (lookup (s.ptc ref).conn_id s.ptc_map)) [
  | inl e ↦ rw (remove_ptc, e) (refl, h, rw (is_ref, e) refl)
  | inr (c, e) ↦ elim (Bool-cases (c == ref)) [
    | inl it ↦
        rw (remove_ptc, e, it)
          (
            refl,
            ground arith,
            ground (arith, lookup-delete_key (s.ptc ref).conn_id (s.ptc ref).conn_id s.ptc_map),
          )
    | inr not_it ↦ rw (remove_ptc, e, not_it) (refl, h, rw (is_ref, e) not_it)
  ]
]

abbrev if_sent : Bool → PeerPacket → List PeerPacket
if_sent works p = if works then p ∷ [] else []

-- The state before the removal.
IsStopped : ℕ → Bool → ClientRoute → ClientRoute → Type 0
IsStopped ref sends s t =
    ((t.ptc ref).conn_id ≡ (s.ptc ref).conn_id)
    × ((t.ptc ref).stop_req ≡ true)
    × (t.sent ≡ s.sent ++ if_sent sends (sent_stopped s.id (s.ptc ref).conn_id))

before_removal-IsStopped :
    (sends : Bool) (ref : ℕ) (s : ClientRoute)
    → IsStopped ref sends s
        (req_stop_ptc ref (send_if sends (sent_stopped s.id (s.ptc ref).conn_id) s))
unfolding IsStopped req_stop_ptc
before_removal-IsStopped true ref s = ground arith
before_removal-IsStopped false ref s = ground (arith, append-nil s.sent)

end_task-HasForwarded :
    (sends : Bool) (ref : ℕ) (s : ClientRoute) → HasForwarded sends [] ref s (end_task sends ref s)
unfolding end_task IsStopped
end_task-HasForwarded sends ref s =
    let t = req_stop_ptc ref (send_if sends (sent_stopped s.id (s.ptc ref).conn_id) s) in
    let b = before_removal-IsStopped sends ref s in
    let l = remove_ptc-IsLeft ref t b.1 in
    (
      [],
      refl,
      l.0 ∙ b.2,
      l.1,
      subst (λ k. is_ref ref (lookup k (remove_ptc ref t).0.ptc_map) ≡ false) b.0 l.2,
    )

-- The bytes of a read that were sent.
abbrev pub sent_bytes : Read → List ℕ
sent_bytes r = if r.sends then r.buf else []

module _ (sends : Bool) (ref : ℕ) (bytes : List ℕ) where
  send_read-HasForwarded :
      (buf : List ℕ) (works : Bool) (s u : ClientRoute)
      → HasForwarded sends bytes ref (send_read buf works ref s) u
      → HasForwarded sends ((if works then buf else []) ++ bytes) ref s u
  send_read-HasForwarded [] true s u h = h
  send_read-HasForwarded [] false s u h = h
  send_read-HasForwarded (c ∷ cs) false s u h = h
  send_read-HasForwarded (c ∷ cs) true s u (ps, d, e, p, q) = (
    sent_data s.id (s.ptc ref).conn_id (c ∷ cs) ∷ ps,
    (refl, refl, bytes, refl, d),
    e ∙ append_assoc s.sent (sent_data s.id (s.ptc ref).conn_id (c ∷ cs) ∷ []) _,
    p,
    q,
  )

sent_bytes_lem : (r : Read) → goes_on r ≡ true → sent_bytes r ≡ r.buf
sent_bytes_lem r h = ground arith

-- The task of a peer whose reads `rs` have not failed and could be sent, and then a read with which
-- its loop ends. The data that was sent are the bytes of the reads in their order, with those of the
-- last read if they could be sent; after them, if that works, goes the one packet that the peer has
-- stopped. The peer is asked to stop and is not in the table.
pub run_task-HasForwarded :
    (sends : Bool) (ref : ℕ) (rs : List Read) (r : Read) (s : ClientRoute)
    → AllGoOn rs
    → goes_on r ≡ false
    → HasForwarded sends
        (read_bytes rs ++ sent_bytes r)
        ref
        s
        (run_task (rs ++ (r ∷ [])) sends ref s)
unfolding run_task
run_task-HasForwarded sends ref [] r s gs g =
    let t = send_read r.buf r.sends ref s in
    rw (run_task, g, sym (append-nil (sent_bytes r)))
      (send_read-HasForwarded sends ref [] r.buf r.sends s (end_task sends ref t)
        (end_task-HasForwarded sends ref t))
run_task-HasForwarded sends ref (q ∷ rs) r s (g0, gs) g =
    let t = send_read q.buf q.sends ref s in
    let ih = run_task-HasForwarded sends ref rs r t gs g in
    let u = run_task (rs ++ (r ∷ [])) sends ref t in
    let after = read_bytes rs ++ sent_bytes r in
    rw (run_task, g0)
      (subst (λ b. HasForwarded sends b ref s u)
        (ap (λ b. b ++ after) (sent_bytes_lem q g0)
          ∙ sym (append_assoc q.buf (read_bytes rs) (sent_bytes r)))
        (send_read-HasForwarded sends ref after q.buf q.sends s u ih))
