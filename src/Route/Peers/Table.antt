-- ===== src/Route/Peers/Table.antt =====
-- server.go: the peer table stays within its limit, and ids are not given twice.
use hodu.Prelude.{
  ℕ, ◌+◌, ◌-◌, ◌≤◌, ◌<◌, ◌≡◌, refl, true, false, ◌∷◌, arith, leb, length, Bool-cases, inl, inr,
  Option, some, none, has_key, HasUniqueKeys, length-of_keys, length-delete_key,
  delete_key-HasUniqueKeys, pos, inc,
}
use hodu.IdPool.{assign_id}
use hodu.IdPool.Found.{Finds, assign_id-Finds}
use hodu.Route.Peers.{
  Peers, peer_ids, Added, added, failed, AddError, table_full, add_new_peer, remove_peer,
}

-- A table beside which the other routes have `others` peers.
pub record IsValid (others : ℕ) (s : Peers) : Type 0 where
  pub unique : HasUniqueKeys s.pts_map
  pub within : length s.pts_map ≤ s.pts_limit
  pub limit : s.pts_limit < peer_ids - 1
  pub next_pos : 0 < s.pts_next_id
  pub next_lt : s.pts_next_id < peer_ids
  pub counted : s.peers ≡ pos (others + length s.pts_map)

-- What `AddNewServerPeerConn` is to do: fail and change nothing if the table is full, and else enter
-- the connection under an id in range that no peer has.
abbrev pub AddResult : ℕ → ℕ → Peers → Peers × Added → Type 0
AddResult others conn s (s', failed e) =
    (e ≡ table_full) × (length s.pts_map ≡ s.pts_limit) × (s' ≡ s)
AddResult others conn s (s', added id) =
    (length s.pts_map < s.pts_limit)
    × (has_key id s.pts_map ≡ false)
    × (0 < id)
    × (id < peer_ids)
    × (s'.pts_map ≡ (id, conn) ∷ s.pts_map)
    × IsValid others s'

found_AddResult :
    (others conn : ℕ) (s : Peers) (r : Option ℕ × ℕ)
    → IsValid others s
    → leb s.pts_limit (length s.pts_map) ≡ false
    → Finds peer_ids (λ k. has_key k s.pts_map) r
    → AddResult others conn s (elim r.0 [
      | none ↦ (record s { pts_next_id = r.1 }, failed AddError.no_id)
      | some id ↦ (
        record s { pts_map = (id, conn) ∷ s.pts_map; pts_next_id = r.1; peers = inc s.peers },
        added id,
      )
    ])
found_AddResult others conn s (none, next) v room (all, n0, n1) =
    absurd
      (ground (arith, length-of_keys (peer_ids - 1) s.pts_map (λ k k0 k1. all k k0 (omega arith))))
found_AddResult others conn s (some id, next) v room (free, i0, i1, n0, n1) =
    (ground arith, free, i0, i1, refl, ground arith)

-- `AddNewServerPeerConn` on a valid table fails exactly if the table is at its limit, and then
-- changes nothing; otherwise it enters the connection under an id that no peer of the route has,
-- which is neither 0 nor beyond 32 bits, and the table stays valid: no id twice, within its limit,
-- and counted once in the server's number of peers.
pub add_new_peer-AddResult :
    (others conn : ℕ) (s : Peers) → IsValid others s → AddResult others conn s (add_new_peer conn s)
unfolding add_new_peer
add_new_peer-AddResult others conn s v = elim (Bool-cases (leb s.pts_limit (length s.pts_map))) [
  | inl full ↦ rw full (refl, ground arith, refl)
  | inr room ↦ rw room (
      found_AddResult others conn s (assign_id peer_ids (λ k. has_key k s.pts_map) s.pts_next_id) v
        room (assign_id-Finds peer_ids _ s.pts_next_id (omega arith) v.next_pos v.next_lt))
]

-- Removing a peer that is in the table keeps the table valid.
pub remove_peer-IsValid :
    (others id : ℕ) (s : Peers)
    → IsValid others s
    → has_key id s.pts_map ≡ true
    → IsValid others (remove_peer id s)
unfolding remove_peer
remove_peer-IsValid others id s v here = ground (
  arith,
  length-delete_key id s.pts_map v.unique here,
  delete_key-HasUniqueKeys id s.pts_map v.unique,
)
