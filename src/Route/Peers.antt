-- ===== src/Route/Peers.antt =====
-- server.go: the peer table of one route (`ServerRoute`) and the loop that accepts its peers.
-- A number stands for an accepted connection. `peers` is the server-wide `stats.peers`.
pub mod Table
pub mod Accept
use hodu.Prelude.{
  ℕ, zero, suc, ◌+◌, ◌^◌, Bool, true, false, List, [], ◌∷◌, Option, none, some, leb, if◌then◌else◌,
  length, has_key, delete_key, ℤ, pos, negsuc, inc, dec,
}
use hodu.IdPool.{assign_id}

pub record Peers : Type 0 where
  pub pts_map : List (ℕ × ℕ)
  pub pts_limit : ℕ
  pub pts_next_id : ℕ
  -- stats.peers, an Int64 that all routes share
  pub peers : ℤ
  -- connections that the loop has closed
  pub closed : List ℕ

abbrev pub peer_ids : ℕ
peer_ids = 2 ^ 32

pub data AddError : Type 0 where
  table_full no_id : AddError

pub data Added : Type 0 where
  added : ℕ → Added
  failed : AddError → Added

-- AddNewServerPeerConn
unfoldable pub add_new_peer : ℕ → Peers → Peers × Added
add_new_peer conn s =
    if leb s.pts_limit (length s.pts_map)
    then (s, failed table_full)
    else (let (found, next_id) = assign_id peer_ids (λ k. has_key k s.pts_map) s.pts_next_id in
        elim found [
          | none ↦ (record s { pts_next_id = next_id }, failed no_id)
          | some id ↦ (
            record s {
              pts_map = (id, conn) ∷ s.pts_map;
              pts_next_id = next_id;
              peers = inc s.peers;
            },
            added id,
          )
        ])

-- RemoveServerPeerConn
unfoldable pub remove_peer : ℕ → Peers → Peers
remove_peer id s = record s { pts_map = delete_key id s.pts_map; peers = dec s.peers }

abbrev pub close : ℕ → Peers → Peers
close conn s = record s { closed = conn ∷ s.closed }

-- `s.pts_limit > 0 && int(stats.peers.Load()) >= s.pts_limit`, on the server's limit.
abbrev pub is_over : ℤ → ℤ → Bool
is_over (negsuc n) peers = false
is_over (pos zero) peers = false
is_over (pos (suc n)) (pos peers) = leb (suc n) peers
is_over (pos (suc n)) (negsuc peers) = false

-- The two checks of the loop of `ServerRoute.RunTask`, for a connection with whether the route's
-- permitted network contains its address.
unfoldable pub screen : ℤ → Bool → ℕ → Peers → Peers
screen server_limit permitted conn s =
    let s1 = if permitted then s else close conn s in
    if is_over server_limit s1.peers then close conn s1 else s1

-- A connection that cannot be entered is closed.
abbrev pub or_close : ℕ → Peers × Added → Peers × Added
or_close conn (s, added id) = (s, added id)
or_close conn (s, failed e) = (close conn s, failed e)

-- One round of the loop.
unfoldable pub accept : ℤ → Bool → ℕ → Peers → Peers × Added
accept server_limit permitted conn s =
    or_close conn (add_new_peer conn (screen server_limit permitted conn s))
