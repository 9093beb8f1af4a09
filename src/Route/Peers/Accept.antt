-- ===== src/Route/Peers/Accept.antt =====
-- server.go: what the loop of `ServerRoute.RunTask` does with an accepted connection.
use hodu.Prelude.{
  ℕ, ◌<◌, ◌≡◌, refl, sym, subst, Bool, true, false, List, ◌∷◌, arith, if◌then◌else◌, length,
  Bool-cases, inl, inr, ℤ,
}
use hodu.Route.Peers.{Peers, Added, added, failed, add_new_peer, accept, or_close, screen, is_over}
use hodu.Route.Peers.Table.{IsValid, AddResult, add_new_peer-AddResult}

-- What the two checks of the loop close: the connection, once for each that fails.
abbrev pub rejections : ℤ → Bool → ℕ → Peers → List ℕ
rejections server_limit permitted conn s =
    let closed = if permitted then s.closed else conn ∷ s.closed in
    if is_over server_limit s.peers then conn ∷ closed else closed

-- The connection is entered in the table, and the table is valid.
pub record Entered (others conn : ℕ) (closed : List ℕ) (pts_map : List (ℕ × ℕ)) (r : Peers × Added)
    : Type 0 where
  pub id : ℕ
  pub result : r.1 ≡ added id
  pub entered : r.0.pts_map ≡ (id, conn) ∷ pts_map
  pub closed_too : r.0.closed ≡ closed
  pub valid : IsValid others r.0

screen_lem :
    (server_limit : ℤ) (permitted : Bool) (conn : ℕ) (s : Peers)
    → screen server_limit permitted conn s
      ≡ record s { closed = rejections server_limit permitted conn s }
unfolding screen
screen_lem l true conn s = elim (Bool-cases (is_over l s.peers)) [ inl e ↦ rw e | inr e ↦ rw e ]
screen_lem l false conn s = elim (Bool-cases (is_over l s.peers)) [ inl e ↦ rw e | inr e ↦ rw e ]

added_Entered :
    (others conn : ℕ) (s : Peers) (r : Peers × Added)
    → length s.pts_map < s.pts_limit
    → r.0.closed ≡ s.closed
    → AddResult others conn s r
    → Entered others conn s.closed s.pts_map (or_close conn r)
added_Entered others conn s (s', failed e) room c a = absurd (omega (arith, a.1))
added_Entered others conn s (s', added id) room c a = record {
  id = id;
  result = refl;
  entered = a.4;
  closed_too = c;
  valid = a.5;
}

closed-add_new_peer : (conn : ℕ) (s : Peers) → (add_new_peer conn s).0.closed ≡ s.closed
unfolding add_new_peer
closed-add_new_peer conn s = ground arith

-- While the table of the route has room, the loop enters every accepted connection in it, also one
-- that it has just closed because the permitted network does not contain its address or because the
-- server has its maximum of peers: the two checks close the connection and do not go on to the next.
pub accept-Entered :
    (others : ℕ) (server_limit : ℤ) (permitted : Bool) (conn : ℕ) (s : Peers)
    → IsValid others s
    → length s.pts_map < s.pts_limit
    → Entered others conn
        (rejections server_limit permitted conn s)
        s.pts_map
        (accept server_limit permitted conn s)
unfolding accept
accept-Entered others l p conn s v room =
    let s' : Peers = record s { closed = rejections l p conn s } in
    subst
      (λ t.
        Entered others conn (rejections l p conn s) s.pts_map (or_close conn (add_new_peer conn t)))
      (sym (screen_lem l p conn s))
      (added_Entered others conn s' (add_new_peer conn s') room (closed-add_new_peer conn s')
        (add_new_peer-AddResult others conn s' (ground (arith, v.unique))))
