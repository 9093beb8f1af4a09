-- ===== src/Client/Peers/Dialing.antt =====
-- client.go: the client does not cancel a dial.
use hodu.Prelude.{ℕ, ◌≡◌, true, false, List, [], ◌∷◌, has_key}
use hodu.Client.Peers.{ClientRoute, peer_started}
use hodu.Client.Peers.Tasks.{PeerEvent, reported, peer_step}

-- The ids of the dials that could be cancelled are not in the table of peers.
abbrev pub AreApart : ClientRoute → Type 0
AreApart s = (k : ℕ) → has_key k s.ptc_map ≡ true → has_key k s.ptc_cancel_map ≡ false

-- The server reports a new peer under an id that no peer in the table has.
abbrev pub IsFresh : PeerEvent → ClientRoute → Type 0
IsFresh (reported limit sends pts_id (peer_started true)) s = has_key pts_id s.ptc_map ≡ false
IsFresh _ s = Unit

abbrev pub AreFresh : List PeerEvent → ClientRoute → Type 0
AreFresh [] s = Unit
AreFresh (e ∷ es) s = IsFresh e s × AreFresh es (peer_step e s)

-- What the cancelling of dials depends on stays, or the table loses a peer.
abbrev Keeps : ClientRoute → ClientRoute → Type 0
Keeps s t = (t.cancelled ≡ s.cancelled) × AreApart t
