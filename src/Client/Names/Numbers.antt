-- ===== src/Client/Names/Numbers.antt =====
-- client.go: FindClientPeerConnByIdStr finds a peer by its numbers.
use Prim.Native.String.{String}
use hodu.Prelude.{
  ℕ, ◌≡◌, ◌⊎◌, inl, inr, refl, Option, none, some, Option-cases, arith, lookup, parse_uint,
}
use hodu.Prelude.Options.{bind-some}
use hodu.Prelude.Results.{Result, ok, err}
use hodu.Lookup.{LookupError, invalid_id, not_found, or_not_found, if_parsed}
use hodu.Client.Names.{ClientTables, find_client_peer_by_id, find_client_peer_by_id_str}

-- The peer of three numbers.
abbrev pub IsPeer : ℕ → ℕ → ℕ → ClientTables → ℕ → Type 0
IsPeer c r q s p =
    (cts : ℕ) × (route : ℕ) × (lookup c s.conns.cts_map ≡ some cts)
    × (lookup r (s.routes cts).route_map ≡ some route)
    × (lookup q (s.peers route) ≡ some p)

-- The three texts read as numbers of their widths.
abbrev pub AreNumbers : String → String → String → ℕ → ℕ → ℕ → Type 0
AreNumbers conn_id route_id peer_id c r q =
    (parse_uint 64 conn_id ≡ some c)
    × (parse_uint 32 route_id ≡ some r)
    × (parse_uint 32 peer_id ≡ some q)

module _ (conn_id route_id peer_id : String) (s : ClientTables) where
  abbrev pub PeerResult : Result LookupError ℕ → Type 0
  PeerResult (ok p) =
      (c : ℕ) × (r : ℕ) × (q : ℕ) × AreNumbers conn_id route_id peer_id c r q × IsPeer c r q s p
  PeerResult (err invalid_id) =
      (parse_uint 64 conn_id ≡ none)
      ⊎ ((parse_uint 32 route_id ≡ none) ⊎ (parse_uint 32 peer_id ≡ none))
  PeerResult (err not_found) =
      (c : ℕ) × (r : ℕ) × (q : ℕ) × AreNumbers conn_id route_id peer_id c r q
      × ((p : ℕ) → IsPeer c r q s p → ⊥)

  find_client_peer_by_id-IsPeer :
      (c r q p : ℕ) → IsPeer c r q s p → find_client_peer_by_id c r q s ≡ some p
  unfolding find_client_peer_by_id
  find_client_peer_by_id-IsPeer c r q p (cts, route, a, b, d) = ground (arith, a, b, d)

  IsPeer-of_found : (c r q p : ℕ) → find_client_peer_by_id c r q s ≡ some p → IsPeer c r q s p
  unfolding find_client_peer_by_id
  IsPeer-of_found c r q p e =
      let (cts, a, e1) = bind-some (lookup c s.conns.cts_map) e in
      let (route, b, e2) = bind-some (lookup r (s.routes cts).route_map) e1 in
      (cts, route, a, b, e2)

  found-PeerResult :
      (c r q : ℕ) (o : Option ℕ)
      → AreNumbers conn_id route_id peer_id c r q
      → find_client_peer_by_id c r q s ≡ o
      → PeerResult (or_not_found o)
  found-PeerResult c r q none n e =
      (c, r, q, n, λ p h. absurd (ground (arith, e, find_client_peer_by_id-IsPeer c r q p h)))
  found-PeerResult c r q (some p) n e = (c, r, q, n, IsPeer-of_found c r q p e)

  -- Looking up a peer by three texts finds a peer exactly if they read as the numbers of a connection
  -- of the client, of a route of it, and of the peer in that route's table: a peer that is found has
  -- such numbers; the first error means that a text does not read as a number of its width; and the
  -- second that all of them do and that there is no such peer.
  pub find_client_peer_by_id_str-PeerResult :
      PeerResult (find_client_peer_by_id_str conn_id route_id peer_id s)
  unfolding find_client_peer_by_id_str
  find_client_peer_by_id_str-PeerResult = elim (Option-cases (parse_uint 64 conn_id)) [
    | inl e ↦ rw (find_client_peer_by_id_str, if_parsed, e) (inl e)
    | inr (c, e) ↦ elim (Option-cases (parse_uint 32 route_id)) [
      | inl f ↦ rw (find_client_peer_by_id_str, if_parsed, e, f) (inr (inl f))
      | inr (r, f) ↦ elim (Option-cases (parse_uint 32 peer_id)) [
        | inl g ↦ rw (find_client_peer_by_id_str, if_parsed, e, f, g) (inr (inr g))
        | inr (q, g) ↦
            rw (find_client_peer_by_id_str, if_parsed, e, f, g)
              (found-PeerResult c r q (find_client_peer_by_id c r q s) (e, f, g) refl)
      ]
    ]
  ]
