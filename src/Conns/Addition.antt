-- ===== src/Conns/Addition.antt =====
-- server.go: AddNewServerConn on tables that agree.
use hodu.Prelude.{
  ℕ, ◌+◌, ◌<◌, ◌≡◌, inl, inr, refl, true, false, Option, none, some, arith, Bool-cases, lookup,
  has_key, length,
}
use hodu.Prelude.Results.{Result, ok, err}
use hodu.IdPool.{assign_id}
use hodu.IdPool.Found.{Finds, assign_id-Finds}
use hodu.Conns.{
  Conns, ConnError, conn_ids, is_full, is_some, put_conn, enter_conn, add_conn, too_many, no_id,
  existing_addr, non_existent,
}
use hodu.Conns.Valid.{IsValid, put_conn-IsValid}

-- The new connection, which the tables lead to by its id and its address.
pub record Entered (addr ref : ℕ) (s s' : Conns) : Type 0 where
  pub valid : IsValid s'
  pub was_free : has_key (s'.cts ref).id s.cts_map ≡ false
  pub by_id : lookup (s'.cts ref).id s'.cts_map ≡ some ref
  pub by_addr : s'.by_addr addr ≡ some ref
  pub fresh : (s'.cts ref).client_token ≡ ""
  pub runs : (s'.cts ref).stop_req ≡ false
  pub one_more : s'.conns ≡ s.conns + 1

abbrev pub AddResult : ℕ → Conns → Conns × Result ConnError ℕ → Type 0
AddResult addr s (s', err too_many) = (s' ≡ s) × (is_full s.cts_limit (length s.cts_map) ≡ true)
AddResult addr s (s', err existing_addr) =
    IsValid s'
    × (is_some (s.by_addr addr) ≡ true)
    × (s' ≡ record s { cts_next_id = s'.cts_next_id })
AddResult addr s (s', err no_id) =
    IsValid s' × ((k : ℕ) → 0 < k → k < conn_ids → has_key k s.cts_map ≡ true)
AddResult addr s (s', err non_existent) = ⊥
AddResult addr s (s', ok ref) = Entered addr ref s s'

module _ (s : Conns) (v : IsValid s) where
  next_id-IsValid :
      (next : ℕ) → 0 < next → next < conn_ids → IsValid (record s { cts_next_id = next })
  next_id-IsValid next n0 n1 = record {
    unique = v.unique;
    keyed = v.keyed;
    ranged = v.ranged;
    old = v.old;
    addressed = v.addressed;
    reached = v.reached;
    addrs = v.addrs;
    tokens = v.tokens;
    counted = v.counted;
    within = v.within;
    next_pos = n0;
    next_lt = n1;
  }

  enter_conn-AddResult :
      (addr : ℕ) (r : Option ℕ × ℕ)
      → is_full s.cts_limit (length s.cts_map) ≡ false
      → Finds conn_ids (λ k. has_key k s.cts_map) r
      → AddResult addr s (enter_conn addr r s)
  unfolding enter_conn put_conn
  enter_conn-AddResult addr (none, next) room (all, n0, n1) = (next_id-IsValid next n0 n1, all)
  enter_conn-AddResult addr (some id, next) room (free, i0, i1, n0, n1) =
      elim (Bool-cases (is_some (s.by_addr addr))) [
        | inl taken ↦ rw (enter_conn, taken) (next_id-IsValid next n0 n1, taken, refl)
        | inr new ↦
            rw (enter_conn, new)
              (record {
                valid =
                    put_conn-IsValid id addr (record s { cts_next_id = next })
                      (next_id-IsValid next n0 n1) free i0 i1 (ground arith) room;
                was_free = ground arith;
                by_id = ground arith;
                by_addr = ground arith;
                fresh = ground arith;
                runs = ground arith;
                one_more = ground (arith, v.counted);
              })
      ]

-- AddNewServerConn on valid tables: if there are as many connections as the limit allows, it fails
-- and changes nothing; if every id is in use, or the address has a connection, it fails, and only
-- the next id has moved; otherwise the tables lead to the new connection by its address and by an
-- id that was free, it has no token and is not asked to stop, and the count has gone up by one. The
-- tables stay valid.
pub add_conn-AddResult : (addr : ℕ) (s : Conns) → IsValid s → AddResult addr s (add_conn addr s)
unfolding add_conn
add_conn-AddResult addr s v = elim (Bool-cases (is_full s.cts_limit (length s.cts_map))) [
  | inl full ↦ rw (add_conn, full) (refl, full)
  | inr room ↦
      rw (add_conn, room)
        (enter_conn-AddResult s v addr (assign_id conn_ids (λ k. has_key k s.cts_map) s.cts_next_id)
          room
          (assign_id-Finds conn_ids (λ k. has_key k s.cts_map) s.cts_next_id (omega arith)
            v.next_pos v.next_lt))
]
