-- ===== src/Client/Conns/Kept.antt =====
-- client.go: the table of connections stays valid.
use Prim.Native.String.{String}
use hodu.Prelude.{
  ℕ, ◌+◌, ◌<◌, ◌≤◌, ◌≡◌, refl, true, false, List, [], ◌∷◌, Option, none, some, arith, Bool-cases,
  Option-cases, inl, inr, pos, lookup, has_key, HasUniqueKeys, length, delete_key-HasUniqueKeys,
  lookup-delete_key, delete_key_le, ◌==◌,
}
use hodu.IdPool.{assign_id}
use hodu.IdPool.Found.{Finds, assign_id-Finds}
use hodu.Conns.{is_full}
use hodu.Client.Conns.{
  ClientConns, no_server_addr, too_many_links, non_existent_link, conflicting_link, LinkAdded,
  link_added, link_failed, deadlock, link_ids, put_link, enter_link, is_empty, add_client_conn,
  req_stop_link, drop_link, remove_client_conn, remove_client_conn_by_id, req_stop_links,
  req_stop_all_links, LinkCall, add_call, remove_call, remove_by_id_call, stop_call, stop_all_call,
  link_step, link_steps,
}

pub record IsValid (s : ClientConns) : Type 0 where
  pub unique : HasUniqueKeys s.cts_map
  pub keyed :
      (id ref : ℕ) → lookup id s.cts_map ≡ some ref → ((s.cts ref).id ≡ id) × (ref < s.next_ref)
  pub counted : s.conns ≡ length s.cts_map
  pub within : (n : ℕ) → s.cts_limit ≡ pos n → 0 < n → length s.cts_map ≤ n
  pub next_pos : 0 < s.cts_next_id
  pub next_lt : s.cts_next_id < link_ids

-- What adding a connection is to do.
abbrev pub AddResult : List String → ClientConns → ClientConns × LinkAdded → Type 0
AddResult addrs s (t, link_failed no_server_addr) = (t ≡ s) × (is_empty addrs ≡ true)
AddResult addrs s (t, link_failed too_many_links) =
    (t ≡ s) × (is_full s.cts_limit (length s.cts_map) ≡ true)
AddResult addrs s (t, link_failed _) = ⊥
AddResult addrs s (t, deadlock) =
    IsValid t × ((k : ℕ) → 0 < k → k < link_ids → has_key k s.cts_map ≡ true)
AddResult addrs s (t, link_added ref) =
    IsValid t
    × (has_key (t.cts ref).id s.cts_map ≡ false)
    × (lookup (t.cts ref).id t.cts_map ≡ some ref)
    × ((t.cts ref).server_addrs ≡ addrs)
    × (t.conns ≡ s.conns + 1)

module _ (s : ClientConns) (v : IsValid s) where
  next_id-IsValid :
      (next : ℕ) → 0 < next → next < link_ids → IsValid (record s { cts_next_id = next })
  next_id-IsValid next n0 n1 = record {
    unique = v.unique;
    keyed = v.keyed;
    counted = v.counted;
    within = v.within;
    next_pos = n0;
    next_lt = n1;
  }

  put_link-IsValid :
      (id : ℕ) (addrs : List String)
      → has_key id s.cts_map ≡ false
      → is_full s.cts_limit (length s.cts_map) ≡ false
      → IsValid (put_link id addrs s)
  unfolding put_link
  put_link-IsValid id addrs new room = record {
    unique = (new, v.unique);
    keyed = λ i q h. ground (arith, v.keyed i q);
    counted = ground (arith, v.counted);
    within = λ n e n0. ground (arith, v.within n);
    next_pos = v.next_pos;
    next_lt = v.next_lt;
  }

  pub req_stop_link-IsValid : (ref : ℕ) → IsValid (req_stop_link ref s)
  unfolding req_stop_link
  req_stop_link-IsValid ref = record {
    unique = v.unique;
    keyed = λ i q h. ground (arith, v.keyed i q);
    counted = v.counted;
    within = v.within;
    next_pos = v.next_pos;
    next_lt = v.next_lt;
  }

  pub drop_link-IsValid : (ref : ℕ) → IsValid (drop_link ref s)
  unfolding drop_link req_stop_link
  drop_link-IsValid ref = record {
    unique = delete_key-HasUniqueKeys (s.cts ref).id s.cts_map v.unique;
    keyed = λ i q h. ground (arith, v.keyed i q, lookup-delete_key i (s.cts ref).id s.cts_map);
    counted = refl;
    within = λ n e n0. ground (arith, v.within n, delete_key_le (s.cts ref).id s.cts_map);
    next_pos = v.next_pos;
    next_lt = v.next_lt;
  }

module _ (s : ClientConns) (v : IsValid s) where
  enter_link-AddResult :
      (addrs : List String) (r : Option ℕ × ℕ)
      → is_full s.cts_limit (length s.cts_map) ≡ false
      → Finds link_ids (λ k. has_key k s.cts_map) r
      → AddResult addrs s (enter_link addrs r s)
  unfolding enter_link put_link
  enter_link-AddResult addrs (none, next) room (all, n0, n1) = (next_id-IsValid s v next n0 n1, all)
  enter_link-AddResult addrs (some id, next) room (free, i0, i1, n0, n1) = (
    put_link-IsValid (record s { cts_next_id = next }) (next_id-IsValid s v next n0 n1) id addrs
        free room,
    ground arith,
    ground arith,
    ground arith,
    ground arith,
  )

  remove_client_conn-IsValid : (ref : ℕ) → IsValid (remove_client_conn ref s).0
  unfolding remove_client_conn
  remove_client_conn-IsValid ref = elim (Option-cases (lookup (s.cts ref).id s.cts_map)) [
    | inl e ↦ rw (remove_client_conn, e) v
    | inr (c, e) ↦ elim (Bool-cases (c == ref)) [
      | inl it ↦ rw (remove_client_conn, e, it) (drop_link-IsValid s v ref)
      | inr not_it ↦ rw (remove_client_conn, e, not_it) v
    ]
  ]

  remove_client_conn_by_id-IsValid : (id : ℕ) → IsValid (remove_client_conn_by_id id s).0
  unfolding remove_client_conn_by_id
  remove_client_conn_by_id-IsValid id = elim (Option-cases (lookup id s.cts_map)) [
    | inl e ↦ rw (remove_client_conn_by_id, e) v
    | inr (c, e) ↦ rw (remove_client_conn_by_id, e) (drop_link-IsValid s v c)
  ]

-- AddNewClientConn on a valid table. Without an address of a server, or at the limit, it fails and
-- changes nothing. If every id is in use it locks the mutex that it holds, and so does not return.
-- Otherwise the connection is in the table under an id that was free, with the addresses, and the
-- count has gone up by one. The table stays valid.
pub add_client_conn-AddResult :
    (addrs : List String) (s : ClientConns)
    → IsValid s
    → AddResult addrs s (add_client_conn addrs s)
unfolding add_client_conn
add_client_conn-AddResult addrs s v = elim (Bool-cases (is_empty addrs)) [
  | inl blank ↦ rw (add_client_conn, blank) (refl, blank)
  | inr given ↦ elim (Bool-cases (is_full s.cts_limit (length s.cts_map))) [
    | inl full ↦ rw (add_client_conn, given, full) (refl, full)
    | inr room ↦
        rw (add_client_conn, given, room)
          (enter_link-AddResult s v addrs
            (assign_id link_ids (λ k. has_key k s.cts_map) s.cts_next_id) room
            (assign_id-Finds link_ids (λ k. has_key k s.cts_map) s.cts_next_id (omega arith)
              v.next_pos v.next_lt))
  ]
]

AddResult-IsValid :
    (addrs : List String) (s : ClientConns) (r : ClientConns × LinkAdded)
    → IsValid s
    → AddResult addrs s r
    → IsValid r.0
AddResult-IsValid addrs s (t, link_failed no_server_addr) v (e, h) = rw e v
AddResult-IsValid addrs s (t, link_failed too_many_links) v (e, h) = rw e v
AddResult-IsValid addrs s (t, link_failed non_existent_link) v h = absurd h
AddResult-IsValid addrs s (t, link_failed conflicting_link) v h = absurd h
AddResult-IsValid addrs s (t, deadlock) v (w, h) = w
AddResult-IsValid addrs s (t, link_added ref) v h = h.0

req_stop_links-IsValid :
    (m : List (ℕ × ℕ)) (s : ClientConns) → IsValid s → IsValid (req_stop_links m s)
unfolding req_stop_links
req_stop_links-IsValid [] s v = v
req_stop_links-IsValid ((id, ref) ∷ m) s v =
    req_stop_links-IsValid m (req_stop_link ref s) (req_stop_link-IsValid s v ref)

link_step-IsValid : (c : LinkCall) (s : ClientConns) → IsValid s → IsValid (link_step c s)
unfolding link_step req_stop_all_links
link_step-IsValid (add_call addrs) s v =
    AddResult-IsValid addrs s (add_client_conn addrs s) v (add_client_conn-AddResult addrs s v)
link_step-IsValid (remove_call ref) s v = remove_client_conn-IsValid s v ref
link_step-IsValid (remove_by_id_call id) s v = remove_client_conn_by_id-IsValid s v id
link_step-IsValid (stop_call ref) s v = req_stop_link-IsValid s v ref
link_step-IsValid stop_all_call s v = req_stop_links-IsValid s.cts_map s v

-- Any sequence of calls keeps the table of connections valid: no id stands twice, an id leads to the
-- connection that has it, the count is that of the table, and the limit holds.
pub link_steps-IsValid :
    (cs : List LinkCall) (s : ClientConns) → IsValid s → IsValid (link_steps cs s)
unfolding link_steps
link_steps-IsValid [] s v = v
link_steps-IsValid (c ∷ cs) s v = link_steps-IsValid cs (link_step c s) (link_step-IsValid c s v)
