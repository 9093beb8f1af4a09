-- ===== src/Conns/Valid.antt =====
-- server.go: the tables of client connections agree with the connections that they lead to.
use Prim.Native.String.{String}
use text.Mathlib.Text.{◌==◌ as str_eq}
use hodu.Prelude.{
  ℕ, ◌≤◌, ◌<◌, ◌≡◌, inl, inr, refl, false, none, some, ◌==◌, List, [], ◌∷◌, arith, Bool-cases,
  lookup, has_key, HasUniqueKeys, length, pos, parse_uint,
}
use hodu.Conns.{Conns, conn_ids, put_conn, is_full}

pub record IsValid (s : Conns) : Type 0 where
  pub unique : HasUniqueKeys s.cts_map
  pub keyed : (id ref : ℕ) → lookup id s.cts_map ≡ some ref → (s.cts ref).id ≡ id
  pub ranged : (id ref : ℕ) → lookup id s.cts_map ≡ some ref → (0 < id) × (id < conn_ids)
  pub old : (id ref : ℕ) → lookup id s.cts_map ≡ some ref → ref < s.next_ref
  pub addressed :
      (id ref : ℕ) → lookup id s.cts_map ≡ some ref → s.by_addr (s.cts ref).remote_addr ≡ some ref
  pub reached :
      (id ref : ℕ)
      → lookup id s.cts_map ≡ some ref
      → str_eq (s.cts ref).client_token "" ≡ false
      → s.by_token (s.cts ref).client_token ≡ some ref
  pub addrs :
      (addr ref : ℕ)
      → s.by_addr addr ≡ some ref
      → ((s.cts ref).remote_addr ≡ addr) × (lookup (s.cts ref).id s.cts_map ≡ some ref)
  pub tokens :
      (token : String) (ref : ℕ)
      → s.by_token token ≡ some ref
      → ((s.cts ref).client_token ≡ token)
        × (str_eq token "" ≡ false)
        × (parse_uint 64 token ≡ none)
        × (lookup (s.cts ref).id s.cts_map ≡ some ref)
  pub counted : s.conns ≡ length s.cts_map
  pub within : (n : ℕ) → s.cts_limit ≡ pos n → 0 < n → length s.cts_map ≤ n
  pub next_pos : 0 < s.cts_next_id
  pub next_lt : s.cts_next_id < conn_ids

pub lookup-none : (k : ℕ) (m : List (ℕ × ℕ)) → has_key k m ≡ false → lookup k m ≡ none
lookup-none k [] h = refl
lookup-none k ((j, a) ∷ m) h = ground (arith, lookup-none k m)

module _ (id addr : ℕ) (s : Conns) (v : IsValid s) (new_id : has_key id s.cts_map ≡ false)
    (id_pos : 0 < id) (id_lt : id < conn_ids) (new_addr : s.by_addr addr ≡ none)
    (room : is_full s.cts_limit (length s.cts_map) ≡ false) where
  pub put_conn-IsValid : IsValid (put_conn id addr s)
  unfolding put_conn
  put_conn-IsValid = record {
    unique = (new_id, v.unique);
    keyed = λ i r e. ground (arith, v.keyed i r, v.old i r);
    ranged = λ i r e. ground (arith, v.ranged i r);
    old = λ i r e. ground (arith, v.old i r);
    addressed = λ i r e. ground (arith, v.addressed i r, v.old i r);
    reached = λ i r e. elim (Bool-cases (r == s.next_ref)) [
      | inl new ↦ rw new (λ ne. ground arith)
      | inr other ↦ rw other (λ ne. ground (arith, v.reached i r, v.old i r))
    ];
    addrs = λ a r e. ground (arith, v.addrs a r, v.old (s.cts r).id r, lookup-none id s.cts_map);
    tokens = λ t r e. ground (arith, v.tokens t r, v.old (s.cts r).id r, lookup-none id s.cts_map);
    counted = ground arith;
    within = λ n e n0. ground (arith, v.within n);
    next_pos = v.next_pos;
    next_lt = v.next_lt;
  }
