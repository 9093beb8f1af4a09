-- ===== src/Conns/Removal.antt =====
-- server.go: taking a client connection out of the tables, and asking it to stop.
use Prim.Native.String.{String}
use text.Mathlib.Text.{◌==◌ as str_eq}
use text.Mathlib.TextEquality.{eq_iff}
use hodu.Prelude.{
  ℕ, ◌+◌, ◌≡◌, ◌≢◌, inl, inr, refl, ap, ◌∙◌, true, false, Option, none, some, ◌==◌, if◌then◌else◌,
  List, [], ◌∷◌, arith, Bool-cases, Option-cases, lookup, has_key, lookup-delete_key,
  has_key-delete_key, length-delete_key, delete_key-HasUniqueKeys, delete_key_le,
}
use hodu.Prelude.Results.{Result, ok, err}
use hodu.Conns.{
  Conns, ConnError, stop_conn, req_stop, drop_conn, drop_token, remove_conn, remove_conn_by_addr,
  remove_conn_by_token, non_existent,
}
use hodu.Conns.Valid.{IsValid}
use hodu.Conns.Stopping.{req_stop-IsValid}

module _ (ref : ℕ) (by_token : String → Option ℕ) (s : Conns) (v : IsValid s)
    (here : lookup (s.cts ref).id s.cts_map ≡ some ref)
    (kept : (t : String) → str_eq t (s.cts ref).client_token ≡ false → by_token t ≡ s.by_token t)
    (gone : by_token (s.cts ref).client_token ≡ none) where
  drop_conn-IsValid : IsValid (drop_conn ref by_token s)
  unfolding drop_conn
  drop_conn-IsValid =
      let id = (s.cts ref).id in
      record {
        unique = delete_key-HasUniqueKeys id s.cts_map v.unique;
        keyed = λ i r e. ground (arith, lookup-delete_key i id s.cts_map, v.keyed i r);
        ranged = λ i r e. ground (arith, lookup-delete_key i id s.cts_map, v.ranged i r);
        old = λ i r e. ground (arith, lookup-delete_key i id s.cts_map, v.old i r);
        addressed = λ i r e. ground (
          arith,
          lookup-delete_key i id s.cts_map,
          v.addressed i r,
          v.addressed id ref here,
          v.keyed i r,
        );
        reached = λ i r e ne. ground (
          arith,
          lookup-delete_key i id s.cts_map,
          v.reached i r,
          v.reached id ref here,
          v.keyed i r,
          kept (s.cts r).client_token,
          eq_iff (s.cts r).client_token (s.cts ref).client_token,
        );
        addrs = λ a r e. ground (
          arith,
          lookup-delete_key (s.cts r).id id s.cts_map,
          v.addrs a r,
          v.addressed id ref here,
        );
        tokens = λ t r e. ground (
          arith,
          lookup-delete_key (s.cts r).id id s.cts_map,
          v.tokens t r,
          kept t,
          eq_iff t (s.cts ref).client_token,
          v.reached id ref here,
        );
        counted = refl;
        within = λ n e n0. ground (arith, v.within n, delete_key_le id s.cts_map);
        next_pos = v.next_pos;
        next_lt = v.next_lt;
      }

lookup-has_key : (k : ℕ) {a : ℕ} (m : List (ℕ × ℕ)) → lookup k m ≡ some a → has_key k m ≡ true
lookup-has_key k [] h = ground arith
lookup-has_key k {a} ((j, b) ∷ m) h = ground (arith, lookup-has_key k {a = a} m)

drop_token-gone :
    (token : String) (m : String → Option ℕ) → m "" ≡ none → drop_token token m token ≡ none
drop_token-gone token m h = ground (arith, eq_iff token "", eq_iff token token)

-- What a removal is to do with the connection `ref` that it found: the tables lead to it no more,
-- and it is asked to stop; the other connections are as they were.
pub record Removed (ref : ℕ) (s s' : Conns) : Type 0 where
  pub valid : IsValid s'
  pub no_id : has_key (s.cts ref).id s'.cts_map ≡ false
  pub no_addr : s'.by_addr (s.cts ref).remote_addr ≡ none
  pub no_token : s'.by_token (s.cts ref).client_token ≡ none
  pub one_less : s'.conns + 1 ≡ s.conns
  pub stopped : (s'.cts ref).stop_req ≡ true
  pub others : (id r : ℕ) → lookup id s.cts_map ≡ some r → r ≢ ref → lookup id s'.cts_map ≡ some r
  pub as_before : (r : ℕ) → r ≢ ref → s'.cts r ≡ s.cts r

module _ (ref : ℕ) (by_token : String → Option ℕ) (s : Conns) (v : IsValid s)
    (here : lookup (s.cts ref).id s.cts_map ≡ some ref)
    (kept : (t : String) → str_eq t (s.cts ref).client_token ≡ false → by_token t ≡ s.by_token t)
    (gone : by_token (s.cts ref).client_token ≡ none) where
  drop_conn-Removed : Removed ref s (req_stop ref (drop_conn ref by_token s))
  unfolding drop_conn req_stop stop_conn
  drop_conn-Removed = record {
    valid = req_stop-IsValid ref _ (drop_conn-IsValid ref by_token s v here kept gone);
    no_id = ground (arith, has_key-delete_key (s.cts ref).id (s.cts ref).id s.cts_map);
    no_addr = ground arith;
    no_token = gone;
    one_less = ground (
      arith,
      length-delete_key (s.cts ref).id s.cts_map v.unique
          (lookup-has_key (s.cts ref).id s.cts_map here),
    );
    stopped = ground arith;
    others = λ i r e ne. ground (arith, lookup-delete_key i (s.cts ref).id s.cts_map, v.keyed i r);
    as_before = λ r ne. ground arith;
  }

-- What a removal is to give, by the connection that it is to find.
abbrev pub Outcome : Option ℕ → Conns → Conns × Result ConnError ℕ → Type 0
Outcome none s (s', r) = (s' ≡ s) × (r ≡ err non_existent)
Outcome (some ref) s (s', r) = (r ≡ ok ref) × Removed ref s s'

-- The connection itself, if the table of ids has it.
abbrev pub entered : ℕ → Conns → Option ℕ
entered ref s = elim (lookup (s.cts ref).id s.cts_map) [
  | none ↦ none
  | some conn ↦ if conn == ref then some ref else none
]

module _ (s : Conns) (v : IsValid s) where
  pub no_blank : s.by_token "" ≡ none
  no_blank = elim (Option-cases (s.by_token "")) [
    | inl e ↦ e
    | inr (r, e) ↦ absurd (ground (arith, v.tokens "" r e))
  ]

  -- With its own entry of the table of tokens dropped.
  left-Removed :
      (ref : ℕ)
      → lookup (s.cts ref).id s.cts_map ≡ some ref
      → Removed ref s
          (req_stop ref (drop_conn ref (drop_token (s.cts ref).client_token s.by_token) s))
  left-Removed ref here =
      drop_conn-Removed ref _ s v here (λ t ne. ground arith)
        (drop_token-gone (s.cts ref).client_token s.by_token no_blank)

  remove_conn-Outcome : (ref : ℕ) → Outcome (entered ref s) s (remove_conn ref s)
  unfolding remove_conn
  remove_conn-Outcome ref = elim (Option-cases (lookup (s.cts ref).id s.cts_map)) [
    | inl e ↦ rw (Outcome, remove_conn, e) (refl, refl)
    | inr (conn, e) ↦ elim (Bool-cases (conn == ref)) [
      | inl this ↦
          rw (Outcome, remove_conn, e, this) (refl, left-Removed ref (e ∙ ap some (ground arith)))
      | inr other ↦ rw (Outcome, remove_conn, e, other) (refl, refl)
    ]
  ]

  remove_conn_by_addr-Outcome : (addr : ℕ) → Outcome (s.by_addr addr) s (remove_conn_by_addr addr s)
  unfolding remove_conn_by_addr
  remove_conn_by_addr-Outcome addr = elim (Option-cases (s.by_addr addr)) [
    | inl e ↦ rw (Outcome, remove_conn_by_addr, e) (refl, refl)
    | inr (ref, e) ↦
        rw (Outcome, remove_conn_by_addr, e) (refl, left-Removed ref (v.addrs addr ref e).1)
  ]

  remove_conn_by_token-Outcome :
      (token : String) → Outcome (s.by_token token) s (remove_conn_by_token token s)
  unfolding remove_conn_by_token
  remove_conn_by_token-Outcome token = elim (Option-cases (s.by_token token)) [
    | inl e ↦ rw (Outcome, remove_conn_by_token, e) (refl, refl)
    | inr (ref, e) ↦
        rw (Outcome, remove_conn_by_token, e)
          (
            refl,
            drop_conn-Removed ref _ s v (v.tokens token ref e).3 (λ t ne. ground arith)
                (ground (arith, eq_iff (s.cts ref).client_token (s.cts ref).client_token)),
          )
  ]

-- RemoveServerConn, RemoveServerConnByAddr and RemoveServerConnByClientToken on valid tables: each
-- fails and changes nothing if the table of ids does not have this very connection, no connection
-- has the address, or none has the token; otherwise the connection leaves all three tables, the
-- count goes down by one, it is asked to stop, and the other connections stay as they were and under their ids. The
-- tables stay valid.
pub removals-Outcome :
    (s : Conns)
    → IsValid s
    → ((ref : ℕ) → Outcome (entered ref s) s (remove_conn ref s))
      × ((addr : ℕ) → Outcome (s.by_addr addr) s (remove_conn_by_addr addr s))
      × ((token : String) → Outcome (s.by_token token) s (remove_conn_by_token token s))
removals-Outcome s v =
    (remove_conn-Outcome s v, remove_conn_by_addr-Outcome s v, remove_conn_by_token-Outcome s v)
