-- ===== src/Conns/Naming.antt =====
-- server.go: finding a client connection by a text, and the token that a client gives itself.
use Prim.Native.String.{String}
use text.Mathlib.Text.{◌==◌ as str_eq}
use text.Mathlib.TextEquality.{eq_iff}
use hodu.Prelude.{
  ℕ, ◌≡◌, ◌≢◌, ◌⊎◌, ◌↔◌, inl, inr, refl, ap, true, false, none, some, arith, ◌==◌, Bool-cases,
  Option-cases, lookup, parse_uint,
}
use hodu.Prelude.Results.{ok, err}
use hodu.Conns.{
  Conns, is_some, req_stop, put_desc, describe, find_conn_by_id_str, Described, blank_token_refused,
  numeric_token_refused, duplicate_token_refused, token_unchanged, token_set, remove_conn,
  non_existent,
}
use hodu.Conns.Valid.{IsValid}
use hodu.Conns.Stopping.{req_stop-IsValid}
use hodu.Conns.Removal.{no_blank}

-- The text is the connection's number, or the token that it has.
abbrev pub IsNameOf : Conns → ℕ → String → Type 0
IsNameOf s ref name =
    (parse_uint 64 name ≡ some (s.cts ref).id)
    ⊎ ((str_eq name "" ≡ false) × ((s.cts ref).client_token ≡ name))

-- In valid tables, a text finds a connection of the table exactly if it is the connection's number or its token, which is
-- not blank: no token reads as the number of another connection.
pub find_conn_by_id_str-IsNameOf :
    (name : String) (ref : ℕ) (s : Conns)
    → IsValid s
    → lookup (s.cts ref).id s.cts_map ≡ some ref
    → (find_conn_by_id_str name s ≡ ok ref) ↔ IsNameOf s ref name
unfolding find_conn_by_id_str
find_conn_by_id_str-IsNameOf name ref s v here = elim (Option-cases (parse_uint 64 name)) [
  | inl e ↦ rw e (ground (arith, v.tokens name ref, v.reached (s.cts ref).id ref here))
  | inr (id, e) ↦
      rw e (ground (arith, v.keyed id ref, v.tokens name ref, v.reached (s.cts ref).id ref here))
]

abbrev pub DescribeResult : ℕ → String → Conns → Conns × Described → Type 0
DescribeResult ref token s (s', blank_token_refused) =
    IsValid s' × (str_eq token "" ≡ true) × (s' ≡ req_stop ref s)
DescribeResult ref token s (s', token_unchanged) =
    IsValid s' × ((s.cts ref).client_token ≡ token) × (s' ≡ s)
DescribeResult ref token s (s', numeric_token_refused) =
    IsValid s' × (is_some (parse_uint 64 token) ≡ true) × (s' ≡ req_stop ref s)
DescribeResult ref token s (s', duplicate_token_refused) =
    IsValid s'
    × ((other : ℕ) × (s.by_token token ≡ some other) × (other ≢ ref))
    × (s' ≡ req_stop ref s)
DescribeResult ref token s (s', token_set) =
    IsValid s'
    × (find_conn_by_id_str token s' ≡ ok ref)
    × ((s'.cts ref).client_token ≡ token)
    × (s.by_token token ≡ none)
    × (s'.by_token (s.cts ref).client_token ≡ none)
    × ((t : String) → t ≢ token → t ≢ (s.cts ref).client_token → s'.by_token t ≡ s.by_token t)

put_desc-Named :
    (ref : ℕ) (token : String) (s : Conns)
    → parse_uint 64 token ≡ none
    → find_conn_by_id_str token (put_desc ref token s) ≡ ok ref
unfolding put_desc find_conn_by_id_str
put_desc-Named ref token s not_numeric =
    rw (find_conn_by_id_str, not_numeric) (ground (arith, eq_iff token token))

module _ (ref : ℕ) (token : String) (s : Conns) (v : IsValid s)
    (here : lookup (s.cts ref).id s.cts_map ≡ some ref) (not_blank : str_eq token "" ≡ false)
    (changed : str_eq token (s.cts ref).client_token ≡ false)
    (not_numeric : parse_uint 64 token ≡ none) (free : s.by_token token ≡ none) where
  put_desc-IsValid : IsValid (put_desc ref token s)
  unfolding put_desc
  put_desc-IsValid = record {
    unique = v.unique;
    keyed = λ i r e. ground (arith, v.keyed i r);
    ranged = v.ranged;
    old = v.old;
    addressed = λ i r e. ground (arith, v.addressed i r);
    reached = λ i r e. elim (Bool-cases (r == ref)) [
      | inl this ↦ rw this (λ ne. ground (arith, eq_iff token token))
      | inr other ↦ rw other (λ ne. ground (
        arith,
        v.reached i r,
        v.reached (s.cts ref).id ref here,
        eq_iff (s.cts r).client_token token,
        eq_iff (s.cts r).client_token (s.cts ref).client_token,
      ))
    ];
    addrs = λ a r e. ground (arith, v.addrs a r);
    tokens = λ t r e. elim (Bool-cases (r == ref)) [
      | inl this ↦
          rw this (ground (arith, v.tokens t r, eq_iff t token, eq_iff t (s.cts ref).client_token))
      | inr other ↦
          rw other (ground (arith, v.tokens t r, eq_iff t token, eq_iff t (s.cts ref).client_token))
    ];
    counted = v.counted;
    within = v.within;
    next_pos = v.next_pos;
    next_lt = v.next_lt;
  }

  put_desc-DescribeResult : DescribeResult ref token s (put_desc ref token s, token_set)
  unfolding put_desc
  put_desc-DescribeResult = (
    put_desc-IsValid,
    put_desc-Named ref token s not_numeric,
    ground arith,
    free,
    ground (
      arith,
      eq_iff (s.cts ref).client_token (s.cts ref).client_token,
      eq_iff token (s.cts ref).client_token,
      eq_iff (s.cts ref).client_token token,
      no_blank s v,
      eq_iff (s.cts ref).client_token "",
    ),
    λ t nt no. ground (arith, eq_iff t token, eq_iff t (s.cts ref).client_token),
  )

-- A CONN_DESC packet for a connection of valid tables: a blank, a numeric and another connection's
-- token are refused with a request to stop the connection, and the tables stay as they were; the
-- token that it has changes nothing; any other token then finds this connection, its old token
-- finds nothing, and the other tokens find what they found. The tables stay valid.
pub describe-DescribeResult :
    (ref : ℕ) (token : String) (s : Conns)
    → IsValid s
    → lookup (s.cts ref).id s.cts_map ≡ some ref
    → DescribeResult ref token s (describe ref token s)
unfolding describe
describe-DescribeResult ref token s v here = elim (Bool-cases (str_eq token "")) [
  | inl blank ↦ rw (describe, blank) (req_stop-IsValid ref s v, blank, refl)
  | inr not_blank ↦ elim (Bool-cases (str_eq token (s.cts ref).client_token)) [
    | inl same ↦
        rw (describe, not_blank, same)
          (v, ground (arith, eq_iff token (s.cts ref).client_token), refl)
    | inr changed ↦ elim (Option-cases (parse_uint 64 token)) [
      | inr (n, e) ↦
          rw (describe, not_blank, changed, e) (req_stop-IsValid ref s v, ap is_some e, refl)
      | inl not_numeric ↦ elim (Option-cases (s.by_token token)) [
        | inr (other, e) ↦
            rw (describe, not_blank, changed, not_numeric, e)
              (
                req_stop-IsValid ref s v,
                (
                  other,
                  e,
                  ground (arith, v.tokens token other e, eq_iff token (s.cts ref).client_token),
                ),
                refl,
              )
        | inl free ↦
            rw (describe, not_blank, changed, not_numeric, free)
              (put_desc-DescribeResult ref token s v here not_blank changed not_numeric free)
      ]
    ]
  ]
]

-- A CONN_DESC packet that is handled for a connection that has left the table of ids, with a token
-- that passes the checks: the token then finds that connection, and removing the connection fails
-- and leaves the token.
pub describe-Stale :
    (ref : ℕ) (token : String) (s : Conns)
    → lookup (s.cts ref).id s.cts_map ≡ none
    → str_eq token "" ≡ false
    → str_eq token (s.cts ref).client_token ≡ false
    → parse_uint 64 token ≡ none
    → s.by_token token ≡ none
    → let s' = (describe ref token s).0 in
      (find_conn_by_id_str token s' ≡ ok ref) × (remove_conn ref s' ≡ (s', err non_existent))
unfolding describe put_desc remove_conn
describe-Stale ref token s gone not_blank changed not_numeric free =
    rw (describe, not_blank, changed, not_numeric, free)
      (put_desc-Named ref token s not_numeric, ground (arith, gone))
