-- ===== src/Conns/Runs.antt =====
-- server.go: what happens to the tables of client connections while the server runs.
use Prim.Native.String.{String}
use hodu.Prelude.{ℕ, ◌≡◌, subst, sym, refl, sym, subst, Option, none, some, [], arith, lookup, ℤ}
use hodu.Prelude.Results.{ok, err}
use hodu.Conns.{
  Conn, Conns, add_conn, req_stop, refs_of, remove_conn, remove_conn_by_addr, remove_conn_by_token,
  req_stop_all, describe, Described, too_many, no_id, existing_addr, non_existent,
  blank_token_refused, numeric_token_refused, duplicate_token_refused, token_unchanged, token_set,
}
use hodu.Conns.Valid.{IsValid}
use hodu.Conns.Addition.{add_conn-AddResult, AddResult}
use hodu.Conns.Naming.{describe-DescribeResult, DescribeResult}
use hodu.Conns.Stopping.{req_stop-IsValid, req_stop_each-IsValid}
use hodu.Conns.Removal.{Outcome, removals-Outcome}

-- NewServer
unfoldable pub no_conns : ℤ → Conn → Conns
no_conns cts_limit blank = record {
  cts_limit = cts_limit;
  cts_next_id = 1;
  cts_map = [];
  by_addr = λ a. none;
  by_token = λ t. none;
  conns = 0;
  cts = λ r. blank;
  next_ref = 0;
}

-- One call, and a packet is of a connection that is in the tables.
pub data Step : Conns → Conns → Type 0 where
  adds : {s : Conns} (addr : ℕ) → Step s (add_conn addr s).0
  removes : {s : Conns} (ref : ℕ) → Step s (remove_conn ref s).0
  removes_by_addr : {s : Conns} (addr : ℕ) → Step s (remove_conn_by_addr addr s).0
  removes_by_token : {s : Conns} (token : String) → Step s (remove_conn_by_token token s).0
  stops : {s : Conns} (ref : ℕ) → Step s (req_stop ref s)
  stops_all : {s : Conns} → Step s (req_stop_all s)
  describes :
      {s : Conns} (ref : ℕ) (token : String)
      → lookup (s.cts ref).id s.cts_map ≡ some ref
      → Step s (describe ref token s).0

pub data Reaches (s : Conns) : Conns → Type 0 where
  start : Reaches s s
  after : {t u : Conns} → Reaches s t → Step t u → Reaches s u

AddResult→IsValid :
    (addr : ℕ) (s : Conns) → IsValid s → (r : Conns × _) → AddResult addr s r → IsValid r.0
AddResult→IsValid addr s v (s', ok ref) r = r.valid
AddResult→IsValid addr s v (s', err too_many) r = subst IsValid (sym r.0) v
AddResult→IsValid addr s v (s', err no_id) r = r.0
AddResult→IsValid addr s v (s', err existing_addr) r = r.0
AddResult→IsValid addr s v (s', err non_existent) r = absurd r

Outcome→IsValid :
    (found : Option ℕ) (s : Conns) → IsValid s → (r : Conns × _) → Outcome found s r → IsValid r.0
Outcome→IsValid none s v r o = subst IsValid (sym o.0) v
Outcome→IsValid (some ref) s v r o = o.1.valid

DescribeResult→IsValid :
    (ref : ℕ) (token : String) (s : Conns) (r : Conns × Described)
    → DescribeResult ref token s r
    → IsValid r.0
DescribeResult→IsValid ref token s (s', blank_token_refused) r = r.0
DescribeResult→IsValid ref token s (s', numeric_token_refused) r = r.0
DescribeResult→IsValid ref token s (s', duplicate_token_refused) r = r.0
DescribeResult→IsValid ref token s (s', token_unchanged) r = r.0
DescribeResult→IsValid ref token s (s', token_set) r = r.0

Step-IsValid : {s t : Conns} → Step s t → IsValid s → IsValid t
unfolding req_stop_all
Step-IsValid {s = s} (adds addr) v = AddResult→IsValid addr s v _ (add_conn-AddResult addr s v)
Step-IsValid {s = s} (removes ref) v = Outcome→IsValid _ s v _ ((removals-Outcome s v).0 ref)
Step-IsValid {s = s} (removes_by_addr addr) v =
    Outcome→IsValid _ s v _ ((removals-Outcome s v).1 addr)
Step-IsValid {s = s} (removes_by_token token) v =
    Outcome→IsValid _ s v _ ((removals-Outcome s v).2 token)
Step-IsValid {s = s} (stops ref) v = req_stop-IsValid ref s v
Step-IsValid {s = s} stops_all v = req_stop_each-IsValid (refs_of s.cts_map) s v
Step-IsValid {s = s} (describes ref token here) v =
    DescribeResult→IsValid ref token s _ (describe-DescribeResult ref token s v here)

-- Whatever sequence of additions, removals, stop requests and token packets happens to a new server,
-- where a token packet is of a connection that is in the table, its tables of connections agree.
pub Reaches-IsValid :
    (cts_limit : ℤ) (blank : Conn) {s : Conns} → Reaches (no_conns cts_limit blank) s → IsValid s
unfolding no_conns
Reaches-IsValid cts_limit blank start = record {
  unique = tt;
  keyed = λ i r e. absurd (ground arith);
  ranged = λ i r e. absurd (ground arith);
  old = λ i r e. absurd (ground arith);
  addressed = λ i r e. absurd (ground arith);
  reached = λ i r e ne. absurd (ground arith);
  addrs = λ a r e. absurd (ground arith);
  tokens = λ t r e. absurd (ground arith);
  counted = refl;
  within = λ n e n0. ground arith;
  next_pos = omega arith;
  next_lt = omega arith;
}
Reaches-IsValid cts_limit blank (after h step) =
    Step-IsValid step (Reaches-IsValid cts_limit blank h)
