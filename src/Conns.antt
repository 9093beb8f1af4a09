-- ===== src/Conns.antt =====
-- server.go: the server's tables of client connections (`Server.cts_map`, `cts_map_by_addr`,
-- `cts_map_by_token`), and the token that a client gives itself.
-- Pointers are numbers, under which the connections are stored; a network address is a number too,
-- since the code only compares it. The tables of one connection are in Route and Sessions.
pub mod Valid
pub mod Addition
pub mod Naming
pub mod Runs
pub mod Targets
pub mod Stopping
pub mod Removal
mod Tests
use Prim.Native.String.{String}
use text.Mathlib.Text.{◌==◌ as str_eq}
use hodu.Prelude.{
  ℕ, zero, suc, ◌+◌, ◌^◌, Bool, true, false, not, ◌&&◌, Option, none, some, List, [], ◌∷◌, ◌==◌,
  ltb, leb, if◌then◌else◌, update, ℤ, pos, negsuc, lookup, has_key, delete_key, length, parse_uint,
}
use hodu.Prelude.Results.{Result, ok, err}
use hodu.IdPool.{assign_id}

pub record Conn : Type 0 where
  pub id : ℕ
  pub remote_addr : ℕ
  pub client_token : String
  pub stop_req : Bool
  -- what waits in stop_chan
  pub stops : ℕ

pub record Conns : Type 0 where
  pub cts_limit : ℤ
  pub cts_next_id : ℕ
  pub cts_map : List (ℕ × ℕ)
  pub by_addr : ℕ → Option ℕ
  pub by_token : String → Option ℕ
  -- stats.conns
  pub conns : ℕ
  -- the connections, by pointer, and the next pointer
  pub cts : ℕ → Conn
  pub next_ref : ℕ

pub data ConnError : Type 0 where
  too_many no_id existing_addr non_existent : ConnError

abbrev pub conn_ids : ℕ
conn_ids = 2 ^ 64

-- `s.cts_limit > 0 && len(s.cts_map) >= s.cts_limit`
abbrev pub is_full : ℤ → ℕ → Bool
is_full (pos n) len = ltb 0 n && leb n len
is_full (negsuc n) len = false

abbrev pub is_some {ℓ} : {A : Type ℓ} → Option A → Bool
is_some none = false
is_some (some a) = true

abbrev pub put_token : String → Option ℕ → (String → Option ℕ) → String → Option ℕ
put_token t v m k = if str_eq k t then v else m k

-- `if token != "" { delete(s.cts_map_by_token, token) }`
abbrev pub drop_token : String → (String → Option ℕ) → String → Option ℕ
drop_token t m k = if str_eq t "" then m k else put_token t none m k

-- What an addition enters under an assigned id.
unfoldable pub put_conn : ℕ → ℕ → Conns → Conns
put_conn id addr s = record s {
  cts =
      update s.cts s.next_ref
        (record { id = id; remote_addr = addr; client_token = ""; stop_req = false; stops = 0 });
  by_addr = update s.by_addr addr (some s.next_ref);
  cts_map = (id, s.next_ref) ∷ s.cts_map;
  conns = length s.cts_map + 1;
  next_ref = s.next_ref + 1;
}

-- The rest of AddNewServerConn after the id loop, which may have failed.
unfoldable pub enter_conn : ℕ → Option ℕ × ℕ → Conns → Conns × Result ConnError ℕ
unfolding put_conn
enter_conn addr (none, next) s = (record s { cts_next_id = next }, err no_id)
enter_conn addr (some id, next) s =
    let t = record s { cts_next_id = next } in
    if is_some (t.by_addr addr) then (t, err existing_addr) else (put_conn id addr t, ok t.next_ref)

-- AddNewServerConn
unfoldable pub add_conn : ℕ → Conns → Conns × Result ConnError ℕ
unfolding enter_conn
add_conn addr s =
    if is_full s.cts_limit (length s.cts_map)
    then (s, err too_many)
    else enter_conn addr (assign_id conn_ids (λ k. has_key k s.cts_map) s.cts_next_id) s

-- ServerConn.ReqStop on the connection itself
unfoldable pub stop_conn : Conn → Conn
stop_conn c = if c.stop_req then c else record c { stop_req = true; stops = c.stops + 1 }

unfoldable pub req_stop : ℕ → Conns → Conns
unfolding stop_conn
req_stop ref s = record s { cts = update s.cts ref (stop_conn (s.cts ref)) }

-- What the removals do under the lock, given the new table of tokens.
unfoldable pub drop_conn : ℕ → (String → Option ℕ) → Conns → Conns
drop_conn ref by_token s =
    let c = s.cts ref in
    let m = delete_key c.id s.cts_map in
    record s {
      cts_map = m;
      by_addr = update s.by_addr c.remote_addr none;
      by_token = by_token;
      conns = length m;
    }

-- RemoveServerConn
unfoldable pub remove_conn : ℕ → Conns → Conns × Result ConnError ℕ
unfolding drop_conn req_stop
remove_conn ref s = elim (lookup (s.cts ref).id s.cts_map) [
  | none ↦ (s, err non_existent)
  | some conn ↦
      if conn == ref
      then (req_stop ref (drop_conn ref (drop_token (s.cts ref).client_token s.by_token) s), ok ref)
      else (s, err non_existent)
]

-- RemoveServerConnByAddr
unfoldable pub remove_conn_by_addr : ℕ → Conns → Conns × Result ConnError ℕ
unfolding drop_conn req_stop
remove_conn_by_addr addr s = elim (s.by_addr addr) [
  | none ↦ (s, err non_existent)
  | some ref ↦
      (req_stop ref (drop_conn ref (drop_token (s.cts ref).client_token s.by_token) s), ok ref)
]

-- RemoveServerConnByClientToken
unfoldable pub remove_conn_by_token : String → Conns → Conns × Result ConnError ℕ
unfolding drop_conn req_stop
remove_conn_by_token token s = elim (s.by_token token) [
  | none ↦ (s, err non_existent)
  | some ref ↦
      (req_stop ref (drop_conn ref (put_token (s.cts ref).client_token none s.by_token) s), ok ref)
]

-- snapshot_server_conns, in some order
abbrev pub refs_of : List (ℕ × ℕ) → List ℕ
refs_of [] = []
refs_of ((id, ref) ∷ m) = ref ∷ refs_of m

unfoldable pub req_stop_each : List ℕ → Conns → Conns
unfolding req_stop
req_stop_each [] s = s
req_stop_each (ref ∷ refs) s = req_stop_each refs (req_stop ref s)

-- ReqStopAllServerConns
unfoldable pub req_stop_all : Conns → Conns
unfolding req_stop_each
req_stop_all s = req_stop_each (refs_of s.cts_map) s

-- FindServerConnByIdStr
unfoldable pub find_conn_by_id_str : String → Conns → Result ConnError ℕ
find_conn_by_id_str conn_id s = elim (parse_uint 64 conn_id) [
  | none ↦ elim (s.by_token conn_id) [ none ↦ err non_existent | some ref ↦ ok ref ]
  | some id ↦ elim (lookup id s.cts_map) [ none ↦ err non_existent | some ref ↦ ok ref ]
]

-- What receive_from_stream does at a CONN_DESC packet besides the tables.
pub data Described : Type 0 where
  blank_token_refused numeric_token_refused duplicate_token_refused : Described
  token_unchanged token_set : Described

-- The entry of a token that passed the checks.
unfoldable pub put_desc : ℕ → String → Conns → Conns
put_desc ref token s = record s {
  by_token = put_token token (some ref) (drop_token (s.cts ref).client_token s.by_token);
  cts = update s.cts ref (record (s.cts ref) { client_token = token });
}

-- The case PACKET_KIND_CONN_DESC of receive_from_stream
unfoldable pub describe : ℕ → String → Conns → Conns × Described
unfolding req_stop put_desc
describe ref token s =
    if str_eq token ""
    then (req_stop ref s, blank_token_refused)
    else if str_eq token (s.cts ref).client_token
    then (s, token_unchanged)
    else if is_some (parse_uint 64 token)
    then (req_stop ref s, numeric_token_refused)
    else if is_some (s.by_token token)
    then (req_stop ref s, duplicate_token_refused)
    else (put_desc ref token s, token_set)

-- SendNotice: to whom a notice is sent, given whether a send to a connection succeeds.
pub data NoticeError : Type 0 where
  no_conn send_failed : NoticeError

unfoldable pub send_notice : String → (ℕ → Bool) → Conns → List ℕ × Result NoticeError Unit
unfolding find_conn_by_id_str
send_notice id_str sends s =
    if str_eq id_str "" then (refs_of s.cts_map, ok tt) else elim (find_conn_by_id_str id_str s) [
      | err e ↦ ([], err no_conn)
      | ok ref ↦ (ref ∷ [], if sends ref then ok tt else err send_failed)
    ]
