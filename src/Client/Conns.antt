-- ===== src/Client/Conns.antt =====
-- client.go: the client's table of connections to servers (`Client.cts_map`).
-- Pointers are numbers, under which the connections are stored.
pub mod Kept
mod Tests
use Prim.Native.String.{String}
use hodu.Prelude.{
  ℕ, ◌+◌, ◌^◌, Bool, true, false, List, [], ◌∷◌, Option, none, some, ◌==◌, if◌then◌else◌, update, ℤ,
  lookup, has_key, delete_key, length, parse_uint,
}
use hodu.Prelude.Results.{Result, ok, err}
use hodu.IdPool.{assign_id}
use hodu.Conns.{is_full}

-- ClientConn; `stops` is what waits in stop_chan.
pub record ServerLink : Type 0 where
  pub id : ℕ
  pub server_addrs : List String
  pub stop_req : Bool
  pub stops : ℕ

pub record ClientConns : Type 0 where
  pub cts_limit : ℤ
  pub cts_next_id : ℕ
  pub cts_map : List (ℕ × ℕ)
  pub cts : ℕ → ServerLink
  pub next_ref : ℕ
  -- stats.conns
  pub conns : ℕ

pub data LinkError : Type 0 where
  no_server_addr too_many_links non_existent_link conflicting_link : LinkError

-- How AddNewClientConn ends: with a connection, with an error, or not, since it locks the mutex that
-- it holds.
pub data LinkAdded : Type 0 where
  link_added : ℕ → LinkAdded
  link_failed : LinkError → LinkAdded
  deadlock : LinkAdded

abbrev pub link_ids : ℕ
link_ids = 2 ^ 64

unfoldable pub put_link : ℕ → List String → ClientConns → ClientConns
put_link id addrs s = record s {
  cts =
      update s.cts s.next_ref
        (record { id = id; server_addrs = addrs; stop_req = false; stops = 0 });
  cts_map = (id, s.next_ref) ∷ s.cts_map;
  next_ref = s.next_ref + 1;
  conns = s.conns + 1;
}

-- The rest of AddNewClientConn after the id loop.
unfoldable pub enter_link : List String → Option ℕ × ℕ → ClientConns → ClientConns × LinkAdded
unfolding put_link
enter_link addrs (none, next) s = (record s { cts_next_id = next }, deadlock)
enter_link addrs (some id, next) s =
    (put_link id addrs (record s { cts_next_id = next }), link_added s.next_ref)

abbrev pub is_empty {ℓ} : {A : Type ℓ} → List A → Bool
is_empty [] = true
is_empty (a ∷ l) = false

-- AddNewClientConn
unfoldable pub add_client_conn : List String → ClientConns → ClientConns × LinkAdded
unfolding enter_link
add_client_conn addrs s =
    if is_empty addrs
    then (s, link_failed no_server_addr)
    else if is_full s.cts_limit (length s.cts_map)
    then (s, link_failed too_many_links)
    else enter_link addrs (assign_id link_ids (λ k. has_key k s.cts_map) s.cts_next_id) s

-- ClientConn.ReqStop on the connection itself
abbrev pub stop_link : ServerLink → ServerLink
stop_link c = record c { stop_req = true; stops = if c.stop_req then c.stops else c.stops + 1 }

unfoldable pub req_stop_link : ℕ → ClientConns → ClientConns
req_stop_link ref s = record s { cts = update s.cts ref (stop_link (s.cts ref)) }

unfoldable pub drop_link : ℕ → ClientConns → ClientConns
unfolding req_stop_link
drop_link ref s =
    let m = delete_key (s.cts ref).id s.cts_map in
    req_stop_link ref (record s { cts_map = m; conns = length m })

-- RemoveClientConn
unfoldable pub remove_client_conn : ℕ → ClientConns → ClientConns × Result LinkError Unit
unfolding drop_link
remove_client_conn ref s = elim (lookup (s.cts ref).id s.cts_map) [
  | none ↦ (s, err non_existent_link)
  | some conn ↦ if conn == ref then (drop_link ref s, ok tt) else (s, err conflicting_link)
]

-- RemoveClientConnById
unfoldable pub remove_client_conn_by_id : ℕ → ClientConns → ClientConns × Result LinkError Unit
unfolding drop_link
remove_client_conn_by_id id s = elim (lookup id s.cts_map) [
  | none ↦ (s, err non_existent_link)
  | some conn ↦ (drop_link conn s, ok tt)
]

-- ReqStopAllClientConns
unfoldable pub req_stop_links : List (ℕ × ℕ) → ClientConns → ClientConns
unfolding req_stop_link
req_stop_links [] s = s
req_stop_links ((id, ref) ∷ m) s = req_stop_links m (req_stop_link ref s)

unfoldable pub req_stop_all_links : ClientConns → ClientConns
unfolding req_stop_links
req_stop_all_links s = req_stop_links s.cts_map s

-- One call
pub data LinkCall : Type 0 where
  add_call : List String → LinkCall
  remove_call remove_by_id_call stop_call : ℕ → LinkCall
  stop_all_call : LinkCall

unfoldable pub link_step : LinkCall → ClientConns → ClientConns
link_step (add_call addrs) s = (add_client_conn addrs s).0
link_step (remove_call ref) s = (remove_client_conn ref s).0
link_step (remove_by_id_call id) s = (remove_client_conn_by_id id s).0
link_step (stop_call ref) s = req_stop_link ref s
link_step stop_all_call s = req_stop_all_links s

unfoldable pub link_steps : List LinkCall → ClientConns → ClientConns
unfolding link_step
link_steps [] s = s
link_steps (c ∷ cs) s = link_steps cs (link_step c s)
