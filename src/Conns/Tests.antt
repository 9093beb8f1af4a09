-- ===== src/Conns/Tests.antt =====
-- The theorems on the tables of client connections at concrete inputs.
use hodu.Prelude.{[], ◌∷◌, ◌≡◌, ◌↔◌, refl, false, some, pos, lookup, parse_uint}
use hodu.Prelude.Results.{ok, err}
use hodu.Conns.{
  Conn, Conns, add_conn, enter_conn, put_conn, put_desc, drop_conn, req_stop, stop_conn,
  remove_conn, remove_conn_by_addr, describe, non_existent, find_conn_by_id_str,
}
use hodu.IdPool.{assign_id, find_free, bump}
use hodu.Conns.Valid.{IsValid}
use hodu.Conns.Naming.{IsNameOf, find_conn_by_id_str-IsNameOf, describe-Stale}
use hodu.Conns.Targets.{resolve_targets}
use hodu.Conns.Targets.Resolved.{Resolved, resolve_targets-Resolved}
use hodu.Conns.Runs.{no_conns, Reaches, start, after, adds, describes, Reaches-IsValid}

abbrev blank : Conn
blank = record { id = 0; remote_addr = 0; client_token = ""; stop_req = false; stops = 0 }

-- Two connections at most; one comes from the address 70 and calls itself "web".
abbrev two_conns : Conns
two_conns = (describe 0 "web" (add_conn 70 (no_conns (pos 2) blank)).0).0

two_conns-Reaches : Reaches (no_conns (pos 2) blank) two_conns
unfolding add_conn enter_conn put_conn assign_id find_free bump no_conns
two_conns-Reaches = after (after start (adds 70)) (describes 0 "web" refl)

two_conns-IsValid : IsValid two_conns
two_conns-IsValid = Reaches-IsValid (pos 2) blank two_conns-Reaches

Reaches-IsValid_example : IsValid two_conns
Reaches-IsValid_example = Reaches-IsValid (pos 2) blank two_conns-Reaches

two_conns_here : lookup (two_conns.cts 0).id two_conns.cts_map ≡ some 0
unfolding add_conn enter_conn put_conn assign_id find_free bump no_conns describe put_desc
    parse_uint
two_conns_here = refl

find_conn_by_id_str-IsNameOf_example :
    (find_conn_by_id_str "web" two_conns ≡ ok 0) ↔ IsNameOf two_conns 0 "web"
find_conn_by_id_str-IsNameOf_example =
    find_conn_by_id_str-IsNameOf "web" 0 two_conns two_conns-IsValid two_conns_here

-- The connection has ended.
abbrev left : Conns
left = (remove_conn_by_addr 70 two_conns).0

describe-Stale_example :
    let s' = (describe 0 "db" left).0 in
    (find_conn_by_id_str "db" s' ≡ ok 0) × (remove_conn 0 s' ≡ (s', err non_existent))
unfolding add_conn enter_conn put_conn assign_id find_free bump no_conns describe put_desc
    parse_uint remove_conn_by_addr drop_conn req_stop stop_conn
describe-Stale_example = describe-Stale 0 "db" left refl refl refl refl refl

-- Of the three texts, one is blank and two find the same connection.
resolve_targets-Resolved_example :
    Resolved two_conns two_conns-IsValid
      (" web " ∷ " " ∷ "1" ∷ [])
      (resolve_targets (" web " ∷ " " ∷ "1" ∷ []) two_conns)
resolve_targets-Resolved_example =
    resolve_targets-Resolved " web " (" " ∷ "1" ∷ []) two_conns two_conns-IsValid
