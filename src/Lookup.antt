-- ===== src/Lookup.antt =====
-- server.go: how a text in a request leads to a route or a peer (`FindServerRouteByIdStr`,
-- `FindServerPeerConnByIdStr`), over the tables of Conns and Route.
pub mod Names
mod Tests
use Prim.Native.String.{String}
use text.Mathlib.Text.{◌==◌ as str_eq}
use hodu.Prelude.{ℕ, Option, none, some, List, if◌then◌else◌, lookup, parse_uint}
use hodu.Prelude.Options.{◌>>=◌}
use hodu.Prelude.Results.{Result, ok, err}
use hodu.Conns.{Conns}
use hodu.Route.Routes.{Route, Routes, ConnRouteId}

-- The tables of routes are given by the pointer of the connection, and the tables of peers by that of
-- the route; the table of ports is the server's own.
pub record Server : Type 0 where
  pub conns : Conns
  pub tables : ℕ → Routes
  pub svc_port_map : ℕ → Option ConnRouteId
  pub peers : ℕ → List (ℕ × ℕ)

-- A route, with the connection in its field Cts.
pub record Found : Type 0 where
  pub cts : ℕ
  pub route : Route

abbrev found : ℕ → Option Route → Option Found
found cts none = none
found cts (some r) = some (record { cts = cts; route = r })

-- FindServerRouteById of the server, over that of the connection, and the others like it
unfoldable pub find_route_by_id : ℕ → ℕ → Server → Option Found
find_route_by_id id route_id s =
    lookup id s.conns.cts_map >>= λ cts. found cts ((s.tables cts).route_map route_id)

unfoldable pub find_route_by_id_and_ptc_name : ℕ → String → Server → Option Found
find_route_by_id_and_ptc_name id ptc_name s =
    lookup id s.conns.cts_map >>= λ cts. found cts ((s.tables cts).by_ptc_name ptc_name)

unfoldable pub find_route_by_token_and_route_id : String → ℕ → Server → Option Found
find_route_by_token_and_route_id token route_id s =
    s.conns.by_token token >>= λ cts. found cts ((s.tables cts).route_map route_id)

unfoldable pub find_route_by_token_and_ptc_name : String → String → Server → Option Found
find_route_by_token_and_ptc_name token ptc_name s =
    s.conns.by_token token >>= λ cts. found cts ((s.tables cts).by_ptc_name ptc_name)

-- FindServerRouteByPortId
unfoldable pub find_route_by_port_id : ℕ → Server → Option Found
unfolding find_route_by_id
find_route_by_port_id port_id s =
    s.svc_port_map port_id >>= λ cri. find_route_by_id cri.conn_id cri.route_id s

-- FindServerPeerConnById and FindServerPeerConnByPortId
unfoldable pub find_peer_by_id : ℕ → ℕ → ℕ → Server → Option ℕ
unfolding find_route_by_id
find_peer_by_id id route_id peer_id s =
    find_route_by_id id route_id s >>= λ f. lookup peer_id (s.peers f.route.ref)

unfoldable pub find_peer_by_port_id : ℕ → ℕ → Server → Option ℕ
unfolding find_peer_by_id
find_peer_by_port_id port_id peer_id s =
    s.svc_port_map port_id >>= λ cri. find_peer_by_id cri.conn_id cri.route_id peer_id s

pub data LookupError : Type 0 where
  invalid_id not_found : LookupError

abbrev pub or_not_found : {A : Type 0} → Option A → Result LookupError A
or_not_found none = err not_found
or_not_found (some a) = ok a

abbrev pub port_id_marker : String
port_id_marker = "_"

-- FindServerRouteByIdStr, after the test for the marker
unfoldable pub find_route_by_names : Option ℕ → Option ℕ → String → String → Server → Option Found
unfolding find_route_by_id find_route_by_id_and_ptc_name find_route_by_token_and_route_id
    find_route_by_token_and_ptc_name
find_route_by_names (some id) (some route_id) conn route s = find_route_by_id id route_id s
find_route_by_names none (some route_id) conn route s =
    find_route_by_token_and_route_id conn route_id s
find_route_by_names (some id) none conn route s = find_route_by_id_and_ptc_name id route s
find_route_by_names none none conn route s = find_route_by_token_and_ptc_name conn route s

-- FindServerRouteByIdStr
unfoldable pub find_route_by_id_str : String → String → Server → Result LookupError Found
unfolding find_route_by_port_id find_route_by_names
find_route_by_id_str conn_id route_id s =
    if str_eq route_id port_id_marker
    then elim (parse_uint 16 conn_id) [
      | none ↦ err invalid_id
      | some port_id ↦ or_not_found (find_route_by_port_id port_id s)
    ]
    else or_not_found
        (find_route_by_names (parse_uint 64 conn_id) (parse_uint 32 route_id) conn_id route_id s)

-- `if err != nil { return nil, ... }` after a ParseUint
abbrev pub if_parsed : {A : Type 0} → Option ℕ → (ℕ → Result LookupError A) → Result LookupError A
if_parsed none f = err invalid_id
if_parsed (some n) f = f n

-- FindServerPeerConnByIdStr
unfoldable pub find_peer_by_id_str : String → String → String → Server → Result LookupError ℕ
unfolding find_peer_by_id find_peer_by_port_id
find_peer_by_id_str conn_id route_id peer_id s =
    if str_eq route_id port_id_marker
    then if_parsed (parse_uint 16 conn_id) (λ port_nid.
      if_parsed (parse_uint 32 peer_id)
        (λ peer_nid. or_not_found (find_peer_by_port_id port_nid peer_nid s)))
    else if_parsed (parse_uint 64 conn_id) (λ conn_nid.
      if_parsed (parse_uint 32 route_id) (λ route_nid.
        if_parsed (parse_uint 32 peer_id)
          (λ peer_nid. or_not_found (find_peer_by_id conn_nid route_nid peer_nid s))))
