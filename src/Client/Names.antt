-- ===== src/Client/Names.antt =====
-- client.go: how texts in a request lead to a connection, a route or a peer of the client.
pub mod Numbers
use Prim.Native.String.{String}
use hodu.Prelude.{ℕ, List, Option, none, some, lookup, parse_uint}
use hodu.Prelude.Options.{◌>>=◌}
use hodu.Prelude.Results.{Result, ok, err}
use hodu.Client.Conns.{ClientConns}
use hodu.Client.Routes.{
  ClientRoutes, PortSearch, found, not_found, panics, find_client_route_by_port,
}
use hodu.Lookup.{LookupError, invalid_id, not_found as not_there, or_not_found, if_parsed}

-- The tables of routes are given by the pointer of the connection, and the tables of peers by that of
-- the route.
pub record ClientTables : Type 0 where
  pub conns : ClientConns
  pub routes : ℕ → ClientRoutes
  pub peers : ℕ → List (ℕ × ℕ)

-- FindClientRouteById, and FindClientPeerConnById
unfoldable pub find_client_route_by_id : ℕ → ℕ → ClientTables → Option ℕ
find_client_route_by_id conn_id route_id s =
    lookup conn_id s.conns.cts_map >>= λ cts. lookup route_id (s.routes cts).route_map

unfoldable pub find_client_peer_by_id : ℕ → ℕ → ℕ → ClientTables → Option ℕ
find_client_peer_by_id conn_id route_id peer_id s = lookup conn_id s.conns.cts_map >>= λ cts.
    lookup route_id (s.routes cts).route_map >>= λ r. lookup peer_id (s.peers r)

-- FindClientRouteByServerPeerSvcPortId of the client
unfoldable pub find_client_route_on_port : ℕ → ℕ → ClientTables → PortSearch
find_client_route_on_port conn_id port_id s = elim (lookup conn_id s.conns.cts_map) [
  | none ↦ not_found
  | some cts ↦ find_client_route_by_port port_id (s.routes cts)
]

-- FindClientConnByIdStr
unfoldable pub find_client_conn_by_id_str : String → ClientTables → Result LookupError ℕ
find_client_conn_by_id_str conn_id s =
    if_parsed (parse_uint 64 conn_id) (λ conn_nid. or_not_found (lookup conn_nid s.conns.cts_map))

-- FindClientRouteByIdStr
unfoldable pub find_client_route_by_id_str : String → String → ClientTables → Result LookupError ℕ
unfolding find_client_route_by_id
find_client_route_by_id_str conn_id route_id s = if_parsed (parse_uint 64 conn_id) (λ conn_nid.
    if_parsed (parse_uint 32 route_id)
      (λ route_nid. or_not_found (find_client_route_by_id conn_nid route_nid s)))

abbrev pub or_port_error : PortSearch → Option (Result LookupError ℕ)
or_port_error (found ref) = some (ok ref)
or_port_error not_found = some (err not_there)
or_port_error panics = none

-- FindClientRouteByServerPeerSvcPortIdStr; none if it panics
unfoldable pub find_client_route_on_port_str :
    String → String → ClientTables → Option (Result LookupError ℕ)
unfolding find_client_route_on_port
find_client_route_on_port_str conn_id port_id s = elim (parse_uint 64 conn_id) [
  | none ↦ some (err invalid_id)
  | some conn_nid ↦ elim (parse_uint 16 port_id) [
    | none ↦ some (err invalid_id)
    | some port_nid ↦ or_port_error (find_client_route_on_port conn_nid port_nid s)
  ]
]

-- FindClientPeerConnByIdStr
unfoldable pub find_client_peer_by_id_str :
    String → String → String → ClientTables → Result LookupError ℕ
unfolding find_client_peer_by_id
find_client_peer_by_id_str conn_id route_id peer_id s =
    if_parsed (parse_uint 64 conn_id) (λ conn_nid. if_parsed (parse_uint 32 route_id) (λ route_nid.
      if_parsed (parse_uint 32 peer_id)
        (λ peer_nid. or_not_found (find_client_peer_by_id conn_nid route_nid peer_nid s))))
