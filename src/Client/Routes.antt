-- ===== src/Client/Routes.antt =====
-- client.go: the routes of one connection of the client (`ClientConn.route_map`), with their lifetimes
-- and what is told to the persister, which keeps the routes over a restart.
-- Pointers are numbers, under which the routes are stored. Times are given by the caller. Go leaves
-- the order of a map open: it is that of the list here.
pub mod Events
pub mod Valid
pub mod Ports
pub mod Runs
pub mod Saved
mod Tests
use Prim.Native.String.{String}
use hodu.Prelude.{
  ℕ, ◌+◌, ◌^◌, Bool, true, false, List, [], ◌∷◌, ◌++◌, Option, none, some, ◌==◌, ltb, if◌then◌else◌,
  update, ℤ, inc, dec, lookup, has_key, delete_key,
}
use hodu.Prelude.Results.{Result, ok, err}
use hodu.IdPool.{assign_id}

-- ClientRouteConfig
pub record RouteConfig : Type 0 where
  pub id : ℕ
  pub peer_addr : String
  pub peer_name : String
  pub service_addr : String
  pub service_net : String
  pub service_option : ℕ
  pub lifetime : ℕ
  pub static : Bool

pub record RouteEntry : Type 0 where
  pub id : ℕ
  pub static : Bool
  pub peer_addr : String
  pub peer_name : String
  pub svc_addr : String
  pub svc_net : String
  pub svc_option : ℕ
  -- the port of ServerPeerListenAddr, which is nil at first
  pub listen_port : Option ℕ
  pub lifetime : ℕ
  pub lifetime_start : ℕ
  -- when lifetime_timer fires, unless it is nil
  pub lifetime_timer : Option ℕ
  pub stop_req : Bool
  pub stops : ℕ

pub data PersisterCall : Type 0 where
  save delete : ℕ → PersisterCall

pub record ClientRoutes : Type 0 where
  pub route_map : List (ℕ × ℕ)
  pub route_next_id : ℕ
  -- stats.routes, and the client's list of all routes
  pub routes : ℤ
  pub route_list : List ℕ
  pub route : ℕ → RouteEntry
  pub next_ref : ℕ
  -- whether there is a persister, and its calls by the id of the route, the last one first
  pub has_persister : Bool
  pub calls : List PersisterCall

pub data RouteError : Type 0 where
  no_route_id id_unavailable non_existent_route conflicting_route prohibited : RouteError

abbrev pub route_ids : ℕ
route_ids = 2 ^ 32

abbrev pub persist : PersisterCall → ClientRoutes → ClientRoutes
persist c s = record s { calls = if s.has_persister then c ∷ s.calls else s.calls }

abbrev pub set_route : ℕ → RouteEntry → ClientRoutes → ClientRoutes
set_route ref r s = record s { route = update s.route ref r }

-- NewClientRoute
abbrev pub new_route : ℕ → ℕ → RouteConfig → RouteEntry
new_route now id rc = record {
  id = id;
  static = rc.static;
  peer_addr = rc.peer_addr;
  peer_name = rc.peer_name;
  svc_addr = rc.service_addr;
  svc_net = rc.service_net;
  svc_option = rc.service_option;
  listen_port = none;
  lifetime = rc.lifetime;
  lifetime_start = now;
  lifetime_timer = none;
  stop_req = false;
  stops = 0;
}

-- What AddNewClientRoute enters under an id.
unfoldable pub put_client_route : ℕ → ℕ → RouteConfig → ClientRoutes → ClientRoutes
put_client_route now id rc s = persist (save id) (record s {
  route = update s.route s.next_ref (new_route now id rc);
  route_map = (id, s.next_ref) ∷ s.route_map;
  routes = inc s.routes;
  route_list = s.route_list ++ (s.next_ref ∷ []);
  next_ref = s.next_ref + 1;
})

-- The automatic assignment, given the outcome of its loop.
unfoldable pub enter_assigned :
    ℕ → RouteConfig → Option ℕ × ℕ → ClientRoutes → ClientRoutes × Result RouteError ℕ
unfolding put_client_route
enter_assigned now rc (none, next) s = (record s { route_next_id = next }, err no_route_id)
enter_assigned now rc (some id, next) s =
    (put_client_route now id rc (record s { route_next_id = next }), ok s.next_ref)

-- AddNewClientRoute, with its new route
unfoldable pub add_client_route :
    ℕ → RouteConfig → ClientRoutes → ClientRoutes × Result RouteError ℕ
unfolding put_client_route enter_assigned
add_client_route now rc s =
    if rc.id == 0
    then enter_assigned now rc (assign_id route_ids (λ k. has_key k s.route_map) s.route_next_id) s
    else if has_key rc.id s.route_map
    then (s, err id_unavailable)
    else (put_client_route now rc.id rc s, ok s.next_ref)

-- ClientRoute.ReqStop on the route itself
abbrev pub stop_route : RouteEntry → RouteEntry
stop_route r = record r { stop_req = true; stops = if r.stop_req then r.stops else r.stops + 1 }

unfoldable pub req_stop_client_route : ℕ → ClientRoutes → ClientRoutes
req_stop_client_route ref s = set_route ref (stop_route (s.route ref)) s

-- What the removals do, under the lock and after it.
unfoldable pub drop_client_route : ℕ → ℕ → ClientRoutes → ClientRoutes
unfolding req_stop_client_route
drop_client_route id ref s = req_stop_client_route ref (
    persist (delete (s.route ref).id)
      (record s { route_map = delete_key id s.route_map; routes = dec s.routes }))

-- RemoveClientRoute
unfoldable pub remove_client_route : ℕ → ClientRoutes → ClientRoutes × Result RouteError Unit
unfolding drop_client_route
remove_client_route ref s = elim (lookup (s.route ref).id s.route_map) [
  | none ↦ (s, err non_existent_route)
  | some r ↦
      if r == ref
      then (drop_client_route (s.route ref).id ref s, ok tt)
      else (s, err conflicting_route)
]

-- RemoveClientRouteById
unfoldable pub remove_client_route_by_id : ℕ → ClientRoutes → ClientRoutes × Result RouteError Unit
unfolding drop_client_route
remove_client_route_by_id id s = elim (lookup id s.route_map) [
  | none ↦ (s, err non_existent_route)
  | some r ↦ (drop_client_route id r s, ok tt)
]

-- FindClientRouteByServerPeerSvcPortId: a route, none, or a panic at a nil address.
pub data PortSearch : Type 0 where
  found : ℕ → PortSearch
  not_found panics : PortSearch

abbrev pub is_port : ℕ → Option ℕ → Option Bool
is_port port none = none
is_port port (some p) = some (p == port)

abbrev pub search_on : Option Bool → ℕ → PortSearch → PortSearch
search_on none ref rest = panics
search_on (some true) ref rest = found ref
search_on (some false) ref rest = rest

unfoldable pub search_port : ℕ → List (ℕ × ℕ) → (ℕ → RouteEntry) → PortSearch
search_port port [] route = not_found
search_port port ((id, ref) ∷ m) route =
    search_on (is_port port (route ref).listen_port) ref (search_port port m route)

unfoldable pub find_client_route_by_port : ℕ → ClientRoutes → PortSearch
unfolding search_port
find_client_route_by_port port s = search_port port s.route_map s.route

-- RemoveClientRouteByServerPeerSvcPortId; none if it panics
unfoldable pub remove_client_route_by_port :
    ℕ → ClientRoutes → Option (ClientRoutes × Result RouteError Unit)
unfolding find_client_route_by_port drop_client_route
remove_client_route_by_port port s = elim (find_client_route_by_port port s) [
  | found ref ↦ some (drop_client_route (s.route ref).id ref s, ok tt)
  | not_found ↦ some (s, err non_existent_route)
  | panics ↦ none
]
