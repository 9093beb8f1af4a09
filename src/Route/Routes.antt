-- ===== src/Route/Routes.antt =====
-- server.go: the routes of one client connection (`ServerConn.route_map`, `route_map_by_ptc_name`)
-- with the server's table of listening ports (`svc_port_map`).
-- Parsing the permitted network and opening the listener are the operating system's and Go's: the
-- outcome, a port or a failure, is an argument.
pub mod Valid
pub mod Removal
use Prim.Native.String.{String}
use text.Mathlib.Text.{◌==◌ as str_eq}
use hodu.Prelude.{
  ℕ, ◌+◌, Bool, true, false, not, ◌&&◌, Option, none, some, ◌==◌, if◌then◌else◌, update, ℤ, inc,
  dec,
}

pub record Route : Type 0 where
  -- the pointer
  pub ref : ℕ
  pub id : ℕ
  pub option : ℕ
  pub ptc_addr : String
  pub ptc_name : String
  pub svc_port : ℕ

pub record ConnRouteId : Type 0 where
  pub conn_id : ℕ
  pub route_id : ℕ

pub record Routes : Type 0 where
  pub route_map : ℕ → Option Route
  pub by_ptc_name : String → Option Route
  pub svc_port_map : ℕ → Option ConnRouteId
  -- stats.routes
  pub routes : ℤ
  pub next_ref : ℕ

pub data AddError : Type 0 where
  existent_route existent_name not_listening port_not_unique : AddError

pub data Added : Type 0 where
  added : Route → Added
  failed : AddError → Added

abbrev pub put_name : (String → Option Route) → String → Option Route → String → Option Route
put_name m n v k = if str_eq k n then v else m k

abbrev pub is_some {ℓ} : {A : Type ℓ} → Option A → Bool
is_some none = false
is_some (some a) = true

-- `if ptc_name != "" { m[ptc_name] = r }`, and the deletion.
abbrev pub put_name_if : String → Option Route → (String → Option Route) → String → Option Route
put_name_if n v m = if str_eq n "" then m else put_name m n v

-- What an addition enters.
unfoldable pub put_route : ℕ → Route → Routes → Routes
put_route conn_id r t = record t {
  svc_port_map =
      update t.svc_port_map r.svc_port (some (record { conn_id = conn_id; route_id = r.id }));
  route_map = update t.route_map r.id (some r);
  by_ptc_name = put_name_if r.ptc_name (some r) t.by_ptc_name;
  routes = inc t.routes;
  next_ref = t.next_ref + 1;
}

-- The uniqueness check of `make_route_listener` and the rest of `AddNewServerRoute`.
unfoldable pub enter_route : ℕ → ℕ → ℕ → String → String → ℕ → Routes → Routes × Added
unfolding put_route
enter_route conn_id id option ptc_addr ptc_name port t =
    let r : Route = record {
      ref = t.next_ref;
      id = id;
      option = option;
      ptc_addr = ptc_addr;
      ptc_name = ptc_name;
      svc_port = port;
    } in
    if is_some (t.svc_port_map port)
    then (t, failed port_not_unique)
    else (put_route conn_id r t, added r)

-- AddNewServerRoute; `listening` is the port of the new listener, if there is one.
unfoldable pub add_route : ℕ → ℕ → ℕ → String → String → Option ℕ → Routes → Routes × Added
unfolding enter_route
add_route conn_id id option ptc_addr ptc_name listening t =
    if is_some (t.route_map id)
    then (t, failed existent_route)
    else if not (str_eq ptc_name "") && is_some (t.by_ptc_name ptc_name)
    then (t, failed existent_name)
    else elim listening [
      | none ↦ (t, failed not_listening)
      | some port ↦ enter_route conn_id id option ptc_addr ptc_name port t
    ]

-- What both removals do under their locks.
unfoldable pub drop_route : Route → Routes → Routes
drop_route r t = record t {
  by_ptc_name = put_name_if r.ptc_name none t.by_ptc_name;
  route_map = update t.route_map r.id none;
  routes = dec t.routes;
  svc_port_map = update t.svc_port_map r.svc_port none;
}

pub data Removed : Type 0 where
  removed : Route → Removed
  non_existent : Removed

-- RemoveServerRouteById
unfoldable pub remove_route_by_id : ℕ → Routes → Routes × Removed
unfolding drop_route
remove_route_by_id id t = elim (t.route_map id) [
  | none ↦ (t, non_existent)
  | some r ↦ (drop_route r t, removed r)
]

-- RemoveServerRoute, which a route calls for itself at its end.
unfoldable pub remove_route : Route → Routes → Routes × Removed
unfolding drop_route
remove_route route t = elim (t.route_map route.id) [
  | none ↦ (t, non_existent)
  | some r ↦ if r.ref == route.ref then (drop_route route t, removed route) else (t, non_existent)
]
