-- ===== src/Client/Routes/Tests.antt =====
-- The theorems on the routes of the client at concrete inputs.
use hodu.Prelude.{List, ◌≡◌, refl, true, false, [], ◌∷◌, arith, pos}
use hodu.Client.Routes.{
  RouteConfig, ClientRoutes, new_route, find_client_route_by_port, panics, save,
}
use hodu.Client.Routes.Events.{
  RouteEvent, added, removed_by_id, extended, lifetime_started, route_steps, route_step,
  start_lifetime,
}
use hodu.Client.Routes.Valid.{IsValid}
use hodu.Client.Routes.Ports.{PortResult, find_client_route_by_port-PortResult}
use hodu.Client.Routes.Runs.{route_steps-IsValid}
use hodu.Client.Routes.Saved.{IsSaved, AreHeld, route_steps-IsSaved}

abbrev ssh : RouteConfig
ssh = record {
  id = 0;
  peer_addr = "127.0.0.1:22";
  peer_name = "ssh";
  service_addr = "0.0.0.0:0";
  service_net = "0.0.0.0/0";
  service_option = 1;
  lifetime = 60;
  static = false;
}

-- A connection with the route 3, whose port is not known yet.
abbrev a_table : ClientRoutes
a_table = record {
  route_map = (3, 0) ∷ [];
  route_next_id = 3;
  routes = pos 5;
  route_list = 0 ∷ [];
  route = λ ref. new_route 100 3 ssh;
  next_ref = 1;
  has_persister = true;
  calls = save 3 ∷ [];
}

a_table-IsValid : IsValid 4 a_table
a_table-IsValid = record {
  unique = ground arith;
  keyed = λ id ref h. ground (arith, h);
  counted = refl;
  timed = λ ref due h. absurd (ground (arith, h));
  next_pos = omega arith;
  next_lt = omega arith;
}

a_table-IsSaved : IsSaved a_table
a_table-IsSaved p id = ground arith

abbrev a_day : List RouteEvent
a_day = lifetime_started 101 0 ∷ extended 30 0 ∷ removed_by_id 3 ∷ added 120 ssh ∷ []

route_steps-IsValid_example : IsValid 4 (route_steps a_day a_table)
route_steps-IsValid_example = route_steps-IsValid 4 a_day a_table a_table-IsValid

-- The lifetime is extended while the route is in the table.
held_AreHeld : AreHeld (lifetime_started 101 0 ∷ extended 30 0 ∷ removed_by_id 3 ∷ []) a_table
unfolding route_step start_lifetime
held_AreHeld = (tt, (refl, (tt, tt)))

route_steps-IsSaved_example :
    IsSaved (route_steps (lifetime_started 101 0 ∷ extended 30 0 ∷ removed_by_id 3 ∷ []) a_table)
route_steps-IsSaved_example =
    route_steps-IsSaved 4 (lifetime_started 101 0 ∷ extended 30 0 ∷ removed_by_id 3 ∷ []) a_table
      a_table-IsValid a_table-IsSaved held_AreHeld

find_client_route_by_port-PortResult_example :
    PortResult 8080 a_table.route_map a_table.route (find_client_route_by_port 8080 a_table)
find_client_route_by_port-PortResult_example =
    find_client_route_by_port-PortResult 4 8080 a_table a_table-IsValid

-- The search meets the route whose port is not known.
find_panics : find_client_route_by_port 8080 a_table ≡ panics
unfolding find_client_route_by_port
find_panics = refl
