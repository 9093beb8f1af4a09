-- ===== src/Route/Tests.antt =====
-- The theorems on routes and peers at concrete inputs.
use hodu.Prelude.{ℕ, ◌≡◌, refl, Bool, false, [], ◌∷◌, none, some, arith, pos, ◌==◌, ◌||◌}
use hodu.Route.Peers.{Peers, add_new_peer, accept}
use hodu.Route.Peers.Table.{
  IsValid as PeersIsValid, AddResult as PeerResult, add_new_peer-AddResult,
}
use hodu.Route.Peers.Accept.{Entered, rejections, accept-Entered}
use hodu.Route.Routes.{Route, Routes, add_route}
use hodu.Route.Routes.Valid.{IsValid, add_route-IsValid}
use hodu.Route.Routes.Removal.{Undone, add_route-Undone}
use hodu.IdPool.{assign_id}
use hodu.IdPool.Found.{Finds, assign_id-Finds}

-- Of the ids of 2 bits, 1 and 3 are in use.
abbrev used : ℕ → Bool
used k = k == 1 || k == 3

assign_id-Finds_example : Finds 4 used (assign_id 4 used 3)
assign_id-Finds_example = assign_id-Finds 4 used 3 (omega arith) (omega arith) (omega arith)

abbrev one_peer : Peers
one_peer = record {
  pts_map = (1, 40) ∷ [];
  pts_limit = 2;
  pts_next_id = 2;
  peers = pos 6;
  closed = [];
}

one_peer-IsValid : PeersIsValid 5 one_peer
one_peer-IsValid = record {
  unique = ground arith;
  within = omega arith;
  limit = omega arith;
  next_pos = omega arith;
  next_lt = omega arith;
  counted = refl;
}

add_new_peer-AddResult_example : PeerResult 5 41 one_peer (add_new_peer 41 one_peer)
add_new_peer-AddResult_example = add_new_peer-AddResult 5 41 one_peer one_peer-IsValid

-- A connection from outside the permitted network, on a server that has its 6 peers.
accept-Entered_example :
    Entered 5 41
      (rejections (pos 6) false 41 one_peer)
      one_peer.pts_map
      (accept (pos 6) false 41 one_peer)
accept-Entered_example = accept-Entered 5 (pos 6) false 41 one_peer one_peer-IsValid (omega arith)

abbrev no_routes : Routes
no_routes = record {
  route_map = λ id. none;
  by_ptc_name = λ n. none;
  svc_port_map = λ port. none;
  routes = pos 0;
  next_ref = 0;
}

no_routes-IsValid : IsValid 7 no_routes
no_routes-IsValid = record {
  keyed = λ id r e. ground arith;
  old = λ id r e. ground arith;
  named = λ id r e n. ground arith;
  names = λ n r e. ground arith;
  ported = λ id r e. ground arith;
  ports = λ port id e. ground arith;
}

abbrev web : Route
web = record {
  ref = 0;
  id = 1;
  option = 1;
  ptc_addr = "10.0.0.1:80";
  ptc_name = "web";
  svc_port = 8080;
}

-- The table after the addition of that route.
abbrev web_only : Routes
web_only = (add_route 7 1 1 "10.0.0.1:80" "web" (some 8080) no_routes).0

web_only-IsValid : IsValid 7 web_only
web_only-IsValid =
    add_route-IsValid 7 1 1 "10.0.0.1:80" "web" no_routes (some 8080) no_routes-IsValid

add_route-IsValid_example : IsValid 7 (add_route 7 2 1 "10.0.0.1:81" "web2" (some 8081) web_only).0
add_route-IsValid_example =
    add_route-IsValid 7 2 1 "10.0.0.1:81" "web2" web_only (some 8081) web_only-IsValid

add_route-Undone_example :
    Undone 2 web_only (add_route 7 2 1 "10.0.0.1:81" "web2" (some 8081) web_only)
add_route-Undone_example = add_route-Undone 7 2 1 "10.0.0.1:81" "web2" web_only (some 8081)

same_web : (r : Route) → web_only.route_map 1 ≡ some r → r.ref ≡ 0 → r ≡ web
unfolding add_route
same_web r e same = ground arith
