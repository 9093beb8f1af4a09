-- ===== src/Receive/Tests.antt =====
-- The packets of a client at concrete inputs.
use hodu.Prelude.{
  refl, ◌≡◌, true, false, none, some, List, [], ◌∷◌, arith, pos, lookup, ◌==◌, if◌then◌else◌,
}
use hodu.Conns.{Conn, Conns, add_conn, enter_conn, put_conn}
use hodu.Conns.Runs.{no_conns, start, after, adds, Reaches-IsValid}
use hodu.IdPool.{assign_id, find_free, bump}
use hodu.Route.Routes.{Routes}
use hodu.PeerConn.{new_peer_conn}
use hodu.Sessions.Rxc.{Rxcs, rxc_stop}
use hodu.Receive.{
  Receiver, RouteRequest, route_start, route_stop, conn_desc, rxc_event, Incoming, received,
  stream_ended, handle_packet, receive_from_stream,
}
use hodu.Client.Peers.{ClientRoute}
use hodu.Client.Packets.{ClientLink}
use hodu.Client.Packets.Handshake.{Agreed, route_start-Agreed}
use hodu.Receive.Answers.{StartResult, route_start-StartResult}
use hodu.Receive.Kept.{IsValid, receive_from_stream-IsValid}

abbrev blank : Conn
blank = record { id = 0; remote_addr = 0; client_token = ""; stop_req = false; stops = 0 }

abbrev one_conn : Conns
one_conn = (add_conn 70 (no_conns (pos 2) blank)).0

abbrev no_routes : Routes
no_routes = record {
  route_map = λ id. none;
  by_ptc_name = λ n. none;
  svc_port_map = λ port. none;
  routes = pos 0;
  next_ref = 0;
}

abbrev no_rxcs : Rxcs
no_rxcs = record { rxc_map = []; by_ws = λ ws. none; rxc_next_id = 1; rxc_sessions = pos 2 }

abbrev receiver : Receiver
receiver = record {
  ref = 0;
  conn_id = 1;
  conns = one_conn;
  routes = no_routes;
  peers = λ route. [];
  peer = λ pts. new_peer_conn;
  rxcs = no_rxcs;
  handed = [];
  ended = false;
}

abbrev ssh : RouteRequest
ssh = record {
  route_id = 3;
  option = 2;
  target_addr = "127.0.0.1:22";
  target_name = "ssh";
  listening = some 8022;
}

route_start-StartResult_example :
    StartResult ssh true receiver (handle_packet (route_start (some ssh)) true receiver)
route_start-StartResult_example = route_start-StartResult ssh true receiver

one_conn_here : lookup (one_conn.cts 0).id one_conn.cts_map ≡ some 0
unfolding add_conn enter_conn put_conn assign_id find_free bump no_conns
one_conn_here = refl

receiver-IsValid : IsValid 2 receiver
receiver-IsValid = record {
  conns = Reaches-IsValid (pos 2) blank (after start (adds 70));
  here = one_conn_here;
  routes = record {
    keyed = λ i r e. absurd (ground (arith, e));
    old = λ i r e. absurd (ground (arith, e));
    named = λ i r e. absurd (ground (arith, e));
    names = λ n r e. absurd (ground (arith, e));
    ported = λ i r e. absurd (ground (arith, e));
    ports = λ p i e. absurd (ground (arith, e));
  };
  rxcs = record {
    unique = tt;
    keyed = λ i r e. absurd (ground arith);
    sunk = λ i r e. absurd (ground arith);
    found = λ i w r e ew. absurd (ground arith);
    back = λ w r e. absurd (ground arith);
    counted = refl;
    next_pos = omega arith;
    next_lt = omega arith;
  };
}

-- A route is opened and closed, a session that is not there ends, and the client names itself.
abbrev packets : List Incoming
packets =
    received (route_start (some ssh)) true
    ∷ received (rxc_event rxc_stop (some (9, 0, [])) true) true
    ∷ received (conn_desc (some "web")) true
    ∷ received (route_stop (some 3)) true
    ∷ stream_ended
    ∷ []

receive_from_stream-IsValid_example : IsValid 2 (receive_from_stream packets receiver)
receive_from_stream-IsValid_example =
    receive_from_stream-IsValid 2 packets receiver receiver-IsValid

-- A client with the route 3, which it asks this server for.
abbrev client_route : ClientRoute
client_route = record {
  id = 3;
  listen_addr = none;
  svc_addr = "";
  svc_net = "";
  ptc_map = [];
  ptc_cancel_map = [];
  stop_req = false;
  stops = 0;
  ptc = λ r. record {
    conn_id = 0;
    pts_eof = false;
    stop_req = false;
    closed = false;
    write_closed = false;
    written = [];
  };
  next_ref = 0;
  dials = [];
  cancelled = [];
  tasks = [];
  peers = pos 0;
  ptc_list = [];
  sent = [];
}

abbrev client : ClientLink
client = record {
  route_map = λ id. if id == 3 then some client_route else none;
  ptc_limit = pos 0;
  peers = pos 0;
  sent = [];
  close_on_conn_error = false;
  passed_on = [];
}

route_start-Agreed_example :
    Agreed ssh "0.0.0.0:8022" "0.0.0.0/0" true receiver
      (handle_packet (route_start (some ssh)) true receiver)
      client
route_start-Agreed_example =
    route_start-Agreed 2 ssh "0.0.0.0:8022" "0.0.0.0/0" true receiver client client_route
      receiver-IsValid refl
