-- ===== src/Receive/Kept.antt =====
-- server.go: the packets of a client keep the tables valid.
use Prim.Native.String.{String}
use text.Mathlib.Text.{◌==◌ as str_eq}
use hodu.Prelude.{
  ℕ, ◌≡◌, Bool, true, false, none, some, List, [], ◌∷◌, arith, Option-cases, inl, inr, lookup,
  parse_uint, if◌then◌else◌,
}
use hodu.Conns.{
  Conns, describe, Described, blank_token_refused, numeric_token_refused, duplicate_token_refused,
  token_unchanged, token_set, req_stop, stop_conn, put_desc, is_some,
}
use hodu.Conns.Valid.{IsValid as ConnsIsValid}
use hodu.Conns.Naming.{DescribeResult, describe-DescribeResult}
use hodu.PeerConn.{Report}
use hodu.Route.Routes.{Routes, Added, added, failed, Removed, removed, non_existent}
use hodu.Route.Routes.Valid.{
  IsValid as RoutesIsValid, add_route-IsValid, remove_route_by_id-IsValid,
}
use hodu.Sessions.Rxc.Valid.{IsValid as RxcsIsValid}
use hodu.Sessions.Rxc.Handling.{handle_rxc_event-IsValid}
use hodu.Receive.{
  Receiver, Handed, answer_start, answer_stop, report, is_reported, refuse, answer_desc,
  ClientPacket, route_start, route_stop, peer_event, conn_desc, conn_notice, rpty_event, rpx_event,
  rxc_event, other_packet, handle_packet, Incoming, stream_ended, received, receive_one, receive,
  receive_from_stream,
}

-- The tables that the receiver of a connection works on, where the other connections have `others`
-- sessions; the connection is in the tables.
pub record IsValid (others : ℕ) (s : Receiver) : Type 0 where
  pub conns : ConnsIsValid s.conns
  pub here : lookup (s.conns.cts s.ref).id s.conns.cts_map ≡ some s.ref
  pub routes : RoutesIsValid s.conn_id s.routes
  pub rxcs : RxcsIsValid others s.rxcs

-- What both branches of a test have.
if_holds : {A : Type 0} (P : A → Type 0) (b : Bool) (x y : A) → P x → P y → P (if b then x else y)
if_holds P true x y hx hy = hx
if_holds P false x y hx hy = hy

abbrev IsHere : ℕ → Conns → Type 0
IsHere ref c = lookup (c.cts ref).id c.cts_map ≡ some ref

req_stop-IsHere : (ref : ℕ) (c : Conns) → IsHere ref c → IsHere ref (req_stop ref c)
unfolding req_stop stop_conn
req_stop-IsHere ref c h = ground (arith, h)

put_desc-IsHere :
    (ref : ℕ) (token : String) (c : Conns) → IsHere ref c → IsHere ref (put_desc ref token c)
unfolding put_desc
put_desc-IsHere ref token c h = ground (arith, h)

describe-IsHere :
    (ref : ℕ) (token : String) (c : Conns) → IsHere ref c → IsHere ref (describe ref token c).0
unfolding describe
describe-IsHere ref token c h =
    let P = λ (r : Conns × Described). IsHere ref r.0 in
    if_holds P (str_eq token "") _ _ (req_stop-IsHere ref c h) (
      if_holds P (str_eq token (c.cts ref).client_token) _ _ h (
        if_holds P (is_some (parse_uint 64 token)) _ _ (req_stop-IsHere ref c h) (
          if_holds P (is_some (c.by_token token)) _ _ (req_stop-IsHere ref c h)
            (put_desc-IsHere ref token c h))))

desc_valid :
    (ref : ℕ) (token : String) (c : Conns) (r : Conns × Described)
    → DescribeResult ref token c r
    → ConnsIsValid r.0
desc_valid ref token c (d, blank_token_refused) r = r.0
desc_valid ref token c (d, numeric_token_refused) r = r.0
desc_valid ref token c (d, duplicate_token_refused) r = r.0
desc_valid ref token c (d, token_unchanged) r = r.0
desc_valid ref token c (d, token_set) r = r.0

module _ (others : ℕ) (s : Receiver) (v : IsValid others s) where
  same_IsValid :
      (handed : List Handed) (ended : Bool)
      → IsValid others (record s { handed = handed; ended = ended })
  same_IsValid handed ended = record {
    conns = v.conns;
    here = v.here;
    routes = v.routes;
    rxcs = v.rxcs;
  }

  routes-IsValid :
      (t : Routes) → RoutesIsValid s.conn_id t → IsValid others (record s { routes = t })
  routes-IsValid t w = record { conns = v.conns; here = v.here; routes = w; rxcs = v.rxcs }

  conns-IsValid :
      (c : Conns)
      → ConnsIsValid c
      → lookup (c.cts s.ref).id c.cts_map ≡ some s.ref
      → IsValid others (record s { conns = c })
  conns-IsValid c w h = record { conns = w; here = h; routes = v.routes; rxcs = v.rxcs }

module _ (others : ℕ) (s : Receiver) (v : IsValid others s) where
  answer_start-IsValid :
      (sends : Bool) (id : ℕ) (r : Routes × Added)
      → RoutesIsValid s.conn_id r.0
      → IsValid others (answer_start sends id r s)
  answer_start-IsValid true id (t, failed e) w =
      same_IsValid others _ (routes-IsValid others s v t w) _ _
  answer_start-IsValid false id (t, failed e) w =
      same_IsValid others _ (routes-IsValid others s v t w) _ _
  answer_start-IsValid true id (t, added r) w =
      same_IsValid others _ (routes-IsValid others s v t w) _ _
  answer_start-IsValid false id (t, added r) w =
      same_IsValid others _ (routes-IsValid others s v t w) _ _

  answer_stop-IsValid :
      (sends : Bool) (r : Routes × Removed)
      → RoutesIsValid s.conn_id r.0
      → IsValid others (answer_stop sends r s)
  answer_stop-IsValid sends (t, non_existent) w = routes-IsValid others s v t w
  answer_stop-IsValid true (t, removed r) w =
      same_IsValid others _ (routes-IsValid others s v t w) _ _
  answer_stop-IsValid false (t, removed r) w =
      same_IsValid others _ (routes-IsValid others s v t w) _ _

  report-IsValid :
      (route_id peer_id : ℕ) (r : Report) → IsValid others (report route_id peer_id r s)
  unfolding report
  report-IsValid route_id peer_id r = elim (Option-cases (s.routes.route_map route_id)) [
    | inl e ↦ rw (report, e) v
    | inr (route, e) ↦ elim (Option-cases (lookup peer_id (s.peers route.ref))) [
      | inl f ↦ rw (report, e, f) v
      | inr (pts, f) ↦
          rw (report, e, f)
            (record { conns = v.conns; here = v.here; routes = v.routes; rxcs = v.rxcs })
    ]
  ]

  refuse-IsValid : (stopped : Bool) (d : Described) → IsValid others (refuse stopped d s)
  refuse-IsValid true d = same_IsValid others s v _ _
  refuse-IsValid false d = same_IsValid others s v _ _

module _ (others : ℕ) (s : Receiver) (v : IsValid others s) where
  answer_desc-IsValid :
      (stopped : Bool) (r : Conns × Described)
      → ConnsIsValid r.0
      → IsHere s.ref r.0
      → IsValid others (answer_desc stopped r s)
  answer_desc-IsValid stopped (c, token_unchanged) w h = conns-IsValid others s v c w h
  answer_desc-IsValid stopped (c, token_set) w h = conns-IsValid others s v c w h
  answer_desc-IsValid stopped (c, blank_token_refused) w h =
      refuse-IsValid others _ (conns-IsValid others s v c w h) stopped _
  answer_desc-IsValid stopped (c, numeric_token_refused) w h =
      refuse-IsValid others _ (conns-IsValid others s v c w h) stopped _
  answer_desc-IsValid stopped (c, duplicate_token_refused) w h =
      refuse-IsValid others _ (conns-IsValid others s v c w h) stopped _

  pub handle_packet-IsValid :
      (p : ClientPacket) (sends : Bool) → IsValid others (handle_packet p sends s)
  unfolding handle_packet
  handle_packet-IsValid (route_start none) sends = v
  handle_packet-IsValid (route_start (some x)) sends =
      answer_start-IsValid others s v sends x.route_id _ (
        add_route-IsValid s.conn_id x.route_id x.option x.target_addr x.target_name s.routes
          x.listening v.routes)
  handle_packet-IsValid (route_stop none) sends = v
  handle_packet-IsValid (route_stop (some id)) sends =
      answer_stop-IsValid others s v sends _
        (remove_route_by_id-IsValid s.conn_id s.routes v.routes id)
  handle_packet-IsValid (peer_event none) sends = v
  handle_packet-IsValid (peer_event (some (route_id, peer_id, r))) sends =
      if_holds (IsValid others) (is_reported r) _ _ (report-IsValid others s v route_id peer_id r) v
  handle_packet-IsValid (conn_desc none) sends = v
  handle_packet-IsValid (conn_desc (some token)) sends =
      answer_desc-IsValid (s.conns.cts s.ref).stop_req (describe s.ref token s.conns)
        (desc_valid s.ref token s.conns _
          (describe-DescribeResult s.ref token s.conns v.conns v.here))
        (describe-IsHere s.ref token s.conns v.here)
  handle_packet-IsValid (conn_notice none) sends = v
  handle_packet-IsValid (conn_notice (some text)) sends = same_IsValid others s v _ _
  handle_packet-IsValid (rpty_event none) sends = v
  handle_packet-IsValid (rpty_event (some id)) sends = same_IsValid others s v _ _
  handle_packet-IsValid (rpx_event none) sends = v
  handle_packet-IsValid (rpx_event (some id)) sends = same_IsValid others s v _ _
  handle_packet-IsValid (rxc_event kind none succeeds) sends = v
  handle_packet-IsValid (rxc_event kind (some (id, flags, bytes)) succeeds) sends = record {
    conns = v.conns;
    here = v.here;
    routes = v.routes;
    rxcs = handle_rxc_event-IsValid others s.rxcs v.rxcs kind id flags bytes succeeds;
  }
  handle_packet-IsValid other_packet sends = v

  receive_one-IsValid : (i : Incoming) → IsValid others (receive_one i s)
  receive_one-IsValid stream_ended = same_IsValid others s v _ _
  receive_one-IsValid (received p sends) = handle_packet-IsValid p sends

receive-IsValid :
    (others : ℕ) (is : List Incoming) (s : Receiver)
    → IsValid others s
    → IsValid others (receive is s)
unfolding receive
receive-IsValid others [] s v = v
receive-IsValid others (i ∷ is) s v = if_holds (IsValid others) s.ended _ _ v (
    if_holds (IsValid others) (s.conns.cts s.ref).stop_req _ _ (same_IsValid others s v _ _)
      (receive-IsValid others is (receive_one i s) (receive_one-IsValid others s v i)))

-- Whatever packets a client sends, with data of any kind and whether the answers can be sent or not,
-- until the stream ends: the tables of connections, of this connection's routes and of its sessions
-- stay valid, and the connection stays in its table.
pub receive_from_stream-IsValid :
    (others : ℕ) (is : List Incoming) (s : Receiver)
    → IsValid others s
    → IsValid others (receive_from_stream is s)
unfolding receive_from_stream
receive_from_stream-IsValid others is s v =
    let w = receive-IsValid others is s v in
    if_holds (IsValid others) (receive is s).ended _ _ (same_IsValid others (receive is s) w _ _) w
