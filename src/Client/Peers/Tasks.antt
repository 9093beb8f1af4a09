-- ===== src/Client/Peers/Tasks.antt =====
-- client-peer.go: the task of one peer (`ClientPeerConn.RunTask`), and what can happen to the peers of
-- a route, one event at a time.
use hodu.Prelude.{ℕ, Bool, true, false, List, [], ◌∷◌, ◌==◌, if◌then◌else◌, ℤ}
use hodu.Client.Peers.{
  ClientRoute, sent_stopped, sent_data, send_if, req_stop_ptc, remove_ptc, req_stop_route, Dialed,
  finish_connect, ClientReport, report_to_route,
}

abbrev pub remove_ref : ℕ → List ℕ → List ℕ
remove_ref k [] = []
remove_ref k (j ∷ l) = if j == k then l else j ∷ remove_ref k l

-- The part of RunTask after its loop; whether the send works.
unfoldable pub end_task : Bool → ℕ → ClientRoute → ClientRoute
end_task sends ref s =
    let t =
      (remove_ptc ref
        (req_stop_ptc ref (send_if sends (sent_stopped s.id (s.ptc ref).conn_id) s))).0 in
    record t { ptc_list = remove_ref ref t.ptc_list; tasks = remove_ref ref t.tasks }

-- One read of the loop: the bytes, whether it failed, and whether sending them works.
pub record Read : Type 0 where
  pub buf : List ℕ
  pub fails : Bool
  pub sends : Bool

-- `if n > 0 { Send(...) }`
abbrev pub send_read : List ℕ → Bool → ℕ → ClientRoute → ClientRoute
send_read [] sends ref s = s
send_read (c ∷ cs) sends ref s = send_if sends (sent_data s.id (s.ptc ref).conn_id (c ∷ cs)) s

-- Whether the loop goes on after a read.
abbrev pub goes_on : Read → Bool
goes_on r = elim r.buf [
  | [] ↦ if r.fails then false else true
  | c ∷ cs ↦ if r.sends then (if r.fails then false else true) else false
]

-- The loop of RunTask on the reads so far, and its end once the loop is left.
unfoldable pub run_task : List Read → Bool → ℕ → ClientRoute → ClientRoute
unfolding end_task
run_task [] sends ref s = s
run_task (r ∷ rs) sends ref s =
    let t = send_read r.buf r.sends ref s in
    let rest = run_task rs sends ref t in if goes_on r then rest else end_task sends ref t

-- A packet with the limit of peers and whether an answer can be sent, the end of a dial, the end of a
-- task, and a stop of the route by its own task or by the connection.
pub data PeerEvent : Type 0 where
  reported : ℤ → Bool → ℕ → ClientReport → PeerEvent
  dial_ended : ℕ → Dialed → PeerEvent
  task_ended : Bool → ℕ → PeerEvent
  route_stop_requested : PeerEvent

unfoldable pub peer_step : PeerEvent → ClientRoute → ClientRoute
unfolding report_to_route finish_connect end_task req_stop_route
peer_step (reported limit sends pts_id r) s = report_to_route limit sends pts_id r s
peer_step (dial_ended dial d) s = finish_connect dial d s
peer_step (task_ended sends ref) s = end_task sends ref s
peer_step route_stop_requested s = req_stop_route s

unfoldable pub peer_steps : List PeerEvent → ClientRoute → ClientRoute
unfolding peer_step
peer_steps [] s = s
peer_steps (e ∷ es) s = peer_steps es (peer_step e s)
