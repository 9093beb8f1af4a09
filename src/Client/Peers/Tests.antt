-- ===== src/Client/Peers/Tests.antt =====
-- The theorems on the peers of the client at concrete inputs.
use hodu.Prelude.{List, length, ◌≡◌, refl, true, false, [], ◌∷◌, none, arith, pos, ◌+◌}
use hodu.Client.Peers.{Ptc, ClientRoute, connected, not_connected, peer_started}
use hodu.Client.Peers.Tasks.{
  PeerEvent, reported, dial_ended, task_ended, peer_steps, peer_step, Read, run_task,
}
use hodu.Client.Peers.Counting.{IsCounted, replaced_by_all, peer_steps-IsCounted}
use hodu.Client.Peers.Quiet.{answers}
use hodu.Client.Peers.Answers.{IsDialing, asked_by_all, unsent_by_all, peer_steps-answers}
use hodu.Client.Peers.Forwarding.{HasForwarded, run_task-HasForwarded}

abbrev a_peer : Ptc
a_peer = record {
  conn_id = 4;
  pts_eof = false;
  stop_req = false;
  closed = false;
  write_closed = false;
  written = [];
}

-- A route with the peer 4, and a dial for the peer 5 under way.
abbrev a_route : ClientRoute
a_route = record {
  id = 2;
  listen_addr = none;
  svc_addr = "";
  svc_net = "";
  ptc_map = (4, 10) ∷ [];
  ptc_cancel_map = (5, 11) ∷ [];
  stop_req = false;
  stops = 0;
  ptc = λ r. a_peer;
  next_ref = 12;
  dials = (11, 5) ∷ [];
  cancelled = [];
  tasks = 10 ∷ [];
  peers = pos 8;
  ptc_list = 10 ∷ [];
  sent = [];
}

-- The server reports the peer 4 once more, which is connected, and both end.
peer_steps-IsCounted_example :
    let es =
      (reported (pos 0) true 4 (peer_started true)
        ∷ dial_ended 12 (connected true true)
        ∷ task_ended true 10
        ∷ task_ended true 13
        ∷ []) in
    IsCounted (7 + replaced_by_all es a_route) (peer_steps es a_route)
peer_steps-IsCounted_example =
    peer_steps-IsCounted 7
      (reported (pos 0) true 4 (peer_started true)
        ∷ dial_ended 12 (connected true true)
        ∷ task_ended true 10
        ∷ task_ended true 13
        ∷ [])
      a_route (record { unique = ground arith; counted = refl })

replaced_once :
    replaced_by_all
      (reported (pos 0) true 4 (peer_started true) ∷ dial_ended 12 (connected true true) ∷ [])
      a_route
    ≡ 1
unfolding peer_step
replaced_once = ground arith

-- The peer 5 cannot be connected to, 6 is refused for the limit of one peer, and 7 is never told.
abbrev starts : List PeerEvent
starts =
    dial_ended 11 (not_connected true)
    ∷ reported (pos 1) true 6 (peer_started true)
    ∷ reported (pos 0) true 7 (peer_started true)
    ∷ dial_ended 12 (connected false false)
    ∷ []

a_route-IsDialing : IsDialing a_route
a_route-IsDialing = record { unique = ground arith; old = λ k h. ground (arith, h) }

peer_steps-answers_example :
    answers (peer_steps starts a_route)
      + length (peer_steps starts a_route).dials
      + unsent_by_all starts a_route
    ≡ answers a_route + length a_route.dials + asked_by_all starts
peer_steps-answers_example = peer_steps-answers starts a_route a_route-IsDialing

one_unsent : unsent_by_all starts a_route ≡ 1
unfolding peer_step
one_unsent = ground arith

abbrev a_read : Read
a_read = record { buf = 104 ∷ 105 ∷ []; fails = false; sends = true }

abbrev end_of_file : Read
end_of_file = record { buf = []; fails = true; sends = true }

run_task-HasForwarded_example :
    HasForwarded true
      (104 ∷ 105 ∷ [])
      10
      a_route
      (run_task (a_read ∷ end_of_file ∷ []) true 10 a_route)
run_task-HasForwarded_example =
    run_task-HasForwarded true 10 (a_read ∷ []) end_of_file a_route (refl, tt) refl
