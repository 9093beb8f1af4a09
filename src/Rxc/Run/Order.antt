-- ===== src/Rxc/Run/Order.antt =====
-- server-rxc-job.go: the order in which a run's statuses can follow one another.
use hodu.Prelude.{ℕ, ◌≤◌, ◌≡◌, refl, true, List, [], ◌∷◌, arith, ℤ, ◌∙◌}
use hodu.Rxc.Run.{
  Run, Counts, Status, starting, running, stopping, stopped, failed, is_over, mark_started,
  mark_start_failure, request_stop, stop, write,
}
use hodu.Rxc.Run.Calls.{Call, started, call, calls}

-- How far a run has come.
abbrev pub rank : Status → ℕ
rank starting = 0
rank running = 1
rank stopping = 2
rank stopped = 3
rank failed = 3

-- What a run that is over never changes.
pub record SameEnd (r s : Run) : Type 0 where
  pub same_status : s.status ≡ r.status
  pub same_time : s.stop_time ≡ r.stop_time
  pub same_flags : s.stop_flags ≡ r.stop_flags
  pub same_msg : s.stop_msg ≡ r.stop_msg

-- What one call or many may do to a run.
pub record Advances (r s : Run) : Type 0 where
  pub forward : rank r.status ≤ rank s.status
  pub final : is_over r.status ≡ true → SameEnd r s
  pub same_conn : s.conn_id ≡ r.conn_id
  pub same_token : s.client_token ≡ r.client_token

call-Advances : (m : ℤ) (c : Call) (r : Run) (k : Counts) → Advances r (call m c (r, k)).0
unfolding call mark_started mark_start_failure request_stop stop write
call-Advances m (started i now) r k = ground arith
call-Advances m c r k = ground arith

Advances-trans : {r s t : Run} → Advances r s → Advances s t → Advances r t
Advances-trans {r} {s} {t} a b = record {
  forward = omega arith;
  final = λ e. ends e;
  same_conn = b.same_conn ∙ a.same_conn;
  same_token = b.same_token ∙ a.same_token;
}
  where
    ends : is_over r.status ≡ true → SameEnd r t
    ends e = grind (arith, a.final e, b.final)

-- Whatever sequence of calls other goroutines make of a run, its status only moves forward in the
-- order starting, running, stopping, over (stopped or failed); once the run is over its status,
-- stop time, stop flags and stop message never change again, so the first end wins; and its
-- connection id and client token never change.
pub calls-Advances :
    (m : ℤ) (cs : List Call) (r : Run) (k : Counts) → Advances r (calls m cs (r, k)).0
unfolding calls
calls-Advances m [] r k = record {
  forward = omega arith;
  final = λ e. ground arith;
  same_conn = refl;
  same_token = refl;
}
calls-Advances m (c ∷ cs) r k =
    Advances-trans (call-Advances m c r k)
      (calls-Advances m cs (call m c (r, k)).0 (call m c (r, k)).1)
