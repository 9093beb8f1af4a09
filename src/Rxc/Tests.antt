-- ===== src/Rxc/Tests.antt =====
-- Runs of the models of server-rxc-job.go on small inputs.
use Prim.Native.String.{String}
use hodu.Prelude.{ℕ, ◌+◌, ◌≡◌, ◌↔◌, refl, true, List, [], ◌∷◌, arith, pos}
use hodu.Rxc.Output.{append_output, append_head}
use hodu.Rxc.Run.{
  Run, Counts, stopped, new_run, mark_started, mark_start_failure, request_stop, stop, write,
}
use hodu.Rxc.Run.Calls.{Call, started, stop_asked, stopped_with, written, call, calls}
use hodu.Rxc.Run.Order.{Advances, calls-Advances}
use hodu.Rxc.Run.Writes.{Captures, calls-Captures}
use hodu.Rxc.Job.{new_job, job_is_done}
use hodu.Rxc.Job.Schedule.{
  World, Event, marked, asked, ended, dropped, settled, finished, job_deleted, step, steps,
}
use hodu.Rxc.Job.Counting.{Consistent}
use hodu.Rxc.Job.Invariant.{fresh_world, steps-Consistent_from_start}
use hodu.Rxc.Job.Done.{AllOver, job_is_done-iff-over}

abbrev no_counts : Counts
no_counts = record {
  active_run_count = 1;
  starting_run_count = 1;
  running_run_count = 0;
  stopping_run_count = 0;
  stopped_run_count = 0;
  failed_run_count = 0;
}

-- Started, written to twice, asked to stop, and stopped twice: the first stop counts.
abbrev story : List Call
story =
    started 7 10
    ∷ written 0 (1 ∷ 2 ∷ [])
    ∷ written 0 (3 ∷ 4 ∷ [])
    ∷ stop_asked
    ∷ stopped_with 1 "bye" 20
    ∷ stopped_with 0 "late" 30
    ∷ []

abbrev told : Run
told = (calls (pos 3) story (new_run 5 "tok" 1, no_counts)).0

told_status : told.status ≡ stopped
unfolding calls call new_run stop request_stop write mark_started
told_status = refl

told_output : told.stdout ≡ record { output = 1 ∷ 2 ∷ 3 ∷ []; truncated = true }
unfolding calls call new_run stop request_stop write mark_started append_output append_head
told_output = refl

calls-Advances_example : Advances (new_run 5 "tok" 1) told
calls-Advances_example = calls-Advances (pos 3) story (new_run 5 "tok" 1) no_counts

calls-Captures_example : Captures 3 (1 ∷ 2 ∷ 3 ∷ 4 ∷ []) [] told
calls-Captures_example = calls-Captures 2 story 5 "tok" 1 no_counts

abbrev two_conns : List (ℕ × String)
two_conns = (5, "a") ∷ (9, "b") ∷ []

-- The second run cannot be started, the first is stopped; both goroutines come to the job.
abbrev schedule : List Event
schedule =
    marked 0 1 10
    ∷ Event.start_failed 1 "no route" 11
    ∷ settled
    ∷ asked 0
    ∷ ended 0 1 "" 12
    ∷ settled
    ∷ finished 13
    ∷ dropped 1
    ∷ job_deleted
    ∷ []

abbrev end : World
end = steps (pos 1024) schedule (fresh_world two_conns 1)

end_counts : end.job.counts.active_run_count + end.job.counts.failed_run_count ≡ 0
unfolding steps step new_job new_run mark_started mark_start_failure request_stop stop
end_counts = refl

steps-Consistent_from_start_example : Consistent end
steps-Consistent_from_start_example =
    steps-Consistent_from_start (pos 1024) schedule two_conns 1 (omega arith)

job_is_done-iff-over_example :
    (job_is_done end.job ≡ true) ↔ (AllOver end.job.slots × (end.pending ≡ 0))
job_is_done-iff-over_example = job_is_done-iff-over (pos 1024) schedule two_conns 1 (omega arith)
