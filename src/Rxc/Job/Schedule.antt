-- ===== src/Rxc/Job/Schedule.antt =====
-- server-rxc-job.go: the methods on the runs of one job, one critical section after another, in any
-- order that the locks allow.
use Prim.Native.String.{String}
use hodu.Prelude.{
  ℕ, ◌+◌, ◌-◌, Bool, true, false, List, [], ◌∷◌, Option, none, some, ltb, if◌then◌else◌, ℤ,
}
use hodu.Rxc.Run.{Run, Counts, mark_started, mark_start_failure, request_stop, stop, write}
use hodu.Rxc.Job.{Job, on_run, settle, delete_run, job_is_done}

-- A critical section; the number names the run.
pub data Event : Type 0 where
  marked : ℕ → ℕ → ℕ → Event
  start_failed : ℕ → String → ℕ → Event
  asked : ℕ → Event
  ended : ℕ → ℕ → String → ℕ → Event
  wrote : ℕ → ℕ → List ℕ → Event
  dropped : ℕ → Event
  settled : Event
  finished : ℕ → Event
  job_deleted : Event

-- The job, the calls of `stop` and `mark_start_failure` that have moved their run and not yet come
-- to `maybe_mark_rxc_job_done`, and those calls of that which have left `run_mtx` and go on to the
-- section under `rxc_job_mtx`; whether the server's table has the job, its `Done`, and how often that
-- section has set it and has refused to.
pub record World : Type 0 where
  pub job : Job
  pub pending : ℕ
  pub to_mark : ℕ
  pub in_table : Bool
  pub done : Option ℕ
  pub marks : ℕ
  pub refusals : ℕ

-- A transition that happened leaves its goroutine on the way to `maybe_mark_rxc_job_done`.
abbrev pub after : World → Job × Option Bool → World
after w (j, some true) = record w { job = j; pending = w.pending + 1 }
after w (j, some false) = record w { job = j }
after w (j, none) = record w { job = j }

-- The section of `maybe_mark_rxc_job_done` under `run_mtx`.
abbrev pub settle_one : World → World
settle_one w =
    let (k, goes_on) = settle w.job.counts in
    record w {
      job = record w.job { counts = k };
      pending = w.pending - 1;
      to_mark = if goes_on then w.to_mark + 1 else w.to_mark;
    }

abbrev pub has_done : Option ℕ → Bool
has_done none = false
has_done (some now) = true

-- Its section under `rxc_job_mtx`; what it does to the heap is in Rxc.Registry.
abbrev pub mark_one : ℕ → World → World
mark_one now w =
    let left = record w { to_mark = w.to_mark - 1 } in
    if w.in_table
    then (if has_done w.done
        then record left { refusals = left.refusals + 1 }
        else record left { done = some now; marks = left.marks + 1 })
    else record left { refusals = left.refusals + 1 }

-- `mark_started` and `Write` return nothing.
abbrev pub marking : ℕ → ℕ → Run × Counts → Run × Counts × Unit {0}
marking rxc_id now s = let (r, k) = mark_started rxc_id now s in (r, k, tt)

abbrev pub writing : ℤ → ℕ → List ℕ → Run × Counts → Run × Counts × Unit {0}
writing m flags bytes (r, k) = (write m flags bytes r, k, tt)

unfoldable pub step : ℤ → Event → World → World
unfolding on_run settle delete_run job_is_done
step m (marked i rxc_id now) w = record w { job = (on_run (marking rxc_id now) i w.job).0 }
step m (start_failed i msg now) w = after w (on_run (mark_start_failure msg now) i w.job)
step m (asked i) w = record w { job = (on_run request_stop i w.job).0 }
step m (ended i flags msg now) w = after w (on_run (stop flags msg now) i w.job)
step m (wrote i flags bytes) w = record w { job = (on_run (writing m flags bytes) i w.job).0 }
step m (dropped i) w = record w { job = (delete_run i w.job).0 }
step m settled w = if ltb 0 w.pending then settle_one w else w
step m (finished now) w = if ltb 0 w.to_mark then mark_one now w else w
step m job_deleted w = if job_is_done w.job then record w { in_table = false } else w

unfoldable pub steps : ℤ → List Event → World → World
steps m [] w = w
steps m (e ∷ es) w = steps m es (step m e w)
