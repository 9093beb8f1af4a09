-- ===== src/Rxc/Job/Counting.antt =====
-- server-rxc-job.go: the counters of a job count its runs.
use Prim.Native.String.{String}
use hodu.Prelude.{
  ℕ, ◌+◌, ◌≤◌, ◌≡◌, ap, Bool, true, false, not, ◌&&◌, List, some, arith, ◌==◌, ℤ, set, get_elem?,
  bit, count, count-set, bit-le-count,
}
use hodu.Rxc.Run.{
  Counts, Status, starting, running, stopping, stopped, failed, status_eq, is_over, is_done,
  decrement, mark_started, mark_start_failure, request_stop, stop, write,
}
use hodu.Rxc.Job.{Slot}
use hodu.Rxc.Job.Schedule.{World, has_done}

-- An entry of `run_map` in a status, a run that is not over, and such a run outside `run_map`.
abbrev pub has : Status → Slot → Bool
has s x = x.in_map && status_eq x.run.status s

abbrev pub is_live : Slot → Bool
is_live x = not (is_over x.run.status)

abbrev pub is_lost : Slot → Bool
is_lost x = not x.in_map && is_live x

-- The counters say what the slots hold; the active count is ahead by the goroutines that have yet
-- to come to it; and the job has been marked once if that count is 0, and not at all otherwise.
pub record Consistent (w : World) : Type 0 where
  pub starts : w.job.counts.starting_run_count ≡ count (has starting) w.job.slots
  pub runs : w.job.counts.running_run_count ≡ count (has running) w.job.slots
  pub stops : w.job.counts.stopping_run_count ≡ count (has stopping) w.job.slots
  pub ends : w.job.counts.stopped_run_count ≡ count (has stopped) w.job.slots
  pub fails : w.job.counts.failed_run_count ≡ count (has failed) w.job.slots
  pub lives : w.job.counts.active_run_count ≡ count is_live w.job.slots + w.pending
  pub none_lost : count is_lost w.job.slots ≡ 0
  pub marked_once : w.to_mark + w.marks + w.refusals ≡ bit (w.job.counts.active_run_count == 0)
  pub marks_done : w.marks ≡ bit (has_done w.done)
  pub refused_once : w.in_table ≡ true → w.refusals ≡ 0

-- How a slot and the counters change together.
pub record Fits (x y : Slot) (k k' : Counts) (gone : ℕ) : Type 0 where
  pub starts :
      k'.starting_run_count + bit (has starting x) ≡ k.starting_run_count + bit (has starting y)
  pub runs : k'.running_run_count + bit (has running x) ≡ k.running_run_count + bit (has running y)
  pub stops :
      k'.stopping_run_count + bit (has stopping x) ≡ k.stopping_run_count + bit (has stopping y)
  pub ends : k'.stopped_run_count + bit (has stopped x) ≡ k.stopped_run_count + bit (has stopped y)
  pub fails : k'.failed_run_count + bit (has failed x) ≡ k.failed_run_count + bit (has failed y)
  pub lives : bit (is_live x) ≡ bit (is_live y) + gone
  pub same_active : k'.active_run_count ≡ k.active_run_count
  pub none_lost : bit (is_lost y) ≡ 0

-- What the invariant says of one slot and the counters.
pub record Holds (x : Slot) (k : Counts) : Type 0 where
  pub starts : bit (has starting x) ≤ k.starting_run_count
  pub runs : bit (has running x) ≤ k.running_run_count
  pub stops : bit (has stopping x) ≤ k.stopping_run_count
  pub ends : bit (has stopped x) ≤ k.stopped_run_count
  pub fails : bit (has failed x) ≤ k.failed_run_count
  pub none_lost : bit (is_lost x) ≡ 0

module _ (w : World) (i : ℕ) (x : Slot) (at : get_elem? w.job.slots i ≡ some x) where
  pub Consistent-Holds : Consistent w → Holds x w.job.counts
  Consistent-Holds c = omega (
    arith,
    bit-le-count (has starting) w.job.slots i x at,
    bit-le-count (has running) w.job.slots i x at,
    bit-le-count (has stopping) w.job.slots i x at,
    bit-le-count (has stopped) w.job.slots i x at,
    bit-le-count (has failed) w.job.slots i x at,
    bit-le-count is_lost w.job.slots i x at,
  )

  pub Fits-Consistent :
      (y : Slot) (k : Counts) (gone : ℕ)
      → Fits x y w.job.counts k gone
      → Consistent w
      → Consistent (record w {
        job = record { counts = k; slots = set w.job.slots i y };
        pending = w.pending + gone;
      })
  Fits-Consistent y k gone f c = omega (
    arith,
    count-set (has starting) w.job.slots i x y at,
    count-set (has running) w.job.slots i x y at,
    count-set (has stopping) w.job.slots i x y at,
    count-set (has stopped) w.job.slots i x y at,
    count-set (has failed) w.job.slots i x y at,
    count-set is_live w.job.slots i x y at,
    count-set is_lost w.job.slots i x y at,
    ap (λ n. bit (n == 0)) f.same_active,
  )

module _ (x : Slot) (k : Counts) (h : Holds x k) where
  pub mark_started-Fits :
      (rxc_id now : ℕ)
      → let (r, k') = mark_started rxc_id now (x.run, k) in Fits x (record x { run = r }) k k' 0
  unfolding mark_started
  mark_started-Fits rxc_id now = ground arith

  pub mark_start_failure-Fits :
      (msg : String) (now : ℕ)
      → let (r, k', moved) = mark_start_failure msg now (x.run, k) in
        Fits x (record x { run = r }) k k' (bit moved)
  unfolding mark_start_failure
  mark_start_failure-Fits msg now = ground arith

  pub request_stop-Fits :
      let (r, k', target) = request_stop (x.run, k) in Fits x (record x { run = r }) k k' 0
  unfolding request_stop
  request_stop-Fits = ground arith

  pub stop-Fits :
      (flags : ℕ) (msg : String) (now : ℕ)
      → let (r, k', moved) = stop flags msg now (x.run, k) in
        Fits x (record x { run = r }) k k' (bit moved)
  unfolding stop
  stop-Fits flags msg now = ground arith

  pub write-Fits :
      (m : ℤ) (flags : ℕ) (bytes : List ℕ)
      → Fits x (record x { run = write m flags bytes x.run }) k k 0
  unfolding write
  write-Fits m flags bytes = ground arith

  -- `delete_run` on a run that is over and still in `run_map`.
  pub delete-Fits :
      is_done x.run ≡ true
      → x.in_map ≡ true
      → Fits x (record x { in_map = false }) k (decrement x.run.status k) 0
  unfolding is_done decrement
  delete-Fits done mapped = ground arith
