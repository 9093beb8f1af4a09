-- ===== src/Rxc/Job.antt =====
-- server-rxc-job.go: the runs of one job and its counters (`ServerRxcJob`), with the methods that
-- lock a run or `run_mtx`. A run object outlives its entry in `run_map`, since the connection's
-- rxc table still holds it: a slot is a run object with whether `run_map` has it, and an index into
-- `slots` stands for the pointer.
pub mod Schedule
pub mod Counting
pub mod Invariant
pub mod Done
use Prim.Native.String.{String}
use hodu.Prelude.{
  ℕ, zero, suc, ◌+◌, ◌-◌, Bool, true, false, ◌&&◌, List, [], ◌∷◌, Option, none, some, ltb, leb,
  ◌==◌, if◌then◌else◌, ℤ, length, get_elem?, set,
}
use hodu.Rxc.Run.{
  Run, Counts, Status, starting, new_run, is_done, decrement, mark_started, mark_start_failure,
  request_stop, stop, write,
}

pub record Slot : Type 0 where
  pub run : Run
  pub in_map : Bool

pub record Job : Type 0 where
  pub counts : Counts
  pub slots : List Slot

-- A method of the run at an index, on the run and the counters.
unfoldable pub on_run : {A : Type 0} → (Run × Counts → Run × Counts × A) → ℕ → Job → Job × Option A
on_run f i j = elim (get_elem? j.slots i) [
  | none ↦ (j, none)
  | some x ↦
      let (r, k, a) = f (x.run, j.counts) in
      (record { counts = k; slots = set j.slots i (record x { run = r }) }, some a)
]

new_slots : ℕ → List (ℕ × String) → List Slot
new_slots now [] = []
new_slots now ((conn_id, token) ∷ conns) =
    record { run = new_run conn_id token now; in_map = true } ∷ new_slots now conns

-- The job that `StartRxcJob` makes for the resolved connections, each with its client token.
unfoldable pub new_job : List (ℕ × String) → ℕ → Job
unfolding new_slots
new_job conns now = record {
  counts = record {
    active_run_count = length conns;
    starting_run_count = length conns;
    running_run_count = 0;
    stopping_run_count = 0;
    stopped_run_count = 0;
    failed_run_count = 0;
  };
  slots = new_slots now conns;
}

-- `ServerRxcJob.is_done`: `active_run_count <= 0`.
unfoldable pub job_is_done : Job → Bool
job_is_done j = leb j.counts.active_run_count 0

-- The part of `maybe_mark_rxc_job_done` under `run_mtx`; the flag says whether it goes on.
unfoldable pub settle : Counts → Counts × Bool
settle k =
    if ltb 0 k.active_run_count
    then (let left = record k { active_run_count = k.active_run_count - 1 } in
        if ltb 0 left.active_run_count then (left, false) else (left, true))
    else (k, true)

pub data Deleted : Type 0 where
  deleted active_run non_existent : Deleted

-- `DeleteRxcJobRun` with `delete_run`.
unfoldable pub delete_run : ℕ → Job → Job × Deleted
unfolding is_done decrement
delete_run i j = elim (get_elem? j.slots i) [
  | none ↦ (j, non_existent)
  | some x ↦
      if is_done x.run
      then (if x.in_map
          then (
            record {
              counts = decrement x.run.status j.counts;
              slots = set j.slots i (record x { in_map = false });
            },
            deleted,
          )
          else (j, non_existent))
      else (j, active_run)
]
