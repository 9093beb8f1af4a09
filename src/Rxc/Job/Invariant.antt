-- ===== src/Rxc/Job/Invariant.antt =====
-- server-rxc-job.go: the counters of a job, through any schedule of its critical sections.
use Prim.Native.String.{String}
use hodu.Prelude.{
  if◌then◌else◌, ℕ, ◌+◌, ◌<◌, ◌≡◌, refl, Bool, true, false, List, [], ◌∷◌, none, some, arith, inl,
  inr, Option-cases, Bool-cases, ℤ, length, get_elem?, bit, count,
}
use hodu.Rxc.Run.{
  Run, Counts, starting, running, stopping, stopped, failed, is_done, mark_start_failure,
  request_stop, stop, new_run,
}
use hodu.Rxc.Job.{Slot, Job, new_job, new_slots, on_run, settle, delete_run, job_is_done}
use hodu.Rxc.Job.Schedule.{
  Event, World, marking, writing, after, settle_one, mark_one, finished, job_deleted, marked,
  start_failed, asked, ended, wrote, dropped, settled, step, steps,
}
use hodu.Rxc.Job.Counting.{
  Consistent, Fits, Holds, Consistent-Holds, Fits-Consistent, has, is_live, is_lost,
  mark_started-Fits, mark_start_failure-Fits, request_stop-Fits, stop-Fits, write-Fits, delete-Fits,
}

-- A method that ends no run.
quiet-Consistent :
    {A : Type 0} (f : Run × Counts → Run × Counts × A) (i : ℕ) (w : World)
    → ((x : Slot)
        → Holds x w.job.counts
        → let (r, k, a) = f (x.run, w.job.counts) in Fits x (record x { run = r }) w.job.counts k 0)
    → Consistent w
    → Consistent (record w { job = (on_run f i w.job).0 })
unfolding on_run
quiet-Consistent f i w fits c = elim (Option-cases (get_elem? w.job.slots i)) [
  | inl e ↦ rw (e, on_run) c
  | inr (x, e) ↦
      rw (e, on_run)
        (omega (arith, Fits-Consistent w i x e _ _ 0 (fits x (Consistent-Holds w i x e c)) c))
]

moved-Consistent :
    (w : World) (moved : Bool) (j : Job)
    → Consistent (record w { job = j; pending = w.pending + bit moved })
    → Consistent (after w (j, some moved))
moved-Consistent w true j c = c
moved-Consistent w false j c = omega (arith, c)

-- A method that may end the run.
ending-Consistent :
    (f : Run × Counts → Run × Counts × Bool) (i : ℕ) (w : World)
    → ((x : Slot)
        → Holds x w.job.counts
        → let (r, k, moved) = f (x.run, w.job.counts) in
          Fits x (record x { run = r }) w.job.counts k (bit moved))
    → Consistent w
    → Consistent (after w (on_run f i w.job))
unfolding on_run
ending-Consistent f i w fits c = elim (Option-cases (get_elem? w.job.slots i)) [
  | inl e ↦ rw (e, on_run) c
  | inr (x, e) ↦
      rw (e, on_run)
        (moved-Consistent w _ _
          (Fits-Consistent w i x e _ _ _ (fits x (Consistent-Holds w i x e c)) c))
]

delete_run-Consistent :
    (i : ℕ) (w : World) → Consistent w → Consistent (record w { job = (delete_run i w.job).0 })
unfolding delete_run
delete_run-Consistent i w c = elim (Option-cases (get_elem? w.job.slots i)) [
  | inl e ↦ rw (e, delete_run) c
  | inr (x, e) ↦ elim (Bool-cases (is_done x.run)) [
    | inl done ↦ elim (Bool-cases x.in_map) [
      | inl mapped ↦
          rw (e, delete_run, done, mapped)
            (omega (
              arith,
              Fits-Consistent w i x e _ _ 0
                  (delete-Fits x _ (Consistent-Holds w i x e c) done mapped) c,
            ))
      | inr unmapped ↦ rw (e, delete_run, done, unmapped) c
    ]
    | inr active ↦ rw (e, delete_run, active) c
  ]
]

settle_one-Consistent : (w : World) → 0 < w.pending → Consistent w → Consistent (settle_one w)
unfolding settle
settle_one-Consistent w h c = ground (arith, c.refused_once)

mark_one-Consistent :
    (now : ℕ) (w : World) → 0 < w.to_mark → Consistent w → Consistent (mark_one now w)
mark_one-Consistent now w h c = elim (Bool-cases w.in_table) [
  | inl there ↦ ground (arith, c.refused_once there)
  | inr gone ↦ ground arith
]

job_deleted-Consistent :
    (w : World)
    → Consistent w
    → Consistent (if job_is_done w.job then record w { in_table = false } else w)
unfolding job_is_done
job_deleted-Consistent w c = elim (Bool-cases (job_is_done w.job)) [
  | inl over ↦ rw over (ground arith)
  | inr active ↦ rw active c
]

step-Consistent : (m : ℤ) (e : Event) (w : World) → Consistent w → Consistent (step m e w)
unfolding step
step-Consistent m (marked i rxc_id now) w c =
    quiet-Consistent (marking rxc_id now) i w (λ x h. mark_started-Fits x w.job.counts h rxc_id now)
      c
step-Consistent m (start_failed i msg now) w c =
    ending-Consistent (mark_start_failure msg now) i w
      (λ x h. mark_start_failure-Fits x w.job.counts h msg now) c
step-Consistent m (asked i) w c =
    quiet-Consistent request_stop i w (λ x h. request_stop-Fits x w.job.counts h) c
step-Consistent m (ended i flags msg now) w c =
    ending-Consistent (stop flags msg now) i w (λ x h. stop-Fits x w.job.counts h flags msg now) c
step-Consistent m (wrote i flags bytes) w c =
    quiet-Consistent (writing m flags bytes) i w (λ x h. write-Fits x w.job.counts h m flags bytes)
      c
step-Consistent m (dropped i) w c = delete_run-Consistent i w c
step-Consistent m settled w c = ground (arith, settle_one-Consistent w)
step-Consistent m (finished now) w c = ground (arith, mark_one-Consistent now w)
step-Consistent m job_deleted w c = job_deleted-Consistent w c

steps-Consistent : (m : ℤ) (es : List Event) (w : World) → Consistent w → Consistent (steps m es w)
unfolding steps
steps-Consistent m [] w c = c
steps-Consistent m (e ∷ es) w c = steps-Consistent m es (step m e w) (step-Consistent m e w c)

-- A job as `StartRxcJob` makes it, before any call on its runs.
abbrev pub fresh_world : List (ℕ × String) → ℕ → World
fresh_world conns now = record {
  job = new_job conns now;
  pending = 0;
  to_mark = 0;
  in_table = true;
  done = none;
  marks = 0;
  refusals = 0;
}

new_slots_counts :
    (now : ℕ) (conns : List (ℕ × String))
    → let slots = new_slots now conns in
      (count (has starting) slots ≡ length conns)
      × (count is_live slots ≡ length conns)
      × (count (has running) slots ≡ 0)
      × (count (has stopping) slots ≡ 0)
      × (count (has stopped) slots ≡ 0)
      × (count (has failed) slots ≡ 0)
      × (count is_lost slots ≡ 0)
unfolding new_slots new_run
new_slots_counts now [] = (refl, refl, refl, refl, refl, refl, refl)
new_slots_counts now (c ∷ conns) = omega (arith, new_slots_counts now conns)

fresh_world-Consistent :
    (conns : List (ℕ × String)) (now : ℕ) → 0 < length conns → Consistent (fresh_world conns now)
unfolding new_job
fresh_world-Consistent conns now h = ground (arith, new_slots_counts now conns)

-- For a job started on at least one connection, after any schedule of critical sections on its runs,
-- each status counter is the number of its runs still listed in that status, the active count is the
-- number of runs that are not over plus the goroutines that have yet to lower it, no run that is not
-- over has been deleted. While the active count is not 0 the job has no done time. Once it is 0,
-- exactly one caller has gone on to mark the job: it has still to do it, or it has marked the job,
-- or it has found that the job was deleted from the server's table. The job has a done time exactly
-- if it was marked, so once at most.
pub steps-Consistent_from_start :
    (m : ℤ) (es : List Event) (conns : List (ℕ × String)) (now : ℕ)
    → 0 < length conns
    → Consistent (steps m es (fresh_world conns now))
steps-Consistent_from_start m es conns now h =
    steps-Consistent m es _ (fresh_world-Consistent conns now h)
