-- ===== src/Rxc/Job/Done.antt =====
-- server-rxc-job.go: what `ServerRxcJob.is_done` and the status counters tell of the runs.
use Prim.Native.String.{String}
use hodu.Prelude.{ℕ, ◌+◌, ◌<◌, ◌≡◌, ◌↔◌, refl, true, List, [], ◌∷◌, arith, ℤ, length, count}
use hodu.Rxc.Run.{starting, running, stopping, stopped, failed, is_done}
use hodu.Rxc.Job.{Slot, job_is_done}
use hodu.Rxc.Job.Schedule.{Event, World, steps}
use hodu.Rxc.Job.Counting.{Consistent, has, is_live}
use hodu.Rxc.Job.Invariant.{fresh_world, steps-Consistent_from_start}

-- Every run is stopped or failed, the deleted ones too.
abbrev pub AllOver : List Slot → Type 0
AllOver [] = Unit
AllOver (x ∷ xs) = (is_done x.run ≡ true) × AllOver xs

AllOver-of_count : (xs : List Slot) → count is_live xs ≡ 0 → AllOver xs
unfolding is_done
AllOver-of_count [] h = tt
AllOver-of_count (x ∷ xs) h = (ground arith, AllOver-of_count xs (omega arith))

count_of_AllOver : (xs : List Slot) → AllOver xs → count is_live xs ≡ 0
unfolding is_done
count_of_AllOver [] h = refl
count_of_AllOver (x ∷ xs) h = ground (arith, count_of_AllOver xs h.1, h.0)

job_is_done_iff :
    (w : World)
    → Consistent w
    → (job_is_done w.job ≡ true) ↔ (AllOver w.job.slots × (w.pending ≡ 0))
unfolding job_is_done
job_is_done_iff w c = (
  λ e. (AllOver-of_count w.job.slots (ground arith), ground arith),
  λ p. ground (arith, count_of_AllOver w.job.slots p.0),
)

-- After any schedule on a job started on at least one connection, `is_done` answers yes exactly when
-- every run is stopped or failed and no goroutine that ended one has yet to lower the active count.
pub job_is_done-iff-over :
    (m : ℤ) (es : List Event) (conns : List (ℕ × String)) (now : ℕ)
    → 0 < length conns
    → let w = steps m es (fresh_world conns now) in
      (job_is_done w.job ≡ true) ↔ (AllOver w.job.slots × (w.pending ≡ 0))
job_is_done-iff-over m es conns now h =
    job_is_done_iff (steps m es (fresh_world conns now))
      (steps-Consistent_from_start m es conns now h)

status_total :
    (xs : List Slot)
    → count (has starting) xs
        + count (has running) xs
        + count (has stopping) xs
        + count (has stopped) xs
        + count (has failed) xs
      ≡ count (λ x. x.in_map) xs
status_total [] = refl
status_total (x ∷ xs) = ground (arith, status_total xs)

-- After any schedule on a job started on at least one connection, the five status counters add up to
-- the number of runs listed in `run_map`.
pub counters-sum :
    (m : ℤ) (es : List Event) (conns : List (ℕ × String)) (now : ℕ)
    → 0 < length conns
    → let j = (steps m es (fresh_world conns now)).job in
      let k = j.counts in
      k.starting_run_count + k.running_run_count + k.stopping_run_count + k.stopped_run_count
        + k.failed_run_count
      ≡ count (λ x. x.in_map) j.slots
counters-sum m es conns now h = omega (
  arith,
  steps-Consistent_from_start m es conns now h,
  status_total (steps m es (fresh_world conns now)).job.slots,
)
