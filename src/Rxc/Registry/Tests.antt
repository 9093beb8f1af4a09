-- ===== src/Rxc/Registry/Tests.antt =====
-- Runs of the models of the job table and its expiry heap on small inputs.
use hodu.Prelude.{◌≡◌, refl, some, none, pos}
use hodu.Rxc.Expiry.{
  heap_push, heap_remove, up, down, child, sink_out, less, swap, push_back, pop_back,
}
use hodu.Rxc.Registry.{
  Registry, new_registry, register, mark_done, purge_stale, purge_loop, next_purge_time, delete_job,
}
use hodu.Rxc.Registry.Valid.{WellFormed}
use hodu.Rxc.Registry.Purge.{PurgeResult, purge_stale-PurgeResult}
use hodu.Rxc.Registry.Steps.{Reach, Step, Reach-WellFormed}

-- Two jobs, of which the second is done first.
abbrev entered : Registry
entered = register (register new_registry)

abbrev both_done : Registry
both_done = (mark_done 0 30 (pos 60) (mark_done 1 10 (pos 60) entered).0).0

entered-Reach : Reach entered
unfolding register
entered-Reach = Reach.next (Reach.next Reach.start (Step.registers refl)) (Step.registers refl)

both_done-Reach : Reach both_done
both_done-Reach =
    Reach.next (Reach.next entered-Reach (Step.marks 1 10 (pos 60))) (Step.marks 0 30 (pos 60))

first_expiry : next_purge_time (pos 60) both_done ≡ some 70
unfolding next_purge_time mark_done register heap_push up less swap push_back
first_expiry = refl

both_done-WellFormed : WellFormed both_done
both_done-WellFormed = Reach-WellFormed both_done-Reach

Reach-WellFormed_example : WellFormed both_done
Reach-WellFormed_example = Reach-WellFormed both_done-Reach

purge_stale-PurgeResult_example :
    PurgeResult 80 (pos 60) both_done (purge_stale 80 (pos 60) both_done)
purge_stale-PurgeResult_example = purge_stale-PurgeResult 80 (pos 60) both_done both_done-WellFormed

-- At time 80 the first job has expired, and the other has not.
first_purged :
    let (s, purge_count) = purge_stale 80 (pos 60) both_done in
    (purge_count ≡ 1) × (s.job_map 2 ≡ none) × (s.job_map 1 ≡ some 0) × (s.heap.len ≡ 1)
unfolding purge_stale purge_loop delete_job mark_done register heap_push heap_remove sink_out up
    down child less swap push_back pop_back
first_purged = (refl, refl, refl, refl)
