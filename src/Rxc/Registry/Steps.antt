-- ===== src/Rxc/Registry/Steps.antt =====
-- server-rxc-job.go: any sequence of the critical sections of `rxc_job_mtx`.
use hodu.Prelude.{
  ℕ, suc, ◌≡◌, Bool, true, false, none, ℤ, pos, negsuc, zero, Bool-cases, inl, inr, subst, sym,
}
use hodu.Rxc.Registry.{
  Registry, new_registry, register, mark_done, delete_job, delete_rxc_job, purge_stale,
  notify_purge, notify_if,
}
use hodu.Rxc.Registry.Valid.{
  WellFormed, new_registry-WellFormed, register-WellFormed, mark_done-WellFormed,
}
use hodu.Rxc.Registry.Deletion.{delete_job-WellFormed}
use hodu.Rxc.Registry.Purge.{purge_stale-PurgeResult}

-- A job is entered under an id that no job has, as long as the 64-bit ids have not gone round.
pub data Step (s : Registry) : Registry → Type 0 where
  registers : s.job_map s.next_id ≡ none → Step s (register s)
  marks : (r now : ℕ) (retention : ℤ) → Step s (mark_done r now retention s).0
  notifies : Step s (notify_purge s)
  deletes : (r : ℕ) (done : Bool) (retention : ℤ) → Step s (delete_rxc_job r done retention s).0
  purges : (now : ℕ) (expiry : ℤ) → Step s (purge_stale now expiry s).0

-- What a server that started with no jobs can come to.
pub data Reach : Registry → Type 0 where
  start : Reach new_registry
  next : {s s' : Registry} → Reach s → Step s s' → Reach s'

notify_purge-WellFormed : (s : Registry) → WellFormed s → WellFormed (notify_purge s)
unfolding notify_purge
notify_purge-WellFormed s w = record {
  heap_valid = w.heap_valid;
  entered_id = w.entered_id;
  entered_lt = w.entered_lt;
  held_entered = w.held_entered;
  held_done = w.held_done;
}

notify_if-WellFormed :
    (retention : ℤ) (s : Registry) → WellFormed s → WellFormed (notify_if retention s)
unfolding notify_if
notify_if-WellFormed (negsuc n) s w = w
notify_if-WellFormed (pos zero) s w = w
notify_if-WellFormed (pos (suc n)) s w = notify_purge-WellFormed s w

delete_rxc_job-WellFormed :
    (r : ℕ) (done : Bool) (retention : ℤ) (s : Registry)
    → WellFormed s
    → WellFormed (delete_rxc_job r done retention s).0
unfolding delete_rxc_job
delete_rxc_job-WellFormed r false retention s w = w
delete_rxc_job-WellFormed r true retention s w = elim (Bool-cases (delete_job r s).1) [
  | inl ok ↦ rw ok (notify_if-WellFormed retention _ (delete_job-WellFormed r s w))
  | inr absent ↦ rw absent w
]

purge_stale-WellFormed :
    (now : ℕ) (expiry : ℤ) (s : Registry) → WellFormed s → WellFormed (purge_stale now expiry s).0
purge_stale-WellFormed now (negsuc n) s w =
    subst WellFormed (sym (purge_stale-PurgeResult now (negsuc n) s w).0) w
purge_stale-WellFormed now (pos zero) s w =
    subst WellFormed (sym (purge_stale-PurgeResult now (pos zero) s w).0) w
purge_stale-WellFormed now (pos (suc n)) s w = (purge_stale-PurgeResult now (pos (suc n)) s w).valid

Step-WellFormed : {s s' : Registry} → Step s s' → WellFormed s → WellFormed s'
Step-WellFormed {s} (registers free) w = register-WellFormed s w free
Step-WellFormed {s} (marks r now retention) w = mark_done-WellFormed r now retention s w
Step-WellFormed {s} notifies w = notify_purge-WellFormed s w
Step-WellFormed {s} (deletes r done retention) w = delete_rxc_job-WellFormed r done retention s w
Step-WellFormed {s} (purges now expiry) w = purge_stale-WellFormed now expiry s w

-- In every state that the server can come to, as long as no job is entered under an id in use, the
-- expiry heap is in heap order, each job's `heap_index` is its place in the slice, each entry of the
-- table has its key for an id, and each job in the heap is in the table and done.
pub Reach-WellFormed : {s : Registry} → Reach s → WellFormed s
Reach-WellFormed start = new_registry-WellFormed
Reach-WellFormed (next r st) = Step-WellFormed st (Reach-WellFormed r)
