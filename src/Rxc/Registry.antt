-- ===== src/Rxc/Registry.antt =====
-- server-rxc-job.go: the server's table of rxc jobs with their expiry heap, all under `rxc_job_mtx`.
-- A number stands for a job's pointer, and `next_ref` for the allocator. Durations are signed.
pub mod Valid
pub mod Deletion
pub mod Marking
pub mod Purge
pub mod Steps
mod Tests
use hodu.Prelude.{
  ℕ, zero, suc, ◌+◌, ◌-◌, ◌%◌, ◌^◌, Bool, true, false, ◌&&◌, List, [], ◌∷◌, Option, none, some, ltb,
  leb, ◌==◌, if◌then◌else◌, update, ℤ, pos, negsuc,
}
use hodu.Rxc.Expiry.{Entry, Heap, heap_push, heap_remove}

pub record Registry : Type 0 where
  pub heap : Heap
  pub open heap use {jobs}
  pub job_map : ℕ → Option ℕ
  pub next_id : ℕ
  pub next_ref : ℕ
  -- what `rxc_job_purge_chan`, of capacity 1, holds
  pub purge_chan : ℕ

-- rxc_job_mtx guards an empty table when the server starts.
abbrev pub new_registry : Registry
new_registry = record {
  heap = record {
    jobs = λ r. record { id = 0; done = none; expire_at = 0; heap_index = none };
    at = λ i. 0;
    len = 0;
  };
  job_map = λ id. none;
  next_id = 1;
  next_ref = 0;
  purge_chan = 0;
}

-- `n++`, and once more if that gives 0, on a uint64.
abbrev pub next_nonzero : ℕ → ℕ
next_nonzero n = let n' = (n + 1) % 2 ^ 64 in if n' == 0 then n' + 1 else n'

abbrev pub set_job : ℕ → Entry → Registry → Registry
set_job r e s = record s { heap = record s.heap { jobs = update s.jobs r e } }

-- The part of `StartRxcJob` that makes the job and enters it.
unfoldable pub register : Registry → Registry
register s =
    record (set_job s.next_ref
      (record { id = s.next_id; done = none; expire_at = 0; heap_index = none }) s) {
        job_map = update s.job_map s.next_id (some s.next_ref);
        next_id = next_nonzero s.next_id;
        next_ref = s.next_ref + 1;
      }

-- `existing, ok = s.rxc_job_map[job.Id]; ok && existing == job`
abbrev pub is_entered : ℕ → Registry → Bool
is_entered r s = elim (s.job_map (s.jobs r).id) [ none ↦ false | some q ↦ q == r ]

abbrev pub is_zero_time : Option ℕ → Bool
is_zero_time none = true
is_zero_time (some t) = false

-- notify_rxc_job_purge: a send that gives way to a full channel.
unfoldable pub notify_purge : Registry → Registry
notify_purge s = record s { purge_chan = 1 }

schedule_expiry : ℕ → ℕ → ℤ → Registry → Registry
schedule_expiry r now (negsuc n) s = s
schedule_expiry r now (pos zero) s = s
schedule_expiry r now (pos (suc n)) s =
    let s' = set_job r (record (s.jobs r) { expire_at = now + suc n }) s in
    record s' { heap = heap_push r s'.heap }

-- The part of `maybe_mark_rxc_job_done` under `rxc_job_mtx`, with RxcDoneJobRetention.
unfoldable pub mark_done : ℕ → ℕ → ℤ → Registry → Registry × Bool
unfolding schedule_expiry
mark_done r now retention s =
    if is_entered r s
    then if is_zero_time (s.jobs r).done
      then (
        schedule_expiry r now retention (set_job r (record (s.jobs r) { done = some now }) s),
        true,
      )
      else (s, false)
    else (s, false)

-- delete_server_rxc_job_from_heap_no_lock
unfoldable pub delete_from_heap : ℕ → Registry → Registry
delete_from_heap r s = elim (s.jobs r).heap_index [
  | none ↦ s
  | some i ↦
      let h = heap_remove i s.heap in
      record s { heap = record h { jobs = update h.jobs r (record (h.jobs r) { expire_at = 0 }) } }
]

-- delete_server_rxc_job_no_lock
unfoldable pub delete_job : ℕ → Registry → Registry × Bool
unfolding delete_from_heap
delete_job r s =
    if is_entered r s
    then (delete_from_heap r (record s { job_map = update s.job_map (s.jobs r).id none }), true)
    else (s, false)

-- The loop of `purge_stale_rxc_jobs`, on fuel, with its counter.
unfoldable pub purge_loop : ℕ → ℕ → ℕ → Registry → Registry × ℕ
purge_loop zero now purge_count s = (s, purge_count)
purge_loop (suc fuel) now purge_count s =
    let r = s.heap.at 0 in
    let (deleted, ok) = delete_job r s in
    let rest =
      if ok
      then purge_loop fuel now (purge_count + 1) deleted
      else purge_loop fuel now purge_count (delete_from_heap r s) in
    if leb s.heap.len 0
    then (s, purge_count)
    else if ltb now (s.jobs r).expire_at
    then (s, purge_count)
    else rest

-- purge_stale_rxc_jobs
unfoldable pub purge_stale : ℕ → ℤ → Registry → Registry × ℕ
purge_stale now (negsuc n) s = (s, 0)
purge_stale now (pos zero) s = (s, 0)
purge_stale now (pos (suc n)) s = purge_loop (s.heap.len + 1) now 0 s

-- get_next_rxc_job_purge_time
unfoldable pub next_purge_time : ℤ → Registry → Option ℕ
next_purge_time (negsuc n) s = none
next_purge_time (pos zero) s = none
next_purge_time (pos (suc n)) s =
    if leb s.heap.len 0 then none else some (s.jobs (s.heap.at 0)).expire_at

-- `if s.Cfg.RxcDoneJobRetention > 0 { s.notify_rxc_job_purge() }`
notify_if : ℤ → Registry → Registry
unfolding notify_purge
notify_if (negsuc n) s = s
notify_if (pos zero) s = s
notify_if (pos (suc n)) s = notify_purge s

pub data DeleteResult : Type 0 where
  deleted active_job non_existent : DeleteResult

-- DeleteRxcJob; the flag is what `job.is_done` answers.
unfoldable pub delete_rxc_job : ℕ → Bool → ℤ → Registry → Registry × DeleteResult
unfolding notify_if
delete_rxc_job r done retention s =
    let (s', ok) = delete_job r s in
    if done
    then if ok then (notify_if retention s', deleted) else (s, non_existent)
    else (s, active_job)
