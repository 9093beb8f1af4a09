-- ===== src/Rxc/Registry/Deletion.antt =====
-- server-rxc-job.go: deleting a job from the table and the expiry heap.
use hodu.Prelude.{
  ℕ, ◌+◌, ◌≡◌, ◌≢◌, refl, subst, true, not, ◌&&◌, arith, ◌==◌, if◌then◌else◌, update, some, none,
  Bool-cases, Option-cases, inl, inr,
}
use hodu.Rxc.Expiry.{Heap, heap_remove}
use hodu.Rxc.Expiry.Swaps.{holds}
use hodu.Rxc.Expiry.Laws.{Removed, heap_remove-Removed}
use hodu.Rxc.Registry.{Registry, is_entered, delete_job}
use hodu.Rxc.Registry.Valid.{WellFormed, edit-IsValid, entered_ref}

-- The job at `r` has left the table and the heap, and nothing else has changed.
pub record Deleted (r : ℕ) (s s' : Registry) : Type 0 where
  pub valid : WellFormed s'
  pub map_gone : (id : ℕ) → s'.job_map id ≡ (if id == (s.jobs r).id then none else s.job_map id)
  pub held : (q : ℕ) → holds s'.heap q ≡ (not (q == r) && holds s.heap q)
  pub same_id : (q : ℕ) → (s'.jobs q).id ≡ (s.jobs q).id
  pub same_done : (q : ℕ) → (s'.jobs q).done ≡ (s.jobs q).done
  pub same_expiry : (q : ℕ) → q ≢ r → (s'.jobs q).expire_at ≡ (s.jobs q).expire_at
  pub length : s'.heap.len + (if holds s.heap r then 1 else 0) ≡ s.heap.len

module _ (r : ℕ) (s : Registry) (w : WellFormed s)
    (entered : s.job_map (s.jobs r).id ≡ some r) where
  unheld-Deleted :
      (s.jobs r).heap_index ≡ none
      → Deleted r s (record s { job_map = update s.job_map (s.jobs r).id none })
  unheld-Deleted out = record {
    valid = record {
      heap_valid = w.heap_valid;
      entered_id = λ id q e. ground (arith, w.entered_id id q);
      entered_lt = λ id q e. ground (arith, w.entered_lt id q);
      held_entered = λ q e. ground (arith, w.held_entered q);
      held_done = w.held_done;
    };
    map_gone = λ id. refl;
    held = λ q. ground arith;
    same_id = λ q. refl;
    same_done = λ q. refl;
    same_expiry = λ q n. refl;
    length = ground arith;
  }

  -- What is left of the heap when the job's entry has been removed.
  module _ (h : Heap) (removed : Removed r s.heap h) where
    left : Registry
    left = record s {
      job_map = update s.job_map (s.jobs r).id none;
      heap = record h { jobs = update h.jobs r (record (h.jobs r) { expire_at = 0 }) };
    }

    out : (h.jobs r).heap_index ≡ none
    out = ground (arith, removed.held r)

    left-WellFormed : WellFormed left
    unfolding left
    left-WellFormed = record {
      heap_valid = edit-IsValid r _ h removed.valid out out;
      entered_id = λ id q e. ground (arith, w.entered_id id q, removed.same_id q);
      entered_lt = λ id q e. ground (arith, w.entered_lt id q);
      held_entered =
          λ q e. ground (arith, w.held_entered q, removed.held q, removed.same_id q, out);
      held_done = λ q e. ground (arith, w.held_done q, removed.held q, removed.same_done q, out);
    }

    left-Deleted : holds s.heap r ≡ true → Deleted r s left
    unfolding left
    left-Deleted held = record {
      valid = left-WellFormed;
      map_gone = λ id. refl;
      held = λ q. ground (arith, removed.held q, out);
      same_id = λ q. ground (arith, removed.same_id q);
      same_done = λ q. ground (arith, removed.same_done q);
      same_expiry = λ q n. ground (arith, removed.same_expiry q);
      length = ground (arith, removed.one_less);
    }

-- `delete_server_rxc_job_no_lock` on a job that is entered, in a table that agrees with its heap,
-- answers yes and takes the job out of the table and, if it is there, out of the heap; the other
-- jobs stay as they are in both, and the table and the heap still agree.
pub delete_job-Deleted :
    (r : ℕ) (s : Registry)
    → WellFormed s
    → is_entered r s ≡ true
    → Deleted r s (delete_job r s).0 × ((delete_job r s).1 ≡ true)
unfolding delete_job left
delete_job-Deleted r s w e = elim (Option-cases (s.jobs r).heap_index) [
  | inl out ↦ rw (e, out) (unheld-Deleted r s w (entered_ref r s e) out, refl)
  | inr (i, inside) ↦
      let (lt, here) = w.heap_valid.coherent.back r i inside in
      rw (e, inside)
        (
          left-Deleted r s w (entered_ref r s e) (heap_remove i s.heap)
              (subst (λ q. Removed q s.heap (heap_remove i s.heap)) here
                (heap_remove-Removed i s.heap w.heap_valid lt))
              (ground arith),
          refl,
        )
]

pub delete_job-WellFormed : (r : ℕ) (s : Registry) → WellFormed s → WellFormed (delete_job r s).0
unfolding delete_job
delete_job-WellFormed r s w = elim (Bool-cases (is_entered r s)) [
  | inl e ↦ (delete_job-Deleted r s w e).0.valid
  | inr absent ↦ rw absent w
]
