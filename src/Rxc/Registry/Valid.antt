-- ===== src/Rxc/Registry/Valid.antt =====
-- server-rxc-job.go: the job table and the expiry heap agree.
use hodu.Prelude.{
  ℕ, zero, suc, ◌+◌, ◌≤◌, ◌<◌, ◌≡◌, ◌≢◌, refl, ◌∙◌, true, arith, update, some, none, Bool-cases,
  inl, inr, ℤ, pos, negsuc,
}
use hodu.Rxc.Expiry.{Entry, Heap, heap_push, parent}
use hodu.Rxc.Expiry.Swaps.{holds, is_some}
use hodu.Rxc.Expiry.Laws.{IsValid, heap_push-Pushed}
use hodu.Rxc.Registry.{
  Registry, new_registry, register, set_job, is_entered, is_zero_time, mark_done, schedule_expiry,
}

pub record WellFormed (s : Registry) : Type 0 where
  pub heap_valid : IsValid s.heap
  pub entered_id : (id r : ℕ) → s.job_map id ≡ some r → (s.jobs r).id ≡ id
  pub entered_lt : (id r : ℕ) → s.job_map id ≡ some r → r < s.next_ref
  pub held_entered : (r : ℕ) → holds s.heap r ≡ true → s.job_map (s.jobs r).id ≡ some r
  pub held_done : (r : ℕ) → holds s.heap r ≡ true → is_some (s.jobs r).done ≡ true

pub new_registry-WellFormed : WellFormed new_registry
new_registry-WellFormed = record {
  heap_valid = record {
    coherent = record { points = λ i l. absurd (omega arith); back = λ r i e. cc };
    ordered = λ k p l. absurd (omega arith);
  };
  entered_id = λ id r e. cc;
  entered_lt = λ id r e. cc;
  held_entered = λ r e. cc;
  held_done = λ r e. cc;
}

-- A job outside the heap may change in all but its `heap_index`.
pub edit-IsValid :
    (r : ℕ) (e : Entry) (h : Heap)
    → IsValid h
    → (h.jobs r).heap_index ≡ none
    → e.heap_index ≡ none
    → IsValid (record h { jobs = update h.jobs r e })
edit-IsValid r e h v out out' = record {
  coherent = record {
    points = λ i l. ground (arith, v.coherent.points i l);
    back = λ q i p. ground (arith, v.coherent.back q i);
  };
  ordered = λ k p l.
      ground
        (arith, v.ordered k p l, v.coherent.points k l, v.coherent.points (parent k) (omega arith));
}

-- A job that is not in the heap has no index.
index_of_not_held : (r : ℕ) (h : Heap) → holds h r ≢ true → (h.jobs r).heap_index ≡ none
index_of_not_held r h n = ground arith

index_of_fresh :
    (s : Registry) (r : ℕ) → WellFormed s → s.next_ref ≤ r → (s.jobs r).heap_index ≡ none
index_of_fresh s r w l =
    index_of_not_held r s.heap
      (λ e. absurd (omega (arith, w.entered_lt (s.jobs r).id r (w.held_entered r e))))

pub register-WellFormed :
    (s : Registry) → WellFormed s → s.job_map s.next_id ≡ none → WellFormed (register s)
unfolding register
register-WellFormed s w free =
    let out = index_of_fresh s s.next_ref w (omega arith) in
    record {
      heap_valid = edit-IsValid s.next_ref _ s.heap w.heap_valid out refl;
      entered_id = λ id r e. ground (arith, w.entered_id id r, w.entered_lt id r);
      entered_lt = λ id r e. ground (arith, w.entered_lt id r);
      held_entered = λ r e. ground (arith, w.held_entered r, w.entered_lt (s.jobs r).id r, out);
      held_done = λ r e. ground (arith, w.held_done r, out);
    }

-- What `is_entered` says.
pub entered_ref : (r : ℕ) (s : Registry) → is_entered r s ≡ true → s.job_map (s.jobs r).id ≡ some r
entered_ref r s h = ground arith

pub set_done-WellFormed :
    (r t : ℕ) (s : Registry)
    → WellFormed s
    → (s.jobs r).heap_index ≡ none
    → WellFormed (set_job r (record (s.jobs r) { done = some t }) s)
set_done-WellFormed r t s w out = record {
  heap_valid = edit-IsValid r _ s.heap w.heap_valid out out;
  entered_id = λ id q e. ground (arith, w.entered_id id q);
  entered_lt = λ id q e. w.entered_lt id q e;
  held_entered = λ q e. ground (arith, w.held_entered q);
  held_done = λ q e. ground (arith, w.held_done q);
}

pub set_expiry-WellFormed :
    (r t : ℕ) (s : Registry)
    → WellFormed s
    → (s.jobs r).heap_index ≡ none
    → WellFormed (set_job r (record (s.jobs r) { expire_at = t }) s)
set_expiry-WellFormed r t s w out = record {
  heap_valid = edit-IsValid r _ s.heap w.heap_valid out out;
  entered_id = λ id q e. ground (arith, w.entered_id id q);
  entered_lt = λ id q e. w.entered_lt id q e;
  held_entered = λ q e. ground (arith, w.held_entered q);
  held_done = λ q e. ground (arith, w.held_done q);
}

push-WellFormed :
    (r : ℕ) (s : Registry)
    → WellFormed s
    → (s.jobs r).heap_index ≡ none
    → s.job_map (s.jobs r).id ≡ some r
    → is_some (s.jobs r).done ≡ true
    → WellFormed (record s { heap = heap_push r s.heap })
push-WellFormed r s w out entered done =
    let p = heap_push-Pushed r s.heap w.heap_valid out in
    record {
      heap_valid = p.valid;
      entered_id = λ id q e. p.same_id q ∙ w.entered_id id q e;
      entered_lt = w.entered_lt;
      held_entered = λ q e. ground (arith, p.held q, p.same_id q, w.held_entered q);
      held_done = λ q e. ground (arith, p.held q, p.same_done q, w.held_done q);
    }

schedule_expiry-WellFormed :
    (r now : ℕ) (retention : ℤ) (s : Registry)
    → WellFormed s
    → (s.jobs r).heap_index ≡ none
    → s.job_map (s.jobs r).id ≡ some r
    → is_some (s.jobs r).done ≡ true
    → WellFormed (schedule_expiry r now retention s)
unfolding schedule_expiry
schedule_expiry-WellFormed r now (negsuc n) s w out entered done = w
schedule_expiry-WellFormed r now (pos zero) s w out entered done = w
schedule_expiry-WellFormed r now (pos (suc n)) s w out entered done =
    push-WellFormed r _ (set_expiry-WellFormed r (now + suc n) s w out) (ground arith)
      (ground arith) (ground arith)

-- The first time that a job is marked, it is not in the heap.
pub index_of_not_done :
    (r : ℕ) (s : Registry)
    → WellFormed s
    → is_zero_time (s.jobs r).done ≡ true
    → (s.jobs r).heap_index ≡ none
index_of_not_done r s w z =
    index_of_not_held r s.heap (λ e. absurd (ground (arith, w.held_done r e)))

pub mark_done-WellFormed :
    (r now : ℕ) (retention : ℤ) (s : Registry)
    → WellFormed s
    → WellFormed (mark_done r now retention s).0
unfolding mark_done
mark_done-WellFormed r now retention s w = elim (Bool-cases (is_entered r s)) [
  | inl entered ↦ elim (Bool-cases (is_zero_time (s.jobs r).done)) [
    | inl z ↦
        let out = index_of_not_done r s w z in
        rw (entered, z)
          (schedule_expiry-WellFormed r now retention _ (set_done-WellFormed r now s w out)
            (ground arith) (ground (arith, entered_ref r s entered)) (ground arith))
    | inr z ↦ rw (entered, z) w
  ]
  | inr absent ↦ rw absent w
]
