-- ===== src/Rxc/Registry/Marking.antt =====
-- server-rxc-job.go: what marking a job as done leaves.
use hodu.Prelude.{
  ℕ, zero, suc, ◌+◌, ◌≡◌, refl, ◌∙◌, Bool, true, false, arith, ◌==◌, if◌then◌else◌, some, none,
  Bool-cases, inl, inr, ℤ, pos, negsuc, ◌||◌, ◌&&◌, ◌≢◌,
}
use hodu.Rxc.Expiry.{Entry}
use hodu.Rxc.Expiry.Swaps.{holds}
use hodu.Rxc.Expiry.Laws.{heap_push-Pushed}
use hodu.Rxc.Registry.{Registry, set_job, is_entered, is_zero_time, schedule_expiry, mark_done}
use hodu.Rxc.Registry.Valid.{
  WellFormed, index_of_not_done, set_done-WellFormed, set_expiry-WellFormed,
}

abbrev pub is_kept : ℤ → Bool
is_kept (negsuc n) = false
is_kept (pos zero) = false
is_kept (pos (suc n)) = true

-- The job at `r` is done since `now`; it is in the heap, to expire after the retention, if that is
-- positive, and not in the heap otherwise; the table and the other jobs are as they were.
pub record Marked (r now : ℕ) (retention : ℤ) (s s' : Registry) : Type 0 where
  pub done_now : (s'.jobs r).done ≡ some now
  pub held : (q : ℕ) → holds s'.heap q ≡ (q == r && is_kept retention || holds s.heap q)
  pub expiry : (n : ℕ) → retention ≡ pos (suc n) → (s'.jobs r).expire_at ≡ now + suc n
  pub same_map : s'.job_map ≡ s.job_map
  pub others :
      (q : ℕ)
      → q ≢ r
      → ((s'.jobs q).done ≡ (s.jobs q).done) × ((s'.jobs q).expire_at ≡ (s.jobs q).expire_at)
  pub same_id : (q : ℕ) → (s'.jobs q).id ≡ (s.jobs q).id

schedule_expiry-Marked :
    (r now : ℕ) (retention : ℤ) (s : Registry)
    → WellFormed s
    → (s.jobs r).heap_index ≡ none
    → Marked r now retention s
        (schedule_expiry r now retention (set_job r (record (s.jobs r) { done = some now }) s))
unfolding schedule_expiry
schedule_expiry-Marked r now (negsuc n) s w out = record {
  done_now = ground arith;
  held = λ q. ground arith;
  expiry = λ n e. cc;
  same_map = refl;
  others = λ q ne. ground arith;
  same_id = λ q. ground arith;
}
schedule_expiry-Marked r now (pos zero) s w out = record {
  done_now = ground arith;
  held = λ q. ground arith;
  expiry = λ n e. cc;
  same_map = refl;
  others = λ q ne. ground arith;
  same_id = λ q. ground arith;
}
schedule_expiry-Marked r now (pos (suc n)) s w out =
    let e : Entry = record (s.jobs r) { done = some now } in
    let s1 = set_job r e s in
    let s2 = set_job r (record (s1.jobs r) { expire_at = now + suc n }) s1 in
    let w2 =
      set_expiry-WellFormed r (now + suc n) s1 (set_done-WellFormed r now s w out) (ground arith) in
    let p = heap_push-Pushed r s2.heap w2.heap_valid (ground arith) in
    record {
      done_now = p.same_done r ∙ ground arith;
      held = λ q. p.held q ∙ ground arith;
      expiry = λ m eq. p.same_expiry r ∙ ground arith;
      same_map = refl;
      others = λ q ne. (p.same_done q ∙ ground arith, p.same_expiry q ∙ ground arith);
      same_id = λ q. p.same_id q ∙ ground arith;
    }

-- In a table that agrees with its heap, marking a job that is entered and has no done time marks it
-- and answers yes; marking any other job changes nothing and answers no.
pub mark_done-Marked :
    (r now : ℕ) (retention : ℤ) (s : Registry)
    → WellFormed s
    → let (s', marked) = mark_done r now retention s in
      if is_entered r s && is_zero_time (s.jobs r).done
      then Marked r now retention s s' × (marked ≡ true)
      else (s' ≡ s) × (marked ≡ false)
unfolding mark_done
mark_done-Marked r now retention s w = elim (Bool-cases (is_entered r s)) [
  | inl entered ↦ elim (Bool-cases (is_zero_time (s.jobs r).done)) [
    | inl z ↦
        rw (entered, z)
          (schedule_expiry-Marked r now retention s w (index_of_not_done r s w z), refl)
    | inr z ↦ rw (entered, z) (refl, refl)
  ]
  | inr absent ↦ rw absent (refl, refl)
]
