-- ===== src/Rxc/Registry/Purge.antt =====
-- server-rxc-job.go: `purge_stale_rxc_jobs` and `get_next_rxc_job_purge_time`.
use hodu.Prelude.{
  ℕ, zero, suc, ◌+◌, ◌≤◌, ◌<◌, ◌≡◌, refl, subst, ◌∙◌, Bool, true, false, ◌&&◌, arith, ltb, leb,
  if◌then◌else◌, Option, some, none, Bool-cases, Option-cases, inl, inr, ℤ, pos, negsuc,
}
use hodu.Rxc.Expiry.{Key, key}
use hodu.Rxc.Expiry.Keys.{Le}
use hodu.Rxc.Expiry.Order.{root-Le}
use hodu.Rxc.Expiry.Swaps.{holds}
use hodu.Rxc.Registry.{Registry, is_entered, delete_job, purge_loop, purge_stale, next_purge_time}
use hodu.Rxc.Registry.Valid.{WellFormed}
use hodu.Rxc.Registry.Deletion.{Deleted, delete_job-Deleted}

-- The job at `r` is in the heap and its time has come.
abbrev pub is_stale : ℕ → Registry → ℕ → Bool
is_stale now s r = holds s.heap r && leb (s.jobs r).expire_at now

-- The table without the jobs that are stale at `now`.
abbrev pub unless_stale : ℕ → Registry → Option ℕ → Option ℕ
unless_stale now s none = none
unless_stale now s (some r) = if is_stale now s r then none else some r

abbrev pub without_stale : ℕ → Registry → ℕ → Option ℕ
without_stale now s id = unless_stale now s (s.job_map id)

-- Exactly the stale jobs have gone, from the table and from the heap, and the count says how many.
pub record Purged (now : ℕ) (s s' : Registry) (purge_count : ℕ) : Type 0 where
  pub valid : WellFormed s'
  pub map_left : (id : ℕ) → s'.job_map id ≡ without_stale now s id
  pub held_left : (r : ℕ) → holds s'.heap r ≡ (holds s.heap r && ltb now (s.jobs r).expire_at)
  pub counted : purge_count + s'.heap.len ≡ s.heap.len
  pub same_done : (r : ℕ) → (s'.jobs r).done ≡ (s.jobs r).done

expire_at-le : (a b : Key) → Le a b → a.expire_at ≤ b.expire_at
expire_at-le a b l = ground (arith, l.not_earlier)

-- The root expires first.
pub root_first :
    (s : Registry) (r : ℕ)
    → WellFormed s
    → holds s.heap r ≡ true
    → (0 < s.heap.len) × ((s.jobs (s.heap.at 0)).expire_at ≤ (s.jobs r).expire_at)
root_first s r w e = elim (Option-cases (s.jobs r).heap_index) [
  | inl out ↦ absurd (ground arith)
  | inr (i, inside) ↦
      let (lt, here) = w.heap_valid.coherent.back r i inside in
      (
        omega arith,
        subst (λ q. (s.jobs (s.heap.at 0)).expire_at ≤ (s.jobs q).expire_at) here
            (expire_at-le (key s.heap 0) (key s.heap i)
              (root-Le s.heap.len i (key s.heap) w.heap_valid.ordered lt)),
      )
]

all_kept :
    (now : ℕ) (s : Registry) (o : Option ℕ)
    → ((r : ℕ) → holds s.heap r ≡ true → now < (s.jobs r).expire_at)
    → o ≡ unless_stale now s o
all_kept now s none later = refl
all_kept now s (some r) later = ground (arith, later r)

-- No job in the heap is stale.
nothing-Purged :
    (now : ℕ) (s : Registry)
    → WellFormed s
    → ((r : ℕ) → holds s.heap r ≡ true → now < (s.jobs r).expire_at)
    → Purged now s s 0
nothing-Purged now s w later = record {
  valid = w;
  map_left = λ id. all_kept now s (s.job_map id) later;
  held_left = λ r. ground (arith, later r);
  counted = omega arith;
  same_done = λ r. refl;
}

map_left_after :
    (now : ℕ) (s s' : Registry) (id : ℕ) (o : Option ℕ)
    → s.job_map id ≡ o
    → WellFormed s
    → holds s.heap (s.heap.at 0) ≡ true
    → (s.jobs (s.heap.at 0)).expire_at ≤ now
    → Deleted (s.heap.at 0) s s'
    → without_stale now s' id ≡ unless_stale now s o
map_left_after now s s' id none e w inside stale d = ground (arith, d.map_gone id)
map_left_after now s s' id (some q) e w inside stale d = ground (
  arith,
  d.map_gone id,
  d.held q,
  d.same_expiry q,
  w.entered_id id q,
  w.held_entered (s.heap.at 0),
)

-- The root is stale and has been deleted.
root-Purged :
    (now n : ℕ) (s s' s'' : Registry)
    → WellFormed s
    → holds s.heap (s.heap.at 0) ≡ true
    → (s.jobs (s.heap.at 0)).expire_at ≤ now
    → Deleted (s.heap.at 0) s s'
    → Purged now s' s'' n
    → Purged now s s'' (n + 1)
root-Purged now n s s' s'' w inside stale d p = record {
  valid = p.valid;
  map_left = λ id. p.map_left id ∙ map_left_after now s s' id (s.job_map id) refl w inside stale d;
  held_left = λ r. p.held_left r ∙ ground (arith, d.held r, d.same_expiry r);
  counted = ground (arith, p.counted, d.length);
  same_done = λ r. p.same_done r ∙ d.same_done r;
}

root_held : (s : Registry) → WellFormed s → 0 < s.heap.len → holds s.heap (s.heap.at 0) ≡ true
root_held s w l = rw (w.heap_valid.coherent.points 0 l)

root_entered : (s : Registry) → WellFormed s → 0 < s.heap.len → is_entered (s.heap.at 0) s ≡ true
root_entered s w l = ground (arith, w.held_entered (s.heap.at 0) (root_held s w l))

purge_loop-Purged :
    (fuel now : ℕ) (s : Registry)
    → WellFormed s
    → s.heap.len < fuel
    → (k : ℕ) → let (s', n) = purge_loop fuel now k s in (m : ℕ) × (n ≡ k + m) × Purged now s s' m
unfolding purge_loop
purge_loop-Purged zero now s w f k = absurd (omega arith)
purge_loop-Purged (suc fuel) now s w f k = elim (Bool-cases (leb s.heap.len 0)) [
  | inl empty ↦
      rw empty (
        0,
        omega arith,
        nothing-Purged now s w (λ r e. absurd (ground (arith, root_first s r w e))),
      )
  | inr some_left ↦ elim (Bool-cases (ltb now (s.jobs (s.heap.at 0)).expire_at)) [
    | inl later ↦
        rw (some_left, later)
          (0, omega arith, nothing-Purged now s w (λ r e. ground (arith, root_first s r w e)))
    | inr stale ↦
        let r = s.heap.at 0 in
        let l : 0 < s.heap.len = ground arith in
        let inside = root_held s w l in
        let (d, ok) = delete_job-Deleted r s w (root_entered s w l) in
        let (m, e, p) =
          purge_loop-Purged fuel now (delete_job r s).0 d.valid (ground (arith, d.length, inside))
            (k + 1) in
        rw (some_left, stale, ok)
          (
            m + 1,
            omega (arith, e),
            root-Purged now m s (delete_job r s).0 _ w inside (ground arith) d p,
          )
  ]
]

-- What `purge_stale_rxc_jobs` is to leave, and to return.
abbrev pub PurgeResult : ℕ → ℤ → Registry → Registry × ℕ → Type 0
PurgeResult now (negsuc n) s (s', purge_count) = (s' ≡ s) × (purge_count ≡ 0)
PurgeResult now (pos zero) s (s', purge_count) = (s' ≡ s) × (purge_count ≡ 0)
PurgeResult now (pos (suc n)) s (s', purge_count) = Purged now s s' purge_count

-- In a table that agrees with its heap, `purge_stale_rxc_jobs` with a positive expiry ends with
-- exactly the jobs gone whose expiry time has come, from the table and from the heap, and returns
-- how many entries left the heap; with another expiry it changes nothing and returns 0.
pub purge_stale-PurgeResult :
    (now : ℕ) (expiry : ℤ) (s : Registry)
    → WellFormed s
    → PurgeResult now expiry s (purge_stale now expiry s)
unfolding purge_stale
purge_stale-PurgeResult now (negsuc n) s w = (refl, refl)
purge_stale-PurgeResult now (pos zero) s w = (refl, refl)
purge_stale-PurgeResult now (pos (suc n)) s w =
    let (m, e, p) = purge_loop-Purged (s.heap.len + 1) now s w (omega arith) 0 in
    subst (Purged now s (purge_loop (s.heap.len + 1) now 0 s).0) (omega (arith, e)) p

-- What `get_next_rxc_job_purge_time` is to answer with a positive expiry: when the first of the jobs
-- in the heap expires, or nothing if the heap has none.
abbrev pub IsNext : Registry → Option ℕ → Type 0
IsNext s none = (r : ℕ) → holds s.heap r ≡ false
IsNext s (some t) =
    (r : ℕ) × (holds s.heap r ≡ true)
    × ((s.jobs r).expire_at ≡ t)
    × ((q : ℕ) → holds s.heap q ≡ true → t ≤ (s.jobs q).expire_at)

-- In a table that agrees with its heap, `get_next_rxc_job_purge_time` with a positive expiry answers
-- with the expiry time of a job in the heap that no other job in it precedes, and with nothing
-- exactly when the heap is empty.
pub next_purge_time-IsNext :
    (n : ℕ) (s : Registry) → WellFormed s → IsNext s (next_purge_time (pos (suc n)) s)
unfolding next_purge_time
next_purge_time-IsNext n s w = elim (Bool-cases (leb s.heap.len 0)) [
  | inl empty ↦ rw empty (λ r. ground (arith, root_first s r w))
  | inr some_left ↦
      rw some_left (s.heap.at 0, root_held s w (ground arith), refl, λ q e. (root_first s q w e).1)
]
