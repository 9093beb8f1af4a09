-- ===== src/Rxc/Expiry/Swaps.antt =====
-- server-rxc-job.go: `heap_index` names each job's place in the expiry heap, through every exchange.
use hodu.Prelude.{
  ℕ, zero, suc, ◌+◌, ◌*◌, ◌≤◌, ◌<◌, ◌≡◌, refl, ◌∙◌, Bool, true, false, not, ◌||◌, arith, leb, ◌==◌,
  Option, some, none, Bool-cases, inl, inr,
}
use hodu.Rxc.Expiry.{Heap, less, parent, child, swap, up, down}
use hodu.Rxc.Expiry.Sift.{child_bounds}

-- The indices and the entries name one another.
pub record Coherent (h : Heap) : Type 0 where
  pub points : (i : ℕ) → i < h.len → (h.jobs (h.at i)).heap_index ≡ some i
  pub back : (r i : ℕ) → (h.jobs r).heap_index ≡ some i → (i < h.len) × (h.at i ≡ r)

abbrev pub is_some : Option ℕ → Bool
is_some none = false
is_some (some i) = true

-- The job at `r` is in the heap.
abbrev pub holds : Heap → ℕ → Bool
holds h r = is_some (h.jobs r).heap_index

-- All but the places is as it was.
pub record Same (h h' : Heap) : Type 0 where
  pub same_len : h'.len ≡ h.len
  pub same_id : (r : ℕ) → (h'.jobs r).id ≡ (h.jobs r).id
  pub same_done : (r : ℕ) → (h'.jobs r).done ≡ (h.jobs r).done
  pub same_expiry : (r : ℕ) → (h'.jobs r).expire_at ≡ (h.jobs r).expire_at
  pub same_held : (r : ℕ) → holds h' r ≡ holds h r

module _ (h : Heap) (c : Coherent h) (i j : ℕ) (li : i < h.len) (lj : j < h.len) where
  at_injective : (a b : ℕ) → a < h.len → h.at a ≡ h.at b → b < h.len → a ≡ b
  at_injective a b la e lb = ground (arith, c.points a la, c.points b lb)

  swap-points : (k : ℕ) → k < h.len → ((swap i j h).jobs ((swap i j h).at k)).heap_index ≡ some k
  unfolding swap
  swap-points k lk = ground (arith, c.points k lk, c.points i li, c.points j lj)

  swap-back :
      (r k : ℕ) → ((swap i j h).jobs r).heap_index ≡ some k → (k < h.len) × ((swap i j h).at k ≡ r)
  unfolding swap
  swap-back r k e = ground (arith, c.back r k, c.points i li, c.points j lj)

  swap-Coherent : Coherent (swap i j h)
  unfolding swap
  swap-Coherent = record { points = swap-points; back = swap-back }

  swap-Same : Same h (swap i j h)
  unfolding swap
  swap-Same = record {
    same_len = refl;
    same_id = λ r. ground arith;
    same_done = λ r. ground arith;
    same_expiry = λ r. ground arith;
    same_held = λ r. ground (arith, c.points i li, c.points j lj);
  }

-- What exchanges among the first `n` entries keep.
pub record Kept (n : ℕ) (h h' : Heap) : Type 0 where
  pub coherent : Coherent h'
  pub same : Same h h'
  pub beyond : (m : ℕ) → n ≤ m → h'.at m ≡ h.at m

pub Same-refl : (h : Heap) → Same h h
Same-refl h = record {
  same_len = refl;
  same_id = λ r. refl;
  same_done = λ r. refl;
  same_expiry = λ r. refl;
  same_held = λ r. refl;
}

pub Same-trans : {h h' h'' : Heap} → Same h h' → Same h' h'' → Same h h''
Same-trans p q = record {
  same_len = q.same_len ∙ p.same_len;
  same_id = λ r. q.same_id r ∙ p.same_id r;
  same_done = λ r. q.same_done r ∙ p.same_done r;
  same_expiry = λ r. q.same_expiry r ∙ p.same_expiry r;
  same_held = λ r. q.same_held r ∙ p.same_held r;
}

pub Kept-refl : (n : ℕ) (h : Heap) → Coherent h → Kept n h h
Kept-refl n h c = record { coherent = c; same = Same-refl h; beyond = λ m lt. refl }

pub Kept-trans : {n : ℕ} {h h' h'' : Heap} → Kept n h h' → Kept n h' h'' → Kept n h h''
Kept-trans p q = record {
  coherent = q.coherent;
  same = Same-trans p.same q.same;
  beyond = λ m lt. q.beyond m lt ∙ p.beyond m lt;
}

pub swap-Kept :
    (n i j : ℕ) (h : Heap) → Coherent h → i < n → j < n → n ≤ h.len → Kept n h (swap i j h)
unfolding swap
swap-Kept n i j h c li lj ln = record {
  coherent = swap-Coherent h c i j (omega arith) (omega arith);
  same = swap-Same h c i j (omega arith) (omega arith);
  beyond = λ m lt. ground arith;
}

pub up-Kept : (fuel j n : ℕ) (h : Heap) → Coherent h → j < n → n ≤ h.len → Kept n h (up fuel j h)
unfolding up
up-Kept zero j n h c lj ln = Kept-refl n h c
up-Kept (suc fuel) j n h c lj ln = elim (Bool-cases (parent j == j || not (less h j (parent j)))) [
  | inl stop ↦ rw stop (Kept-refl n h c)
  | inr go ↦
      let first = swap-Kept n (parent j) j h c (omega arith) lj ln in
      rw go (
        Kept-trans first (
          up-Kept fuel (parent j) n (swap (parent j) j h) first.coherent (omega arith)
            (omega (arith, first.same.same_len))))
]

pub down-Kept :
    (fuel i n : ℕ) (h : Heap)
    → Coherent h
    → i < n
    → n ≤ h.len
    → Kept n h (down fuel i n h).0 × ((down fuel i n h).1 < n)
unfolding down
down-Kept zero i n h c li ln = (Kept-refl n h c, li)
down-Kept (suc fuel) i n h c li ln = elim (Bool-cases (leb n (2 * i + 1))) [
  | inl leaf ↦ rw leaf (Kept-refl n h c, li)
  | inr inner ↦ elim (Bool-cases (less h (child i n h) i)) [
    | inl go ↦
        let j = child i n h in
        let lj = child_bounds n i h (ground arith) in
        let first = swap-Kept n i j h c li lj.1 ln in
        let more =
          down-Kept fuel j n (swap i j h) first.coherent lj.1
            (omega (arith, first.same.same_len)) in
        rw (inner, go) (Kept-trans first more.0, more.1)
    | inr stop ↦ rw (inner, stop) (Kept-refl n h c, li)
  ]
]
