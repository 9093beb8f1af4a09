-- ===== src/Rxc/Expiry/Sift.antt =====
-- server-rxc-job.go: one round of container/heap's `up` and of its `down`, on the keys.
use hodu.Prelude.{
  ℕ, ◌+◌, ◌*◌, ◌<◌, ◌≡◌, ◌≢◌, ◌⊎◌, inl, inr, Bool-cases, ltb→lt, true, false, arith, ltb,
}
use hodu.Rxc.Expiry.{Heap, Key, key, earlier, parent, child}
use hodu.Rxc.Expiry.Keys.{Le, Le-refl, Le-trans, Le_of_earlier, Both, Below, Above, exchange}

module _ (n j : ℕ) (κ : ℕ → Key) (pos : 0 < j) (lt : j < n) (b : Both n j κ)
    (first : earlier (κ j) (κ (parent j)) ≡ true) where
  up-rest :
      (k : ℕ)
      → 0 < k
      → k < n
      → k ≢ parent j
      → parent k ≢ parent j
      → Le (exchange (parent j) j κ (parent k)) (exchange (parent j) j κ k)
  up-rest k kp kn ne ne' = ground (arith, b.rest k kp kn, b.skip k kp kn)

  up-skip :
      (k : ℕ)
      → 0 < k
      → k < n
      → parent k ≡ parent j
      → 0 < parent j
      → Le (exchange (parent j) j κ (parent (parent j))) (exchange (parent j) j κ k)
  up-skip k kp kn e pp = ground (
    arith,
    b.rest (parent j) pp (omega arith) (omega arith) (omega arith),
    b.rest k kp kn,
    Le-trans {a = κ (parent (parent j))} {b = κ (parent j)} {c = κ k},
  )

  pub up-Both : Both n (parent j) (exchange (parent j) j κ)
  up-Both = record { rest = up-rest; skip = up-skip }

  pub up-Below : Below n (parent j) (exchange (parent j) j κ)
  up-Below k kp kn e = ground (
    arith,
    b.rest k kp kn,
    Le_of_earlier (κ j) (κ (parent j)) first,
    Le-trans {a = κ j} {b = κ (parent j)} {c = κ k},
  )

module _ (n i c : ℕ) (κ : ℕ → Key) (pos : 0 < c) (lt : c < n) (is_child : parent c ≡ i)
    (b : Both n i κ) (first : earlier (κ c) (κ i) ≡ true)
    (least : (k : ℕ) → 0 < k → k < n → parent k ≡ i → Le (κ c) (κ k)) where
  down-rest :
      (k : ℕ)
      → 0 < k
      → k < n
      → k ≢ c
      → parent k ≢ c
      → Le (exchange i c κ (parent k)) (exchange i c κ k)
  down-rest k kp kn ne ne' = ground (arith, b.rest k kp kn, b.skip c pos lt is_child, least k kp kn)

  down-skip :
      (k : ℕ)
      → 0 < k
      → k < n
      → parent k ≡ c
      → 0 < c
      → Le (exchange i c κ (parent c)) (exchange i c κ k)
  down-skip k kp kn e cp = ground (arith, b.rest k kp kn)

  pub down-Both : Both n c (exchange i c κ)
  down-Both = record { rest = down-rest; skip = down-skip }

  pub down-Above : Above c (exchange i c κ)
  down-Above cp = ground (arith, Le_of_earlier (κ c) (κ i) first)

-- Which child `down` picks.
child_cases :
    (n i : ℕ) (h : Heap)
    → ((child i n h ≡ 2 * i + 2)
        × (2 * i + 2 < n)
        × (earlier (key h (2 * i + 2)) (key h (2 * i + 1)) ≡ true))
      ⊎ ((child i n h ≡ 2 * i + 1)
          × (2 * i + 2 < n → earlier (key h (2 * i + 2)) (key h (2 * i + 1)) ≡ false))
unfolding child
child_cases n i h = elim (Bool-cases (ltb (2 * i + 2) n)) [
  | inl lt ↦ elim (Bool-cases (earlier (key h (2 * i + 2)) (key h (2 * i + 1)))) [
    | inl e ↦ inl (rw (lt, e), ltb→lt _ _ lt, e)
    | inr e ↦ inr (rw (lt, e), λ _. e)
  ]
  | inr ge ↦ inr (rw ge, λ l. absurd (ground arith))
]

children : (i k : ℕ) → 0 < k → parent k ≡ i → (k ≡ 2 * i + 1) ⊎ (k ≡ 2 * i + 2)
children i k kp e = omega arith

least_child :
    (n i c : ℕ) (h : Heap)
    → ((c ≡ 2 * i + 2) × (2 * i + 2 < n) × (earlier (key h (2 * i + 2)) (key h (2 * i + 1)) ≡ true))
      ⊎ ((c ≡ 2 * i + 1)
          × (2 * i + 2 < n → earlier (key h (2 * i + 2)) (key h (2 * i + 1)) ≡ false))
    → (k : ℕ) → k < n
    → (k ≡ 2 * i + 1) ⊎ (k ≡ 2 * i + 2)
    → Le (key h c) (key h k)
least_child n i c h (inl (e, lt, first)) k kn (inl e') = rw (e, e') (Le_of_earlier _ _ first)
least_child n i c h (inl (e, lt, first)) k kn (inr e') = rw (e, e') (Le-refl _)
least_child n i c h (inr (e, later)) k kn (inl e') = rw (e, e') (Le-refl _)
least_child n i c h (inr (e, later)) k kn (inr e') =
    rw (e, e') (record { not_earlier = later (omega arith) })

-- The child that `down` picks comes no later than its sibling.
pub child_least :
    (n i : ℕ) (h : Heap) (k : ℕ) → 0 < k → k < n → parent k ≡ i → Le (key h (child i n h)) (key h k)
child_least n i h k kp kn e = least_child n i _ h (child_cases n i h) k kn (children i k kp e)

pub child_bounds :
    (n i : ℕ) (h : Heap)
    → 2 * i + 1 < n
    → (0 < child i n h) × (child i n h < n) × (parent (child i n h) ≡ i) × (i < child i n h)
child_bounds n i h lt = omega (arith, child_cases n i h)
