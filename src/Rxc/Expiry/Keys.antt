-- ===== src/Rxc/Expiry/Keys.antt =====
-- server-rxc-job.go: the order of the expiry heap, on the keys of its entries.
use hodu.Prelude.{ℕ, ◌<◌, ◌≡◌, ◌≢◌, subst, sym, true, false, arith, ◌==◌, if◌then◌else◌}
use native.Mathlib.Decide.{ℕ_discrete}
use hodu.Rxc.Expiry.{Heap, Key, key, earlier, swap, parent}

-- `b` does not come before `a`.
pub record Le (a b : Key) : Type 0 where
  pub not_earlier : earlier b a ≡ false

pub Le-refl : (a : Key) → Le a a
Le-refl a = record { not_earlier = ground arith }

pub Le-trans : {a b c : Key} → Le a b → Le b c → Le a c
Le-trans {a} {b} {c} p q = record { not_earlier = ground (arith, p.not_earlier, q.not_earlier) }

pub Le_of_earlier : (a b : Key) → earlier a b ≡ true → Le a b
Le_of_earlier a b h = record { not_earlier = ground arith }

-- The first `n` entries are in heap order.
abbrev pub IsOrdered : ℕ → (ℕ → Key) → Type 0
IsOrdered n κ = (k : ℕ) → 0 < k → k < n → Le (κ (parent k)) (κ k)

-- So they are, but for the entry at `i`, which may be anything.
pub record Both (n i : ℕ) (κ : ℕ → Key) : Type 0 where
  pub rest : (k : ℕ) → 0 < k → k < n → k ≢ i → parent k ≢ i → Le (κ (parent k)) (κ k)
  pub skip : (k : ℕ) → 0 < k → k < n → parent k ≡ i → 0 < i → Le (κ (parent i)) (κ k)

-- The entry at `i` does not come after its children, or not before its parent.
abbrev pub Below : ℕ → ℕ → (ℕ → Key) → Type 0
Below n i κ = (k : ℕ) → 0 < k → k < n → parent k ≡ i → Le (κ i) (κ k)

abbrev pub Above : ℕ → (ℕ → Key) → Type 0
Above i κ = 0 < i → Le (κ (parent i)) (κ i)

pub IsOrdered-of_Both :
    (n i : ℕ) (κ : ℕ → Key) → Both n i κ → Below n i κ → Above i κ → IsOrdered n κ
IsOrdered-of_Both n i κ b below above k pos lt = elim (ℕ_discrete k i) [
  | yes e ↦ subst (λ j. Le (κ (parent j)) (κ j)) (sym e) (above (omega arith))
  | no ne ↦ elim (ℕ_discrete (parent k) i) [
    | yes e ↦ subst (λ j. Le (κ j) (κ k)) (sym e) (below k pos lt e)
    | no ne' ↦ b.rest k pos lt ne ne'
  ]
]

-- Exchanging the entries at `i` and `j`.
abbrev pub exchange : ℕ → ℕ → (ℕ → Key) → ℕ → Key
exchange i j κ k = if k == j then κ i else if k == i then κ j else κ k

pub key-swap : (i j k : ℕ) (h : Heap) → key (swap i j h) k ≡ exchange i j (key h) k
unfolding swap
key-swap i j k h = ground arith
