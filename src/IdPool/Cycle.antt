-- ===== src/IdPool/Cycle.antt =====
-- How the ids go round.
use hodu.Prelude.{ℕ, ◌+◌, ◌%◌, ◌<◌, ◌≡◌, ap, inl, inr, arith, ◌==◌, if◌then◌else◌, Bool-cases}
use native.Mathlib.Nat.{mod-eq_of_lt}
use hodu.IdPool.{bump}

-- n % n is 0 and 1 % n is 1.
mod_self : (n : ℕ) → 0 < n → n % n ≡ 0
mod_self n h = grind arith

pub bump_lem :
    (size n : ℕ) → 1 < size → n < size → bump size n ≡ (if n + 1 == size then 1 else n + 1)
unfolding bump
bump_lem size n big lt = elim (Bool-cases (n + 1 == size)) [
  | inl e ↦ ground (
    arith,
    mod_self size (omega arith),
    ap (λ k. k % size) {x = n + 1} {y = size} (ground arith),
    mod-eq_of_lt {n = 1} {m = size} big,
  )
  | inr e ↦ ground (arith, mod-eq_of_lt {n = n + 1} {m = size} (ground arith))
]
