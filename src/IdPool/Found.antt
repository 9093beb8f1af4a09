-- ===== src/IdPool/Found.antt =====
-- The loop that assigns an id finds one if there is one.
use hodu.Prelude.{
  ℕ, zero, suc, ◌-◌, ◌≤◌, ◌<◌, ◌≡◌, arith, ltb, leb, ◌==◌, if◌then◌else◌, Bool, true, false,
  Bool-cases, inl, inr, Option, some, none, ◌||◌, ◌&&◌,
}
use hodu.IdPool.{bump, find_free, assign_id}
use hodu.IdPool.Cycle.{bump_lem}

-- The loop has passed `k` on its way from `start_id` to `next_id`.
abbrev passed : ℕ → ℕ → ℕ → Bool
passed start_id next_id k =
    if leb start_id next_id
    then leb start_id k && ltb k next_id
    else leb start_id k || ltb k next_id

-- How many rounds are left at most.
abbrev rounds : ℕ → ℕ → ℕ → ℕ
rounds size start_id next_id =
    if leb start_id next_id then size - 1 - (next_id - start_id) else start_id - next_id

-- What the loop is to find: a free id in range, or that all are in use; the next id is in range.
abbrev pub Finds : ℕ → (ℕ → Bool) → Option ℕ × ℕ → Type 0
Finds size used (some id, next) =
    (used id ≡ false) × (0 < id) × (id < size) × (0 < next) × (next < size)
Finds size used (none, next) =
    ((k : ℕ) → 0 < k → k < size → used k ≡ true) × (0 < next) × (next < size)

find_free-Finds :
    (size fuel : ℕ) (used : ℕ → Bool) (start_id next_id : ℕ)
    → 1 < size
    → 0 < start_id
    → start_id < size
    → 0 < next_id
    → next_id < size
    → rounds size start_id next_id ≤ fuel
    → 0 < fuel
    → ((k : ℕ) → 0 < k → k < size → passed start_id next_id k ≡ true → used k ≡ true)
    → Finds size used (find_free size fuel used start_id next_id)
unfolding find_free
find_free-Finds size zero used start_id next_id big s0 s1 n0 n1 r f h = absurd (omega arith)
find_free-Finds size (suc fuel) used start_id next_id big s0 s1 n0 n1 r f h =
    let b = bump_lem size next_id big n1 in
    elim (Bool-cases (used next_id)) [
      | inl taken ↦ elim (Bool-cases (bump size next_id == start_id)) [
        | inl round ↦
            rw (taken, round) (λ k k0 k1. ground (arith, h k k0 k1), ground arith, ground arith)
        | inr go ↦
            rw (taken, go)
              (find_free-Finds size fuel used start_id (bump size next_id) big s0 s1 (ground arith)
                (ground arith) (ground arith) (ground arith)
                (λ k k0 k1 p. ground (arith, h k k0 k1)))
      ]
      | inr free ↦ rw free (free, n0, n1, ground arith, ground arith)
    ]

-- From a next id in range the loop ends with an id in range that no entry has, unless every id in
-- range is in use, and leaves a next id in range.
pub assign_id-Finds :
    (size : ℕ) (used : ℕ → Bool) (next_id : ℕ)
    → 1 < size
    → 0 < next_id
    → next_id < size
    → Finds size used (assign_id size used next_id)
unfolding assign_id
assign_id-Finds size used next_id big n0 n1 =
    find_free-Finds size size used next_id next_id big n0 n1 n0 n1 (ground arith) (omega arith)
      (λ k k0 k1 p. absurd (ground arith))
