-- ===== src/Prelude/Maps.antt =====
-- Go maps with number keys as association lists. A key stands once, so `len` is the length.
use Prim.Native.Nat.{ℕ, zero, suc, ◌+◌, ◌≤◌, ◌<◌}
use mathlib.Core.Path.{◌≡◌, refl}
use mathlib.Core.Bool.{Bool, true, false, not, ◌&&◌, ◌||◌}
use mathlib.Core.List.{List, [], ◌∷◌}
use mathlib.Core.Option.{Option, none, some}
use native.Mathlib.Omega.{arith}
use hodu.Prelude.Tests.{◌==◌, if◌then◌else◌}
use hodu.Prelude.Lists.{length}

module _ {ℓ} {A : Type ℓ} where
  abbrev pub has_key : ℕ → List (ℕ × A) → Bool
  has_key k [] = false
  has_key k ((j, a) ∷ m) = j == k || has_key k m

  abbrev pub lookup : ℕ → List (ℕ × A) → Option A
  lookup k [] = none
  lookup k ((j, a) ∷ m) = if j == k then some a else lookup k m

  abbrev pub delete_key : ℕ → List (ℕ × A) → List (ℕ × A)
  delete_key k [] = []
  delete_key k ((j, a) ∷ m) = if j == k then delete_key k m else (j, a) ∷ delete_key k m

  -- No key stands twice.
  abbrev pub HasUniqueKeys : List (ℕ × A) → Type 0
  HasUniqueKeys [] = Unit
  HasUniqueKeys ((j, a) ∷ m) = (has_key j m ≡ false) × HasUniqueKeys m

module _ {ℓ} {A : Type ℓ} where
  pub has_key-delete_key :
      (j k : ℕ) (m : List (ℕ × A)) → has_key j (delete_key k m) ≡ (not (j == k) && has_key j m)
  has_key-delete_key j k [] = ground arith
  has_key-delete_key j k ((i, a) ∷ m) = ground (arith, has_key-delete_key j k m)

  pub lookup-delete_key :
      (j k : ℕ) (m : List (ℕ × A))
      → lookup j (delete_key k m) ≡ (if j == k then none else lookup j m)
  lookup-delete_key j k [] = ground arith
  lookup-delete_key j k ((i, a) ∷ m) = ground (arith, lookup-delete_key j k m)

  pub delete_key_absent : (k : ℕ) (m : List (ℕ × A)) → has_key k m ≡ false → delete_key k m ≡ m
  delete_key_absent k [] h = refl
  delete_key_absent k ((j, a) ∷ m) h = ground (arith, delete_key_absent k m)

  pub delete_key-HasUniqueKeys :
      (k : ℕ) (m : List (ℕ × A)) → HasUniqueKeys m → HasUniqueKeys (delete_key k m)
  delete_key-HasUniqueKeys k [] u = u
  delete_key-HasUniqueKeys k ((j, a) ∷ m) u =
      ground (arith, delete_key-HasUniqueKeys k m u.1, has_key-delete_key j k m)

  pub length-delete_key-le :
      (k : ℕ) (m : List (ℕ × A)) → has_key k m ≡ true → length (delete_key k m) + 1 ≤ length m
  length-delete_key-le k [] h = ground arith
  length-delete_key-le k ((j, a) ∷ m) h =
      ground (arith, length-delete_key-le k m, delete_key_absent k m)

  pub delete_key_le : (k : ℕ) (m : List (ℕ × A)) → length (delete_key k m) ≤ length m
  delete_key_le k [] = omega arith
  delete_key_le k ((j, a) ∷ m) = ground (arith, delete_key_le k m)

  pub length-delete_key :
      (k : ℕ) (m : List (ℕ × A))
      → HasUniqueKeys m
      → has_key k m ≡ true
      → length (delete_key k m) + 1 ≡ length m
  length-delete_key k [] u h = ground arith
  length-delete_key k ((j, a) ∷ m) u h =
      ground (arith, length-delete_key k m u.1, delete_key_absent k m)

  -- A map that has all of n keys has n entries.
  pub length-of_keys :
      (n : ℕ) (m : List (ℕ × A)) → ((k : ℕ) → 0 < k → k ≤ n → has_key k m ≡ true) → n ≤ length m
  length-of_keys zero m h = omega arith
  length-of_keys (suc n) m h = omega (
    arith,
    length-delete_key-le (suc n) m (h (suc n) (omega arith) (omega arith)),
    length-of_keys n (delete_key (suc n) m)
        (λ k k0 k1. ground (arith, has_key-delete_key k (suc n) m, h k k0 (omega arith))),
  )

  -- Whether a map has a key, and what it has there.
  pub has_key-lookup : (k : ℕ) (a : A) (m : List (ℕ × A)) → lookup k m ≡ some a → has_key k m ≡ true
  has_key-lookup k a [] h = absurd (ground arith)
  has_key-lookup k a ((j, b) ∷ m) h = ground (arith, has_key-lookup k a m)

  pub lookup-has_key : (k : ℕ) (m : List (ℕ × A)) → has_key k m ≡ false → lookup k m ≡ none
  lookup-has_key k [] h = refl
  lookup-has_key k ((j, b) ∷ m) h = ground (arith, lookup-has_key k m)
