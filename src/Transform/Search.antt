-- ===== src/Transform/Search.antt =====
-- transform.go: the replacement of a needle in a whole text, and the places where it leaves bytes.
use hodu.Prelude.{
  ℕ, zero, suc, ◌+◌, ◌-◌, ◌≤◌, ◌<◌, ◌≡◌, refl, ap, ◌∙◌, true, false, ◌&&◌, List, [], ◌∷◌, ◌++◌,
  Option, none, some, ◌==◌, if◌then◌else◌, length, take, drop, arith, Bool-cases, inl, inr,
}
use hodu.Transform.{has_prefix, index, suc_index}

module _ (needle replacement : List ℕ) where
  -- The text with the first needle from the left replaced, then the next that does not overlap it,
  -- and so on; the first argument is how many bytes of a replaced needle are still to be skipped.
  abbrev pub replace_all : ℕ → List ℕ → List ℕ
  replace_all n [] = []
  replace_all zero (x ∷ s) =
      let here = replace_all (length needle - 1) s in
      let not_here = replace_all zero s in
      if has_prefix (x ∷ s) needle then replacement ++ here else x ∷ not_here
  replace_all (suc n) (x ∷ s) = replace_all n s

pub length-has_prefix : (s p : List ℕ) → has_prefix s p ≡ true → length p ≤ length s
length-has_prefix s [] h = omega arith
length-has_prefix [] (x ∷ p) h = cc
length-has_prefix (y ∷ s) (x ∷ p) h = ground (arith, length-has_prefix s p)

-- More text does not change whether a prefix that fits is there.
pub has_prefix-append :
    (s rest p : List ℕ) → length p ≤ length s → has_prefix (s ++ rest) p ≡ has_prefix s p
has_prefix-append s rest [] h = refl
has_prefix-append [] rest (x ∷ p) h = absurd (omega (arith, h))
has_prefix-append (y ∷ s) rest (x ∷ p) h =
    ap (λ b. y == x && b) (has_prefix-append s rest p (omega arith))

-- No needle starts in the first `n` bytes.
abbrev pub IsClear : List ℕ → ℕ → List ℕ → Type 0
IsClear needle zero s = Unit
IsClear needle (suc n) [] = Unit
IsClear needle (suc n) (x ∷ s) = (has_prefix (x ∷ s) needle ≡ false) × IsClear needle n s

module _ (needle replacement : List ℕ) where
  -- The bytes before the first needle stay.
  pub replace_all_clear :
      (n : ℕ) (s rest : List ℕ)
      → IsClear needle n (s ++ rest)
      → n ≤ length s
      → replace_all needle replacement 0 (s ++ rest)
        ≡ take n s ++ replace_all needle replacement 0 (drop n s ++ rest)
  replace_all_clear zero s rest c h = refl
  replace_all_clear (suc n) [] rest c h = absurd (omega arith)
  replace_all_clear (suc n) (x ∷ s) rest (ne, c) h =
      rw ne (ap (◌∷◌ x) (replace_all_clear n s rest c (omega arith)))

  -- Skipping.
  pub replace_all_skip :
      (n : ℕ) (s rest : List ℕ)
      → n ≤ length s
      → replace_all needle replacement n (s ++ rest)
        ≡ replace_all needle replacement 0 (drop n s ++ rest)
  replace_all_skip zero s rest h = refl
  replace_all_skip (suc n) [] rest h = absurd (omega arith)
  replace_all_skip (suc n) (x ∷ s) rest h = replace_all_skip n s rest (omega arith)

  -- A needle is replaced.
  pub replace_all_here :
      (s rest : List ℕ)
      → 0 < length needle
      → has_prefix s needle ≡ true
      → replace_all needle replacement 0 (s ++ rest)
        ≡ replacement ++ replace_all needle replacement 0 (drop (length needle) s ++ rest)
  replace_all_here [] rest pos h = absurd (omega (arith, length-has_prefix [] needle h))
  replace_all_here (x ∷ s) rest pos h =
      let long = length-has_prefix (x ∷ s) needle h in
      let same : has_prefix (x ∷ (s ++ rest)) needle ≡ true =
        has_prefix-append (x ∷ s) rest needle long ∙ h in
      rw same (
        ap (◌++◌ replacement) (
          replace_all_skip (length needle - 1) s rest (omega arith)
          ∙ ap (λ k. replace_all needle replacement 0 (drop k (x ∷ s) ++ rest))
              {x = suc (length needle - 1)} {y = length needle} (omega arith)))

-- More text does not change where no needle that fits starts.
pub IsClear-append :
    (needle s rest : List ℕ) (n : ℕ)
    → IsClear needle n s
    → n + length needle ≤ length s + 1
    → 0 < length needle
    → IsClear needle n (s ++ rest)
IsClear-append needle s rest zero c h pos = tt
IsClear-append needle [] rest (suc n) c h pos = absurd (omega arith)
IsClear-append needle (x ∷ s) rest (suc n) (ne, c) h pos = (
  has_prefix-append (x ∷ s) rest needle (omega arith) ∙ ne,
  IsClear-append needle s rest n c (omega arith) pos,
)

pub IsClear-of_le :
    (needle : List ℕ) (m n : ℕ) (s : List ℕ) → IsClear needle n s → m ≤ n → IsClear needle m s
IsClear-of_le needle zero n s c h = tt
IsClear-of_le needle (suc m) zero s c h = absurd (omega arith)
IsClear-of_le needle (suc m) (suc n) [] c h = tt
IsClear-of_le needle (suc m) (suc n) (x ∷ s) (ne, c) h =
    (ne, IsClear-of_le needle m n s c (omega arith))

-- What a search finds.
abbrev pub IsIndex : List ℕ → List ℕ → Option ℕ → Type 0
IsIndex needle s none = IsClear needle (length s) s
IsIndex needle s (some i) =
    IsClear needle i s × (has_prefix (drop i s) needle ≡ true) × (i ≤ length s)

suc_index-IsIndex :
    (needle : List ℕ) (x : ℕ) (s : List ℕ) (o : Option ℕ)
    → has_prefix (x ∷ s) needle ≡ false
    → IsIndex needle s o
    → IsIndex needle (x ∷ s) (suc_index o)
suc_index-IsIndex needle x s none ne c = (ne, c)
suc_index-IsIndex needle x s (some i) ne (c, h, l) = ((ne, c), h, omega arith)

pub index-IsIndex : (needle s : List ℕ) → 0 < length needle → IsIndex needle s (index s needle)
index-IsIndex [] [] pos = absurd (omega arith)
index-IsIndex (y ∷ needle) [] pos = tt
index-IsIndex needle (x ∷ s) pos = elim (Bool-cases (has_prefix (x ∷ s) needle)) [
  | inl e ↦ rw e (tt, e, omega arith)
  | inr e ↦ rw e (suc_index-IsIndex needle x s (index s needle) e (index-IsIndex needle s pos))
]
