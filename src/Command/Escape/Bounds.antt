-- ===== src/Command/Escape/Bounds.antt =====
-- client-cts-rxc.go: the number of an escape does not overflow a rune.
use hodu.Prelude.{
  ℕ, zero, suc, ◌+◌, ◌*◌, ◌%◌, ◌^◌, ◌≤◌, ◌<◌, ◌≡◌, refl, ap, ◌∙◌, Option, none, some, List, [], ◌∷◌,
  length, arith,
}
use native.Mathlib.Nat.{mod-eq_of_lt}
use hodu.Prelude.Results.{Result, ok, err, ◌>>=◌}
use hodu.Command.Escape.{Error, invalid, digit_value, read_digits, if_valid, escape_value}

-- The number that so many digits stand for, with what stands before them.
abbrev pub numeral : ℕ → ℕ → ℕ → List ℕ → Option ℕ
numeral base zero value runes = some value
numeral base (suc n) value [] = none
numeral base (suc n) value (ch ∷ runes) = elim (digit_value ch base) [
  | none ↦ none
  | some digit ↦ numeral base n (value * base + digit) runes
]

abbrev pub power : ℕ → ℕ → ℕ
power base zero = 1
power base (suc n) = base * power base n

digit_value-lt : (ch base digit : ℕ) → digit_value ch base ≡ some digit → digit < base
unfolding digit_value
digit_value-lt ch base digit e = ground arith

-- One more digit keeps the number below 2 ^ 32.
one_digit :
    (value base digit p : ℕ)
    → digit < base
    → (value + 1) * (base * p) ≤ 2 ^ 32
    → (value * base + digit + 1) * p ≤ 2 ^ 32
one_digit value base digit p d h = grind arith

power_pos : (base n : ℕ) {digit : ℕ} → digit < base → 0 < power base n
power_pos base zero d = omega arith
power_pos base (suc n) d = grind (arith, power_pos base n d)

below : (v p : ℕ) → 0 < p → (v + 1) * p ≤ 2 ^ 32 → v < 2 ^ 32
below v p p0 h = grind arith

abbrev numeral_or : ℕ → Option ℕ → Result Error ℕ
numeral_or tag none = err (invalid tag)
numeral_or tag (some value) = ok value

read_digits_lem :
    (tag base n value : ℕ) (runes : List ℕ)
    → n ≤ length runes
    → (value + 1) * power base n ≤ 2 ^ 32
    → read_digits tag base n value runes ≡ numeral_or tag (numeral base n value runes)
unfolding read_digits
read_digits_lem tag base zero value runes l h = refl
read_digits_lem tag base (suc n) value [] l h = absurd (omega arith)
read_digits_lem tag base (suc n) value (ch ∷ runes) l h =
    one_more (digit_value ch base) (digit_value-lt ch base)
      (λ v h'. read_digits_lem tag base n v runes (omega arith) h')
  where
    one_more :
        (o : Option ℕ)
        → ((digit : ℕ) → o ≡ some digit → digit < base)
        → ((v : ℕ)
            → (v + 1) * power base n ≤ 2 ^ 32
            → read_digits tag base n v runes ≡ numeral_or tag (numeral base n v runes))
        → elim o as (λ x. Result Error ℕ) [
          | none ↦ err (invalid tag)
          | some digit ↦ read_digits tag base n ((value * base + digit) % 2 ^ 32) runes
        ]
          ≡ numeral_or tag
              (elim o [ none ↦ none | some digit ↦ numeral base n (value * base + digit) runes ])
    one_more none lt go = refl
    one_more (some digit) lt go =
        let small = one_digit value base digit (power base n) (lt digit refl) h in
        let fits =
          below (value * base + digit) (power base n) (power_pos base n (lt digit refl)) small in
        ap (λ v. read_digits tag base n v runes)
          (mod-eq_of_lt {n = value * base + digit} {m = 2 ^ 32} fits)
        ∙ go (value * base + digit) small

-- What `digit_count` digits of this base stand for, as an unbounded number, if it is a valid rune.
abbrev pub escaped_number : ℕ → ℕ → ℕ → List ℕ → Result Error (ℕ × ℕ)
escaped_number tag base digit_count runes = do
  value ← numeral_or tag (numeral base digit_count 0 runes)
  if_valid tag digit_count value

-- For as many digits of a base as 32 bits hold, all of which are there, a numeric escape gives the
-- unbounded number that they stand for if it is a valid rune, and an error if it is not or if a rune
-- is no digit: no number wraps around to a valid rune.
pub escape_value-eq-escaped_number :
    (tag base digit_count : ℕ) (runes : List ℕ)
    → power base digit_count ≤ 2 ^ 32
    → digit_count ≤ length runes
    → escape_value tag base digit_count runes ≡ escaped_number tag base digit_count runes
unfolding escape_value
escape_value-eq-escaped_number tag base n runes fits there =
    ground (arith, read_digits_lem tag base n 0 runes there (omega (arith, fits)))
