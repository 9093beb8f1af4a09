-- ===== src/RouteOption/RoundTrip.antt =====
-- hodu.go: reading the words of an option gives the option back.
use hodu.Prelude.{ℕ, zero, suc, ◌<◌, ◌≡◌, refl, Bool, true, ◌&&◌, arith, ◌==◌, Bool-cases, inl, inr}
use hodu.RouteOption.{word_to_route_option, add_words, string_to_route_option, option_string}

-- A test at all numbers below one.
abbrev all_below : ℕ → (ℕ → Bool) → Bool
all_below zero f = true
all_below (suc n) f = f n && all_below n f

all_below-at : (n k : ℕ) (f : ℕ → Bool) → all_below n f ≡ true → k < n → f k ≡ true
all_below-at zero k f h l = absurd (omega arith)
all_below-at (suc n) k f h l = elim (Bool-cases (k == n)) [
  | inl it ↦ ground (arith, h)
  | inr other ↦ all_below-at n k f (ground (arith, h)) (ground arith)
]

comes_back : ℕ → Bool
comes_back option = string_to_route_option (option_string option) == option

all_come_back : all_below 64 comes_back ≡ true
unfolding comes_back string_to_route_option option_string add_words word_to_route_option
all_come_back = refl

-- An option of the bits that have a word, written out and read again, is the same: no word is lost,
-- whichever of them there are, and none stands for two bits.
pub string_to_route_option-option_string :
    (option : ℕ) → option < 64 → string_to_route_option (option_string option) ≡ option
unfolding comes_back
string_to_route_option-option_string option l =
    ground (arith, all_below-at 64 option comes_back all_come_back l)
