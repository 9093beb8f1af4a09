-- ===== src/Prelude/Texts.antt =====
-- The functions of Go's `strings` that the code uses, on texts as lists of character codes.
use Prim.Native.Nat.{ℕ, ◌+◌}
use mathlib.Core.Path.{◌≡◌, refl}
use native.Mathlib.Omega.{arith}
use mathlib.Core.Bool.{Bool, true, false, ◌&&◌, ◌||◌}
use mathlib.Core.List.{List, [], ◌∷◌, map}
use hodu.Prelude.Tests.{◌==◌, if◌then◌else◌}
use hodu.Prelude.Decimal.{between}

abbrev pub Text : Type 0
Text = List ℕ

abbrev pub eq_text : Text → Text → Bool
eq_text [] [] = true
eq_text [] (d ∷ t) = false
eq_text (c ∷ s) [] = false
eq_text (c ∷ s) (d ∷ t) = c == d && eq_text s t

pub eq_text→eq : (s t : Text) → eq_text s t ≡ true → s ≡ t
eq_text→eq [] [] h = refl
eq_text→eq [] (d ∷ t) h = absurd (ground arith)
eq_text→eq (c ∷ s) [] h = absurd (ground arith)
eq_text→eq (c ∷ s) (d ∷ t) h = ground (arith, eq_text→eq s t)

pub eq_text_self : (s : Text) → eq_text s s ≡ true
eq_text_self [] = refl
eq_text_self (c ∷ s) = ground (arith, eq_text_self s)

-- `strings.HasPrefix(s, p)`
abbrev pub has_prefix : Text → Text → Bool
has_prefix [] s = true
has_prefix (c ∷ p) [] = false
has_prefix (c ∷ p) (d ∷ s) = c == d && has_prefix p s

-- unicode.IsSpace
abbrev pub is_space : ℕ → Bool
is_space c =
    between 9 13 c
    || c == 32
    || c == 0x85
    || c == 0xA0
    || c == 0x1680
    || between 0x2000 0x200A c
    || c == 0x2028
    || c == 0x2029
    || c == 0x202F
    || c == 0x205F
    || c == 0x3000

-- The field in progress and the fields after it.
abbrev add_field : Text → List Text → List Text
add_field [] fs = fs
add_field (c ∷ f) fs = (c ∷ f) ∷ fs

-- The part up to the first space, and the fields after that.
abbrev split_fields : Text → Text × List Text
split_fields [] = ([], [])
split_fields (c ∷ s) =
    let (f, fs) = split_fields s in if is_space c then ([], add_field f fs) else (c ∷ f, fs)

-- strings.Fields
abbrev pub fields : Text → List Text
fields s = let (f, fs) = split_fields s in add_field f fs

abbrev pub to_lower : ℕ → ℕ
to_lower c = if between b'A' b'Z' c then c + 32 else c

-- strings.EqualFold with a text whose letters fold with no letter beyond ASCII
abbrev pub equal_fold : Text → Text → Bool
equal_fold s t = eq_text (map to_lower s) (map to_lower t)

abbrev trim_left : Text → Text
trim_left [] = []
trim_left (c ∷ s) = if is_space c then trim_left s else c ∷ s

abbrev trim_right : Text → Text
trim_right [] = []
trim_right (c ∷ s) = elim (trim_right s) [
  | [] ↦ if is_space c then [] else c ∷ []
  | d ∷ t ↦ c ∷ d ∷ t
]

-- strings.TrimSpace
abbrev pub trim_space : Text → Text
trim_space s = trim_right (trim_left s)
