-- ===== src/Prelude/Decimal.antt =====
-- Go's strconv on decimal numbers: texts are lists of bytes, or native texts of ASCII.
use Prim.Native.Char.{code}
use Prim.Native.String.{String}
use Prim.Native.Nat.{ℕ, ◌+◌, ◌-◌, ◌*◌, ◌^◌}
use mathlib.Core.Bool.{Bool, ◌&&◌}
use mathlib.Core.List.{List, [], ◌∷◌}
use mathlib.Core.Option.{Option, none, some}
use hodu.Prelude.Tests.{ltb, leb, if◌then◌else◌}

abbrev pub between : ℕ → ℕ → ℕ → Bool
between lo hi c = leb lo c && leb c hi

abbrev pub codes : String → List ℕ
codes String.[] = []
codes (String.◌∷◌ c s) = code c ∷ codes s

abbrev pub read_decimal : ℕ → List ℕ → Option ℕ
read_decimal n [] = some n
read_decimal n (ch ∷ s) =
    if between b'0' b'9' ch then read_decimal (n * 10 + (ch - b'0')) s else none

abbrev pub digits_of : List ℕ → Option ℕ
digits_of [] = none
digits_of (ch ∷ s) = read_decimal 0 (ch ∷ s)

abbrev pub below : ℕ → Option ℕ → Option ℕ
below bound none = none
below bound (some n) = if ltb n bound then some n else none

-- strconv.ParseUint to base 10, with the bits of the result
unfoldable pub parse_uint : ℕ → String → Option ℕ
parse_uint bits s = below (2 ^ bits) (digits_of (codes s))
