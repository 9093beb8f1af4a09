-- ===== src/Command/Escape.antt =====
-- client-cts-rxc.go: the escapes of a simple command, `parse_simple_command_escape`.
pub mod Bounds
use hodu.Prelude.{
  ℕ, zero, suc, ◌+◌, ◌-◌, ◌*◌, ◌%◌, ◌^◌, Bool, true, false, ◌&&◌, ◌||◌, Option, none, some, List,
  [], ◌∷◌, ltb, leb, ◌==◌, if◌then◌else◌, length, drop, between, ℤ, pos, negsuc,
}
use hodu.Prelude.Results.{Result, ok, err, ◌>>=◌}

-- The errors, with the rune after the backslash for a tag.
pub data Error : Type 0 where
  missing dangling_escape unterminated_quote blank : Error
  truncated invalid invalid_value : ℕ → Error

-- simple_command_escape_digit_value; none is -1
unfoldable pub digit_value : ℕ → ℕ → Option ℕ
digit_value ch base =
    if base == 8
    then if between b'0' b'7' ch then some (ch - b'0') else none
    else if base == 16
    then if between b'0' b'9' ch
      then some (ch - b'0')
      else if between b'a' b'f' ch
      then some (ch - b'a' + 10)
      else if between b'A' b'F' ch
      then some (ch - b'A' + 10)
      else none
    else none

-- utf8.ValidRune; a negative rune is a bit pattern from 2 ^ 31 on.
abbrev pub valid_rune : ℕ → Bool
valid_rune r = ltb r 0xD800 || (ltb 0xDFFF r && leb r 0x10FFFF)

-- The loop of parse_simple_command_escape_value, on the digits to go: a rune is an int32.
unfoldable pub read_digits : ℕ → ℕ → ℕ → ℕ → List ℕ → Result Error ℕ
read_digits tag base zero value runes = ok value
read_digits tag base (suc n) value [] = err (truncated tag)
read_digits tag base (suc n) value (ch ∷ runes) = elim (digit_value ch base) [
  | none ↦ err (invalid tag)
  | some digit ↦ read_digits tag base n ((value * base + digit) % 2 ^ 32) runes
]

abbrev pub if_valid : ℕ → ℕ → ℕ → Result Error (ℕ × ℕ)
if_valid tag n value = if valid_rune value then ok (value, n) else err (invalid_value tag)

-- parse_simple_command_escape_value, on `runes[start:]`
unfoldable pub escape_value : ℕ → ℕ → ℕ → List ℕ → Result Error (ℕ × ℕ)
unfolding read_digits digit_value
escape_value tag base digit_count runes =
    if ltb (length runes) digit_count
    then err (truncated tag)
    else do value ← read_digits tag base digit_count 0 runes; if_valid tag digit_count value

abbrev pub is_positive : ℤ → Bool
is_positive (pos n) = ltb 0 n
is_positive (negsuc n) = false

abbrev pub is_below_two : ℤ → Bool
is_below_two (pos n) = ltb n 2
is_below_two (negsuc n) = true

-- The escapes of one rune.
unfoldable pub simple_escape : ℕ → Option ℕ
simple_escape ch =
    if ch == b'a'
    then some 7
    else if ch == b'b'
    then some 8
    else if ch == b'f'
    then some 12
    else if ch == b'n'
    then some 10
    else if ch == b'r'
    then some 13
    else if ch == b't'
    then some 9
    else if ch == b'v'
    then some 11
    else if ch == b'\\' || ch == b'"' || ch == b'\''
    then some ch
    else none

unfoldable pub numeric_escape : ℕ → List ℕ → Result Error (ℕ × ℕ)
unfolding escape_value
numeric_escape ch runes =
    if ch == b'x'
    then escape_value ch 16 2 runes
    else if ch == b'o'
    then escape_value ch 8 2 runes
    else if ch == b'u'
    then escape_value ch 16 4 runes
    else if ch == b'U'
    then escape_value ch 16 8 runes
    else ok (ch, 0)

-- parse_simple_command_escape, on `runes[start:]`: the rune, and how many more were consumed
unfoldable pub parse_escape : List ℕ → ℤ → Result Error (ℕ × ℕ)
unfolding simple_escape numeric_escape
parse_escape [] escape_level = err missing
parse_escape (ch ∷ runes) escape_level =
    if is_positive escape_level
    then elim (simple_escape ch) [
      | some r ↦ ok (r, 0)
      | none ↦ if is_below_two escape_level then ok (ch, 0) else numeric_escape ch runes
    ]
    else ok (ch, 0)
