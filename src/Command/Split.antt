-- ===== src/Command/Split.antt =====
-- client-cts-rxc.go: splitting a simple command into its arguments, `split_simple_command`.
pub mod RoundTrip
use hodu.Prelude.{
  ℕ, zero, suc, ◌+◌, Bool, true, false, not, ◌&&◌, ◌||◌, List, [], ◌∷◌, ◌++◌, ltb, leb, ◌==◌,
  if◌then◌else◌, between, ℤ,
}
use hodu.Prelude.Results.{Result, ok, err, ◌>>=◌}
use hodu.Command.Escape.{
  Error, dangling_escape, unterminated_quote, blank, is_positive, parse_escape,
}

-- unicode.IsSpace
abbrev pub is_space : ℕ → Bool
is_space ch =
    between 9 13 ch
    || ch == 32
    || ch == 0x85
    || ch == 0xA0
    || ch == 0x1680
    || between 0x2000 0x200A ch
    || ch == 0x2028
    || ch == 0x2029
    || ch == 0x202F
    || ch == 0x205F
    || ch == 0x3000

-- The variables of the loop. No quote is 0, as in the source; `skip_until` starts at -1 there, which
-- no index is below either.
pub record Scan : Type 0 where
  pub args : List (List ℕ)
  pub buf : List ℕ
  pub quote : ℕ
  pub skip_until : ℕ
  pub token_started : Bool
  pub escaped : Bool

-- After a rune that a backslash escapes, with what it stands for.
abbrev pub write_escaped : ℕ → Scan → ℕ × ℕ → Scan
write_escaped i s (decoded, consumed) = record s {
  buf = s.buf ++ (decoded ∷ []);
  skip_until = i + consumed + 1;
  token_started = true;
  escaped = false;
}

abbrev pub write : ℕ → Scan → Scan
write ch s = record s { buf = s.buf ++ (ch ∷ []); token_started = true }

abbrev pub end_token : Scan → Scan
end_token s =
    if s.token_started
    then record s { args = s.args ++ (s.buf ∷ []); buf = []; token_started = false }
    else s

-- One round of the loop at an index that is not skipped; `runes` is what follows `ch`.
unfoldable pub step : ℤ → ℕ → ℕ → List ℕ → Scan → Result Error Scan
step escape_level i ch runes s =
    if s.escaped
    then (if s.quote == b'"' && is_positive escape_level
        then (do decoded ← parse_escape (ch ∷ runes) escape_level; ok (write_escaped i s decoded))
        else ok (write_escaped i s (ch, 0)))
    else if ch == b'\\'
    then ok (record s { escaped = true; token_started = true })
    else if not (s.quote == 0)
    then ok (if ch == s.quote then record s { quote = 0 } else write ch s)
    else if ch == b'\'' || ch == b'"'
    then ok (record s { quote = ch; token_started = true })
    else ok (if is_space ch then end_token s else write ch s)

unfoldable pub scan : ℤ → ℕ → List ℕ → Scan → Result Error Scan
unfolding step
scan escape_level i [] s = ok s
scan escape_level i (ch ∷ runes) s = do
  s' ← (if ltb i s.skip_until then ok s else step escape_level i ch runes s)
  scan escape_level (i + 1) runes s'

abbrev pub or_blank : List (List ℕ) → Result Error (List (List ℕ))
or_blank [] = err blank
or_blank (a ∷ args) = ok (a ∷ args)

-- What follows the loop.
unfoldable pub finish : Scan → Result Error (List (List ℕ))
finish s =
    if s.escaped
    then err dangling_escape
    else if not (s.quote == 0)
    then err unterminated_quote
    else or_blank (if s.token_started then s.args ++ (s.buf ∷ []) else s.args)

abbrev pub start : Scan
start = record {
  args = [];
  buf = [];
  quote = 0;
  skip_until = 0;
  token_started = false;
  escaped = false;
}

-- split_simple_command
unfoldable pub split_simple_command : List ℕ → ℤ → Result Error (List (List ℕ))
unfolding scan finish
split_simple_command script escape_level = do s ← scan escape_level 0 script start; finish s
