-- ===== src/RouteOption.antt =====
-- hodu.go: the words of a route option (`StringToRouteOption`, `RouteOption.String`). An option is a
-- number of 32 bits, of which six have a word.
pub mod RoundTrip
mod Tests
use hodu.Prelude.{
  ℕ, ◌+◌, Bool, true, false, Option, none, some, List, [], ◌∷◌, ◌++◌, ◌==◌, if◌then◌else◌, bit_and,
  bit_or,
}
use hodu.Prelude.Texts.{Text, eq_text, fields}

abbrev pub tcp_text : Text
tcp_text = b't' ∷ b'c' ∷ b'p' ∷ []

abbrev pub tcp4_text : Text
tcp4_text = b't' ∷ b'c' ∷ b'p' ∷ b'4' ∷ []

abbrev pub tcp6_text : Text
tcp6_text = b't' ∷ b'c' ∷ b'p' ∷ b'6' ∷ []

abbrev pub http_text : Text
http_text = b'h' ∷ b't' ∷ b't' ∷ b'p' ∷ []

abbrev pub https_text : Text
https_text = b'h' ∷ b't' ∷ b't' ∷ b'p' ∷ b's' ∷ []

abbrev pub ssh_text : Text
ssh_text = b's' ∷ b's' ∷ b'h' ∷ []

-- word_to_route_option; 0 is ROUTE_OPTION_UNSPEC.
unfoldable pub word_to_route_option : Text → ℕ
word_to_route_option word =
    if eq_text word tcp4_text
    then 2
    else if eq_text word tcp6_text
    then 4
    else if eq_text word tcp_text
    then 1
    else if eq_text word http_text
    then 8
    else if eq_text word https_text
    then 16
    else if eq_text word ssh_text
    then 32
    else 0

-- The loop of StringToRouteOption
unfoldable pub add_words : List Text → ℕ → ℕ
unfolding word_to_route_option
add_words [] option = option
add_words (fld ∷ flds) option =
    let p = word_to_route_option fld in
    let rest = add_words flds (bit_or option p) in if p == 0 then p else rest

-- StringToRouteOption
unfoldable pub string_to_route_option : Text → ℕ
unfolding add_words
string_to_route_option desc = add_words (fields desc) 0

-- `if option & bit != 0 { str += " " + word }`
abbrev pub word_if : ℕ → ℕ → Text → Text
word_if option bit word = if bit_and option bit == 0 then [] else b' ' ∷ word

abbrev pub without_first : Text → Text
without_first [] = []
without_first (c ∷ s) = s

-- RouteOption.String
unfoldable pub option_string : ℕ → Text
option_string option = without_first (
    word_if option 4 tcp6_text
    ++ (word_if option 2 tcp4_text
        ++ (word_if option 1 tcp_text
            ++ (word_if option 8 http_text
                ++ (word_if option 16 https_text ++ word_if option 32 ssh_text)))))
