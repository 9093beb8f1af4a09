-- ===== src/RouteOption/Tests.antt =====
-- The words of an option at a concrete number.
use hodu.Prelude.{◌≡◌, refl, arith, [], ◌∷◌}
use hodu.RouteOption.{string_to_route_option, option_string, add_words, word_to_route_option}
use hodu.RouteOption.RoundTrip.{string_to_route_option-option_string}

-- tcp4 and ssh
string_to_route_option-option_string_example : string_to_route_option (option_string 34) ≡ 34
string_to_route_option-option_string_example = string_to_route_option-option_string 34 (omega arith)

-- "tcp4 x" has a word that is none.
unknown_word : string_to_route_option (b't' ∷ b'c' ∷ b'p' ∷ b'4' ∷ b' ' ∷ b'x' ∷ []) ≡ 0
unfolding string_to_route_option add_words word_to_route_option
unknown_word = refl
