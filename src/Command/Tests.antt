-- ===== src/Command/Tests.antt =====
-- The theorems on commands at concrete inputs.
use hodu.Prelude.{ℕ, ◌≡◌, refl, List, [], ◌∷◌, pos, codes, arith}
use hodu.Prelude.Results.{ok}
use hodu.Command.Escape.{escape_value, parse_escape}
use hodu.Command.Escape.Bounds.{escaped_number, escape_value-eq-escaped_number}
use hodu.Command.Split.{split_simple_command}
use hodu.Command.Split.RoundTrip.{command_line, split_simple_command-command_line}
use hodu.Command.Profile.{expanded, atoi, expand_args}
use hodu.Command.Profile.Template.{Part, text, argument, render, AllParts}

-- The digits of `\U0001F600`.
escape_value-eq-escaped_number_example :
    escape_value b'U' 16 8 (codes "0001F600!") ≡ escaped_number b'U' 16 8 (codes "0001F600!")
escape_value-eq-escaped_number_example =
    escape_value-eq-escaped_number b'U' 16 8 (codes "0001F600!") (omega arith) (omega arith)

escape_value_test : escape_value b'U' 16 8 (codes "0001F600!") ≡ ok (0x1F600, 8)
unfolding escape_value
escape_value_test = refl

split_simple_command-command_line_example :
    split_simple_command (command_line (codes "it's" ∷ [] ∷ codes "a b" ∷ [])) (pos 0)
    ≡ ok (codes "it's" ∷ [] ∷ codes "a b" ∷ [])
split_simple_command-command_line_example =
    split_simple_command-command_line (pos 0) (codes "it's") ([] ∷ codes "a b" ∷ [])

split_test :
    split_simple_command (codes "run 'a b'  \"c\\td\" ") (pos 1)
    ≡ ok (codes "run" ∷ codes "a b" ∷ codes "c\td" ∷ [])
unfolding split_simple_command parse_escape
split_test = refl

-- `-n${2}x`
abbrev parts : List Part
parts = text (codes "-n") ∷ argument (codes "2") ∷ text (codes "x") ∷ []

abbrev input_args : List (List ℕ)
input_args = codes "a" ∷ codes "bc" ∷ []

parts_all : AllParts parts
unfolding atoi
parts_all = (refl, ((refl, refl, refl, (1, refl)), (refl, tt)))

render_test : render input_args parts ≡ codes "-nbcx"
unfolding atoi
render_test = refl

expand_args_test :
    expand_args (codes "${@}" ∷ codes "-v" ∷ []) input_args
    ≡ expanded (codes "a" ∷ codes "bc" ∷ codes "-v" ∷ [])
unfolding expand_args
expand_args_test = refl
