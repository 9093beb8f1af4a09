-- ===== src/Command/Profile.antt =====
-- client-cts-rxc.go: the arguments of an rxc profile, `expand_rxc_profile_arg`. A text is the list of
-- its bytes. The source goes over the runes of an expression, of which a `$` is one byte and no part
-- of another, so this goes over the bytes.
pub mod Template
use hodu.Prelude.{
  ℕ, zero, suc, ◌+◌, ◌-◌, ◌*◌, ◌^◌, Bool, true, false, ◌&&◌, ◌||◌, Option, none, some, List, [],
  ◌∷◌, ◌++◌, ltb, leb, ◌==◌, if◌then◌else◌, length, take, drop, get_elem?, digits_of, ℤ, pos,
  negsuc,
}

-- What a call comes to: a text, an error, or a run-time panic.
pub data Outcome (A : Type 0) : Type 0 where
  expanded : A → Outcome A
  unterminated invalid_use invalid_index : Outcome A
  panicked : Outcome A

-- `s[lo:hi]`, which panics out of bounds.
abbrev pub slice : ℕ → ℕ → List ℕ → Option (List ℕ)
slice lo hi s = if leb lo hi && leb hi (length s) then some (take (hi - lo) (drop lo s)) else none

abbrev pub in_range : Bool → Option ℕ → Option ℤ
in_range negative none = none
in_range true (some zero) = some (pos 0)
in_range true (some (suc n)) = if ltb n (2 ^ 63) then some (negsuc n) else none
in_range false (some n) = if ltb n (2 ^ 63) then some (pos n) else none

-- strconv.Atoi, where an int has 64 bits
unfoldable pub atoi : List ℕ → Option ℤ
atoi [] = none
atoi (ch ∷ s) =
    if ch == b'-'
    then in_range true (digits_of s)
    else if ch == b'+'
    then in_range false (digits_of s)
    else in_range false (digits_of (ch ∷ s))

-- What stands before the first `}`.
abbrev pub before_brace : List ℕ → Option (List ℕ)
before_brace [] = none
before_brace (ch ∷ s) =
    if ch == b'}' then some [] else elim (before_brace s) [ none ↦ none | some t ↦ some (ch ∷ t) ]

abbrev pub is_at_sign : List ℕ → Bool
is_at_sign [] = false
is_at_sign (ch ∷ []) = ch == b'@'
is_at_sign (ch ∷ c ∷ s) = false

abbrev pub or_nothing : Option (List ℕ) → List ℕ
or_nothing none = []
or_nothing (some s) = s

-- The text of an argument by its index.
abbrev pub input_arg : List (List ℕ) → Option ℤ → Option (List ℕ)
input_arg input_args none = none
input_arg input_args (some (negsuc n)) = none
input_arg input_args (some (pos zero)) = none
input_arg input_args (some (pos (suc n))) = some (or_nothing (get_elem? input_args n))

-- A `$` that stands for itself, or the index of an argument, by what follows it.
pub data Dollar : Type 0 where
  last literal_pair literal unclosed : Dollar
  argument : List ℕ → Dollar

unfoldable pub dollar : List ℕ → Dollar
dollar [] = last
dollar (ch ∷ s) =
    if ch == b'$'
    then literal_pair
    else if ch == b'{'
    then elim (before_brace s) [ none ↦ unclosed | some index ↦ argument index ]
    else literal

module _ (arg_expr : List ℕ) (input_args : List (List ℕ)) where
  -- What follows the loop.
  abbrev pub rest_of : List ℕ → ℕ → Outcome (List ℕ)
  rest_of buf last_pos =
      expanded (if ltb last_pos (length arg_expr) then buf ++ drop last_pos arg_expr else buf)

  -- The loop, from a position with the bytes from there on.
  unfoldable pub expand_from : ℕ → List ℕ → List ℕ → ℕ → Outcome (List ℕ)
  unfolding dollar
  expand_from i [] buf last_pos = rest_of buf last_pos
  expand_from i (ch ∷ s) buf last_pos = elim (ch == b'$') [
    | false ↦ expand_from (i + 1) s buf last_pos
    | true ↦ elim (slice last_pos i arg_expr) [
      | none ↦ panicked
      | some part ↦ elim (dollar s) [
        | last ↦ rest_of (buf ++ part ++ (b'$' ∷ [])) (i + 1)
        | literal_pair ↦ expand_from (i + 1) s (buf ++ part ++ (b'$' ∷ [])) (i + 2)
        | literal ↦ expand_from (i + 1) s (buf ++ part ++ (b'$' ∷ [])) (i + 1)
        | unclosed ↦ unterminated
        | argument index ↦
            if is_at_sign index then invalid_use else elim (input_arg input_args (atoi index)) [
              | none ↦ invalid_index
              | some text ↦ expand_from (i + 1) s (buf ++ part ++ text) (i + 3 + length index)
            ]
      ]
    ]
  ]

  -- expand_rxc_profile_arg
  unfoldable pub expand_arg : Outcome (List ℕ)
  unfolding expand_from atoi
  expand_arg = expand_from 0 arg_expr [] 0

-- The text `${@}`.
abbrev pub is_all_args : List ℕ → Bool
is_all_args (a ∷ b ∷ c ∷ d ∷ []) = a == b'$' && b == b'{' && c == b'@' && d == b'}'
is_all_args [] = false
is_all_args (a ∷ []) = false
is_all_args (a ∷ b ∷ []) = false
is_all_args (a ∷ b ∷ c ∷ []) = false
is_all_args (a ∷ b ∷ c ∷ d ∷ e ∷ s) = false

abbrev pub and_then : Outcome (List (List ℕ)) → Outcome (List (List ℕ)) → Outcome (List (List ℕ))
and_then (expanded xs) (expanded ys) = expanded (xs ++ ys)
and_then (expanded xs) unterminated = unterminated
and_then (expanded xs) invalid_use = invalid_use
and_then (expanded xs) invalid_index = invalid_index
and_then (expanded xs) panicked = panicked
and_then unterminated r = unterminated
and_then invalid_use r = invalid_use
and_then invalid_index r = invalid_index
and_then panicked r = panicked

abbrev pub as_list : Outcome (List ℕ) → Outcome (List (List ℕ))
as_list (expanded s) = expanded (s ∷ [])
as_list unterminated = unterminated
as_list invalid_use = invalid_use
as_list invalid_index = invalid_index
as_list panicked = panicked

-- expand_rxc_profile_args
unfoldable pub expand_args : List (List ℕ) → List (List ℕ) → Outcome (List (List ℕ))
unfolding expand_arg
expand_args [] input_args = expanded []
expand_args (arg_expr ∷ arg_exprs) input_args =
    and_then
      (if is_all_args arg_expr
        then expanded input_args
        else as_list (expand_arg arg_expr input_args))
      (expand_args arg_exprs input_args)
