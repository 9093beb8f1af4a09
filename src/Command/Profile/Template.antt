-- ===== src/Command/Profile/Template.antt =====
-- client-cts-rxc.go: what an expression of a profile expands to.
use hodu.Prelude.{
  ℕ, suc, ◌+◌, ◌-◌, ◌<◌, ◌≡◌, refl, ap, ap₂, sym, ◌∙◌, Bool, true, false, not, ◌&&◌, none, some,
  List, [], ◌∷◌, ◌++◌, append-nil, append_assoc, ltb, leb, ◌==◌, if◌then◌else◌, length, take, drop,
  take_all, take-append_of_le, drop-append_of_ge, length-append, pos, arith, Bool-cases, inl, inr,
}
use hodu.Command.Profile.{
  expanded, panicked, slice, atoi, before_brace, is_at_sign, input_arg, or_nothing, expand_from,
  expand_arg,
}

-- A text without a byte.
abbrev pub lacks : ℕ → List ℕ → Bool
lacks b [] = true
lacks b (ch ∷ s) = not (ch == b) && lacks b s

-- A piece of an expression: bytes as they are, or `${…}` with the text of an index.
pub data Part : Type 0 where
  text : List ℕ → Part
  argument : List ℕ → Part

abbrev pub expression : List Part → List ℕ
expression [] = []
expression (text s ∷ parts) = s ++ expression parts
expression (argument index ∷ parts) = b'$' ∷ b'{' ∷ index ++ (b'}' ∷ expression parts)

-- A text has no `$`, and an index has neither `$` nor `}`, is not `@` and is a number from 1 on.
abbrev pub IsPart : Part → Type 0
IsPart (text s) = lacks b'$' s ≡ true
IsPart (argument index) =
    (lacks b'$' index ≡ true)
    × (lacks b'}' index ≡ true)
    × (is_at_sign index ≡ false)
    × ((n : ℕ) × (atoi index ≡ some (pos (suc n))))

abbrev pub AllParts : List Part → Type 0
AllParts [] = Unit
AllParts (p ∷ parts) = IsPart p × AllParts parts

-- What the pieces stand for: an index beyond the arguments stands for nothing.
abbrev pub part_text : List (List ℕ) → Part → List ℕ
part_text input_args (text s) = s
part_text input_args (argument index) = or_nothing (input_arg input_args (atoi index))

abbrev pub render : List (List ℕ) → List Part → List ℕ
render input_args [] = []
render input_args (p ∷ parts) = part_text input_args p ++ render input_args parts

drop_front : (a c : List ℕ) → drop (length a) (a ++ c) ≡ c
drop_front a c =
    drop-append_of_ge (length a) a c (omega arith)
    ∙ ap (λ k. drop k c) {x = length a - length a} {y = 0} (omega arith)

-- What follows the last piece.
rest_lem :
    (a b buf : List ℕ)
    → (if ltb (length a) (length (a ++ (b ++ [])))
        then buf ++ drop (length a) (a ++ (b ++ []))
        else buf)
      ≡ buf ++ (b ++ [])
rest_lem a [] buf = elim (Bool-cases (ltb (length a) (length (a ++ [])))) [
  | inl e ↦ rw e (ap (◌++◌ buf) (drop_front a []))
  | inr e ↦ rw e (sym (append-nil buf))
]
rest_lem a (x ∷ b) buf =
    let more : ltb (length a) (length (a ++ (x ∷ (b ++ [])))) ≡ true =
      ground (arith, length-append a (x ∷ (b ++ []))) in
    rw more (ap (◌++◌ buf) (drop_front a (x ∷ (b ++ []))))

slice_lem : (a b c : List ℕ) → slice (length a) (length a + length b) (a ++ (b ++ c)) ≡ some b
slice_lem a b c =
    let d = drop_front a (b ++ c) in
    let t : take (length b) (b ++ c) ≡ b =
      take-append_of_le (length b) b c (omega arith) ∙ take_all (length b) b (omega arith) in
    let n : length a + length b - length a ≡ length b = omega arith in
    let within : (leb (length a) (length a + length b)
          && leb (length a + length b) (length (a ++ (b ++ c))))
        ≡ true =
      ground (arith, length-append a (b ++ c), length-append b c) in
    ap
      (λ x.
        if x
        then some (take (length a + length b - length a) (drop (length a) (a ++ (b ++ c))))
        else none)
      within
    ∙ ap₂ (λ k u. some (take k u)) n d
    ∙ ap some t

before_brace_lem :
    (index rest : List ℕ)
    → lacks b'}' index ≡ true
    → before_brace (index ++ (b'}' ∷ rest)) ≡ some index
before_brace_lem [] rest h = refl
before_brace_lem (ch ∷ index) rest h = ground (arith, before_brace_lem index rest)

lacks_snoc : (s : List ℕ) → lacks b'$' s ≡ true → lacks b'$' (s ++ (b'}' ∷ [])) ≡ true
lacks_snoc [] h = refl
lacks_snoc (ch ∷ s) h = ground (arith, lacks_snoc s)

module _ (arg_expr : List ℕ) (input_args : List (List ℕ)) where
  -- The loop passes over what has no `$`.
  expand_over :
      (w s buf : List ℕ) (i last_pos : ℕ)
      → lacks b'$' w ≡ true
      → expand_from arg_expr input_args i (w ++ s) buf last_pos
        ≡ expand_from arg_expr input_args (i + length w) s buf last_pos
  unfolding expand_from
  expand_over [] s buf i last_pos h =
      ap (λ k. expand_from arg_expr input_args k s buf last_pos) (omega arith)
  expand_over (ch ∷ w) s buf i last_pos h = ground (arith, expand_over w s buf (i + 1) last_pos)

  expand_argument :
      (i last_pos : ℕ) (s buf part index t : List ℕ)
      → slice last_pos i arg_expr ≡ some part
      → before_brace s ≡ some index
      → is_at_sign index ≡ false
      → input_arg input_args (atoi index) ≡ some t
      → expand_from arg_expr input_args i (b'$' ∷ b'{' ∷ s) buf last_pos
        ≡ expand_from arg_expr input_args
            (i + 1)
            (b'{' ∷ s)
            (buf ++ part ++ t)
            (i + 3 + length index)
  unfolding expand_from
  expand_argument i last_pos s buf part index t e f g h = ground arith

  expand_pair :
      (i last_pos : ℕ) (s buf part : List ℕ)
      → slice last_pos i arg_expr ≡ some part
      → expand_from arg_expr input_args i (b'$' ∷ b'$' ∷ s) buf last_pos
        ≡ expand_from arg_expr input_args (i + 1) (b'$' ∷ s) (buf ++ part ++ (b'$' ∷ [])) (i + 2)
  unfolding expand_from
  expand_pair i last_pos s buf part e = ground arith

  expand_beyond :
      (i last_pos : ℕ) (s buf : List ℕ)
      → i < last_pos
      → expand_from arg_expr input_args i (b'$' ∷ s) buf last_pos ≡ panicked
  unfolding expand_from
  expand_beyond i last_pos s buf h = ground arith

  expand_end :
      (a b buf : List ℕ)
      → arg_expr ≡ a ++ (b ++ [])
      → expand_from arg_expr input_args (length a + length b) [] buf (length a)
        ≡ expanded (buf ++ (b ++ []))
  unfolding expand_from
  expand_end a b buf e =
      ap (λ u. expanded (if ltb (length a) (length u) then buf ++ drop (length a) u else buf)) e
      ∙ ap expanded (rest_lem a b buf)

  input_arg-some :
      (index : List ℕ) (n : ℕ)
      → atoi index ≡ some (pos (suc n))
      → input_arg input_args (atoi index) ≡ some (or_nothing (input_arg input_args (atoi index)))
  input_arg-some index n e = rw e refl

  -- From a place between two pieces, with what was not yet written of the text before it.
  expand_parts :
      (parts : List Part) (a b buf : List ℕ)
      → AllParts parts
      → arg_expr ≡ a ++ (b ++ expression parts)
      → expand_from arg_expr input_args (length a + length b) (expression parts) buf (length a)
        ≡ expanded (buf ++ (b ++ render input_args parts))
  expand_parts [] a b buf all e = expand_end a b buf e
  expand_parts (text s ∷ parts) a b buf (h, all) e =
      expand_over s (expression parts) buf (length a + length b) (length a) h
      ∙ ap (λ k. expand_from arg_expr input_args k (expression parts) buf (length a))
          (omega (arith, length-append b s))
      ∙ expand_parts parts a (b ++ s) buf all
          (e ∙ ap (◌++◌ a) (sym (append_assoc b s (expression parts))))
      ∙ ap (λ u. expanded (buf ++ u)) (append_assoc b s (render input_args parts))
  expand_parts (argument index ∷ parts) a b buf ((no_dollar, no_brace, no_at, (n, number)), all) e =
      let i = length a + length b in
      let x = expression parts in
      let t = or_nothing (input_arg input_args (atoi index)) in
      let w : List ℕ = b'{' ∷ (index ++ (b'}' ∷ [])) in
      let a' : List ℕ = a ++ (b ++ (b'$' ∷ w)) in
      let w_lem : b'{' ∷ (index ++ (b'}' ∷ x)) ≡ w ++ x =
        ap (◌∷◌ b'{') (sym (append_assoc index (b'}' ∷ []) x)) in
      let size : length a' ≡ i + 3 + length index = omega (
        arith,
        length-append a (b ++ (b'$' ∷ w)),
        length-append b (b'$' ∷ w),
        length-append index (b'}' ∷ []),
      ) in
      let split : a ++ (b ++ expression (argument index ∷ parts)) ≡ a' ++ x =
        ap (λ u. a ++ (b ++ (b'$' ∷ u))) w_lem
        ∙ ap (◌++◌ a) (sym (append_assoc b (b'$' ∷ w) x))
        ∙ sym (append_assoc a (b ++ (b'$' ∷ w)) x) in
      let words : (buf ++ b ++ t) ++ render input_args parts
          ≡ buf ++ (b ++ (t ++ render input_args parts)) =
        simp append_assoc in
      expand_argument i (length a) (index ++ (b'}' ∷ x)) buf b index t
        (ap (slice (length a) i) e ∙ slice_lem a b (expression (argument index ∷ parts)))
        (before_brace_lem index x no_brace) no_at (input_arg-some index n number)
      ∙ ap (λ u. expand_from arg_expr input_args (i + 1) u (buf ++ b ++ t) (i + 3 + length index))
          w_lem
      ∙ expand_over w x (buf ++ b ++ t) (i + 1) (i + 3 + length index) (lacks_snoc index no_dollar)
      ∙ ap₂ (λ j k. expand_from arg_expr input_args j x (buf ++ b ++ t) k) {x = i + 1 + length w}
          {y = length a' + 0} (omega (arith, size, length-append index (b'}' ∷ []))) (sym size)
      ∙ expand_parts parts a' [] (buf ++ b ++ t) all (e ∙ split)
      ∙ ap expanded words

-- An expression of texts without a `$` and of indices `${n}`, with n a number from 1 on, expands to its
-- texts with the n-th argument for each index, or nothing where there are fewer arguments.
pub expand_arg-expression :
    (parts : List Part) (input_args : List (List ℕ))
    → AllParts parts
    → expand_arg (expression parts) input_args ≡ expanded (render input_args parts)
unfolding expand_arg
expand_arg-expression parts input_args all =
    expand_parts (expression parts) input_args parts [] [] [] all refl

-- The pair `$$`, which a comment of the source says is a literal `$`, panics wherever it is the first
-- `$` of an expression: the loop goes on to the second `$`, whose place is before what is written next.
pub expand_arg_pair :
    (s rest : List ℕ) (input_args : List (List ℕ))
    → lacks b'$' s ≡ true
    → expand_arg (s ++ (b'$' ∷ b'$' ∷ rest)) input_args ≡ panicked
unfolding expand_arg
expand_arg_pair s rest input_args h =
    let e : List ℕ = s ++ (b'$' ∷ b'$' ∷ rest) in
    expand_over e input_args s (b'$' ∷ b'$' ∷ rest) [] 0 0 h
    ∙ expand_pair e input_args (0 + length s) 0 rest [] s (slice_lem [] s (b'$' ∷ b'$' ∷ rest))
    ∙ expand_beyond e input_args (0 + length s + 1) (0 + length s + 2) rest (s ++ (b'$' ∷ []))
        (omega arith)
