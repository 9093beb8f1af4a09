-- ===== src/Transform/Streaming.antt =====
-- transform.go: a call, and a text that comes in chunks.
use hodu.Prelude.{
  ℕ, zero, suc, ◌+◌, ◌-◌, ◌≤◌, ◌<◌, ◌≡◌, ◌≢◌, refl, ap, sym, subst, ◌∙◌, Bool, true, false, List,
  [], ◌∷◌, ◌++◌, append-nil, append_assoc, Option, none, some, leb, length, take, drop, arith,
  Bool-cases, inl, inr, length-append, length-drop, drop-drop, take_all,
}
use hodu.Transform.{
  Transformer, Error, ok, short_dst, short_src, Written, index, copy_all, last_copy, finish,
  replaced, before, replace_from, transform,
}
use hodu.Transform.Search.{
  length-has_prefix, IsClear, IsClear-append, IsClear-of_le, IsIndex, index-IsIndex,
}
use hodu.Transform.Copying.{result, Streams, last-Streams, before-Streams, replaced-Streams}

module _ (t : Transformer) (pos : 0 < length t.needle) where
  finish-Streams :
      (at_eof : Bool) (room : ℕ) (src : List ℕ)
      → IsClear t.needle (length src) src
      → Streams t at_eof room src (finish t at_eof room src)
  unfolding finish
  finish-Streams true room src c =
      subst (λ s. Streams t true room src (last_copy (copy_all room s) ok))
        (take_all (length src) src (omega arith))
        (last-Streams t true room src (length src)
          (λ rest m.
            subst (λ r. IsClear t.needle (length src) (src ++ r)) (sym (m refl))
              (subst (IsClear t.needle (length src)) (sym (append-nil src)) c))
          (omega arith) ok (λ e. (refl, refl)) (λ e. cc) (λ e. cc))
  finish-Streams false room src c = elim (Bool-cases (leb (length t.needle) (length src))) [
    | inl e ↦ rw e (
        last-Streams t false room src (length src - length t.needle + 1)
          (λ rest m.
            IsClear-append t.needle src rest (length src - length t.needle + 1)
              (IsClear-of_le t.needle (length src - length t.needle + 1) (length src) src c
                (ground (arith, pos)))
              (ground arith) pos)
          (ground (arith, pos)) short_src (λ x. cc) (λ x. (refl, ground arith)) (λ x. cc))
    | inr e ↦ rw e (record {
      dst_within = omega arith;
      src_within = omega arith;
      stands = λ rest m. refl;
      eof = λ x. cc;
      starved = λ x. (refl, ground arith);
      full = λ x. cc;
    })
  ]

  module _ (at_eof : Bool) where
    -- A round of the loop, with what the search finds and the rest of the loop.
    abbrev round : ℕ → ℕ → List ℕ → Option ℕ → Written
    round fuel room src none = finish t at_eof room src
    round fuel room src (some i) = before t at_eof (copy_all room (take i src)) (
        replaced t at_eof (copy_all (room - i) t.replacement) (
          replace_from t at_eof fuel (room - i - length t.replacement)
            (drop (i + length t.needle) src)))

    round-Streams :
        (fuel room : ℕ) (src : List ℕ) (o : Option ℕ)
        → length src < fuel + 1
        → ((room' : ℕ) (src' : List ℕ)
            → length src' < fuel
            → Streams t at_eof room' src' (replace_from t at_eof fuel room' src'))
        → IsIndex t.needle src o
        → Streams t at_eof room src (round fuel room src o)
    round-Streams fuel room src none f go c = finish-Streams at_eof room src c
    round-Streams fuel room src (some i) f go (c, here, l) =
        let d = length-drop i src in
        let fit = length-has_prefix (drop i src) t.needle here in
        let left = drop (i + length t.needle) src in
        before-Streams t at_eof room src i
          (λ rest m. IsClear-append t.needle src rest i c (omega (arith, fit, d)) pos) l _
          (replaced-Streams t at_eof (room - i) (drop i src) _ pos here (
            subst
              (λ s.
                Streams t at_eof (room - i - length t.replacement) s
                  (replace_from t at_eof fuel (room - i - length t.replacement) left))
              (sym (drop-drop (length t.needle) i src))
              (go (room - i - length t.replacement) left
                (omega (arith, pos, length-drop (i + length t.needle) src, fit, d, f)))))

    replace_from-Streams :
        (fuel room : ℕ) (src : List ℕ)
        → length src < fuel
        → Streams t at_eof room src (replace_from t at_eof fuel room src)
    unfolding replace_from
    replace_from-Streams zero room src f = absurd (omega arith)
    replace_from-Streams (suc fuel) room src f =
        round-Streams fuel room src (index src t.needle) (omega arith)
          (λ room' src' f'. replace_from-Streams fuel room' src' f')
          (index-IsIndex t.needle src pos)

drop_all : (n : ℕ) (s : List ℕ) → length s ≤ n → drop n s ≡ []
drop_all zero [] h = refl
drop_all zero (x ∷ s) h = absurd (omega arith)
drop_all (suc n) [] h = refl
drop_all (suc n) (x ∷ s) h = drop_all n s (omega arith)

ok_of_not : (err : Error) → (err ≢ short_src) → (err ≢ short_dst) → err ≡ ok
ok_of_not ok b c = refl
ok_of_not short_dst b c = absurd (c refl)
ok_of_not short_src b c = absurd (b refl)

transform_eq :
    (t : Transformer) (at_eof : Bool) (room : ℕ) (src : List ℕ)
    → 0 < length t.needle
    → transform t at_eof room src ≡ replace_from t at_eof (length src + 1) room src
unfolding transform
transform_eq t at_eof room src pos = ground arith

-- One call with a needle that is not empty: it writes within the room and consumes within the
-- source; whatever text may follow, the replacement of the needle in source and text together is
-- what the call wrote, and then the replacement in what it has left. Without an error it has consumed
-- all of the last chunk; it asks for more source only before the last chunk, with less than a needle
-- left; and for more room only where less than a replacement and a byte is left of it.
pub transform-Streams :
    (t : Transformer) (at_eof : Bool) (room : ℕ) (src : List ℕ)
    → 0 < length t.needle
    → Streams t at_eof room src (transform t at_eof room src)
transform-Streams t at_eof room src pos =
    subst (Streams t at_eof room src) (sym (transform_eq t at_eof room src pos))
      (replace_from-Streams t pos at_eof (length src + 1) room src (omega arith))

module _ (t : Transformer) where
  -- A caller that passes chunks, each with some room, and keeps what a call leaves: what all calls
  -- wrote, and what is left.
  abbrev pub feed : List (ℕ × List ℕ) → List ℕ → List ℕ × List ℕ
  feed [] left = ([], left)
  feed ((room, chunk) ∷ chunks) left =
      let w = transform t false room (left ++ chunk) in
      let rest = feed chunks (drop w.nsrc (left ++ chunk)) in (w.dst ++ rest.0, rest.1)

  abbrev pub text : List (ℕ × List ℕ) → List ℕ
  text [] = []
  text ((room, chunk) ∷ chunks) = chunk ++ text chunks

  feed_lem :
      (chunks : List (ℕ × List ℕ)) (left rest : List ℕ)
      → 0 < length t.needle
      → result t false (left ++ (text chunks ++ rest))
        ≡ (feed chunks left).0 ++ result t false ((feed chunks left).1 ++ rest)
  feed_lem [] left rest pos = refl
  feed_lem ((room, chunk) ∷ chunks) left rest pos =
      let w = transform t false room (left ++ chunk) in
      let f = feed chunks (drop w.nsrc (left ++ chunk)) in
      let s = transform-Streams t false room (left ++ chunk) pos in
      ap (λ u. result t false (left ++ u)) (append_assoc chunk (text chunks) rest)
      ∙ ap (result t false) (sym (append_assoc left chunk (text chunks ++ rest)))
      ∙ s.stands (text chunks ++ rest) (λ x. cc)
      ∙ ap (◌++◌ w.dst) (feed_lem chunks (drop w.nsrc (left ++ chunk)) rest pos)
      ∙ sym (append_assoc w.dst f.0 (result t false (f.1 ++ rest)))

  -- A text that comes in chunks, whatever their sizes and the room for each: if the call for the last
  -- one ends without an error, then what the calls wrote is the text with every needle replaced, from
  -- the left, also where a needle goes from one chunk to the next.
  pub feed-result :
      (chunks : List (ℕ × List ℕ)) (room : ℕ) (chunk : List ℕ)
      → 0 < length t.needle
      → (transform t true room ((feed chunks []).1 ++ chunk)).err ≡ ok
      → (feed chunks []).0 ++ (transform t true room ((feed chunks []).1 ++ chunk)).dst
        ≡ result t true (text chunks ++ chunk)
  feed-result chunks room chunk pos e =
      let src = (feed chunks []).1 ++ chunk in
      let w = transform t true room src in
      let s = transform-Streams t true room src pos in
      let all : result t true src ≡ w.dst =
        ap (result t true) (sym (append-nil src))
        ∙ s.stands [] (λ x. refl)
        ∙ ap (λ u. w.dst ++ result t true (u ++ []))
            (drop_all w.nsrc src (omega (arith, (s.eof e).1)))
        ∙ append-nil w.dst in
      ap (◌++◌ (feed chunks []).0) (sym all) ∙ sym (feed_lem chunks [] chunk pos)

  -- The call for the last chunk ends without an error if it has more room than the whole result and
  -- one replacement, so a text in chunks is transformed to its end.
  pub feed-ends :
      (chunks : List (ℕ × List ℕ)) (room : ℕ) (chunk : List ℕ)
      → 0 < length t.needle
      → length (result t true (text chunks ++ chunk)) + length t.replacement < room
      → (transform t true room ((feed chunks []).1 ++ chunk)).err ≡ ok
  feed-ends chunks room chunk pos big =
      let src = (feed chunks []).1 ++ chunk in
      let w = transform t true room src in
      let s = transform-Streams t true room src pos in
      let left = result t true (drop w.nsrc src ++ []) in
      let all : result t true (text chunks ++ chunk) ≡ (feed chunks []).0 ++ (w.dst ++ left) =
        feed_lem chunks [] chunk pos
        ∙ ap (λ u. (feed chunks []).0 ++ result t true u) (sym (append-nil src))
        ∙ ap (◌++◌ (feed chunks []).0) (s.stands [] (λ x. refl)) in
      ok_of_not w.err (λ e. ground (arith, s.starved e))
        (λ e. omega (
          arith,
          s.full e,
          ap length all,
          length-append (feed chunks []).0 (w.dst ++ left),
          length-append w.dst left,
        ))
