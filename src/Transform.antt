-- ===== src/Transform.antt =====
-- transform.go: the streaming replacement of a needle (`Transformer`), an implementation of
-- golang.org/x/text/transform. A number stands for a byte. A destination slice is the room that it
-- has: a call returns what it writes to its front.
pub mod Search
pub mod Copying
pub mod Streaming
mod Tests
use hodu.Prelude.{
  ℕ, zero, suc, ◌+◌, ◌-◌, Bool, true, false, ◌&&◌, List, [], ◌∷◌, ◌++◌, Option, none, some, ltb,
  leb, ◌==◌, if◌then◌else◌, length, take, drop,
}

pub record Transformer : Type 0 where
  pub needle : List ℕ
  pub replacement : List ℕ

-- The errors of package transform; `ok` is nil.
pub data Error : Type 0 where
  ok short_dst short_src : Error

pub record Written : Type 0 where
  -- dst[:ndst]
  pub dst : List ℕ
  pub nsrc : ℕ
  pub err : Error

-- bytes.HasPrefix
abbrev pub has_prefix : List ℕ → List ℕ → Bool
has_prefix s [] = true
has_prefix [] (x ∷ p) = false
has_prefix (y ∷ s) (x ∷ p) = y == x && has_prefix s p

abbrev pub suc_index : Option ℕ → Option ℕ
suc_index none = none
suc_index (some i) = some (suc i)

-- bytes.Index: where the needle first stands.
abbrev pub index : List ℕ → List ℕ → Option ℕ
index [] needle = if has_prefix [] needle then some 0 else none
index (x ∷ s) needle = if has_prefix (x ∷ s) needle then some 0 else suc_index (index s needle)

unfoldable pub copy_all : ℕ → List ℕ → List ℕ × Error
copy_all room src = (take room src, if ltb room (length src) then short_dst else ok)

-- What was written before the rest of a call.
abbrev pub after : List ℕ → ℕ → Written → Written
after bs n w = record { dst = bs ++ w.dst; nsrc = n + w.nsrc; err = w.err }

-- The error of a copy, or else the next one.
abbrev pub or_else : Error → Error → Error
or_else ok e = e
or_else short_dst e = short_dst
or_else short_src e = short_src

-- A copy of source bytes that ends the call.
abbrev pub last_copy : List ℕ × Error → Error → Written
last_copy (bs, err) e = record { dst = bs; nsrc = length bs; err = or_else err e }

module _ (t : Transformer) (at_eof : Bool) where
  -- The part of `Transform` after its loop, from `src[nsrc:]`.
  unfoldable pub finish : ℕ → List ℕ → Written
  unfolding copy_all
  finish room src =
      if at_eof
      then last_copy (copy_all room src) ok
      else if leb (length t.needle) (length src)
      then last_copy (copy_all room (take (length src - length t.needle + 1) src)) short_src
      else record { dst = []; nsrc = 0; err = short_src }

  -- The end of a round of the loop: the copy of the replacement, with the rest of the call.
  abbrev pub replaced : List ℕ × Error → Written → Written
  replaced (bs, ok) rest = after bs (length t.needle) rest
  replaced (bs, short_dst) rest = record { dst = []; nsrc = 0; err = short_dst }
  replaced (bs, short_src) rest = record { dst = []; nsrc = 0; err = short_src }

  -- The start of a round: the copy of what precedes the match, with the rest of the call.
  abbrev pub before : List ℕ × Error → Written → Written
  before (bs, ok) rest = after bs (length bs) rest
  before (bs, short_dst) rest = last_copy (bs, short_dst) ok
  before (bs, short_src) rest = last_copy (bs, short_src) ok

  -- The loop, and what follows it.
  unfoldable pub replace_from : ℕ → ℕ → List ℕ → Written
  unfolding copy_all finish
  replace_from zero room src = record { dst = []; nsrc = 0; err = short_src }
  replace_from (suc fuel) room src = elim (index src t.needle) [
    | none ↦ finish room src
    | some i ↦ before (copy_all room (take i src)) (
        replaced (copy_all (room - i) t.replacement)
          (replace_from fuel (room - i - length t.replacement) (drop (i + length t.needle) src)))
  ]

  -- Transform. A round takes a byte or more: the bytes are fuel enough.
  unfoldable pub transform : ℕ → List ℕ → Written
  unfolding copy_all replace_from
  transform room src = elim (length t.needle) [
    | zero ↦ last_copy (copy_all room src) ok
    | suc n ↦ replace_from (length src + 1) room src
  ]
