-- ===== src/Rxc/Output/Tail.antt =====
-- server-rxc-job.go: `append_output` with `capture_tail`.
use hodu.Prelude.{
  ℕ, suc, ◌+◌, ◌-◌, ◌≤◌, ◌<◌, ◌≡◌, sym, true, false, List, [], ◌∷◌, ◌++◌, arith, length,
  length-append, drop, length-drop, drop-drop, drop-append_of_le, drop-append_of_ge, drop-nil, pos,
  append_assoc, append-nil,
}
use hodu.Rxc.Output.{Capture, no_output, append_tail, append_output, keep_last}

-- What a capture of the last `m` bytes of `all` is.
pub record IsTail (m : ℕ) (all : List ℕ) (c : Capture) : Type 0 where
  pub kept : c.output ≡ drop (length all - m) all
  pub fits : c.truncated ≡ false → length all ≤ m
  pub lost : c.truncated ≡ true → m < length all

pub append_tail-IsTail :
    (m : ℕ) (all bytes : List ℕ) (c : Capture)
    → 0 < m
    → IsTail m all c
    → IsTail m (all ++ bytes) (append_tail m bytes c)
unfolding append_tail keep_last
append_tail-IsTail m all bytes c h t = ground (
  arith,
  length-append all bytes,
  length-drop (length all - m) all,
  drop-append_of_ge (length all + length bytes - m) all bytes,
  drop-append_of_le (length all + length bytes - m) all bytes,
  drop-drop (length all + length bytes - m - (length all - m)) (length all - m) all,
)

-- `append_output` with `capture_tail`, one chunk after another.
unfoldable pub append_tails : ℕ → List (List ℕ) → Capture → Capture
unfolding append_output
append_tails n [] c = c
append_tails n (bytes ∷ rest) c = append_tails n rest (append_output (pos (suc n)) bytes true c)

abbrev pub joined : List (List ℕ) → List ℕ
joined [] = []
joined (bytes ∷ rest) = bytes ++ joined rest

append_tails-IsTail_from :
    (n : ℕ) (chunks : List (List ℕ)) (all : List ℕ) (c : Capture)
    → IsTail (suc n) all c
    → IsTail (suc n) (all ++ joined chunks) (append_tails n chunks c)
unfolding append_tails
append_tails-IsTail_from n [] all c t = simp append-nil t
append_tails-IsTail_from n (bytes ∷ rest) all c t = simp (← append_assoc) (
    append_tails-IsTail_from n rest (all ++ bytes) _
      (append_tail-IsTail (suc n) all bytes c (omega arith) t))

no_output-IsTail : (m : ℕ) → IsTail m [] no_output
no_output-IsTail m = record {
  kept = sym (drop-nil (0 - m));
  fits = λ e. omega arith;
  lost = λ e. cc;
}

-- With an output limit of n + 1 bytes and `capture_tail`, after any chunks the capture is the last
-- n + 1 bytes of them all, and it is marked as truncated exactly when they are longer than that.
pub append_tails-IsTail :
    (n : ℕ) (chunks : List (List ℕ))
    → IsTail (suc n) (joined chunks) (append_tails n chunks no_output)
append_tails-IsTail n chunks =
    append_tails-IsTail_from n chunks [] no_output (no_output-IsTail (suc n))
