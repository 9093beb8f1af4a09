-- ===== src/Transform/Copying.antt =====
-- transform.go: what one call takes from the source and writes.
use hodu.Prelude.{
  ℕ, zero, suc, ◌+◌, ◌-◌, ◌≤◌, ◌<◌, ◌≡◌, ◌≢◌, refl, ap, sym, subst, ◌∙◌, Bool, true, false, List,
  [], ◌∷◌, ◌++◌, append_assoc, leb, length, take, drop, arith, Bool-cases, inl, inr, length-append,
  length-take, length-drop, drop-drop, take_all,
}
use hodu.Transform.{
  Transformer, Error, ok, short_dst, short_src, Written, has_prefix, copy_all, after, last_copy,
  replaced, before,
}
use hodu.Transform.Search.{
  replace_all, replace_all_clear, replace_all_here, length-has_prefix, IsClear, IsClear-of_le,
}

module _ (t : Transformer) (at_eof : Bool) where
  -- The replacement in a whole text.
  abbrev pub result : List ℕ → List ℕ
  result = replace_all t.needle t.replacement 0

  -- What may follow the source of this call.
  abbrev pub MayFollow : List ℕ → Type 0
  MayFollow rest = at_eof ≡ true → rest ≡ []

  -- The bytes that a call consumed stand for those that it wrote.
  abbrev pub Stands : List ℕ → List ℕ → ℕ → Type 0
  Stands src bs n =
      (rest : List ℕ) → MayFollow rest → result (src ++ rest) ≡ bs ++ result (drop n src ++ rest)

  pub record Streams (room : ℕ) (src : List ℕ) (w : Written) : Type 0 where
    pub dst_within : length w.dst ≤ room
    pub src_within : w.nsrc ≤ length src
    pub stands : Stands src w.dst w.nsrc
    pub eof : w.err ≡ ok → (at_eof ≡ true) × (w.nsrc ≡ length src)
    pub starved : w.err ≡ short_src → (at_eof ≡ false) × (length src < w.nsrc + length t.needle)
    pub full : w.err ≡ short_dst → room < length w.dst + length t.replacement + 1

  after-Streams :
      (room : ℕ) (src bs : List ℕ) (n : ℕ) (w : Written)
      → length bs ≤ room
      → n ≤ length src
      → Stands src bs n
      → Streams (room - length bs) (drop n src) w
      → Streams room src (after bs n w)
  after-Streams room src bs n w rb ns st s =
      let l = length-append bs w.dst in
      let d = length-drop n src in
      record {
        dst_within = omega (arith, l, s.dst_within);
        src_within = omega (arith, d, s.src_within);
        stands = λ rest m.
            st rest m
            ∙ ap (◌++◌ bs) (s.stands rest m)
            ∙ sym (append_assoc bs w.dst (result (drop w.nsrc (drop n src) ++ rest)))
            ∙ ap (λ u. (bs ++ w.dst) ++ result (u ++ rest)) (drop-drop w.nsrc n src);
        eof = λ e. ((s.eof e).0, omega (arith, (s.eof e).1, d));
        starved = λ e. ((s.starved e).0, omega (arith, (s.starved e).1, d));
        full = λ e. omega (arith, l, s.full e);
      }

  take-take : (k n : ℕ) (s : List ℕ) → k ≤ n → take k (take n s) ≡ take k s
  take-take zero n s h = refl
  take-take (suc k) zero s h = absurd (omega arith)
  take-take (suc k) (suc n) [] h = refl
  take-take (suc k) (suc n) (x ∷ s) h = ap (◌∷◌ x) (take-take k n s (omega arith))

  copy_all_fits : (room : ℕ) (bs : List ℕ) → length bs ≤ room → copy_all room bs ≡ (bs, ok)
  unfolding copy_all
  copy_all_fits room bs h = ground (arith, take_all room bs h)

  copy_all_short :
      (room : ℕ) (bs : List ℕ) → room < length bs → copy_all room bs ≡ (take room bs, short_dst)
  unfolding copy_all
  copy_all_short room bs h = ground arith

  clear-Stands :
      (src : List ℕ) (n : ℕ)
      → ((rest : List ℕ) → MayFollow rest → IsClear t.needle n (src ++ rest))
      → n ≤ length src
      → Stands src (take n src) n
  clear-Stands src n c h rest m = replace_all_clear t.needle t.replacement n src rest (c rest m) h

  -- The copy of the first bytes, where no needle starts.
  module _ (room : ℕ) (src : List ℕ) (n : ℕ)
      (c : (rest : List ℕ) → MayFollow rest → IsClear t.needle n (src ++ rest))
      (h : n ≤ length src) where
    size : length (take n src) ≡ n
    size = ground (arith, length-take n src)

    short-Streams :
        (e : Error) → room < n → Streams room src (last_copy (copy_all room (take n src)) e)
    short-Streams e r =
        let all : copy_all room (take n src) ≡ (take room src, short_dst) =
          copy_all_short room (take n src) (omega (arith, size))
          ∙ ap (λ u. (u, short_dst)) (take-take room n src (omega arith)) in
        let l : length (take room src) ≡ room = ground (arith, length-take room src) in
        rw all (record {
          dst_within = omega (arith, l);
          src_within = omega (arith, l);
          stands = subst (Stands src (take room src)) (sym l) (
              clear-Stands src room
                (λ rest m. IsClear-of_le t.needle room n (src ++ rest) (c rest m) (omega arith))
                (omega arith));
          eof = λ x. cc;
          starved = λ x. cc;
          full = λ x. omega (arith, l);
        })

    fits : n ≤ room → copy_all room (take n src) ≡ (take n src, ok)
    fits r = copy_all_fits room (take n src) (omega (arith, size))

    pub last-Streams :
        (e : Error)
        → (e ≡ ok → (at_eof ≡ true) × (n ≡ length src))
        → (e ≡ short_src → (at_eof ≡ false) × (length src < n + length t.needle))
        → e ≢ short_dst
        → Streams room src (last_copy (copy_all room (take n src)) e)
    last-Streams e at_end starved no_short = elim (Bool-cases (leb n room)) [
      | inr r ↦ short-Streams e (ground arith)
      | inl r ↦ rw (fits (ground arith)) (record {
        dst_within = ground (arith, size);
        src_within = omega (arith, size);
        stands = subst (Stands src (take n src)) (sym size) (clear-Stands src n c h);
        eof = λ x. ((at_end x).0, size ∙ (at_end x).1);
        starved = λ x. ((starved x).0, omega (arith, size, (starved x).1));
        full = λ x. absurd (no_short x);
      })
    ]

    short_before :
        (w : Written)
        → room < n
        → last_copy (copy_all room (take n src)) ok ≡ before t at_eof (copy_all room (take n src)) w
    short_before w r = rw (copy_all_short room (take n src) (omega (arith, size))) refl

    pub before-Streams :
        (w : Written)
        → Streams (room - n) (drop n src) w
        → Streams room src (before t at_eof (copy_all room (take n src)) w)
    before-Streams w s = elim (Bool-cases (leb n room)) [
      | inr r ↦
          subst (Streams room src) (short_before w (ground arith)) (short-Streams ok (ground arith))
      | inl r ↦ rw (fits (ground arith)) (
          rw size (
            after-Streams room src (take n src) n w (ground (arith, size)) h
              (clear-Stands src n c h) (rw size s)))
    ]

  -- The replacement of a needle at the front.
  pub replaced-Streams :
      (room : ℕ) (src : List ℕ) (w : Written)
      → 0 < length t.needle
      → has_prefix src t.needle ≡ true
      → Streams (room - length t.replacement) (drop (length t.needle) src) w
      → Streams room src (replaced t at_eof (copy_all room t.replacement) w)
  replaced-Streams room src w pos here s = elim (Bool-cases (leb (length t.replacement) room)) [
    | inl r ↦ rw (copy_all_fits room t.replacement (ground arith)) (
        after-Streams room src t.replacement (length t.needle) w (ground arith)
          (length-has_prefix src t.needle here)
          (λ rest m. replace_all_here t.needle t.replacement src rest pos here) s)
    | inr r ↦ rw (copy_all_short room t.replacement (ground arith)) (record {
      dst_within = omega arith;
      src_within = omega arith;
      stands = λ rest m. refl;
      eof = λ x. cc;
      starved = λ x. cc;
      full = λ x. ground arith;
    })
  ]
