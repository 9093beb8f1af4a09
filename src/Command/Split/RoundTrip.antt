-- ===== src/Command/Split/RoundTrip.antt =====
-- client-cts-rxc.go: a command line that is made of arguments splits into them again.
use hodu.Prelude.{
  ℕ, ◌+◌, ◌≤◌, ◌≡◌, refl, ap, ap₂, sym, ◌∙◌, true, false, List, [], ◌∷◌, ◌++◌, append-nil,
  append_assoc, ℤ, arith,
}
use hodu.Prelude.Results.{ok, ◌>>=◌}
use hodu.Command.Split.{Scan, step, scan, finish, split_simple_command, start, or_blank}

-- An argument with a backslash before each of its runes, and an empty one as two quotes.
abbrev pub backslashed : List ℕ → List ℕ
backslashed [] = []
backslashed (ch ∷ word) = b'\\' ∷ ch ∷ backslashed word

abbrev pub quoted : List ℕ → List ℕ
quoted [] = b'\'' ∷ b'\'' ∷ []
quoted (ch ∷ word) = backslashed (ch ∷ word)

-- The arguments with a space between them.
abbrev pub command_line : List (List ℕ) → List ℕ
command_line [] = []
command_line (word ∷ []) = quoted word
command_line (word ∷ w ∷ words) = quoted word ++ (b' ' ∷ command_line (w ∷ words))

-- Between arguments, or in one that has no quote open.
record IsPlain (i : ℕ) (s : Scan) : Type 0 where
  no_quote : s.quote ≡ 0
  no_escape : s.escaped ≡ false
  no_skip : s.skip_until ≤ i

-- The state after a word.
abbrev word_end : ℕ → List ℕ → Scan → Scan
word_end i [] s = s
word_end i (ch ∷ word) s =
    word_end (i + 2) word
      (record s { buf = s.buf ++ (ch ∷ []); skip_until = i + 2; token_started = true })

abbrev end_index : ℕ → List ℕ → ℕ
end_index i [] = i
end_index i (ch ∷ word) = end_index (i + 2) word

-- The state after an argument, before what ends it.
record After (s : Scan) (word : List ℕ) (i : ℕ) (s' : Scan) : Type 0 where
  plain : IsPlain i s'
  buffered : s'.buf ≡ s.buf ++ word
  same_args : s'.args ≡ s.args
  started : s'.token_started ≡ true

word_end-After :
    (i : ℕ) (word : List ℕ) (s : Scan)
    → IsPlain i s
    → s.token_started ≡ true
    → After s word (end_index i word) (word_end i word s)
word_end-After i [] s p t = record {
  plain = p;
  buffered = sym (append-nil s.buf);
  same_args = refl;
  started = t;
}
word_end-After i (ch ∷ word) s p t =
    let s1 : Scan = record s {
      buf = s.buf ++ (ch ∷ []);
      skip_until = i + 2;
      token_started = true;
    } in
    let a =
      word_end-After (i + 2) word s1
        (record { no_quote = p.no_quote; no_escape = p.no_escape; no_skip = omega arith }) refl in
    record {
      plain = a.plain;
      buffered = a.buffered ∙ append_assoc s.buf (ch ∷ []) word;
      same_args = a.same_args;
      started = a.started;
    }

module _ (escape_level : ℤ) where
  one_rune :
      (i ch : ℕ) (rest : List ℕ) (s : Scan)
      → IsPlain i s
      → scan escape_level i (b'\\' ∷ ch ∷ rest) s
        ≡ scan escape_level
            (i + 2)
            rest
            (record s { buf = s.buf ++ (ch ∷ []); skip_until = i + 2; token_started = true })
  unfolding scan step
  one_rune i ch rest s p = ground arith

  scan-backslashed :
      (i : ℕ) (word rest : List ℕ) (s : Scan)
      → IsPlain i s
      → scan escape_level i (backslashed word ++ rest) s
        ≡ scan escape_level (end_index i word) rest (word_end i word s)
  scan-backslashed i [] rest s p = refl
  scan-backslashed i (ch ∷ word) rest s p =
      one_rune i ch (backslashed word ++ rest) s p
      ∙ scan-backslashed (i + 2) word rest _
          (record { no_quote = p.no_quote; no_escape = p.no_escape; no_skip = omega arith })

  two_quotes :
      (i : ℕ) (rest : List ℕ) (s : Scan)
      → IsPlain i s
      → scan escape_level i (b'\'' ∷ b'\'' ∷ rest) s
        ≡ scan escape_level (i + 2) rest (record s { quote = 0; token_started = true })
  unfolding scan step
  two_quotes i rest s p = ground arith

  -- The scan of an argument, with the index and the state after it.
  scan-quoted :
      (i : ℕ) (word rest : List ℕ) (s : Scan)
      → IsPlain i s
      → (j : ℕ) × (s' : Scan) × (scan escape_level i (quoted word ++ rest) s
          ≡ scan escape_level j rest s')
        × After s word j s'
  scan-quoted i [] rest s p = (
    i + 2,
    record s { quote = 0; token_started = true },
    two_quotes i rest s p,
    record {
      plain = record {
        no_quote = refl;
        no_escape = p.no_escape;
        no_skip = omega (arith, p.no_skip);
      };
      buffered = sym (append-nil s.buf);
      same_args = refl;
      started = refl;
    },
  )
  scan-quoted i (ch ∷ word) rest s p =
      let s1 : Scan = record s {
        buf = s.buf ++ (ch ∷ []);
        skip_until = i + 2;
        token_started = true;
      } in
      let p1 : IsPlain (i + 2) s1 = record {
        no_quote = p.no_quote;
        no_escape = p.no_escape;
        no_skip = omega arith;
      } in
      let a = word_end-After (i + 2) word s1 p1 refl in
      (
        end_index (i + 2) word,
        word_end (i + 2) word s1,
        scan-backslashed i (ch ∷ word) rest s p,
        record {
          plain = a.plain;
          buffered = a.buffered ∙ append_assoc s.buf (ch ∷ []) word;
          same_args = a.same_args;
          started = a.started;
        },
      )

  scan_space :
      (i : ℕ) (rest : List ℕ) (s : Scan)
      → IsPlain i s
      → s.token_started ≡ true
      → scan escape_level i (b' ' ∷ rest) s
        ≡ scan escape_level
            (i + 1)
            rest
            (record s { args = s.args ++ (s.buf ∷ []); buf = []; token_started = false })
  unfolding scan step
  scan_space i rest s p t = ground arith

  finish_lem :
      (s : Scan)
      → s.quote ≡ 0
      → s.escaped ≡ false
      → s.token_started ≡ true
      → finish s ≡ or_blank (s.args ++ (s.buf ∷ []))
  unfolding finish
  finish_lem s q e t = ground arith

  or_blank-snoc :
      (xs : List (List ℕ)) (a : List ℕ) → or_blank (xs ++ (a ∷ [])) ≡ ok (xs ++ (a ∷ []))
  or_blank-snoc [] a = refl
  or_blank-snoc (x ∷ xs) a = refl

  scan_end : (i : ℕ) (s : Scan) → scan escape_level i [] s ≡ ok s
  unfolding scan
  scan_end i s = refl

  same_words :
      {s : Scan} {word : List ℕ} {j : ℕ} (s' : Scan)
      → After s word j s'
      → s.buf ≡ []
      → s'.args ++ (s'.buf ∷ []) ≡ s.args ++ (word ∷ [])
  same_words {s} {word} s' a b =
      ap₂ (λ xs y. xs ++ (y ∷ [])) a.same_args (a.buffered ∙ ap (λ y. y ++ word) b)

  -- The rest of a command line, at the start of an argument.
  scan-command_line :
      (i : ℕ) (word : List ℕ) (words : List (List ℕ)) (s : Scan)
      → IsPlain i s
      → s.buf ≡ []
      → (scan escape_level i (command_line (word ∷ words)) s >>= finish)
        ≡ ok (s.args ++ (word ∷ words))
  scan-command_line i word [] s p b =
      let (j, s', e, a) = scan-quoted i word [] s p in
      ap (λ r. scan escape_level i r s >>= finish) (sym (append-nil (quoted word)))
      ∙ ap (λ r. r >>= finish) (e ∙ scan_end j s')
      ∙ finish_lem s' a.plain.no_quote a.plain.no_escape a.started
      ∙ or_blank-snoc s'.args s'.buf
      ∙ ap ok (same_words s' a b)
  scan-command_line i word (w ∷ words) s p b =
      let (j, s', e, a) = scan-quoted i word (b' ' ∷ command_line (w ∷ words)) s p in
      let s1 : Scan = record s' {
        args = s'.args ++ (s'.buf ∷ []);
        buf = [];
        token_started = false;
      } in
      ap (λ r. r >>= finish) (e ∙ scan_space j (command_line (w ∷ words)) s' a.plain a.started)
      ∙ scan-command_line (j + 1) w words s1
          (record {
            no_quote = a.plain.no_quote;
            no_escape = a.plain.no_escape;
            no_skip = omega (arith, a.plain.no_skip);
          })
          refl
      ∙ ap (λ xs. ok (xs ++ (w ∷ words))) (same_words s' a b)
      ∙ ap ok (append_assoc s.args (word ∷ []) (w ∷ words))

-- Splitting gives the arguments back, at any escape level, from a command line that has a backslash
-- before each rune of an argument, two quotes for an argument that is empty, and a space between two
-- arguments, whatever runes the arguments have, spaces, quotes and backslashes too.
pub split_simple_command-command_line :
    (escape_level : ℤ) (word : List ℕ) (words : List (List ℕ))
    → split_simple_command (command_line (word ∷ words)) escape_level ≡ ok (word ∷ words)
unfolding split_simple_command
split_simple_command-command_line escape_level word words =
    scan-command_line escape_level 0 word words start
      (record { no_quote = refl; no_escape = refl; no_skip = omega arith }) refl
