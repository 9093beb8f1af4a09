-- ===== src/Sessions/Rxc/Held.antt =====
-- server-cts-rxc.go: what the counts of a connection's sessions keep, for each thing that a goroutine does.
use hodu.Prelude.{
  ℕ, zero, suc, ◌+◌, ◌<◌, ◌≤◌, ◌≡◌, Bool, true, false, some, List, [], ◌∷◌, ◌++◌, arith, ℤ, pos,
  negsuc, inc, dec, bit, count, length, lookup, has_key, has_key-lookup, has_key-delete_key,
  lookup-delete_key, ◌==◌,
}
use hodu.Sessions.Rxc.{
  ServerRxc, Effect, sends_start, sends_stop, sends_data, asks_stop, stops_sink, writes_sink,
  rxc_ids, put_rxc, take_rxc, remove_rxc_by_id,
}
use hodu.Sessions.Rxc.Threads.{
  Thread, at_make, at_count_on, at_count_off, at_sink_count, at_sink_stop, World, told, count_off,
}

-- How often an id stands in a list.
abbrev pub times : ℕ → List ℕ → ℕ
times k ids = count (λ j. j == k) ids

-- The sink of a session under the id is stopped on behalf of the client, and will be.
abbrev pub is_sink_stop : ℕ → Effect → Bool
is_sink_stop k (stops_sink rxc flags msg) = rxc.id == k
is_sink_stop k (sends_start id) = false
is_sink_stop k (sends_stop id flags) = false
is_sink_stop k (sends_data id bytes) = false
is_sink_stop k (asks_stop rxc) = false
is_sink_stop k (writes_sink rxc flags bytes) = false

abbrev pub stops_later : ℕ → Thread → Bool
stops_later k (at_sink_count rxc flags msg) = rxc.id == k
stops_later k (at_sink_stop rxc flags msg) = rxc.id == k
stops_later k _ = false

abbrev pub is_start : Effect → Bool
is_start (sends_start id) = true
is_start (sends_stop id flags) = false
is_start (sends_data id bytes) = false
is_start (asks_stop rxc) = false
is_start (stops_sink rxc flags msg) = false
is_start (writes_sink rxc flags bytes) = false

-- A goroutine that is about to count a session on or off.
abbrev pub counts_on : Thread → Bool
counts_on (at_count_on rxc) = true
counts_on _ = false

abbrev pub counts_off : Thread → Bool
counts_off (at_count_off rxc) = true
counts_off (at_sink_count rxc flags msg) = true
counts_off _ = false

-- An integer is a - b.
abbrev pub IsDiff : ℤ → ℕ → ℕ → Type 0
IsDiff (pos n) a b = n + b ≡ a
IsDiff (negsuc n) a b = b ≡ a + n + 1

-- With so many goroutines that will stop a sink, and that will count on or off.
pub record Holds (others : ℕ) (w : World) (later : ℕ → ℕ) (on off : ℕ) : Type 0 where
  pub keyed : (id : ℕ) (r : ServerRxc) → lookup id w.tables.rxc_map ≡ some r → r.id ≡ id
  pub next_pos : 0 < w.tables.rxc_next_id
  pub next_lt : w.tables.rxc_next_id < rxc_ids
  pub stopped_once : (k : ℕ) → count (is_sink_stop k) w.log + later k ≤ times k w.removed
  pub removed_once :
      (k : ℕ) → times k w.removed + bit (has_key k w.tables.rxc_map) ≤ times k w.entered
  pub counted :
      IsDiff w.tables.rxc_sessions (others + count is_start w.log + off) (length w.removed + on)

inc-IsDiff : (z : ℤ) (a b c d : ℕ) → a + d + 1 ≡ c + b → IsDiff z a b → IsDiff (inc z) c d
inc-IsDiff (pos n) a b c d h e = omega arith
inc-IsDiff (negsuc zero) a b c d h e = omega arith
inc-IsDiff (negsuc (suc n)) a b c d h e = omega arith

dec-IsDiff : (z : ℤ) (a b c d : ℕ) → a + d ≡ c + b + 1 → IsDiff z a b → IsDiff (dec z) c d
dec-IsDiff (pos zero) a b c d h e = omega arith
dec-IsDiff (pos (suc n)) a b c d h e = omega arith
dec-IsDiff (negsuc n) a b c d h e = omega arith

same-IsDiff : (z : ℤ) (a b c d : ℕ) → a + d ≡ c + b → IsDiff z a b → IsDiff z c d
same-IsDiff (pos n) a b c d h e = omega arith
same-IsDiff (negsuc n) a b c d h e = omega arith

count-append :
    {A : Type 0} (p : A → Bool) (xs ys : List A) → count p (xs ++ ys) ≡ count p xs + count p ys
count-append p [] ys = omega arith
count-append p (x ∷ xs) ys = omega (arith, count-append p xs ys)

-- Only what was logged is new, and it stops no sink and starts nothing.
module _ (others : ℕ) (w : World) (later : ℕ → ℕ) (on off : ℕ) where
  pub told-Holds :
      (es : List Effect)
      → ((k : ℕ) → count (is_sink_stop k) es ≡ 0)
      → count is_start es ≡ 0
      → Holds others w later on off
      → Holds others (told es w) later on off
  told-Holds es ns nb h = record {
    keyed = h.keyed;
    next_pos = h.next_pos;
    next_lt = h.next_lt;
    stopped_once =
        λ k. omega (arith, ns k, h.stopped_once k, count-append (is_sink_stop k) w.log es);
    removed_once = h.removed_once;
    counted =
        same-IsDiff w.tables.rxc_sessions _ _ _ _
          (omega (arith, nb, count-append is_start w.log es)) h.counted;
  }

  -- A stop of a sink that was due.
  pub stopped-Holds :
      (rxc : ServerRxc) (es : List Effect)
      → ((k : ℕ) → count (is_sink_stop k) es ≤ bit (rxc.id == k))
      → count is_start es ≡ 0
      → Holds others w (λ k. later k + bit (rxc.id == k)) on off
      → Holds others (told es w) later on off
  stopped-Holds rxc es ns nb h = record {
    keyed = h.keyed;
    next_pos = h.next_pos;
    next_lt = h.next_lt;
    stopped_once =
        λ k. omega (arith, ns k, h.stopped_once k, count-append (is_sink_stop k) w.log es);
    removed_once = h.removed_once;
    counted =
        same-IsDiff w.tables.rxc_sessions _ _ _ _
          (omega (arith, nb, count-append is_start w.log es)) h.counted;
  }

  -- A start packet is sent, which will be counted.
  pub started-Holds :
      (id : ℕ)
      → Holds others w later on off
      → Holds others (told (sends_start id ∷ []) w) later (on + 1) off
  started-Holds id h = record {
    keyed = h.keyed;
    next_pos = h.next_pos;
    next_lt = h.next_lt;
    stopped_once = λ k.
        omega (arith, h.stopped_once k, count-append (is_sink_stop k) w.log (sends_start id ∷ []));
    removed_once = h.removed_once;
    counted =
        same-IsDiff w.tables.rxc_sessions _ _ _ _
          (omega (arith, count-append is_start w.log (sends_start id ∷ []))) h.counted;
  }

  pub counted_on-Holds :
      Holds others w later (on + 1) off
      → Holds others
          (record w { tables = record w.tables { rxc_sessions = inc w.tables.rxc_sessions } })
          later
          on
          off
  counted_on-Holds h = record {
    keyed = h.keyed;
    next_pos = h.next_pos;
    next_lt = h.next_lt;
    stopped_once = h.stopped_once;
    removed_once = h.removed_once;
    counted = inc-IsDiff w.tables.rxc_sessions _ _ _ _ (omega arith) h.counted;
  }

  pub counted_off-Holds :
      Holds others w later on (off + 1) → Holds others (count_off w) later on off
  counted_off-Holds h = record {
    keyed = h.keyed;
    next_pos = h.next_pos;
    next_lt = h.next_lt;
    stopped_once = h.stopped_once;
    removed_once = h.removed_once;
    counted = dec-IsDiff w.tables.rxc_sessions _ _ _ _ (omega arith) h.counted;
  }

  pub undone-Holds :
      (rxc : ServerRxc)
      → Holds others w later on off
      → Holds others (record w { tables = take_rxc rxc w.tables }) later on off
  unfolding take_rxc
  undone-Holds rxc h = record {
    keyed = λ i r e. ground (arith, h.keyed i r, lookup-delete_key i rxc.id w.tables.rxc_map);
    next_pos = h.next_pos;
    next_lt = h.next_lt;
    stopped_once = h.stopped_once;
    removed_once =
        λ k. ground (arith, h.removed_once k, has_key-delete_key k rxc.id w.tables.rxc_map);
    counted = h.counted;
  }

  -- A session is removed: it will be counted off, and its sink may be stopped.
  pub removed-Holds :
      (id : ℕ) (rxc : ServerRxc)
      → lookup id w.tables.rxc_map ≡ some rxc
      → Holds others w later on off
      → Holds others
          (record w { tables = (remove_rxc_by_id id w.tables).0; removed = id ∷ w.removed })
          (λ k. later k + bit (rxc.id == k))
          on
          (off + 1)
  unfolding remove_rxc_by_id
  removed-Holds id rxc e h =
      rw (remove_rxc_by_id, e)
        (record {
          keyed = λ i r er. ground (arith, h.keyed i r, lookup-delete_key i id w.tables.rxc_map);
          next_pos = h.next_pos;
          next_lt = h.next_lt;
          stopped_once = λ k. rw (h.keyed id rxc e) (omega (arith, h.stopped_once k));
          removed_once = λ k. ground (
            arith,
            h.removed_once k,
            has_key-delete_key k id w.tables.rxc_map,
            has_key-lookup id rxc w.tables.rxc_map e,
          );
          counted = same-IsDiff w.tables.rxc_sessions _ _ _ _ (omega arith) h.counted;
        })

  -- A free id is entered.
  pub entered-Holds :
      (rxc : ServerRxc) (next : ℕ)
      → has_key rxc.id w.tables.rxc_map ≡ false
      → 0 < next
      → next < rxc_ids
      → Holds others w later on off
      → Holds others
          (record w {
            tables = put_rxc rxc (record w.tables { rxc_next_id = next });
            threads = at_make rxc ∷ w.threads;
            entered = rxc.id ∷ w.entered;
          })
          later
          on
          off
  unfolding put_rxc
  entered-Holds rxc next free n0 n1 h = record {
    keyed = λ i r e. ground (arith, h.keyed i r);
    next_pos = n0;
    next_lt = n1;
    stopped_once = h.stopped_once;
    removed_once = λ k. ground (arith, h.removed_once k);
    counted = h.counted;
  }
