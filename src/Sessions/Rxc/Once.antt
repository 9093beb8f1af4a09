-- ===== src/Sessions/Rxc/Once.antt =====
-- server-cts-rxc.go: what holds of the sessions however the goroutines come in between one another.
use hodu.Prelude.{
  ℕ, ◌+◌, ◌-◌, ◌<◌, ◌≤◌, ◌≡◌, refl, ap, Bool, true, false, Option, none, some, List, [], ◌∷◌,
  Bool-cases, Option-cases, inl, inr, arith, bit, count, count-set, bit-le-count, lookup, has_key,
  get_elem?, set, ◌==◌,
}
use hodu.IdPool.{assign_id}
use hodu.IdPool.Found.{Finds, assign_id-Finds}
use hodu.Sessions.Rxc.{
  Sink, ServerRxc, Effect, sends_stop, sends_data, asks_stop, writes_sink, rxc_ids, ws_is_taken,
  sent, rxc_start, rxc_stop, rxc_data,
}
use hodu.Sessions.Rxc.Threads.{
  Thread, at_make, at_send, at_undo, at_count_on, at_send_stop, at_remove, at_count_off,
  at_ask_stop, at_sink_count, at_sink_stop, at_send_stop_by_id, at_send_data, at_sink_write, ended,
  Call, adds, stops_ws, sends_stop_by_id, writes_ws, handles, World, enter_rxc, remove_and,
  after_sink_removal, spawn, if_found, write_thread, begin, after_ws_removal, stop_effects, advance,
  set_thread, Event, begins, goes, step, steps, new_world,
}
use hodu.Sessions.Rxc.Held.{
  is_sink_stop, stops_later, counts_on, counts_off, is_start, Holds, told-Holds, stopped-Holds,
  started-Holds, counted_on-Holds, counted_off-Holds, undone-Holds, removed-Holds, entered-Holds,
}

abbrev pub Sound : ℕ → World → Type 0
Sound others w =
    Holds others w (λ k. count (stops_later k) w.threads) (count counts_on w.threads)
      (count counts_off w.threads)

same-Holds :
    (others : ℕ) (w : World) (l l' : ℕ → ℕ) (on on' off off' : ℕ)
    → ((k : ℕ) → l' k ≤ l k)
    → on ≡ on'
    → off ≡ off'
    → Holds others w l on off
    → Holds others w l' on' off'
same-Holds others w l l' on on' off off' le e f h = record {
  keyed = h.keyed;
  next_pos = h.next_pos;
  next_lt = h.next_lt;
  stopped_once = λ k. omega (arith, h.stopped_once k, le k);
  removed_once = h.removed_once;
  counted = rw (← e, ← f) h.counted;
}

-- What the other goroutines will do, and one more.
abbrev With : ℕ → (ℕ → ℕ) → ℕ → ℕ → World × Thread → Type 0
With others later on off (w, t) =
    Holds others w (λ k. later k + bit (stops_later k t)) (on + bit (counts_on t))
      (off + bit (counts_off t))

module _ (others : ℕ) (later : ℕ → ℕ) (on off : ℕ) (w : World) where
  -- A goroutine goes on without anything that counts.
  moved-With :
      (t t' : Thread)
      → ((k : ℕ) → bit (stops_later k t') ≤ bit (stops_later k t))
      → counts_on t ≡ counts_on t'
      → counts_off t ≡ counts_off t'
      → With others later on off (w, t)
      → With others later on off (w, t')
  moved-With t t' le e f h =
      same-Holds others w _ _ _ _ _ _ (λ k. omega (arith, le k)) (ap (λ b. on + bit b) e)
        (ap (λ b. off + bit b) f) h

  remove_and-With :
      (id : ℕ) (f : Option ServerRxc → Thread)
      → ((k : ℕ) → stops_later k (f none) ≡ false)
      → counts_on (f none) ≡ false
      → counts_off (f none) ≡ false
      → ((rxc : ServerRxc) (k : ℕ) → bit (stops_later k (f (some rxc))) ≤ bit (rxc.id == k))
      → ((rxc : ServerRxc) → counts_on (f (some rxc)) ≡ false)
      → ((rxc : ServerRxc) → counts_off (f (some rxc)) ≡ true)
      → Holds others w later on off
      → With others later on off (remove_and id f w)
  unfolding remove_and
  remove_and-With id f n0 n1 n2 s0 s1 s2 h = elim (Option-cases (lookup id w.tables.rxc_map)) [
    | inl e ↦
        rw (remove_and, e)
          (same-Holds others w _ _ _ _ _ _ (λ k. omega (arith, ap bit (n0 k)))
            (omega (arith, ap bit n1)) (omega (arith, ap bit n2)) h)
    | inr (rxc, e) ↦
        rw (remove_and, e)
          (same-Holds others _ _ _ _ _ _ _ (λ k. omega (arith, s0 rxc k))
            (omega (arith, ap bit (s1 rxc))) (omega (arith, ap bit (s2 rxc)))
            (removed-Holds others w later on off id rxc e h))
  ]

  -- A goroutine without anything that counts.
  plain-With :
      (t : Thread)
      → ((k : ℕ) → stops_later k t ≡ false)
      → counts_on t ≡ false
      → counts_off t ≡ false
      → Holds others w later on off
      → With others later on off (w, t)
  plain-With t n0 n1 n2 h =
      same-Holds others w _ _ _ _ _ _ (λ k. omega (arith, ap bit (n0 k))) (omega (arith, ap bit n1))
        (omega (arith, ap bit n2)) h

  -- And back.
  bare-Holds :
      (t : Thread)
      → counts_on t ≡ false
      → counts_off t ≡ false
      → With others later on off (w, t)
      → Holds others w later on off
  bare-Holds t n1 n2 h =
      same-Holds others w _ _ _ _ _ _ (λ k. omega arith) (omega (arith, ap bit n1))
        (omega (arith, ap bit n2)) h

one_quiet :
    (works : Bool) (e : Effect) (k : ℕ)
    → is_sink_stop k e ≡ false
    → count (is_sink_stop k) (sent works e) ≡ 0
one_quiet true e k h = omega (arith, ap bit h)
one_quiet false e k h = refl

no_start : (works : Bool) (e : Effect) → is_start e ≡ false → count is_start (sent works e) ≡ 0
no_start true e h = omega (arith, ap bit h)
no_start false e h = refl

stop_effects_once :
    (rxc : ServerRxc) (flags : ℕ) (msg : List ℕ)
    → ((k : ℕ) → count (is_sink_stop k) (stop_effects rxc flags msg) ≤ bit (rxc.id == k))
      × (count is_start (stop_effects rxc flags msg) ≡ 0)
stop_effects_once rxc flags msg = elim (Option-cases rxc.sink) [
  | inl e ↦ rw (stop_effects, e) (λ k. omega arith, refl)
  | inr (sink, e) ↦ rw (stop_effects, e) (λ k. omega arith, refl)
]

module _ (others : ℕ) (later : ℕ → ℕ) (on off : ℕ) where
  advance-With :
      (works : Bool) (t : Thread) (w : World)
      → With others later on off (w, t)
      → With others later on off (advance works t w)
  unfolding advance
  advance-With true (at_make rxc) w h = h
  advance-With false (at_make rxc) w h = h
  advance-With true (at_send rxc) w h =
      same-Holds others _ _ _ _ _ _ _ (λ k. omega arith) (omega arith) refl
        (started-Holds others w _ _ _ rxc.id h)
  advance-With false (at_send rxc) w h = h
  advance-With works (at_undo rxc) w h = undone-Holds others w _ _ _ rxc h
  advance-With works (at_count_on rxc) w h =
      counted_on-Holds others w _ (on + 0) _
        (same-Holds others w _ _ _ _ _ _ (λ k. omega arith) (omega arith) refl h)
  advance-With works (at_send_stop rxc) w h =
      let e = sends_stop rxc.id 0 in
      told-Holds others w _ _ _ (sent works e) (λ k. one_quiet works e k refl)
        (no_start works e refl) h
  advance-With works (at_remove rxc) w h =
      remove_and-With others later on off w rxc.id (after_ws_removal rxc) (λ k. refl) refl refl
        (λ r k. omega arith) (λ r. refl) (λ r. refl)
        (bare-Holds others later on off w (at_remove rxc) refl refl h)
  advance-With works (at_count_off rxc) w h =
      counted_off-Holds others w _ _ (off + 0)
        (same-Holds others w _ _ _ _ _ _ (λ k. omega arith) refl (omega arith) h)
  advance-With works (at_ask_stop rxc) w h =
      told-Holds others w _ _ _ (asks_stop rxc ∷ []) (λ k. refl) refl h
  advance-With works (at_sink_count rxc flags msg) w h =
      counted_off-Holds others w _ _ (off + 0)
        (same-Holds others w _ _ _ _ _ _ (λ k. omega arith) refl (omega arith) h)
  advance-With works (at_sink_stop rxc flags msg) w h =
      let (n, b) = stop_effects_once rxc flags msg in
      stopped-Holds others w _ _ _ rxc (stop_effects rxc flags msg) n b
        (same-Holds others w _ _ _ _ _ _ (λ k. omega arith) refl refl h)
  advance-With works (at_send_stop_by_id id flags) w h =
      let e = sends_stop id flags in
      told-Holds others w _ _ _ (sent works e) (λ k. one_quiet works e k refl)
        (no_start works e refl) h
  advance-With works (at_send_data rxc bytes) w h =
      let e = sends_data rxc.id bytes in
      told-Holds others w _ _ _ (sent works e) (λ k. one_quiet works e k refl)
        (no_start works e refl) h
  advance-With works (at_sink_write rxc flags bytes) w h =
      told-Holds others w _ _ _ (writes_sink rxc flags bytes ∷ []) (λ k. refl) refl h
  advance-With works ended w h = h

-- A goroutine's step leaves the others where they are.
advance-threads :
    (works : Bool) (t : Thread) (w : World) → (advance works t w).0.threads ≡ w.threads
unfolding advance remove_and
advance-threads true (at_send rxc) w = refl
advance-threads false (at_send rxc) w = refl
advance-threads works (at_remove rxc) w = ground arith
advance-threads works t w = ground arith

-- The list of goroutines is counted apart.
threads-Holds :
    (others : ℕ) (w : World) (ts : List Thread) (later : ℕ → ℕ) (on off : ℕ)
    → Holds others w later on off
    → Holds others (record w { threads = ts }) later on off
threads-Holds others w ts later on off h = record {
  keyed = h.keyed;
  next_pos = h.next_pos;
  next_lt = h.next_lt;
  stopped_once = h.stopped_once;
  removed_once = h.removed_once;
  counted = h.counted;
}

abbrev Carried : ℕ → World → World × Thread → Type 0
Carried others w =
    With others (λ k. count (stops_later k) w.threads) (count counts_on w.threads)
      (count counts_off w.threads)

spawn-Sound :
    (others : ℕ) (w : World) (p : World × Thread)
    → p.0.threads ≡ w.threads
    → Carried others w p
    → Sound others (spawn p)
spawn-Sound others w (u, t) e h =
    same-Holds others _ _ _ _ _ _ _ (λ k. rw e (omega arith)) (rw e (omega arith))
      (rw e (omega arith)) (threads-Holds others u (t ∷ u.threads) _ _ _ h)

module _ (others : ℕ) (w : World) (h : Sound others w) where
  plain_spawn :
      (t : Thread)
      → ((k : ℕ) → stops_later k t ≡ false)
      → counts_on t ≡ false
      → counts_off t ≡ false
      → Sound others (spawn (w, t))
  plain_spawn t n0 n1 n2 = spawn-Sound others w (w, t) refl (plain-With others _ _ _ w t n0 n1 n2 h)

  if_found-Sound :
      (o : Option ServerRxc) (f : ServerRxc → Thread)
      → ((r : ServerRxc) (k : ℕ) → stops_later k (f r) ≡ false)
      → ((r : ServerRxc) → counts_on (f r) ≡ false)
      → ((r : ServerRxc) → counts_off (f r) ≡ false)
      → Sound others (if_found o f w)
  if_found-Sound none f n0 n1 n2 = h
  if_found-Sound (some r) f n0 n1 n2 = plain_spawn (f r) (n0 r) (n1 r) (n2 r)

  next-Sound :
      (next : ℕ)
      → 0 < next
      → next < rxc_ids
      → Sound others (record w { tables = record w.tables { rxc_next_id = next } })
  next-Sound next n0 n1 = record {
    keyed = h.keyed;
    next_pos = n0;
    next_lt = n1;
    stopped_once = h.stopped_once;
    removed_once = h.removed_once;
    counted = h.counted;
  }

  enter_rxc-Sound :
      (sink : Sink) (ws : Option ℕ) (r : Option ℕ × ℕ)
      → Finds rxc_ids (λ k. has_key k w.tables.rxc_map) r
      → Sound others (enter_rxc sink ws r w)
  unfolding enter_rxc
  enter_rxc-Sound sink ws (none, next) (all, n0, n1) = next-Sound next n0 n1
  enter_rxc-Sound sink ws (some id, next) (free, i0, i1, n0, n1) =
      elim (Bool-cases (ws_is_taken ws w.tables.by_ws)) [
        | inl taken ↦ rw (enter_rxc, taken) (next-Sound next n0 n1)
        | inr new ↦
            rw (enter_rxc, new)
              (same-Holds others _ _ _ _ _ _ _ (λ k. omega arith) (omega arith) (omega arith)
                (entered-Holds others w _ _ _ (record { id = id; ws = ws; sink = some sink }) next
                  free n0 n1 h))
      ]

  write_thread_plain :
      (flags : ℕ) (bytes : List ℕ) (r : ServerRxc)
      → ((k : ℕ) → stops_later k (write_thread flags bytes r) ≡ false)
        × (counts_on (write_thread flags bytes r) ≡ false)
        × (counts_off (write_thread flags bytes r) ≡ false)
  write_thread_plain flags bytes r = elim (Option-cases r.sink) [
    | inl e ↦ rw (write_thread, e) (λ k. refl, refl, refl)
    | inr (sink, e) ↦ rw (write_thread, e) (λ k. refl, refl, refl)
  ]

  remove_and-threads :
      (id : ℕ) (f : Option ServerRxc → Thread) → (remove_and id f w).0.threads ≡ w.threads
  unfolding remove_and
  remove_and-threads id f = ground arith

  begin-Sound : (c : Call) → Sound others (begin c w)
  unfolding begin
  begin-Sound (adds sink ws) =
      enter_rxc-Sound sink ws
        (assign_id rxc_ids (λ k. has_key k w.tables.rxc_map) w.tables.rxc_next_id)
        (assign_id-Finds rxc_ids (λ k. has_key k w.tables.rxc_map) w.tables.rxc_next_id
          (omega arith) h.next_pos h.next_lt)
  begin-Sound (stops_ws ws) =
      if_found-Sound (w.tables.by_ws ws) at_send_stop (λ r k. refl) (λ r. refl) (λ r. refl)
  begin-Sound (sends_stop_by_id id flags) =
      if_found-Sound (lookup id w.tables.rxc_map) (λ rxc. at_send_stop_by_id id flags) (λ r k. refl)
        (λ r. refl) (λ r. refl)
  begin-Sound (writes_ws ws bytes) =
      if_found-Sound (w.tables.by_ws ws) (λ rxc. at_send_data rxc bytes) (λ r k. refl) (λ r. refl)
        (λ r. refl)
  begin-Sound (handles rxc_stop id flags bytes) =
      let f = after_sink_removal flags bytes in
      spawn-Sound others w (remove_and id f w) (remove_and-threads id f) (
        remove_and-With others _ _ _ w id f (λ k. refl) refl refl (λ r k. omega arith) (λ r. refl)
          (λ r. refl) h)
  begin-Sound (handles rxc_data id flags bytes) =
      if_found-Sound (lookup id w.tables.rxc_map) (write_thread flags bytes)
        (λ r. (write_thread_plain flags bytes r).0) (λ r. (write_thread_plain flags bytes r).1)
        (λ r. (write_thread_plain flags bytes r).2)
  begin-Sound (handles rxc_start id flags bytes) = h

  goes-Sound :
      (i : ℕ) (works : Bool) (t : Thread)
      → get_elem? w.threads i ≡ some t
      → Sound others (set_thread i (advance works t w))
  goes-Sound i works t e =
      let (u, t') = advance works t w in
      let same : u.threads ≡ w.threads = advance-threads works t w in
      let a = λ (p : Thread → Bool). bit-le-count p w.threads i t e in
      let b = λ (p : Thread → Bool). count-set p w.threads i t t' e in
      let later = λ (k : ℕ). count (stops_later k) w.threads - bit (stops_later k t) in
      let on = count counts_on w.threads - bit (counts_on t) in
      let off = count counts_off w.threads - bit (counts_off t) in
      let before : With others later on off (w, t) =
        same-Holds others w _ _ _ _ _ _ (λ k. omega (arith, a (stops_later k)))
          (omega (arith, a counts_on)) (omega (arith, a counts_off)) h in
      same-Holds others _ _ _ _ _ _ _
        (λ k. rw same (omega (arith, a (stops_later k), b (stops_later k))))
        (rw same (omega (arith, a counts_on, b counts_on)))
        (rw same (omega (arith, a counts_off, b counts_off)))
        (threads-Holds others u (set u.threads i t') _ _ _
          (advance-With others later on off works t w before))

step-Sound : (others : ℕ) (e : Event) (w : World) → Sound others w → Sound others (step e w)
unfolding step
step-Sound others (begins c) w h = begin-Sound others w h c
step-Sound others (goes i works) w h = elim (Option-cases (get_elem? w.threads i)) [
  | inl e ↦ rw (step, e) h
  | inr (t, e) ↦ rw (step, e) (goes-Sound others w h i works t e)
]

steps-Sound_from :
    (others : ℕ) (es : List Event) (w : World) → Sound others w → Sound others (steps es w)
unfolding steps
steps-Sound_from others [] w h = h
steps-Sound_from others (e ∷ es) w h =
    steps-Sound_from others es (step e w) (step-Sound others e w h)

-- However the goroutines of a new connection come in between one another, with packets that can be
-- made and sent or not: under each id, the stops of a sink that StopRxcSinkById has made and has yet to
-- make are at most as many as the removals, and the removals, with the session in the table if there is
-- one, at most as many as the entries. The server's count is that of the other connections and of
-- the starts that were sent, less the removals, but for the goroutines that have yet to count. An id
-- in the table leads to the session that has it, and the next id is in range.
pub steps-Sound : (others : ℕ) (es : List Event) → Sound others (steps es (new_world others))
steps-Sound others es = steps-Sound_from others es (new_world others) (record {
  keyed = λ i r e. absurd (ground arith);
  next_pos = omega arith;
  next_lt = omega arith;
  stopped_once = λ k. omega arith;
  removed_once = λ k. omega arith;
  counted = omega arith;
})
