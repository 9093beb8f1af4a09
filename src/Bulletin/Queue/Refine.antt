-- ===== src/Bulletin/Queue/Refine.antt =====
-- bulletin.go: the ring implements a bounded queue that drops its oldest message.
use hodu.Prelude.{
  ℕ, zero, suc, ◌+◌, ◌-◌, ◌≤◌, ◌<◌, ◌≡◌, refl, ap, ap₂, sym, subst, ◌∙◌, Bool, true, false, Option,
  none, some, List, [], ◌∷◌, ◌++◌, ltb, ◌==◌, if◌then◌else◌, drop, length, get_elem?, length-append,
  length-drop, Bool-cases, inl, inr, arith,
}
use hodu.Bulletin.Queue.{Queue, new_queue, enqueue, dequeue, set_blocked}

-- The place of the i-th message from the head.
abbrev pub place : ℕ → ℕ → ℕ → ℕ
place n head i = if ltb (head + i) n then head + i else head + i - n

-- What is done to a queue.
pub data Call (A : Type 0) : Type 0 where
  enqueues : A → Call A
  dequeues : Call A
  blocks : Bool → Call A

module _ {T : Type 0} where
  -- The ring holds these messages, the oldest first.
  pub record Holds (b : Queue T) (ms : List T) : Type 0 where
    pub size : b.r_len ≡ length ms
    pub within : b.r_len ≤ b.r_cap
    pub head_lt : b.r_head < b.r_cap
    pub tail_at : b.r_tail ≡ place b.r_cap b.r_head b.r_len
    pub value : (i : ℕ) → i < b.r_len → b.r (place b.r_cap b.r_head i) ≡ get_elem? ms i

  -- The queue that the ring stands for.
  abbrev pub push_bounded : ℕ → T → List T → List T
  push_bounded n m ms = drop (length ms + 1 - n) (ms ++ (m ∷ []))

  abbrev pub first : List T → Option T
  first [] = none
  first (m ∷ ms) = some m

  get_elem?-snoc :
      (ms : List T) (m : T) (i : ℕ)
      → i ≤ length ms
      → get_elem? (ms ++ (m ∷ [])) i ≡ (if i == length ms then some m else get_elem? ms i)
  get_elem?-snoc [] m zero h = refl
  get_elem?-snoc [] m (suc i) h = absurd (omega arith)
  get_elem?-snoc (x ∷ ms) m zero h = ground arith
  get_elem?-snoc (x ∷ ms) m (suc i) h = ground (arith, get_elem?-snoc ms m i)

  get_elem?-drop : (n : ℕ) (ms : List T) (i : ℕ) → get_elem? (drop n ms) i ≡ get_elem? ms (n + i)
  get_elem?-drop zero ms i = ap (get_elem? ms) (omega arith)
  get_elem?-drop (suc n) [] i = ground arith
  get_elem?-drop (suc n) (x ∷ ms) i =
      get_elem?-drop n ms i
      ∙ ap (get_elem? (x ∷ ms)) {x = suc (n + i)} {y = suc n + i} (omega arith)

  enqueue-Holds :
      (m : T) (b : Queue T) (ms : List T)
      → b.blocked ≡ false
      → Holds b ms
      → Holds (enqueue m b) (push_bounded b.r_cap m ms)
  unfolding enqueue
  enqueue-Holds m b ms ok h = elim (Bool-cases (ltb b.r_len b.r_cap)) [
    | inl room ↦
        let none_lost : length ms + 1 - b.r_cap ≡ 0 = ground (arith, h.size) in
        subst (λ k. Holds (enqueue m b) (drop k (ms ++ (m ∷ [])))) (sym none_lost)
          (rw (ok, room)
            (record {
              size = omega (arith, h.size, length-append ms (m ∷ []));
              within = ground arith;
              head_lt = h.head_lt;
              tail_at = ground (arith, h.tail_at, h.head_lt, h.within);
              value = λ i l.
                  ground (
                    arith,
                    h.tail_at,
                    h.head_lt,
                    h.within,
                    h.size,
                    h.value i,
                    get_elem?-snoc ms m i,
                  );
            }))
    | inr full ↦
        let one_lost : length ms + 1 - b.r_cap ≡ 1 = ground (arith, h.size, h.within, h.head_lt) in
        subst (λ k. Holds (enqueue m b) (drop k (ms ++ (m ∷ [])))) (sym one_lost)
          (rw (ok, full)
            (record {
              size =
                  omega (arith, h.size, length-append ms (m ∷ []), length-drop 1 (ms ++ (m ∷ [])));
              within = ground arith;
              head_lt = ground (arith, h.head_lt);
              tail_at = ground (arith, h.tail_at, h.head_lt, h.within);
              value = λ i l. ground (
                arith,
                h.tail_at,
                h.head_lt,
                h.within,
                h.size,
                h.value (1 + i),
                get_elem?-snoc ms m (1 + i),
                get_elem?-drop 1 (ms ++ (m ∷ [])) i,
              );
            }))
  ]

  dequeue-Holds :
      (b : Queue T) (ms : List T)
      → Holds b ms
      → Holds (dequeue b).0 (drop 1 ms) × ((dequeue b).1 ≡ first ms)
  unfolding dequeue
  dequeue-Holds b [] h =
      let none_left : ltb 0 b.r_len ≡ false = ground (arith, h.size) in rw none_left (h, refl)
  dequeue-Holds b (m ∷ ms) h =
      let some_left : ltb 0 b.r_len ≡ true = ground (arith, h.size) in
      rw some_left (
        record {
          size = omega (arith, h.size);
          within = omega (arith, h.within);
          head_lt = ground (arith, h.head_lt);
          tail_at = ground (arith, h.tail_at, h.head_lt, h.within, h.size);
          value = λ i l.
              ground
                (arith, h.head_lt, h.within, h.size, h.value (1 + i), get_elem?-drop 1 (m ∷ ms) i);
        },
        ground (arith, h.value 0, h.size, h.head_lt),
      )

  -- The answers of the calls of `Dequeue`.
  abbrev pub answers : List (Call T) → Queue T → List (Option T)
  answers [] b = []
  answers (enqueues m ∷ calls) b = answers calls (enqueue m b)
  answers (dequeues ∷ calls) b = let (b', a) = dequeue b in a ∷ answers calls b'
  answers (blocks blocked ∷ calls) b = answers calls (set_blocked blocked b)

  -- A queue of at most `capa` messages: a new one goes to its end unless the queue is blocked, and the
  -- oldest goes if there are too many.
  abbrev pub bounded_answers : ℕ → List (Call T) → Bool → List T → List (Option T)
  bounded_answers capa [] blocked ms = []
  bounded_answers capa (enqueues m ∷ calls) blocked ms =
      bounded_answers capa calls blocked (if blocked then ms else push_bounded capa m ms)
  bounded_answers capa (dequeues ∷ calls) blocked ms =
      first ms ∷ bounded_answers capa calls blocked (drop 1 ms)
  bounded_answers capa (blocks b ∷ calls) blocked ms = bounded_answers capa calls b ms

  same_enqueue :
      (m : T) (b : Queue T) → ((enqueue m b).r_cap ≡ b.r_cap) × ((enqueue m b).blocked ≡ b.blocked)
  unfolding enqueue
  same_enqueue m b = ground arith

  same_dequeue :
      (b : Queue T) → ((dequeue b).0.r_cap ≡ b.r_cap) × ((dequeue b).0.blocked ≡ b.blocked)
  unfolding dequeue
  same_dequeue b = ground arith

  enqueue_blocked : (m : T) (b : Queue T) → b.blocked ≡ true → enqueue m b ≡ b
  unfolding enqueue
  enqueue_blocked m b e = ground arith

  answers_lem :
      (calls : List (Call T)) (b : Queue T) (ms : List T)
      → Holds b ms
      → answers calls b ≡ bounded_answers b.r_cap calls b.blocked ms
  answers_lem [] b ms h = refl
  answers_lem (enqueues m ∷ calls) b ms h = elim (Bool-cases b.blocked) [
    | inl e ↦
        ap (answers calls) (enqueue_blocked m b e)
        ∙ answers_lem calls b ms h
        ∙ ap
            (λ c.
              bounded_answers b.r_cap calls b.blocked (if c then ms else push_bounded b.r_cap m ms))
            (sym e)
    | inr e ↦
        answers_lem calls (enqueue m b) (push_bounded b.r_cap m ms) (enqueue-Holds m b ms e h)
        ∙ ap₂ (λ n c. bounded_answers n calls c (push_bounded b.r_cap m ms)) (same_enqueue m b).0
            ((same_enqueue m b).1 ∙ e)
        ∙ rw e refl
  ]
  answers_lem (dequeues ∷ calls) b ms h =
      let (k, a) = dequeue-Holds b ms h in
      ap₂ (◌∷◌) a (
        answers_lem calls (dequeue b).0 (drop 1 ms) k
        ∙ ap₂ (λ n c. bounded_answers n calls c (drop 1 ms)) (same_dequeue b).0 (same_dequeue b).1)
  answers_lem (blocks blocked ∷ calls) b ms h =
      answers_lem calls (set_blocked blocked b) ms (record {
        size = h.size;
        within = h.within;
        head_lt = h.head_lt;
        tail_at = h.tail_at;
        value = h.value;
      })

  -- A new queue with room for a message answers any calls of `Enqueue`, `Dequeue`, `Block` and
  -- `Unblock` as the queue that keeps the `capa` newest messages does: in the order in which they
  -- came, each once, without those that came while it was blocked, and those that were pushed out.
  pub answers_bounded :
      (capa : ℕ) (calls : List (Call T))
      → 0 < capa
      → answers calls (new_queue capa) ≡ bounded_answers capa calls false []
  unfolding new_queue
  answers_bounded capa calls pos = answers_lem calls (new_queue capa) [] (record {
    size = refl;
    within = omega arith;
    head_lt = pos;
    tail_at = ground arith;
    value = λ i l. absurd (omega arith);
  })
