-- ===== src/Rxc/Expiry/Laws.antt =====
-- server-rxc-job.go: what heap.Push and heap.Remove do to the expiry heap.
use hodu.Prelude.{
  ℕ, ◌+◌, ◌-◌, ◌≤◌, ◌<◌, ◌≡◌, ap, ap₂, sym, subst, ◌∙◌, not, ◌||◌, ◌&&◌, arith, ltb, ◌==◌,
  if◌then◌else◌, some, none, Bool-cases, inl, inr,
}
use hodu.Rxc.Expiry.{
  Heap, key, swap, up, down, push_back, pop_back, heap_push, heap_remove, sink_out,
}
use hodu.Rxc.Expiry.Keys.{IsOrdered}
use hodu.Rxc.Expiry.Order.{heap_push-IsOrdered, heap_remove-IsOrdered}
use hodu.Rxc.Expiry.Swaps.{
  Coherent, Same, Same-refl, Same-trans, Kept, Kept-trans, holds, swap-Kept, up-Kept, down-Kept,
}

-- The heap is in order, and `heap_index` and the slice agree.
pub record IsValid (h : Heap) : Type 0 where
  pub coherent : Coherent h
  pub ordered : IsOrdered h.len (key h)

-- The job at `r` has come in, and nothing else has changed.
pub record Pushed (r : ℕ) (h h' : Heap) : Type 0 where
  pub valid : IsValid h'
  pub one_more : h'.len ≡ h.len + 1
  pub held : (q : ℕ) → holds h' q ≡ (q == r || holds h q)
  pub same_id : (q : ℕ) → (h'.jobs q).id ≡ (h.jobs q).id
  pub same_done : (q : ℕ) → (h'.jobs q).done ≡ (h.jobs q).done
  pub same_expiry : (q : ℕ) → (h'.jobs q).expire_at ≡ (h.jobs q).expire_at

-- The job at `r` has left, and nothing else has changed.
pub record Removed (r : ℕ) (h h' : Heap) : Type 0 where
  pub valid : IsValid h'
  pub one_less : h'.len + 1 ≡ h.len
  pub held : (q : ℕ) → holds h' q ≡ (not (q == r) && holds h q)
  pub same_id : (q : ℕ) → (h'.jobs q).id ≡ (h.jobs q).id
  pub same_done : (q : ℕ) → (h'.jobs q).done ≡ (h.jobs q).done
  pub same_expiry : (q : ℕ) → (h'.jobs q).expire_at ≡ (h.jobs q).expire_at

module _ (r : ℕ) (h : Heap) (c : Coherent h) (out : (h.jobs r).heap_index ≡ none) where
  push_back-points :
      (k : ℕ) → k < h.len + 1 → ((push_back r h).jobs ((push_back r h).at k)).heap_index ≡ some k
  unfolding push_back
  push_back-points k lk = ground (arith, c.points k)

  push_back-back :
      (q k : ℕ)
      → ((push_back r h).jobs q).heap_index ≡ some k
      → (k < h.len + 1) × ((push_back r h).at k ≡ q)
  unfolding push_back
  push_back-back q k e = ground (arith, c.back q k)

  push_back-Coherent : Coherent (push_back r h)
  unfolding push_back
  push_back-Coherent = record { points = push_back-points; back = push_back-back }

  push_back-held : (q : ℕ) → holds (push_back r h) q ≡ (q == r || holds h q)
  unfolding push_back
  push_back-held q = ground arith

-- heap.Push of a job that has no place in a valid heap: the heap is in order again, the job is in it
-- and has its place for a `heap_index`, every other job is in it as before, and no expiry time, done
-- time or id has changed.
pub heap_push-Pushed :
    (r : ℕ) (h : Heap) → IsValid h → (h.jobs r).heap_index ≡ none → Pushed r h (heap_push r h)
unfolding heap_push push_back
heap_push-Pushed r h v out =
    let k =
      up-Kept (h.len + 1) h.len (h.len + 1) (push_back r h) (push_back-Coherent r h v.coherent out)
        (omega arith) (omega arith) in
    record {
      valid = record {
        coherent = k.coherent;
        ordered =
            subst (λ n. IsOrdered n (key (heap_push r h))) (sym k.same.same_len)
              (heap_push-IsOrdered r h v.ordered);
      };
      one_more = k.same.same_len;
      held = λ q. k.same.same_held q ∙ push_back-held r h v.coherent out q;
      same_id = λ q. k.same.same_id q ∙ ground arith;
      same_done = λ q. k.same.same_done q ∙ ground arith;
      same_expiry = λ q. k.same.same_expiry q ∙ ground arith;
    }

-- Sinking the entry that took the place of the removed one, or raising it.
sift-Kept :
    (n i : ℕ) (h : Heap)
    → Coherent h
    → i < n
    → n ≤ h.len
    → let r = down n i n h in Kept n h (if ltb i r.1 then r.0 else up (i + 1) i r.0)
sift-Kept n i h c li ln = elim (Bool-cases (ltb i (down n i n h).1)) [
  | inl moved ↦ rw moved d
  | inr stayed ↦
      rw stayed
        (Kept-trans d (up-Kept (i + 1) i n r d.coherent li (omega (arith, d.same.same_len))))
]
  where
    r : Heap
    r = (down n i n h).0

    d : Kept n h r
    d = (down-Kept n i n h c li ln).0

-- What heap.Remove does before its `Pop`: the entry comes to the end.
record ToEnd (i : ℕ) (h h' : Heap) : Type 0 where
  coherent : Coherent h'
  same : Same h h'
  last : h'.at (h.len - 1) ≡ h.at i

sink_out-ToEnd : (i : ℕ) (h : Heap) → Coherent h → i < h.len → ToEnd i h (sink_out i h)
unfolding sink_out swap
sink_out-ToEnd i h c li = elim (Bool-cases (h.len - 1 == i)) [
  | inl last ↦ rw last (record { coherent = c; same = Same-refl h; last = ap h.at (ground arith) })
  | inr inner ↦
      let n : ℕ = h.len - 1 in
      let s = swap-Kept h.len i n h c li (omega arith) (omega arith) in
      let k = sift-Kept n i (swap i n h) s.coherent (ground arith) (omega arith) in
      rw inner (record {
        coherent = k.coherent;
        same = Same-trans s.same k.same;
        last = k.beyond n (omega arith) ∙ ground arith;
      })
]

module _ (q : ℕ) (h : Heap) where
  pop_back-id : ((pop_back h).jobs q).id ≡ (h.jobs q).id
  unfolding pop_back
  pop_back-id = ground arith

  pop_back-done : ((pop_back h).jobs q).done ≡ (h.jobs q).done
  unfolding pop_back
  pop_back-done = ground arith

  pop_back-expiry : ((pop_back h).jobs q).expire_at ≡ (h.jobs q).expire_at
  unfolding pop_back
  pop_back-expiry = ground arith

module _ (h : Heap) (c : Coherent h) (pos : 0 < h.len) where
  pop_back-points :
      (k : ℕ) → k < h.len - 1 → ((pop_back h).jobs ((pop_back h).at k)).heap_index ≡ some k
  unfolding pop_back
  pop_back-points k lk =
      ground (arith, c.points k (omega arith), c.points (h.len - 1) (omega arith))

  pop_back-back :
      (q k : ℕ)
      → ((pop_back h).jobs q).heap_index ≡ some k
      → (k < h.len - 1) × ((pop_back h).at k ≡ q)
  unfolding pop_back
  pop_back-back q k e = ground (arith, c.back q k, c.points (h.len - 1) (omega arith))

  pop_back-Coherent : Coherent (pop_back h)
  unfolding pop_back
  pop_back-Coherent = record { points = pop_back-points; back = pop_back-back }

  pop_back-held : (q : ℕ) → holds (pop_back h) q ≡ (not (q == h.at (h.len - 1)) && holds h q)
  unfolding pop_back
  pop_back-held q = ground arith

-- heap.Remove at a place of a valid heap: the heap is in order again, the job of this place is out of
-- it, every other job is in it as before with its place for a `heap_index`, and no expiry time, done
-- time or id has changed.
pub heap_remove-Removed :
    (i : ℕ) (h : Heap) → IsValid h → i < h.len → Removed (h.at i) h (heap_remove i h)
unfolding heap_remove pop_back
heap_remove-Removed i h v li =
    let s = sink_out-ToEnd i h v.coherent li in
    let len = s.same.same_len in
    record {
      valid = record {
        coherent = pop_back-Coherent (sink_out i h) s.coherent (omega arith);
        ordered =
            subst (λ n. IsOrdered (n - 1) (key (heap_remove i h))) (sym len)
              (heap_remove-IsOrdered i h li v.ordered);
      };
      one_less = omega arith;
      held = λ q.
          pop_back-held (sink_out i h) s.coherent (omega arith) q
          ∙ ap₂ (λ a b. not (q == a) && b) (ap (λ n. (sink_out i h).at (n - 1)) len ∙ s.last)
              (s.same.same_held q);
      same_id = λ q. pop_back-id q (sink_out i h) ∙ s.same.same_id q;
      same_done = λ q. pop_back-done q (sink_out i h) ∙ s.same.same_done q;
      same_expiry = λ q. pop_back-expiry q (sink_out i h) ∙ s.same.same_expiry q;
    }
