-- ===== src/Rxc/Expiry/Order.antt =====
-- server-rxc-job.go: container/heap keeps the expiry heap in order.
use mathlib.Core.Path.{fun_ext, subst₂}
use mathlib.Core.WellFounded
use hodu.Prelude.{
  lt_wf, ltb_self, ℕ, zero, suc, ◌+◌, ◌-◌, ◌*◌, ◌≤◌, ◌<◌, ◌≡◌, ◌⊎◌, inl, inr, Bool-cases, lt→ltb,
  refl, sym, subst, true, arith, ltb, leb, ◌==◌, if◌then◌else◌,
}
use hodu.Rxc.Expiry.{
  Heap, Key, key, less, parent, child, swap, up, down, push_back, pop_back, heap_push, heap_remove,
  sink_out,
}
use hodu.Rxc.Expiry.Keys.{
  Le, Le-refl, Le-trans, IsOrdered, Both, Below, Above, IsOrdered-of_Both, exchange, key-swap,
}
use hodu.Rxc.Expiry.Sift.{up-Both, up-Below, down-Both, down-Above, child_least, child_bounds}

keys-swap : (i j : ℕ) (h : Heap) → exchange i j (key h) ≡ key (swap i j h)
keys-swap i j h = fun_ext (λ k. sym (key-swap i j k h))

pub up-IsOrdered :
    (fuel j n : ℕ) (h : Heap)
    → j < fuel
    → j < n
    → Both n j (key h)
    → Below n j (key h)
    → IsOrdered n (key (up fuel j h))
unfolding up less
up-IsOrdered zero j n h f lt b below = absurd (omega arith)
up-IsOrdered (suc fuel) j n h f lt b below = elim (Bool-cases (parent j == j)) [
  | inl root ↦ rw root (IsOrdered-of_Both n j (key h) b below (λ pos. absurd (ground arith)))
  | inr inner ↦ elim (Bool-cases (less h j (parent j))) [
    | inl first ↦
        rw (inner, first)
          (up-IsOrdered fuel (parent j) n (swap (parent j) j h) (ground arith) (omega arith)
            (subst (Both n (parent j)) (keys-swap (parent j) j h)
              (up-Both n j (key h) (ground arith) lt b first))
            (subst (Below n (parent j)) (keys-swap (parent j) j h)
              (up-Below n j (key h) (ground arith) lt b first)))
    | inr later ↦
        rw (inner, later)
          (IsOrdered-of_Both n j (key h) b below (λ pos. record { not_earlier = later }))
  ]
]

-- What `down` leaves: nothing moved and the entry is below no child of it, or all is in order.
abbrev pub Sunk : ℕ → ℕ → Heap → Heap × ℕ → Type 0
Sunk n i h (h', i') = ((i' ≡ i) × (h' ≡ h) × Below n i (key h)) ⊎ ((i < i') × IsOrdered n (key h'))

-- What a further round adds to what the rest of the rounds leave.
Sunk-more :
    (n i c : ℕ) (h : Heap) (r : Heap × ℕ)
    → i < c
    → Both n c (key h)
    → Above c (key h)
    → Sunk n c h r
    → (i < r.1) × IsOrdered n (key r.0)
Sunk-more n i c h (h', i') lt b above (inl (e, e', below)) =
    (rw e lt, rw e' (IsOrdered-of_Both n c (key h) b below above))
Sunk-more n i c h (h', i') lt b above (inr (lt', ordered)) = (omega arith, ordered)

-- Exchanging the entry at `i` with the child that `down` picks.
down_round :
    (n i : ℕ) (h : Heap)
    → 2 * i + 1 < n
    → Both n i (key h)
    → less h (child i n h) i ≡ true
    → let c = child i n h in (i < c) × Both n c (key (swap i c h)) × Above c (key (swap i c h))
unfolding less
down_round n i h lt b first =
    let c = child i n h in
    let (pos, in_range, e, below) = child_bounds n i h lt in
    (
      below,
      subst (Both n c) (keys-swap i c h)
          (down-Both n i c (key h) pos in_range e b first (child_least n i h)),
      subst (Above c) (keys-swap i c h)
          (down-Above n i c (key h) pos in_range e b first (child_least n i h)),
    )

pub down-Sunk :
    (fuel i n : ℕ) (h : Heap) → n ≤ fuel + i → Both n i (key h) → Sunk n i h (down fuel i n h)
unfolding down less
down-Sunk zero i n h f b = inl (refl, refl, λ k kp kn e. absurd (omega arith))
down-Sunk (suc fuel) i n h f b = elim (Bool-cases (leb n (2 * i + 1))) [
  | inl leaf ↦ rw leaf (inl (refl, refl, λ k kp kn e. absurd (ground arith)))
  | inr inner ↦ elim (Bool-cases (less h (child i n h) i)) [
    | inl first ↦
        let c = child i n h in
        let (below, b', above) = down_round n i h (ground arith) b first in
        rw (inner, first)
          (inr (
            Sunk-more n i c (swap i c h) (down fuel c n (swap i c h)) below b' above
              (down-Sunk fuel c n (swap i c h) (omega arith) b')))
    | inr later ↦
        rw (inner, later)
          (inl (
            refl,
            refl,
            λ k kp kn e.
                Le-trans {b = key h (child i n h)} (record { not_earlier = later })
                  (child_least n i h k kp kn e),
          ))
  ]
]

key-push_back : (r k : ℕ) (h : Heap) → k < h.len → key (push_back r h) k ≡ key h k
unfolding push_back
key-push_back r k h lt = ground arith

key-pop_back : (k : ℕ) (h : Heap) → key h k ≡ key (pop_back h) k
unfolding pop_back
key-pop_back k h = ground arith

-- heap.Push
pub heap_push-IsOrdered :
    (r : ℕ) (h : Heap) → IsOrdered h.len (key h) → IsOrdered (h.len + 1) (key (heap_push r h))
unfolding heap_push
heap_push-IsOrdered r h o =
    up-IsOrdered (h.len + 1) h.len (h.len + 1) (push_back r h) (omega arith) (omega arith)
      (record {
        rest = λ k pos lt ne ne'.
            subst₂ Le (sym (key-push_back r (parent k) h (omega arith)))
              (sym (key-push_back r k h (omega arith))) (o k pos (omega arith));
        skip = λ k pos lt e pos'. absurd (omega arith);
      })
      (λ k pos lt e. absurd (omega arith))

sink_start :
    (i : ℕ) (h : Heap)
    → suc i < h.len
    → IsOrdered h.len (key h)
    → Both (h.len - 1) i (exchange i (h.len - 1) (key h))
sink_start i h lt o = record {
  rest = λ k pos kn ne ne'. ground (arith, o k);
  skip = λ k pos kn e ip.
      ground (arith, o k, o i, Le-trans {a = key h (parent i)} {b = key h i} {c = key h k});
}

Sunk-end :
    (n i : ℕ) (h : Heap) (r : Heap × ℕ)
    → i < n
    → Both n i (key h)
    → Sunk n i h r
    → IsOrdered n (key (if ltb i r.1 then r.0 else up (i + 1) i r.0))
Sunk-end n i h (h', i') lt b (inl (e, e', below)) =
    rw (e, e') (rw (ltb_self i) (up-IsOrdered (i + 1) i n h (omega arith) lt b below))
Sunk-end n i h (h', i') lt b (inr (moved, ordered)) = rw (lt→ltb i i' moved) ordered

sink_out-IsOrdered :
    (i : ℕ) (h : Heap)
    → i < h.len
    → IsOrdered h.len (key h)
    → IsOrdered (h.len - 1) (key (sink_out i h))
unfolding sink_out
sink_out-IsOrdered i h lt o = elim (Bool-cases (h.len - 1 == i)) [
  | inl last ↦ rw last (λ k pos kn. o k pos (omega arith))
  | inr inner ↦
      let n : ℕ = h.len - 1 in
      let b = subst (Both n i) (keys-swap i n h) (sink_start i h (ground arith) o) in
      rw inner (
        Sunk-end n i (swap i n h) (down n i n (swap i n h)) (ground arith) b
          (down-Sunk n i n (swap i n h) (omega arith) b))
]

-- heap.Remove
pub heap_remove-IsOrdered :
    (i : ℕ) (h : Heap)
    → i < h.len
    → IsOrdered h.len (key h)
    → IsOrdered (h.len - 1) (key (heap_remove i h))
unfolding heap_remove
heap_remove-IsOrdered i h lt o =
    subst (IsOrdered (h.len - 1)) (fun_ext (λ k. key-pop_back k (sink_out i h)))
      (sink_out-IsOrdered i h lt o)

root_step :
    (n j : ℕ) (κ : ℕ → Key)
    → IsOrdered n κ
    → ((m : ℕ) → m < j → m < n → Le (κ 0) (κ m))
    → j < n
    → Le (κ 0) (κ j)
root_step n zero κ o ih lt = Le-refl (κ 0)
root_step n (suc j) κ o ih lt =
    Le-trans (ih (parent (suc j)) (omega arith) (omega arith)) (o (suc j) (omega arith) lt)

-- No entry of an ordered heap comes before the one at the root.
pub root-Le : (n k : ℕ) (κ : ℕ → Key) → IsOrdered n κ → k < n → Le (κ 0) (κ k)
root-Le n k κ o lt =
    WellFounded.induction lt_wf {C = λ j. j < n → Le (κ 0) (κ j)} k
      (λ j ih l. root_step n j κ o ih l) lt
