-- ===== src/Bulletin/Queue.antt =====
-- bulletin.go: the ring of messages of a `Bulletin` (`Enqueue`, `Dequeue`). Go's container/ring is a
-- cycle of `r_cap` places that `Next` goes round: a place is a number below `r_cap`.
pub mod Refine
use hodu.Prelude.{
  ℕ, zero, suc, ◌+◌, ◌-◌, Bool, true, false, Option, none, some, List, [], ◌∷◌, ◌++◌, ltb, ◌==◌,
  if◌then◌else◌, update, drop, length,
}

pub record Queue {ℓ} (T : Type ℓ) : Type ℓ where
  -- the `Value` at each place; none is nil
  pub r : ℕ → Option T
  pub r_head : ℕ
  pub r_tail : ℕ
  pub r_len : ℕ
  pub r_cap : ℕ
  -- what `r_chan`, of capacity 1, holds
  pub r_chan : ℕ
  pub blocked : Bool

-- ring.Next
abbrev pub next_place : ℕ → ℕ → ℕ
next_place n i = if i + 1 == n then 0 else i + 1

module _ {ℓ} {T : Type ℓ} where
  -- The ring of NewBulletin.
  unfoldable pub new_queue : ℕ → Queue T
  new_queue capa = record {
    r = λ i. none;
    r_head = 0;
    r_tail = 0;
    r_len = 0;
    r_cap = capa;
    r_chan = 0;
    blocked = false;
  }

  -- Enqueue
  unfoldable pub enqueue : T → Queue T → Queue T
  enqueue msg b =
      if b.blocked
      then b
      else (let b1 =
            if ltb b.r_len b.r_cap
            then record b { r_len = b.r_len + 1 }
            else record b { r_head = next_place b.r_cap b.r_head } in
          record b1 {
            r = update b1.r b1.r_tail (some msg);
            r_tail = next_place b1.r_cap b1.r_tail;
            r_chan = 1;
          })

  -- Dequeue
  unfoldable pub dequeue : Queue T → Queue T × Option T
  dequeue b =
      if ltb 0 b.r_len
      then (
        record b {
          r = update b.r b.r_head none;
          r_head = next_place b.r_cap b.r_head;
          r_len = b.r_len - 1;
        },
        b.r b.r_head,
      )
      else (b, none)

  -- `Block` and `Unblock`.
  abbrev pub set_blocked : Bool → Queue T → Queue T
  set_blocked blocked b = record b { blocked = blocked }
