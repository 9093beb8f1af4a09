-- ===== src/IdPool.antt =====
-- The loop that assigns the next free id in a table keyed by ids that skip 0: server.go
-- `ServerRoute.AddNewServerPeerConn`, server-cts-rxc.go `ServerConn.add_new_rxc` and others like it.
-- The ids have a width: `size` is 2 ^ 32 or 2 ^ 64, and an increment wraps.
pub mod Cycle
pub mod Found
use hodu.Prelude.{
  ℕ, zero, suc, ◌+◌, ◌%◌, Bool, true, false, Option, none, some, ◌==◌, if◌then◌else◌,
}

module _ (size : ℕ) where
  -- `next_id++; if next_id == 0 { next_id++ }`
  unfoldable pub bump : ℕ → ℕ
  bump n = let n' = (n + 1) % size in if n' == 0 then (n' + 1) % size else n'

  -- The loop on fuel, from `next_id`, with the id that it started from: the assigned id, if one is
  -- free, and the new `next_id`.
  unfoldable pub find_free : ℕ → (ℕ → Bool) → ℕ → ℕ → Option ℕ × ℕ
  find_free zero used start_id next_id = (none, next_id)
  find_free (suc fuel) used start_id next_id =
      let next = bump next_id in
      let rest = find_free fuel used start_id next in
      if used next_id then if next == start_id then (none, next) else rest else (some next_id, next)

  -- One round for each id is enough.
  unfoldable pub assign_id : (ℕ → Bool) → ℕ → Option ℕ × ℕ
  assign_id used next_id = find_free size used next_id next_id
