-- ===== src/Rxc/Output/Head.antt =====
-- server-rxc-job.go: `append_output` without `capture_tail`.
use hodu.Prelude.{
  ℕ, ◌≤◌, ◌≡◌, true, false, List, [], ◌++◌, arith, length, length-append, take, take_all,
  take-append_of_le, take-append_of_ge,
}
use hodu.Rxc.Output.{Capture, no_output, append_head}

-- What a capture of the first `m` bytes of `all` is.
pub record IsHead (m : ℕ) (all : List ℕ) (c : Capture) : Type 0 where
  pub kept : c.output ≡ take m all
  pub fits : c.truncated ≡ false → length all ≤ m
  pub full : c.truncated ≡ true → m ≤ length all

pub append_head-IsHead :
    (m : ℕ) (all bytes : List ℕ) (c : Capture)
    → IsHead m all c
    → IsHead m (all ++ bytes) (append_head m bytes c)
unfolding append_head
append_head-IsHead m all bytes c t = ground (
  arith,
  length-append all bytes,
  take_all m all,
  take_all m (all ++ bytes),
  take-append_of_le m all bytes,
  take-append_of_ge m all bytes,
)

pub no_output-IsHead : (m : ℕ) → IsHead m [] no_output
no_output-IsHead m = ground (arith, take_all m (let e : List ℕ = [] in e))
