-- ===== src/Rxc/Output.antt =====
-- server-rxc-job.go: what a run of an rxc job keeps of its standard output and error output,
-- `ServerRxcJobRun.append_output`.
pub mod Head
pub mod Tail
use hodu.Prelude.{
  ℕ, zero, suc, ◌-◌, Bool, true, false, ◌||◌, List, [], ◌++◌, ltb, leb, if◌then◌else◌, length, take,
  drop, ℤ, pos, negsuc,
}

-- One entry of `Output` with its entry of `OutputTruncated`.
pub record Capture : Type 0 where
  pub output : List ℕ
  pub truncated : Bool

abbrev pub no_output : Capture
no_output = record { output = []; truncated = false }

-- `run.Output[outidx] = run.Output[outidx][len - n:]`, and the flag is raised.
keep_last : ℕ → Capture → Capture
keep_last n c = record { output = drop (length c.output - n) c.output; truncated = true }

-- The branch of a `capture_tail`: the last `output_max` bytes are kept.
unfoldable pub append_tail : ℕ → List ℕ → Capture → Capture
unfolding keep_last
append_tail output_max bytes c =
    if leb output_max (length bytes)
    then (record {
      output = drop (length bytes - output_max) bytes;
      truncated =
          if ltb output_max (length bytes) || ltb 0 (length c.output) then true else c.truncated;
    })
    else (let shrunk = if ltb output_max (length c.output) then keep_last output_max c else c in
        let fit_len = output_max - length bytes in
        let room =
          if ltb fit_len (length shrunk.output) then keep_last fit_len shrunk else shrunk in
        record room { output = room.output ++ bytes })

-- The other branch: the first `output_max` bytes are kept.
unfoldable pub append_head : ℕ → List ℕ → Capture → Capture
append_head output_max bytes c =
    if c.truncated
    then c
    else if leb output_max (length c.output)
    then record c { truncated = true }
    else if ltb (output_max - length c.output) (length bytes)
    then (record {
      output = c.output ++ take (output_max - length c.output) bytes;
      truncated = true;
    })
    else record c { output = c.output ++ bytes }

-- `append_output`, on the entry that its `outidx` names; `RxcRunOutputMax` is a signed `int`.
unfoldable pub append_output : ℤ → List ℕ → Bool → Capture → Capture
append_output (negsuc n) bytes capture_tail c = c
append_output (pos zero) bytes capture_tail c = c
append_output (pos (suc n)) bytes capture_tail c =
    if capture_tail then append_tail (suc n) bytes c else append_head (suc n) bytes c
