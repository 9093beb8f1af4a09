-- ===== src/Rxc/Run/Writes.antt =====
-- server-rxc-job.go: what a run has captured after a sequence of calls (`Write`, `append_output`).
use Prim.Native.String.{String}
use hodu.Prelude.{
  ℕ, suc, ◌%◌, ◌≡◌, List, [], ◌∷◌, ◌++◌, arith, ◌==◌, Bool-cases, inl, inr, if◌then◌else◌, pos,
  append-nil, append_assoc,
}
use hodu.Rxc.Output.{append_output}
use hodu.Rxc.Output.Head.{IsHead, append_head-IsHead, no_output-IsHead}
use hodu.Rxc.Run.{Run, Counts, new_run, mark_started, mark_start_failure, request_stop, stop, write}
use hodu.Rxc.Run.Calls.{Call, written, call, calls}

-- The bytes that the calls write to the standard output, and to the error output.
abbrev pub to_stdout : List Call → List ℕ
to_stdout [] = []
to_stdout (written flags bytes ∷ cs) = (if flags % 2 == 0 then bytes else []) ++ to_stdout cs
to_stdout (c ∷ cs) = to_stdout cs

abbrev pub to_stderr : List Call → List ℕ
to_stderr [] = []
to_stderr (written flags bytes ∷ cs) = (if flags % 2 == 0 then [] else bytes) ++ to_stderr cs
to_stderr (c ∷ cs) = to_stderr cs

-- Both captures of a run hold the heads of what was written to them.
pub record Captures (m : ℕ) (out err : List ℕ) (r : Run) : Type 0 where
  pub out_head : IsHead m out r.stdout
  pub err_head : IsHead m err r.stderr

write-Captures :
    (n flags : ℕ) (bytes out err : List ℕ) (r : Run)
    → Captures (suc n) out err r
    → Captures
        (suc n)
        (out ++ (if flags % 2 == 0 then bytes else []))
        (err ++ (if flags % 2 == 0 then [] else bytes))
        (write (pos (suc n)) flags bytes r)
unfolding write append_output
write-Captures n flags bytes out err r h = elim (Bool-cases (flags % 2 == 0)) [
  | inl e ↦
      rw (e, append-nil)
        (record {
          out_head = append_head-IsHead (suc n) out bytes r.stdout h.out_head;
          err_head = h.err_head;
        })
  | inr e ↦
      rw (e, append-nil)
        (record {
          out_head = h.out_head;
          err_head = append_head-IsHead (suc n) err bytes r.stderr h.err_head;
        })
]

others-Captures :
    (n : ℕ) (out err : List ℕ) (r s : Run)
    → s.stdout ≡ r.stdout
    → s.stderr ≡ r.stderr
    → Captures (suc n) out err r
    → Captures (suc n) out err s
others-Captures n out err r s p q h = record {
  out_head = rw p h.out_head;
  err_head = rw q h.err_head;
}

calls-Captures_from :
    (n : ℕ) (cs : List Call) (out err : List ℕ) (r : Run) (k : Counts)
    → Captures (suc n) out err r
    → Captures (suc n) (out ++ to_stdout cs) (err ++ to_stderr cs) (calls (pos (suc n)) cs (r, k)).0
unfolding calls call mark_started mark_start_failure request_stop stop
calls-Captures_from n [] out err r k h = simp append-nil h
calls-Captures_from n (written flags bytes ∷ cs) out err r k h = simp (← append_assoc) (
    calls-Captures_from n cs _ _ (write (pos (suc n)) flags bytes r) k
      (write-Captures n flags bytes out err r h))
calls-Captures_from n (c ∷ cs) out err r k h =
    calls-Captures_from n cs out err (call (pos (suc n)) c (r, k)).0 (call (pos (suc n)) c (r, k)).1
      (others-Captures n out err r _ (ground arith) (ground arith) h)

-- With an output limit of n + 1 bytes, whatever calls are made of a new run, each capture is the
-- first n + 1 bytes of what was written to its stream, a stream's capture that is not marked as
-- truncated is all that was written to it, and one that is marked is full.
pub calls-Captures :
    (n : ℕ) (cs : List Call) (conn_id : ℕ) (token : String) (now : ℕ) (k : Counts)
    → Captures
        (suc n)
        (to_stdout cs)
        (to_stderr cs)
        (calls (pos (suc n)) cs (new_run conn_id token now, k)).0
unfolding new_run
calls-Captures n cs conn_id token now k =
    calls-Captures_from n cs [] [] (new_run conn_id token now) k
      (record { out_head = no_output-IsHead (suc n); err_head = no_output-IsHead (suc n) })
