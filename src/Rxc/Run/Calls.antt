-- ===== src/Rxc/Run/Calls.antt =====
-- server-rxc-job.go: any sequence of method calls on one run, as other goroutines make them.
use Prim.Native.String.{String}
use hodu.Prelude.{ℕ, List, [], ◌∷◌, ℤ}
use hodu.Rxc.Run.{Run, Counts, mark_started, mark_start_failure, request_stop, stop, write}

pub data Call : Type 0 where
  started : ℕ → ℕ → Call
  start_failed : String → ℕ → Call
  stop_asked : Call
  stopped_with : ℕ → String → ℕ → Call
  written : ℕ → List ℕ → Call

-- What a call leaves of the run and the counters; `output_max` is the server's RxcRunOutputMax.
unfoldable pub call : ℤ → Call → Run × Counts → Run × Counts
call output_max (started rxc_id now) s = mark_started rxc_id now s
call output_max (start_failed msg now) s =
    let (r, k, transitioned) = mark_start_failure msg now s in (r, k)
call output_max stop_asked s = let (r, k, asked) = request_stop s in (r, k)
call output_max (stopped_with flags msg now) s =
    let (r, k, transitioned) = stop flags msg now s in (r, k)
call output_max (written flags bytes) (r, k) = (write output_max flags bytes r, k)

unfoldable pub calls : ℤ → List Call → Run × Counts → Run × Counts
calls output_max [] s = s
calls output_max (c ∷ cs) s = calls output_max cs (call output_max c s)
