-- ===== src/Rxc/Run.antt =====
-- server-rxc-job.go: one run of an rxc job (`ServerRxcJobRun`) and the status counters of its job.
-- A method that locks the run and then its job's `run_mtx` takes both and returns both.
-- Times are numbers of any unit, `none` where Go has the zero time. `Cts` is named by `conn_id`.
pub mod Calls
pub mod Order
pub mod Writes
use hodu.Prelude.{
  ℕ, suc, ◌+◌, ◌-◌, ◌%◌, Bool, true, false, not, ◌||◌, List, Option, none, some, ltb, ◌==◌,
  if◌then◌else◌, ℤ,
}
use Prim.Native.String.{String}
use hodu.Rxc.Output.{Capture, no_output, append_output}

-- SERVER_RXC_RUN_STATUS_*
pub data Status : Type 0 where
  starting running stopping stopped failed : Status

abbrev pub status_eq : Status → Status → Bool
status_eq starting starting = true
status_eq running running = true
status_eq stopping stopping = true
status_eq stopped stopped = true
status_eq failed failed = true
status_eq _ _ = false

-- The counters of `ServerRxcJob` that `run_mtx` guards.
pub record Counts : Type 0 where
  pub active_run_count : ℕ
  pub starting_run_count : ℕ
  pub running_run_count : ℕ
  pub stopping_run_count : ℕ
  pub stopped_run_count : ℕ
  pub failed_run_count : ℕ

-- increment_run_status_count_no_lock
unfoldable pub increment : Status → Counts → Counts
increment starting k = record k { starting_run_count = k.starting_run_count + 1 }
increment running k = record k { running_run_count = k.running_run_count + 1 }
increment stopping k = record k { stopping_run_count = k.stopping_run_count + 1 }
increment stopped k = record k { stopped_run_count = k.stopped_run_count + 1 }
increment failed k = record k { failed_run_count = k.failed_run_count + 1 }

-- `if n > 0 { n-- }`
abbrev down : ℕ → ℕ
down n = if ltb 0 n then n - 1 else n

-- decrement_run_status_count_no_lock
unfoldable pub decrement : Status → Counts → Counts
decrement starting k = record k { starting_run_count = down k.starting_run_count }
decrement running k = record k { running_run_count = down k.running_run_count }
decrement stopping k = record k { stopping_run_count = down k.stopping_run_count }
decrement stopped k = record k { stopped_run_count = down k.stopped_run_count }
decrement failed k = record k { failed_run_count = down k.failed_run_count }

pub record Run : Type 0 where
  pub conn_id : ℕ
  pub client_token : String
  pub created : ℕ
  pub started : Option ℕ
  pub stop_time : Option ℕ
  pub rxc_id : ℕ
  pub status : Status
  pub stop_flags : ℕ
  pub stop_msg : String
  pub stdout : Capture
  pub stderr : Capture

-- new_server_rxc_job_run
unfoldable pub new_run : ℕ → String → ℕ → Run
new_run conn_id client_token now = record {
  conn_id = conn_id;
  client_token = client_token;
  created = now;
  started = none;
  stop_time = none;
  rxc_id = 0;
  status = starting;
  stop_flags = 0;
  stop_msg = "";
  stdout = no_output;
  stderr = no_output;
}

-- The test of `is_done`.
abbrev pub is_over : Status → Bool
is_over s = status_eq s stopped || status_eq s failed

unfoldable pub is_done : Run → Bool
is_done r = is_over r.status

-- The two calls that every transition makes of the job.
unfoldable pub move_count : Status → Status → Counts → Counts
unfolding increment decrement
move_count from to k = increment to (decrement from k)

-- `if t.IsZero() { t = time.Now() }`
abbrev or_now : Option ℕ → ℕ → Option ℕ
or_now none now = some now
or_now (some t) now = some t

unfoldable pub mark_started : ℕ → ℕ → Run × Counts → Run × Counts
unfolding move_count
mark_started rxc_id now (r, k) =
    let r' = record r { rxc_id = rxc_id; started = or_now r.started now } in
    if status_eq r.status starting
    then (record r' { status = running }, move_count r.status running k)
    else (r', k)

-- The locked part of `mark_start_failure`, with `transitioned`.
unfoldable pub mark_start_failure : String → ℕ → Run × Counts → Run × Counts × Bool
unfolding move_count
mark_start_failure msg now (r, k) =
    if not (is_over r.status)
    then (
      record r { stop_time = some now; status = failed; stop_msg = msg },
      move_count r.status failed k,
      true,
    )
    else (r, k, false)

-- `request_stop`: the connection and the rxc id to send a stop request to.
unfoldable pub request_stop : Run × Counts → Run × Counts × Option (ℕ × ℕ)
unfolding move_count
request_stop (r, k) =
    if status_eq r.status running
    then (
      record r { status = stopping },
      move_count r.status stopping k,
      (if r.rxc_id == 0 then none else some (r.conn_id, r.rxc_id)),
    )
    else (r, k, none)

-- The locked part of `stop`, with `transitioned`.
unfoldable pub stop : ℕ → String → ℕ → Run × Counts → Run × Counts × Bool
unfolding move_count
stop flags msg now (r, k) =
    if not (is_over r.status)
    then (
      record r { status = stopped; stop_time = some now; stop_flags = flags; stop_msg = msg },
      move_count r.status stopped k,
      true,
    )
    else (r, k, false)

-- `Write`: `flags & RXC_DATA_FLAG_STDERR` is the lowest bit.
unfoldable pub write : ℤ → ℕ → List ℕ → Run → Run
write output_max flags bytes r =
    if flags % 2 == 0
    then record r { stdout = append_output output_max bytes false r.stdout }
    else record r { stderr = append_output output_max bytes false r.stderr }
