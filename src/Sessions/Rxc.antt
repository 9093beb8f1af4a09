-- ===== src/Sessions/Rxc.antt =====
-- server-cts-rxc.go: commands that run on a client, for a websocket or for the run of a job.
-- What happens outside the tables is a list of effects: packets to the client, and calls of a sink.
pub mod Valid
pub mod Handling
pub mod Threads
pub mod Held
pub mod Once
use hodu.Prelude.{
  ℕ, ◌+◌, ◌^◌, Bool, true, false, not, ◌&&◌, Option, none, some, List, [], ◌∷◌, ◌++◌, ◌==◌,
  if◌then◌else◌, update, ℤ, inc, dec, lookup, has_key, delete_key,
}
use hodu.Prelude.Results.{Result, ok, err}
use hodu.IdPool.{assign_id}

-- ServerRxcWebsocketSink and ServerRxcJobRun
pub data Sink : Type 0 where
  websocket : ℕ → Sink
  job_run : ℕ → Sink

pub record ServerRxc : Type 0 where
  pub id : ℕ
  pub ws : Option ℕ
  pub sink : Option Sink

pub record Rxcs : Type 0 where
  pub rxc_map : List (ℕ × ServerRxc)
  pub by_ws : ℕ → Option ServerRxc
  pub rxc_next_id : ℕ
  -- the server's stats.rxc_sessions
  pub rxc_sessions : ℤ

pub data Effect : Type 0 where
  sends_start : ℕ → Effect
  sends_stop : ℕ → ℕ → Effect
  sends_data : ℕ → List ℕ → Effect
  asks_stop : ServerRxc → Effect
  stops_sink : ServerRxc → ℕ → List ℕ → Effect
  writes_sink : ServerRxc → ℕ → List ℕ → Effect

pub data RxcError : Type 0 where
  unknown_id missing_sink sink_failed : RxcError

abbrev pub rxc_ids : ℕ
rxc_ids = 2 ^ 64

abbrev pub put_ws : Option ℕ → Option ServerRxc → (ℕ → Option ServerRxc) → ℕ → Option ServerRxc
put_ws none v m k = m k
put_ws (some ws) v m k = if k == ws then v else m k

abbrev pub ws_is_taken : Option ℕ → (ℕ → Option ServerRxc) → Bool
ws_is_taken none m = false
ws_is_taken (some ws) m = elim (m ws) [ none ↦ false | some r ↦ true ]

-- What is entered, and what a failure after that takes back.
unfoldable pub put_rxc : ServerRxc → Rxcs → Rxcs
put_rxc rxc s = record s {
  rxc_map = (rxc.id, rxc) ∷ s.rxc_map;
  by_ws = put_ws rxc.ws (some rxc) s.by_ws;
}

unfoldable pub take_rxc : ServerRxc → Rxcs → Rxcs
take_rxc rxc s = record s {
  rxc_map = delete_key rxc.id s.rxc_map;
  by_ws = put_ws rxc.ws none s.by_ws;
}

-- remove_rxc_by_id
unfoldable pub remove_rxc_by_id : ℕ → Rxcs → Rxcs × Option ServerRxc
unfolding take_rxc
remove_rxc_by_id id s = elim (lookup id s.rxc_map) [
  | none ↦ (s, none)
  | some rxc ↦
      (record s { rxc_map = delete_key id s.rxc_map; by_ws = put_ws rxc.ws none s.by_ws }, some rxc)
]

-- The count goes down if there was something to remove.
abbrev pub count_removed : Rxcs × Option ServerRxc → Rxcs
count_removed (s, none) = s
count_removed (s, some rxc) = record s { rxc_sessions = dec s.rxc_sessions }

abbrev pub sent : Bool → Effect → List Effect
sent true e = e ∷ []
sent false e = []

-- The receiver's two calls, where no other goroutine comes in between; Threads takes them apart.
-- StopRxcSinkById; `stops` tells whether the sink's Stop succeeds.
unfoldable pub stop_rxc_sink_by_id :
    ℕ → ℕ → List ℕ → Bool → Rxcs → Rxcs × List Effect × Result RxcError Unit
unfolding remove_rxc_by_id
stop_rxc_sink_by_id id flags msg stops s = elim (lookup id s.rxc_map) [
  | none ↦ (s, [], err unknown_id)
  | some rxc ↦ (
    count_removed (remove_rxc_by_id id s),
    elim rxc.sink [ none ↦ [] | some sink ↦ stops_sink rxc flags msg ∷ [] ],
    elim rxc.sink [ none ↦ ok tt | some sink ↦ if stops then ok tt else err sink_failed ],
  )
]

-- ReadRxcAndWriteSinkById; `writes` tells whether the sink's Write succeeds.
unfoldable pub read_rxc_and_write_sink_by_id :
    ℕ → ℕ → List ℕ → Bool → Rxcs → List Effect × Result RxcError Unit
read_rxc_and_write_sink_by_id id flags bytes writes s = elim (lookup id s.rxc_map) [
  | none ↦ ([], err unknown_id)
  | some rxc ↦ elim rxc.sink [
    | none ↦ ([], err missing_sink)
    | some sink ↦ (writes_sink rxc flags bytes ∷ [], if writes then ok tt else err sink_failed)
  ]
]

pub data RxcPacket : Type 0 where
  rxc_start rxc_stop rxc_data : RxcPacket

-- HandleRxcEvent; `succeeds` tells whether the sink's call does.
unfoldable pub handle_rxc_event :
    RxcPacket → ℕ → ℕ → List ℕ → Bool → Rxcs → Rxcs × List Effect × Result RxcError Unit
unfolding stop_rxc_sink_by_id read_rxc_and_write_sink_by_id
handle_rxc_event rxc_stop id flags bytes succeeds s = stop_rxc_sink_by_id id flags bytes succeeds s
handle_rxc_event rxc_data id flags bytes succeeds s =
    let (es, r) = read_rxc_and_write_sink_by_id id flags bytes succeeds s in (s, es, r)
handle_rxc_event rxc_start id flags bytes succeeds s = (s, [], ok tt)
