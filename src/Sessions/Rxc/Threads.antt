-- ===== src/Sessions/Rxc/Threads.antt =====
-- server-cts-rxc.go: the methods of a connection's sessions as goroutines. What a method does at once, in
-- one section of `rxc_mtx` or in one call outside of it, is one step, and the steps of the goroutines
-- come in any order.
use hodu.Prelude.{
  ℕ, Bool, true, false, Option, none, some, List, [], ◌∷◌, ◌++◌, if◌then◌else◌, pos, inc, dec,
  lookup, has_key, get_elem?, set,
}
use hodu.IdPool.{assign_id}
use hodu.Sessions.Rxc.{
  Sink, ServerRxc, Rxcs, Effect, sends_start, sends_stop, sends_data, asks_stop, stops_sink,
  writes_sink, rxc_ids, ws_is_taken, put_rxc, take_rxc, remove_rxc_by_id, sent, RxcPacket,
  rxc_start, rxc_stop, rxc_data,
}

-- What a goroutine has still to do, by the next thing that it does.
pub data Thread : Type 0 where
  -- add_new_rxc, after the session is entered
  at_make at_send at_undo at_count_on : ServerRxc → Thread
  -- StopRxcForWs, after the session is found
  at_send_stop at_remove at_count_off at_ask_stop : ServerRxc → Thread
  -- StopRxcSinkById, after the session is removed
  at_sink_count at_sink_stop : ServerRxc → ℕ → List ℕ → Thread
  -- SendStopRxcById, WriteRxcForWs and ReadRxcAndWriteSinkById, after the session is found
  at_send_stop_by_id : ℕ → ℕ → Thread
  at_send_data : ServerRxc → List ℕ → Thread
  at_sink_write : ServerRxc → ℕ → List ℕ → Thread
  ended : Thread

-- The calls of a websocket handler, a job and the receiver of packets.
pub data Call : Type 0 where
  adds : Sink → Option ℕ → Call
  stops_ws : ℕ → Call
  sends_stop_by_id : ℕ → ℕ → Call
  writes_ws : ℕ → List ℕ → Call
  handles : RxcPacket → ℕ → ℕ → List ℕ → Call

-- The tables, the goroutines, and what has happened: what went to the client and the sinks, and the ids
-- that were entered and removed, the last first.
pub record World : Type 0 where
  pub tables : Rxcs
  pub threads : List Thread
  pub log : List Effect
  pub entered : List ℕ
  pub removed : List ℕ

-- The first section of add_new_rxc, after the id loop.
unfoldable pub enter_rxc : Sink → Option ℕ → Option ℕ × ℕ → World → World
unfolding put_rxc
enter_rxc sink ws (none, next) w = record w { tables = record w.tables { rxc_next_id = next } }
enter_rxc sink ws (some id, next) w =
    let s = record w.tables { rxc_next_id = next } in
    let rxc : ServerRxc = record { id = id; ws = ws; sink = some sink } in
    if ws_is_taken ws s.by_ws then record w { tables = s } else record w {
      tables = put_rxc rxc s;
      threads = at_make rxc ∷ w.threads;
      entered = id ∷ w.entered;
    }

-- remove_rxc_by_id, and how the goroutine goes on.
unfoldable pub remove_and : ℕ → (Option ServerRxc → Thread) → World → World × Thread
unfolding remove_rxc_by_id
remove_and id f w = elim (lookup id w.tables.rxc_map) [
  | none ↦ (w, f none)
  | some rxc ↦ (
    record w { tables = (remove_rxc_by_id id w.tables).0; removed = id ∷ w.removed },
    f (some rxc),
  )
]

abbrev pub after_sink_removal : ℕ → List ℕ → Option ServerRxc → Thread
after_sink_removal flags msg none = ended
after_sink_removal flags msg (some rxc) = at_sink_count rxc flags msg

-- A new goroutine.
abbrev pub spawn : World × Thread → World
spawn (w, t) = record w { threads = t ∷ w.threads }

-- What it does if it finds the session.
abbrev pub if_found : Option ServerRxc → (ServerRxc → Thread) → World → World
if_found none f w = w
if_found (some rxc) f w = spawn (w, f rxc)

abbrev pub write_thread : ℕ → List ℕ → ServerRxc → Thread
write_thread flags bytes rxc = elim rxc.sink [
  | none ↦ ended
  | some sink ↦ at_sink_write rxc flags bytes
]

-- The first section of a call.
unfoldable pub begin : Call → World → World
unfolding enter_rxc remove_and
begin (adds sink ws) w =
    enter_rxc sink ws (assign_id rxc_ids (λ k. has_key k w.tables.rxc_map) w.tables.rxc_next_id) w
begin (stops_ws ws) w = if_found (w.tables.by_ws ws) at_send_stop w
begin (sends_stop_by_id id flags) w =
    if_found (lookup id w.tables.rxc_map) (λ rxc. at_send_stop_by_id id flags) w
begin (writes_ws ws bytes) w = if_found (w.tables.by_ws ws) (λ rxc. at_send_data rxc bytes) w
begin (handles rxc_stop id flags bytes) w = spawn (remove_and id (after_sink_removal flags bytes) w)
begin (handles rxc_data id flags bytes) w =
    if_found (lookup id w.tables.rxc_map) (write_thread flags bytes) w
begin (handles rxc_start id flags bytes) w = w

abbrev pub after_ws_removal : ServerRxc → Option ServerRxc → Thread
after_ws_removal rxc none = at_ask_stop rxc
after_ws_removal rxc (some r) = at_count_off rxc

abbrev pub told : List Effect → World → World
told es w = record w { log = w.log ++ es }

abbrev pub count_off : World → World
count_off w = record w { tables = record w.tables { rxc_sessions = dec w.tables.rxc_sessions } }

abbrev pub stop_effects : ServerRxc → ℕ → List ℕ → List Effect
stop_effects rxc flags msg = elim rxc.sink [ none ↦ [] | some sink ↦ stops_sink rxc flags msg ∷ [] ]

-- The next step of a goroutine, with whether the packet can be made or sent.
unfoldable pub advance : Bool → Thread → World → World × Thread
unfolding take_rxc remove_and
advance works (at_make rxc) w = (w, if works then at_send rxc else at_undo rxc)
advance true (at_send rxc) w = (told (sends_start rxc.id ∷ []) w, at_count_on rxc)
advance false (at_send rxc) w = (w, at_undo rxc)
advance works (at_undo rxc) w = (record w { tables = take_rxc rxc w.tables }, ended)
advance works (at_count_on rxc) w =
    (record w { tables = record w.tables { rxc_sessions = inc w.tables.rxc_sessions } }, ended)
advance works (at_send_stop rxc) w = (told (sent works (sends_stop rxc.id 0)) w, at_remove rxc)
advance works (at_remove rxc) w = remove_and rxc.id (after_ws_removal rxc) w
advance works (at_count_off rxc) w = (count_off w, at_ask_stop rxc)
advance works (at_ask_stop rxc) w = (told (asks_stop rxc ∷ []) w, ended)
advance works (at_sink_count rxc flags msg) w = (count_off w, at_sink_stop rxc flags msg)
advance works (at_sink_stop rxc flags msg) w = (told (stop_effects rxc flags msg) w, ended)
advance works (at_send_stop_by_id id flags) w = (told (sent works (sends_stop id flags)) w, ended)
advance works (at_send_data rxc bytes) w = (told (sent works (sends_data rxc.id bytes)) w, ended)
advance works (at_sink_write rxc flags bytes) w = (told (writes_sink rxc flags bytes ∷ []) w, ended)
advance works ended w = (w, ended)

abbrev pub set_thread : ℕ → World × Thread → World
set_thread i (w, t) = record w { threads = set w.threads i t }

-- A call begins, or the goroutine at an index goes on.
pub data Event : Type 0 where
  begins : Call → Event
  goes : ℕ → Bool → Event

unfoldable pub step : Event → World → World
unfolding begin advance
step (begins c) w = begin c w
step (goes i works) w = elim (get_elem? w.threads i) [
  | none ↦ w
  | some t ↦ set_thread i (advance works t w)
]

unfoldable pub steps : List Event → World → World
unfolding step
steps [] w = w
steps (e ∷ es) w = steps es (step e w)

-- NewServerConn, on a server whose other connections have `others` sessions.
abbrev pub new_world : ℕ → World
new_world others = record {
  tables = record { rxc_map = []; by_ws = λ ws. none; rxc_next_id = 1; rxc_sessions = pos others };
  threads = [];
  log = [];
  entered = [];
  removed = [];
}
