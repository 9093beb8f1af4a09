-- ===== src/Sessions/Tests.antt =====
-- The theorem on sessions at a concrete input.
use hodu.Prelude.{◌≡◌, refl, true, false, none, some, List, [], ◌∷◌}
use hodu.IdPool.{assign_id, find_free, bump}
use hodu.Sessions.Rxc.{websocket, job_run, rxc_data, rxc_stop}
use hodu.Sessions.Rxc.Threads.{
  Event, begins, goes, adds, handles, stops_ws, steps, step, begin, advance, enter_rxc, remove_and,
  new_world,
}
use hodu.Sessions.Rxc.Once.{Sound, steps-Sound}

-- A session starts for a websocket; then the websocket stops it while the client's stop comes, which
-- is the first to remove it, and data of the client still comes. One start fails.
abbrev events : List Event
events =
    begins (adds (websocket 8) (some 8))
    ∷ goes 0 true
    ∷ goes 0 true
    ∷ goes 0 true
    ∷ begins (adds (job_run 3) none)
    ∷ goes 0 true
    ∷ goes 0 false
    ∷ goes 0 true
    ∷ begins (stops_ws 8)
    ∷ goes 0 true
    ∷ begins (handles rxc_data 1 0 (65 ∷ []))
    ∷ begins (handles rxc_stop 1 0 [])
    ∷ goes 2 true
    ∷ goes 2 true
    ∷ goes 0 true
    ∷ goes 0 true
    ∷ goes 1 true
    ∷ []

steps-Sound_example : Sound 2 (steps events (new_world 2))
steps-Sound_example = steps-Sound 2 events

once_removed : (steps events (new_world 2)).removed ≡ 1 ∷ []
unfolding steps step begin advance enter_rxc remove_and assign_id find_free bump
once_removed = refl
