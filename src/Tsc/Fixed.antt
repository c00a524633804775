-- ===== src/Tsc/Fixed.antt =====
-- `add_future_movement_events` of tsc_client_service/src/monitor_tsc_state.cpp: the projection with the
-- controller's fixed durations. It works on a copy of the intersection and writes it back at the end,
-- so an exception leaves the SPaT as it was. `now` is the reading of the clock
-- during the call.
use carma_streets.Base.{
  ℕ, zero, suc, List, [], ◌∷◌, ◌++◌, ltb, if◌then◌else◌, length, add64, Option, none, some, Result,
  ok, err, ◌>>=◌, or_fault, too_many_events, no_movement, unsupported_state,
}
use carma_streets.Spat.Time.{
  unknown_times, set_start_time, set_min_end_time, set_max_end_time, get_epoch_start_time,
  get_epoch_min_end_time,
}
use carma_streets.Spat.Movement.{
  MovementPhaseState, stop_and_remain, protected_movement_allowed, protected_clearance,
  MovementEvent, MovementState,
}
use carma_streets.Spat.Intersection.{find_movement, replace_movement}
use carma_streets.Base.{lookup}
use carma_streets.Tsc.State.{SignalGroupState, StateMap}
pub mod Timeline

module _ (now : ℕ) where
  -- A new event of the state over the given epoch times.
  unfoldable pub event_over : MovementPhaseState → ℕ → ℕ → MovementEvent
  event_over s start_time end_time = record {
    event_state = s;
    timing =
        set_max_end_time now end_time
          (set_min_end_time now end_time (set_start_time now start_time unknown_times));
    speeds = [];
  }

  unfoldable pub get_following_event :
      MovementPhaseState → ℕ → SignalGroupState → Result MovementEvent
  get_following_event protected_movement_allowed end_time s =
      ok (event_over protected_clearance end_time (add64 end_time s.yellow_duration))
  get_following_event protected_clearance end_time s =
      ok (event_over stop_and_remain end_time (add64 end_time s.red_duration))
  get_following_event stop_and_remain end_time s =
      ok (event_over protected_movement_allowed end_time (add64 end_time s.green_duration))
  get_following_event _ end_time s = err unsupported_state

  -- The loop over `required_following_movements_`: the rounds left, the current event and its end.
  unfoldable pub following_events :
      ℕ → MovementPhaseState → ℕ → SignalGroupState → Result (List MovementEvent)
  following_events zero current end_time s = ok []
  following_events (suc left) current end_time s = do
    next ← get_following_event current end_time s
    later ← following_events left next.event_state (get_epoch_min_end_time now next.timing) s
    ok (next ∷ later)

  unfoldable pub current_end_time : MovementPhaseState → ℕ → SignalGroupState → Result ℕ
  current_end_time stop_and_remain start_time s = ok (add64 start_time s.red_duration)
  current_end_time protected_movement_allowed start_time s = ok (add64 start_time s.green_duration)
  current_end_time protected_clearance start_time s = ok (add64 start_time s.yellow_duration)
  current_end_time _ start_time s = err unsupported_state

  unfoldable pub end_current : ℕ → MovementEvent → MovementEvent
  end_current end_time e = record e {
    timing = set_max_end_time now end_time (set_min_end_time now end_time e.timing);
  }

  -- What becomes of the events of `current_movement`; `copy` is the movement of the loop.
  unfoldable pub project_events :
      ℕ → MovementEvent → List MovementEvent → SignalGroupState → Result (List MovementEvent)
  project_events start_time e es s = do
    end_time ← current_end_time e.event_state start_time s
    later ← following_events 3 e.event_state end_time s
    ok ((end_current end_time e ∷ es) ++ later)

  unfoldable pub project_movement :
      ℕ → MovementState → SignalGroupState → List MovementEvent → Result MovementState
  project_movement start_time m s [] = ok m
  project_movement start_time m s (e ∷ es) = do
    events ← project_events start_time e es s
    ok (record m { state_time_speed = events })

  -- `front()` of an empty list is undefined; every movement holds its current event by then.
  unfoldable pub start_of : List MovementEvent → ℕ
  start_of [] = 0
  start_of (e ∷ es) = get_epoch_start_time now e.timing

  unfoldable pub add_to_movements :
      StateMap → List MovementState → List MovementState → Result (List MovementState)
  add_to_movements states [] ms = ok ms
  add_to_movements states (copy ∷ copies) ms =
      let rest = λ (out : List MovementState). add_to_movements states copies out in
      if ltb 1 (length copy.state_time_speed)
      then err too_many_events
      else elim (find_movement copy.signal_group ms) [
        | none ↦ err no_movement
        | some m ↦ elim (lookup copy.signal_group states) [
          | none ↦ rest ms
          | some s ↦
              elim (project_movement (start_of copy.state_time_speed) m s m.state_time_speed) [
                | ok new ↦ rest (replace_movement copy.signal_group new ms)
                | err x ↦ err x
              ]
        ]
      ]

  unfoldable pub add_future_movement_events :
      StateMap → List MovementState → Result (List MovementState)
  add_future_movement_events states ms = add_to_movements states ms ms
