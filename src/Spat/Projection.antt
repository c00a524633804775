-- ===== src/Spat/Projection.antt =====
-- src/models/spat.cpp, `update_spat_with_candidate_dpp` and the methods that it calls: the future
-- events of every movement are computed anew from a desired phase plan. `now` is the reading of the
-- streets clock during the call. Both methods on one movement throw before they write, so they are
-- results; the loops keep what was written before an exception.
use carma_streets.Base.{
  ℕ, ◌+◌, Bool, List, [], ◌∷◌, ◌++◌, ltb, if◌then◌else◌, elem, length, add64, last, Option, none,
  some, Result, ok, err, Outcome, done, thrown, and_then, empty_signal_groups, too_many_events,
  no_movement, not_green_or_red, not_red_or_yellow, last_not_red, future_not_red,
}
use carma_streets.Plan.{
  GreenTiming, DesiredPhasePlan, TscConfiguration, get_signal_group_configuration_by_sg, is_empty,
}
use carma_streets.Spat.Time.{
  TimeChangeDetails, unknown_times, set_start_time, set_min_end_time, get_epoch_start_time,
}
use carma_streets.Spat.Movement.{
  MovementPhaseState, stop_and_remain, protected_movement_allowed, protected_clearance,
  MovementEvent, MovementState, is_red, is_yellow, is_green,
}
use carma_streets.Spat.Intersection.{find_movement, replace_movement, clear_future_movement_events}
pub mod Reference
pub mod Evolution
pub mod Chain
pub mod Greens
pub mod Success

unfoldable pub yellow_of : TscConfiguration → ℕ → ℕ
yellow_of tsc sg =
    if is_empty tsc then 0 else (get_signal_group_configuration_by_sg tsc sg).yellow_change_duration

unfoldable pub red_of : TscConfiguration → ℕ → ℕ
red_of tsc sg =
    if is_empty tsc then 0 else (get_signal_group_configuration_by_sg tsc sg).red_clearance

-- The loop of the method: the group so far and its total.
unfoldable pub max_clearance_from : TscConfiguration → ℕ → ℕ → List ℕ → ℕ
max_clearance_from tsc best total [] = best
max_clearance_from tsc best total (sg ∷ sgs) =
    let local_total = yellow_of tsc sg + red_of tsc sg in
    max_clearance_from tsc (if ltb total local_total then sg else best)
      (if ltb total local_total then local_total else total) sgs

-- `front()` of an empty list is undefined; the caller has thrown for it.
unfoldable pub find_max_desired_yellow_duration_red_clearance_pair : TscConfiguration → List ℕ → ℕ
find_max_desired_yellow_duration_red_clearance_pair tsc [] = 0
find_max_desired_yellow_duration_red_clearance_pair tsc (sg ∷ sgs) =
    max_clearance_from tsc sg 0 (sg ∷ sgs)

module _ (now : ℕ) where
  unfoldable pub populate_movement_event : MovementPhaseState → ℕ → ℕ → MovementEvent
  populate_movement_event s start_time end_time = record {
    event_state = s;
    timing = set_min_end_time now end_time (set_start_time now start_time unknown_times);
    speeds = [];
  }

  unfoldable pub end_at : ℕ → MovementEvent → MovementEvent
  end_at time e = record e { timing = set_min_end_time now time e.timing }

  -- The events that `append_full_green_yellow_red_phases_by_desired_green` appends.
  unfoldable pub green_yellow_red : GreenTiming → ℕ → ℕ → List MovementEvent
  green_yellow_red t yellow red =
      let yellow_end = add64 t.end_time yellow in
      populate_movement_event protected_movement_allowed t.start_time t.end_time
      ∷ populate_movement_event protected_clearance t.end_time yellow_end
      ∷ populate_movement_event stop_and_remain yellow_end (add64 yellow_end red)
      ∷ []

  -- `back()` is written through a reference.
  unfoldable pub end_last_at : ℕ → List MovementEvent → List MovementEvent
  end_last_at time [] = []
  end_last_at time (e ∷ []) = end_at time e ∷ []
  end_last_at time (e ∷ f ∷ es) = e ∷ end_last_at time (f ∷ es)

module _ (now : ℕ) (tsc : TscConfiguration) (t : GreenTiming) where
  unfoldable pub desired_yellow : ℕ
  desired_yellow =
      yellow_of tsc (find_max_desired_yellow_duration_red_clearance_pair tsc t.signal_groups)

  unfoldable pub desired_red : ℕ
  desired_red = red_of tsc (find_max_desired_yellow_duration_red_clearance_pair tsc t.signal_groups)

  -- The end of the clearance that follows the desired green.
  unfoldable pub clearance_end : ℕ
  clearance_end = add64 (add64 t.end_time desired_yellow) desired_red

  unfoldable pub first_green_events : ℕ → List MovementEvent → Result (List MovementEvent)
  first_green_events sg [] = ok []
  first_green_events sg (e ∷ es) =
      if elem sg t.signal_groups
      then (if is_green e.event_state
          then ok (
              end_at now t.end_time e ∷ es
              ++ populate_movement_event now protected_clearance t.end_time
                  (add64 t.end_time desired_yellow)
                ∷ populate_movement_event now stop_and_remain (add64 t.end_time desired_yellow)
                    clearance_end
                ∷ [])
          else if is_red e.event_state
          then ok (
              (end_at now t.start_time e ∷ es) ++ green_yellow_red now t desired_yellow desired_red)
          else err not_green_or_red)
      else if is_red e.event_state
      then ok (end_at now clearance_end e ∷ es)
      else if is_yellow e.event_state
      then (let yellow_end = add64 (get_epoch_start_time now e.timing) (yellow_of tsc sg) in
          ok (
            (end_at now yellow_end e ∷ es)
            ++ populate_movement_event now stop_and_remain yellow_end clearance_end ∷ []))
      else err not_red_or_yellow

  unfoldable pub process_first_desired_green : MovementState → Result MovementState
  process_first_desired_green m = elim (first_green_events m.signal_group m.state_time_speed) [
    | ok es ↦ ok (record m { state_time_speed = es })
    | err x ↦ err x
  ]

  unfoldable pub next_green_events : ℕ → List MovementEvent → Result (List MovementEvent)
  next_green_events sg [] = ok []
  next_green_events sg (e ∷ es) =
      let back = last e es in
      if elem sg t.signal_groups
      then (if is_red back.event_state
          then ok (
              end_last_at now t.start_time (e ∷ es)
              ++ green_yellow_red now t desired_yellow desired_red)
          else err last_not_red)
      else if is_red back.event_state
      then ok (end_last_at now clearance_end (e ∷ es))
      else err future_not_red

  unfoldable pub process_second_onward_desired_green : MovementState → Result MovementState
  process_second_onward_desired_green m =
      elim (next_green_events m.signal_group m.state_time_speed) [
        | ok es ↦ ok (record m { state_time_speed = es })
        | err x ↦ err x
      ]

-- The inner loop. It runs over `copies`, the movements before the first entry of the plan, and writes
-- through `get_movement` into `ms`.
unfoldable pub process_movements :
    (MovementState → Result MovementState)
    → List MovementState
    → List MovementState
    → Outcome (List MovementState)
process_movements process [] ms = done ms
process_movements process (copy ∷ copies) ms =
    let rest = λ (out : List MovementState). process_movements process copies out in
    if ltb 1 (length copy.state_time_speed)
    then thrown too_many_events ms
    else elim (find_movement copy.signal_group ms) [
      | none ↦ thrown no_movement ms
      | some m ↦ elim (process m) [
        | ok new ↦ rest (replace_movement copy.signal_group new ms)
        | err x ↦ thrown x ms
      ]
    ]

module _ (now : ℕ) (tsc : TscConfiguration) where
  unfoldable pub process_entry :
      (MovementState → Result MovementState)
      → GreenTiming
      → List MovementState
      → List MovementState
      → Outcome (List MovementState)
  process_entry process t copies ms =
      if is_empty t.signal_groups
      then thrown empty_signal_groups ms
      else process_movements process copies ms

  -- The outer loop, from the second entry on.
  unfoldable pub process_onward :
      List GreenTiming → List MovementState → List MovementState → Outcome (List MovementState)
  process_onward [] copies ms = done ms
  process_onward (t ∷ ts) copies ms =
      and_then (process_entry (process_second_onward_desired_green now tsc t) t copies ms)
        (λ out. process_onward ts copies out)

  unfoldable pub process_plan :
      List GreenTiming → List MovementState → List MovementState → Outcome (List MovementState)
  process_plan [] copies ms = done ms
  process_plan (t ∷ ts) copies ms =
      and_then (process_entry (process_first_desired_green now tsc t) t copies ms)
        (λ out. process_onward ts copies out)

  -- The movements of the first intersection after `update_spat_with_candidate_dpp`.
  unfoldable pub update_spat_with_candidate_dpp :
      MovementPhaseState → DesiredPhasePlan → List MovementState → Outcome (List MovementState)
  update_spat_with_candidate_dpp garbage plan ms =
      let cleared = clear_future_movement_events garbage ms in
      process_plan plan.desired_phase_plan cleared cleared
