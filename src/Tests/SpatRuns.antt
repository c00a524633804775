-- ===== src/Tests/SpatRuns.antt =====
-- A projection for two signal groups, an update from a status block, and times around the hour.
use carma_streets.Base.{
  false, add64, ℕ, ◌+◌, ◌*◌, ◌/◌, ◌≡◌, refl, List, [], ◌∷◌, ◌++◌, done, final, All, some, arith,
}
use carma_streets.Plan.{
  GreenTiming, DesiredPhasePlan, TscConfiguration, get_signal_group_configuration_by_sg,
}
use carma_streets.Spat.Time.{unknown_times}
use carma_streets.Spat.Movement.{
  MovementPhaseState, MovementEvent, MovementState, dark, stop_and_remain,
  protected_movement_allowed, protected_clearance, same_state,
}
use carma_streets.Spat.Time.{
  set_start_time, set_min_end_time, convert_msepoch_to_hour_tenth_secs, get_epoch_start_time,
  get_epoch_min_end_time,
}
use carma_streets.Spat.Time.Marks.{
  get_epoch_start_time-set_start_time, get_epoch_min_end_time-set_min_end_time_late,
}
use carma_streets.Spat.Ntcip.{
  PhaseTime, Ntcip1202Ext, get_phase_red_status, get_phase_yellow_status, get_phase_green_status,
  get_phase_flashing_status, get_phasetime, get_spat_veh_min_time_to_change,
  get_spat_veh_max_time_to_change,
}
use carma_streets.Spat.Intersection.{
  IntersectionState, clear_future_movement_events, clear_movement, current_only, find_movement,
  replace_movement, reported_state, update_movements, update_each, update_movement_state,
  update_events, set_end_times, enter_state, convert_offset,
}
use carma_streets.Spat.Message.{
  SpatMessage, update, is_uninitialized, set_timestamp, stamp_local, get_epoch_timestamp,
  update_intersection_state,
}
use carma_streets.Spat.Message.Stamps.{get_epoch_timestamp-stamp_local}
use carma_streets.Spat.Message.Updated.{IsCurrent, update-IsCurrent}
use carma_streets.Spat.Intersection.Reported.{shown, update_movements-shown}
use carma_streets.Spat.Intersection.Single.{HasCurrentOnly, update_movements-HasCurrentOnly}
use carma_streets.Spat.Projection.{
  update_spat_with_candidate_dpp, process_plan, process_onward, process_entry, process_movements,
  process_first_desired_green, process_second_onward_desired_green, first_green_events,
  next_green_events, end_last_at, end_at, green_yellow_red, populate_movement_event, desired_yellow,
  desired_red, clearance_end, yellow_of, red_of,
  find_max_desired_yellow_duration_red_clearance_pair, max_clearance_from,
}
use carma_streets.Spat.Projection.Evolution.{Each}
use carma_streets.Spat.Projection.Chain.{IsProjected, current_of, update_spat-IsProjected}
use carma_streets.Spat.Projection.Greens.{greens, served, first_served, update_spat-greens}
use carma_streets.Spat.Projection.Success.{update_spat_total}

abbrev event : MovementPhaseState → ℕ → ℕ → MovementEvent
event s start finish = record {
  event_state = s;
  timing = record unknown_times { start_time = start; min_end_time = finish };
  speeds = [];
}

abbrev movement : ℕ → List MovementEvent → MovementState
movement sg es = record {
  movement_name = "";
  signal_group = sg;
  state_time_speed = es;
  maneuver_assist_list = [];
}

abbrev config : TscConfiguration
config =
    record {
      signal_group_id = 1;
      yellow_change_duration = 3000;
      red_clearance = 1000;
      concurrent_signal_groups = [];
    }
    ∷ record {
      signal_group_id = 2;
      yellow_change_duration = 4000;
      red_clearance = 2000;
      concurrent_signal_groups = [];
    }
    ∷ []

abbrev first_green : GreenTiming
first_green = record { start_time = 10000; end_time = 20000; signal_groups = 1 ∷ [] }

abbrev second_green : GreenTiming
second_green = record { start_time = 24000; end_time = 36000; signal_groups = 2 ∷ [] }

abbrev two_greens : DesiredPhasePlan
two_greens = record { timestamp = 0; desired_phase_plan = first_green ∷ second_green ∷ [] }

abbrev both_red : List MovementState
both_red =
    movement 1 (event stop_and_remain 0 36001 ∷ [])
    ∷ movement 2 (event stop_and_remain 0 36001 ∷ [])
    ∷ []

abbrev projected : List MovementState
projected =
    movement 1 (
      event stop_and_remain 0 100
      ∷ event protected_movement_allowed 100 200
      ∷ event protected_clearance 200 230
      ∷ event stop_and_remain 230 420
      ∷ [])
    ∷ movement 2 (
        event stop_and_remain 0 240
        ∷ event protected_movement_allowed 240 360
        ∷ event protected_clearance 360 400
        ∷ event stop_and_remain 400 420
        ∷ [])
    ∷ []

both_red-projected :
    update_spat_with_candidate_dpp 5000 config dark two_greens both_red ≡ done projected
unfolding update_spat_with_candidate_dpp process_plan process_onward process_entry process_movements
    process_first_desired_green process_second_onward_desired_green first_green_events
    next_green_events end_last_at end_at green_yellow_red populate_movement_event desired_yellow
    desired_red clearance_end yellow_of red_of find_max_desired_yellow_duration_red_clearance_pair
    max_clearance_from clear_future_movement_events clear_movement current_only find_movement
    replace_movement set_start_time set_min_end_time convert_msepoch_to_hour_tenth_secs add64
    get_signal_group_configuration_by_sg get_epoch_start_time
both_red-projected = refl

update_spat-greens_example :
    Each
      (λ m n.
        greens n.state_time_speed
        ≡ first_served 5000 m.signal_group (current_of dark m) first_green
          ++ served 5000 m.signal_group (second_green ∷ []))
      both_red
      projected
update_spat-greens_example =
    update_spat-greens 5000 config dark two_greens first_green (second_green ∷ []) both_red
      projected refl (refl, (refl, tt)) both_red-projected

update_spat-IsProjected_example : All (λ n. IsProjected n.state_time_speed) projected
update_spat-IsProjected_example =
    update_spat-IsProjected 5000 config dark two_greens first_green (second_green ∷ []) both_red
      projected refl (refl, (refl, tt)) both_red-projected

update_spat_total_example :
    (out : List MovementState) × (update_spat_with_candidate_dpp 5000 config dark two_greens
        both_red
      ≡ done out)
update_spat_total_example =
    update_spat_total 5000 config dark two_greens first_green (second_green ∷ []) both_red refl
      (refl, (refl, tt)) (refl, (refl, tt)) (refl, (refl, tt))

abbrev phase_time : ℕ → PhaseTime
phase_time phase = record {
  phase_number = phase;
  spat_veh_min_time_to_change = 25600;
  spat_veh_max_time_to_change = 51200;
  spat_ped_min_time_to_change = 0;
  spat_ped_max_time_to_change = 0;
  spat_ovlp_min_time_to_change = 0;
  spat_ovp_max_time_to_change = 0;
}

-- Phase 2 is green and phase 6 is red.
abbrev block : Ntcip1202Ext
block = record {
  phase_times = phase_time 2 ∷ phase_time 6 ∷ [];
  phase_status_group_reds = 8192;
  phase_status_group_yellows = 0;
  phase_status_group_greens = 512;
  flashing_output_phase_status = 0;
  spat_intersection_status = 0;
  spat_timestamp_second_byte1 = 0;
  spat_timestamp_second_byte2 = 0;
  spat_timestamp_second_byte3 = 0;
  spat_timestamp_msec = 0;
}

abbrev tenths : ℕ → ℕ → ℕ → ℕ
tenths m s ms = m * 600 + s * 10 + ms / 100

abbrev phases : List (ℕ × ℕ)
phases = (2, 1) ∷ (6, 2) ∷ []

abbrev timed : MovementPhaseState → ℕ → MovementEvent
timed s start = record {
  event_state = s;
  timing = record unknown_times { start_time = start; min_end_time = 150; max_end_time = 250 };
  speeds = [];
}

abbrev updated : List MovementState
updated =
    movement 1 (timed protected_movement_allowed 50 ∷ [])
    ∷ movement 2 (timed stop_and_remain 0 ∷ [])
    ∷ []

both_red-updated : update_movements tenths 5000 dark block phases both_red ≡ done updated
unfolding update_movements update_each update_movement_state update_events set_end_times enter_state
    convert_offset clear_future_movement_events clear_movement current_only find_movement
    replace_movement reported_state get_phase_red_status get_phase_yellow_status
    get_phase_green_status get_phase_flashing_status get_phasetime get_spat_veh_min_time_to_change
    get_spat_veh_max_time_to_change same_state
both_red-updated = refl

update_movements-shown_example :
    All (λ p. shown p.1 updated ≡ some (reported_state block p.0)) phases
update_movements-shown_example =
    update_movements-shown tenths 5000 block dark phases both_red updated (refl, (refl, tt))
      both_red-updated

-- The status block has no time for phase 9, so the update throws half way.
update_movements-HasCurrentOnly_example :
    All HasCurrentOnly
      (final (update_movements tenths 5000 dark block ((2, 1) ∷ (9, 2) ∷ []) projected))
update_movements-HasCurrentOnly_example =
    update_movements-HasCurrentOnly tenths 5000 block dark ((2, 1) ∷ (9, 2) ∷ []) projected

abbrev west : List MovementState → ℕ → ℕ → ℕ → IntersectionState
west states revision moy time_stamp = record {
  name = "west";
  id = 7;
  revision = revision;
  status = 0;
  moy = moy;
  time_stamp = time_stamp;
  enabled_lanes = [];
  states = states;
  maneuver_assist_list = [];
}

abbrev message : ℕ → IntersectionState → SpatMessage
message minute i = record {
  timestamp = minute;
  name = "west";
  intersections = i ∷ [];
  phase_to_signal_group = phases;
}

-- Five seconds into the third day of the year.
message-updated :
    update tenths 5000 2 dark block false (message 0 (west both_red 0 0 0))
    ≡ done (message 2880 (west updated 1 2880 5000))
unfolding update is_uninitialized set_timestamp stamp_local update_intersection_state
    update_movements update_each update_movement_state update_events set_end_times enter_state
    convert_offset clear_future_movement_events clear_movement current_only find_movement
    replace_movement reported_state get_phase_red_status get_phase_yellow_status
    get_phase_green_status get_phase_flashing_status get_phasetime get_spat_veh_min_time_to_change
    get_spat_veh_max_time_to_change same_state
message-updated = refl

update-IsCurrent_example :
    IsCurrent tenths 5000 2 dark block phases (message 2880 (west updated 1 2880 5000))
update-IsCurrent_example =
    update-IsCurrent tenths 5000 2 dark block false (message 0 (west both_red 0 0 0))
      (message 2880 (west updated 1 2880 5000)) (refl, (refl, tt)) message-updated

get_epoch_timestamp-stamp_local_example :
    get_epoch_timestamp 172800000
      (stamp_local (172800000 + 5 * 86400000 + 3723004) 5 (west both_red 0 0 0))
    ≡ 172800000 + 5 * 86400000 + 3723004
get_epoch_timestamp-stamp_local_example =
    get_epoch_timestamp-stamp_local 2 5 3723004 (west both_red 0 0 0) (omega arith) (omega arith)

get_epoch_start_time-set_start_time_example :
    get_epoch_start_time 3605000 (set_start_time 3605000 3612345 unknown_times) ≡ 3612300
get_epoch_start_time-set_start_time_example =
    get_epoch_start_time-set_start_time 3605000 3612345 unknown_times (omega arith) (omega arith)

get_epoch_min_end_time-set_min_end_time_late_example :
    get_epoch_min_end_time 3605000 (set_min_end_time 3605000 7260000 unknown_times) ≡ 7200000
get_epoch_min_end_time-set_min_end_time_late_example =
    get_epoch_min_end_time-set_min_end_time_late 3605000 7260000 unknown_times (omega arith)
