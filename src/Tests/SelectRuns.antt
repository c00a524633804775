-- ===== src/Tests/SelectRuns.antt =====
-- A run of the generator, and of the arbitrator with what it returns.
use carma_streets.Base.{
  ℕ, ◌+◌, ◌≤◌, ◌<◌, ◌≡◌, ◌⊎◌, true, inl, inr, refl, List, [], ◌∷◌, ◌++◌, Any, All, Option, none,
  some, Result, ok, Outcome, done, arith, add64, sub64, lookup, length, last, IntMap,
}
use mathlib.Core.List.Permᴰ
use carma_streets.Double.{whole}
use carma_streets.Plan.{GreenTiming, DesiredPhasePlan, TscConfiguration}
use carma_streets.Vehicles.VehicleList.{VehicleMap}
use carma_streets.Spat.Time.{unknown_times}
use carma_streets.Spat.Movement.{
  MovementEvent, MovementState, protected_movement_allowed, stop_and_remain, dark,
}
use carma_streets.Scheduler.{IntersectionInfo, VehicleSchedule}
use carma_streets.SignalOpt.{MovementGroup, Configuration, default_generator_configuration}
use carma_streets.SignalOpt.BasePlan.{order_greens, find_tbd_start_time, clearance_from}
use carma_streets.SignalOpt.Queues.{get_last_vehicle_in_queue, end_for_queue, green_end}
use carma_streets.SignalOpt.Candidates.{candidate, candidate_list, groups_of}
use carma_streets.SignalOpt.Generator.{Generator, Request, generate_desire_phase_plan_list}
use carma_streets.SignalOpt.Generator.Runs.{Proposes, generate-Proposes}
use carma_streets.SignalOpt.Arbitrator.{Arbitration, select_optimal_dpp, measure_candidate}
use carma_streets.SignalOpt.Arbitrator.Best.{IsOrder, Greatest, select_optimal_dpp-Greatest}
use carma_streets.Tests.VehicleRuns.{car, lanelet}
use carma_streets.Tests.OptRuns.{config, settings, group, proposed}

abbrev crossing : IntersectionInfo ℕ
crossing = record {
  entry_lanelets = lanelet 1 0 (2 ∷ []) ∷ lanelet 3 0 (4 ∷ []) ∷ [];
  link_lanelets = lanelet 2 5 [] ∷ lanelet 4 6 [] ∷ [];
}

abbrev shown : ℕ → MovementEvent → MovementState
shown sg e = record {
  movement_name = "";
  signal_group = sg;
  state_time_speed = e ∷ [];
  maneuver_assist_list = [];
}

abbrev states : List MovementState
states =
    shown 5 (record {
      event_state = protected_movement_allowed;
      timing = record unknown_times { start_time = 200; min_end_time = 300 };
      speeds = [];
    })
    ∷ shown 6 (record {
      event_state = stop_and_remain;
      timing = record unknown_times { start_time = 200; min_end_time = 300 };
      speeds = [];
    })
    ∷ []

abbrev waiting : VehicleMap ℕ
waiting = ("w", record (car "w" 250) { entry_lane_id = 3; link_id = 4 }) ∷ []

abbrev generator : Generator ℕ
generator = record {
  config = settings;
  is_configured = true;
  scheduler = none;
  signal_group_entry_lane_mapping = [];
}

abbrev request : Request ℕ
request = record {
  intersection_info = crossing;
  vehicles = waiting;
  states = states;
  groups = group 5 ∷ group 6 ∷ [];
  tsc_config = config;
}

generated :
    (generate_desire_phase_plan_list whole 10000 12000 generator request).1 ≡ ok (proposed ∷ [])
unfolding generate_desire_phase_plan_list carma_streets.SignalOpt.Generator.configured
    carma_streets.SignalOpt.Generator.configure_scheduler
    carma_streets.SignalOpt.Generator.scheduler_for
    carma_streets.SignalOpt.Generator.get_schedule_plan carma_streets.SignalOpt.Generator.queues
    carma_streets.SignalOpt.Generator.candidates_for carma_streets.SignalOpt.Generator.extend_base
    carma_streets.SignalOpt.Generator.generate_from
    carma_streets.SignalOpt.default_generator_configuration
    carma_streets.SignalOpt.BasePlan.partly_overlaps carma_streets.SignalOpt.BasePlan.green_of
    carma_streets.SignalOpt.BasePlan.same_times carma_streets.SignalOpt.BasePlan.paired_green
    carma_streets.SignalOpt.BasePlan.single_greens carma_streets.SignalOpt.BasePlan.paired_greens
    carma_streets.SignalOpt.BasePlan.movement_with_events
    carma_streets.SignalOpt.BasePlan.group_greens carma_streets.SignalOpt.BasePlan.all_group_greens
    carma_streets.SignalOpt.BasePlan.insert_green carma_streets.SignalOpt.BasePlan.order_greens
    carma_streets.SignalOpt.BasePlan.convert_spat_to_dpp
    carma_streets.SignalOpt.BasePlan.clearance_from
    carma_streets.SignalOpt.BasePlan.find_tbd_start_time
    carma_streets.SignalOpt.Queues.get_ev_schedules_within_so
    carma_streets.SignalOpt.Queues.schedules_in_lane
    carma_streets.SignalOpt.Queues.get_schedules_in_tbd_per_lane
    carma_streets.SignalOpt.Queues.is_gap carma_streets.SignalOpt.Queues.before_gap
    carma_streets.SignalOpt.Queues.get_last_vehicle_in_queue carma_streets.SignalOpt.Queues.round_up
    carma_streets.SignalOpt.Queues.end_for_queue carma_streets.SignalOpt.Queues.green_end
    carma_streets.SignalOpt.Queues.get_green_end_per_entry_lane
    carma_streets.SignalOpt.Candidates.has_signal_group
    carma_streets.SignalOpt.Candidates.verify_movement_group_list
    carma_streets.SignalOpt.Candidates.find_signal_group_for_entry_lane
    carma_streets.SignalOpt.Candidates.add_lane carma_streets.SignalOpt.Candidates.map_lanes
    carma_streets.SignalOpt.Candidates.create_signal_group_entry_lane_mapping
    carma_streets.SignalOpt.Candidates.can_be_added carma_streets.SignalOpt.Candidates.groups_of
    carma_streets.SignalOpt.Candidates.candidate carma_streets.SignalOpt.Candidates.lane_candidates
    carma_streets.SignalOpt.Candidates.group_candidates
    carma_streets.SignalOpt.Candidates.candidates_after
    carma_streets.SignalOpt.Candidates.candidate_list
    carma_streets.SignalOpt.Candidates.update_desired_phase_plan_list
    carma_streets.Spat.Intersection.find_movement carma_streets.Spat.Intersection.get_movement
    carma_streets.Plan.get_signal_group_configuration_by_sg
    carma_streets.Scheduler.get_entry_lanelet_info carma_streets.Scheduler.get_link_lanelet_info
    carma_streets.Scheduler.lanelet_from carma_streets.Scheduler.future_points
    carma_streets.Scheduler.elapsed carma_streets.Scheduler.is_discarded
    carma_streets.Scheduler.estimate_vehicle carma_streets.Scheduler.estimate_each
    carma_streets.Scheduler.vehicles_to_remove carma_streets.Scheduler.erase_vehicle
    carma_streets.Scheduler.erase_all carma_streets.Scheduler.estimate_vehicles_at_common_time
    carma_streets.Scheduler.distance_comparator carma_streets.Scheduler.et_comparator
    carma_streets.Scheduler.Motion.calculate_distance_accel_and_decel
    carma_streets.Scheduler.Motion.calculate_distance_accel_or_decel
    carma_streets.Scheduler.Motion.calculate_v_hat
    carma_streets.Scheduler.Motion.calculate_acceleration_time
    carma_streets.Scheduler.Motion.calculate_deceleration_time
    carma_streets.Scheduler.Motion.calculate_cruising_time
    carma_streets.Scheduler.Motion.calculate_min_headway
    carma_streets.Scheduler.Motion.calculate_earliest_entering_time
    carma_streets.Scheduler.Motion.estimate_clearance_time
    carma_streets.Scheduler.Signalized.group_of_links
    carma_streets.Scheduler.Signalized.state_with_group
    carma_streets.Scheduler.Signalized.first_available carma_streets.Scheduler.Signalized.is_before
    carma_streets.Scheduler.Signalized.preceding_from
    carma_streets.Scheduler.Signalized.vehicles_in_lane
    carma_streets.Scheduler.Signalized.first_lanelet
    carma_streets.Scheduler.Signalized.vehicles_in_state
    carma_streets.Scheduler.Signalized.find_movement_state_for_lane
    carma_streets.Scheduler.Signalized.entering_in_green carma_streets.Scheduler.Signalized.last_end
    carma_streets.Scheduler.Signalized.entering_time carma_streets.Scheduler.Signalized.estimate_et
    carma_streets.Scheduler.Signalized.schedule_lane
    carma_streets.Scheduler.Signalized.vehicle_lane_map
    carma_streets.Scheduler.Signalized.schedule_one_lane
    carma_streets.Scheduler.Signalized.schedule_lanes
    carma_streets.Scheduler.Signalized.schedule_evs carma_streets.Scheduler.Signalized.schedule_dv
    carma_streets.Scheduler.Signalized.schedule_dvs carma_streets.Scheduler.Signalized.run_schedules
    carma_streets.Scheduler.Signalized.schedule_vehicles
    carma_streets.Vehicles.VehicleList.find_vehicle carma_streets.Spat.Time.get_epoch_start_time
    carma_streets.Spat.Time.get_epoch_min_end_time
    carma_streets.Spat.Time.convert_hour_tenth_secs2epoch_ts carma_streets.Base.add64
    carma_streets.Base.sub64 carma_streets.Vehicles.new_vehicle
generated = refl

generate-Proposes_example : Proposes whole 10000 12000 generator request (proposed ∷ [])
generate-Proposes_example =
    generate-Proposes whole 10000 12000 generator request proposed [] generated

abbrev arbitration : Arbitration ℕ
arbitration = record {
  intersection_info = crossing;
  spat = some states;
  tsc_config = config;
  vehicles = some waiting;
  initial_green_buffer = 2000;
  final_green_buffer = 2000;
  so_radius = 1000;
}

selected :
    select_optimal_dpp whole whole 10000 12000 dark arbitration (λ ms. ms) (proposed ∷ [])
    ≡ ok (some proposed)
unfolding select_optimal_dpp carma_streets.SignalOpt.Arbitrator.delays
    carma_streets.SignalOpt.Arbitrator.calculate_delay_measure
    carma_streets.SignalOpt.Arbitrator.best_from carma_streets.SignalOpt.Arbitrator.plan_at
    carma_streets.SignalOpt.Arbitrator.identify_ddp_by_delay_measures
    carma_streets.SignalOpt.Arbitrator.calculate_vehicle_schedules
    carma_streets.SignalOpt.Arbitrator.measure_candidate
    carma_streets.SignalOpt.Arbitrator.delay_measures
    carma_streets.SignalOpt.default_generator_configuration
    carma_streets.SignalOpt.Queues.get_ev_schedules_within_so
    carma_streets.SignalOpt.Queues.schedules_in_lane
    carma_streets.SignalOpt.Queues.get_schedules_in_tbd_per_lane
    carma_streets.SignalOpt.Queues.is_gap carma_streets.SignalOpt.Queues.before_gap
    carma_streets.SignalOpt.Queues.get_last_vehicle_in_queue carma_streets.SignalOpt.Queues.round_up
    carma_streets.SignalOpt.Queues.end_for_queue carma_streets.SignalOpt.Queues.green_end
    carma_streets.SignalOpt.Queues.get_green_end_per_entry_lane
    carma_streets.Spat.Intersection.find_movement carma_streets.Spat.Intersection.get_movement
    carma_streets.Plan.get_signal_group_configuration_by_sg
    carma_streets.Scheduler.get_entry_lanelet_info carma_streets.Scheduler.get_link_lanelet_info
    carma_streets.Scheduler.lanelet_from carma_streets.Scheduler.future_points
    carma_streets.Scheduler.elapsed carma_streets.Scheduler.is_discarded
    carma_streets.Scheduler.estimate_vehicle carma_streets.Scheduler.estimate_each
    carma_streets.Scheduler.vehicles_to_remove carma_streets.Scheduler.erase_vehicle
    carma_streets.Scheduler.erase_all carma_streets.Scheduler.estimate_vehicles_at_common_time
    carma_streets.Scheduler.distance_comparator carma_streets.Scheduler.et_comparator
    carma_streets.Scheduler.Motion.calculate_distance_accel_and_decel
    carma_streets.Scheduler.Motion.calculate_distance_accel_or_decel
    carma_streets.Scheduler.Motion.calculate_v_hat
    carma_streets.Scheduler.Motion.calculate_acceleration_time
    carma_streets.Scheduler.Motion.calculate_deceleration_time
    carma_streets.Scheduler.Motion.calculate_cruising_time
    carma_streets.Scheduler.Motion.calculate_min_headway
    carma_streets.Scheduler.Motion.calculate_earliest_entering_time
    carma_streets.Scheduler.Motion.estimate_clearance_time
    carma_streets.Scheduler.Signalized.group_of_links
    carma_streets.Scheduler.Signalized.state_with_group
    carma_streets.Scheduler.Signalized.first_available carma_streets.Scheduler.Signalized.is_before
    carma_streets.Scheduler.Signalized.preceding_from
    carma_streets.Scheduler.Signalized.vehicles_in_lane
    carma_streets.Scheduler.Signalized.first_lanelet
    carma_streets.Scheduler.Signalized.vehicles_in_state
    carma_streets.Scheduler.Signalized.find_movement_state_for_lane
    carma_streets.Scheduler.Signalized.entering_in_green carma_streets.Scheduler.Signalized.last_end
    carma_streets.Scheduler.Signalized.entering_time carma_streets.Scheduler.Signalized.estimate_et
    carma_streets.Scheduler.Signalized.schedule_lane
    carma_streets.Scheduler.Signalized.vehicle_lane_map
    carma_streets.Scheduler.Signalized.schedule_one_lane
    carma_streets.Scheduler.Signalized.schedule_lanes
    carma_streets.Scheduler.Signalized.schedule_evs carma_streets.Scheduler.Signalized.schedule_dv
    carma_streets.Scheduler.Signalized.schedule_dvs carma_streets.Scheduler.Signalized.run_schedules
    carma_streets.Scheduler.Signalized.schedule_vehicles
    carma_streets.Vehicles.VehicleList.find_vehicle carma_streets.Spat.Time.get_epoch_start_time
    carma_streets.Spat.Time.get_epoch_min_end_time
    carma_streets.Spat.Time.convert_hour_tenth_secs2epoch_ts carma_streets.Base.add64
    carma_streets.Base.sub64 carma_streets.Vehicles.new_vehicle
    carma_streets.Spat.Projection.yellow_of carma_streets.Spat.Projection.red_of
    carma_streets.Spat.Projection.max_clearance_from
    carma_streets.Spat.Projection.find_max_desired_yellow_duration_red_clearance_pair
    carma_streets.Spat.Projection.populate_movement_event carma_streets.Spat.Projection.end_at
    carma_streets.Spat.Projection.green_yellow_red carma_streets.Spat.Projection.end_last_at
    carma_streets.Spat.Projection.desired_yellow carma_streets.Spat.Projection.desired_red
    carma_streets.Spat.Projection.clearance_end carma_streets.Spat.Projection.first_green_events
    carma_streets.Spat.Projection.process_first_desired_green
    carma_streets.Spat.Projection.next_green_events
    carma_streets.Spat.Projection.process_second_onward_desired_green
    carma_streets.Spat.Projection.process_movements carma_streets.Spat.Projection.process_entry
    carma_streets.Spat.Projection.process_onward carma_streets.Spat.Projection.process_plan
    carma_streets.Spat.Projection.update_spat_with_candidate_dpp
    carma_streets.Spat.Intersection.replace_movement carma_streets.Spat.Intersection.current_event
    carma_streets.Spat.Intersection.current_only carma_streets.Spat.Intersection.clear_movement
    carma_streets.Spat.Intersection.clear_future_movement_events
    carma_streets.Spat.Time.set_start_time carma_streets.Spat.Time.set_min_end_time
    carma_streets.Spat.Time.set_max_end_time carma_streets.Spat.Time.set_next_time
    carma_streets.Spat.Time.convert_msepoch_to_hour_tenth_secs carma_streets.Scheduler.get_delay
selected = refl

ltb_IsOrder : IsOrder whole
ltb_IsOrder = (λ x. ground arith, λ x y z h k. ground arith)

select_optimal_dpp-Greatest_example :
    Greatest whole whole 10000 12000 dark arbitration states waiting proposed [] (some proposed)
select_optimal_dpp-Greatest_example =
    select_optimal_dpp-Greatest whole whole 10000 12000 dark arbitration states waiting (λ ms. ms)
      proposed [] (some proposed) ltb_IsOrder (λ ms. Permᴰ.refl ms) refl refl selected
