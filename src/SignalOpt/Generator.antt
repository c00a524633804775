-- ===== src/SignalOpt/Generator.antt =====
-- streets_desired_phase_plan_generator.cpp, generate_desire_phase_plan_list: the candidates for the
-- vehicles at hand. `system_now` is the reading of the system's clock, `now` that of the time marks.
use carma_streets.Base.{
  ℕ, ltb, List, [], ◌∷◌, Bool, true, if◌then◌else◌, length, Option, none, some, Result, ok, err,
  ◌>>=◌, empty_base_plan,
}
use carma_streets.Double.{Double}
use carma_streets.Plan.{GreenTiming, DesiredPhasePlan, TscConfiguration, is_empty}
use carma_streets.Vehicles.VehicleList.{VehicleMap}
use carma_streets.Spat.Movement.{MovementState}
use carma_streets.Scheduler.{IntersectionInfo, VehicleSchedule, estimate_vehicles_at_common_time}
use carma_streets.Scheduler.Signalized.{SignalizedScheduler, schedule_vehicles}
use carma_streets.SignalOpt.{MovementGroup, Configuration, default_generator_configuration}
use carma_streets.SignalOpt.BasePlan.{convert_spat_to_dpp, find_tbd_start_time}
use carma_streets.SignalOpt.Queues.{
  get_ev_schedules_within_so, get_schedules_in_tbd_per_lane, get_green_end_per_entry_lane,
}
use carma_streets.SignalOpt.Candidates.{
  LaneMap, verify_movement_group_list, update_desired_phase_plan_list,
}
pub mod Runs

-- The members; `scheduler` is the scheduler's pointer, whose SPaT is set in every call.
pub record Generator (F : Type 0) : Type 0 where
  pub config : Configuration F
  pub is_configured : Bool
  pub scheduler : Option (SignalizedScheduler F)
  pub signal_group_entry_lane_mapping : LaneMap

unfoldable pub configured : {F : Type 0} → Double F → Generator F → Generator F
configured d g =
    if g.is_configured
    then g
    else record g { config = default_generator_configuration d; is_configured = true }

-- What a call is given.
pub record Request (F : Type 0) : Type 0 where
  pub intersection_info : IntersectionInfo F
  pub vehicles : VehicleMap F
  pub states : List MovementState
  pub groups : List MovementGroup
  pub tsc_config : TscConfiguration

unfoldable pub configure_scheduler :
    {F : Type 0} → Configuration F → Request F → SignalizedScheduler F
configure_scheduler config r = record {
  intersection_info = r.intersection_info;
  spat = none;
  initial_green_buffer = config.initial_green_buffer;
  final_green_buffer = config.final_green_buffer;
}

unfoldable pub scheduler_for : {F : Type 0} → Generator F → Request F → SignalizedScheduler F
scheduler_for g r = elim g.scheduler [
  | none ↦ record (configure_scheduler g.config r) { spat = some r.states }
  | some s ↦ record s { spat = some r.states }
]

module _ {F : Type 0} (d : Double F) (system_now now : ℕ) where
  unfoldable pub get_schedule_plan : SignalizedScheduler F → VehicleMap F → List VehicleSchedule
  get_schedule_plan scheduler vehicles = schedule_vehicles d now scheduler system_now vehicles []

  -- The schedules of the queues, once the vehicles are scheduled, which moves them to the common time.
  unfoldable pub queues :
      Generator F → Request F → ℕ → List VehicleSchedule → Result (List (ℕ × List VehicleSchedule))
  queues g r tbd_start schedules =
      get_ev_schedules_within_so d g.config.so_radius
        (estimate_vehicles_at_common_time d system_now r.vehicles) schedules
      >>= λ evs.
          ok (get_schedules_in_tbd_per_lane tbd_start evs r.intersection_info.entry_lanelets [])

  -- The list stays empty if no lane gets a green.
  unfoldable pub candidates_for :
      Generator F
      → Request F
      → DesiredPhasePlan
      → ℕ
      → List (ℕ × List VehicleSchedule)
      → Generator F × Result (List DesiredPhasePlan)
  candidates_for g r base tbd_start lanes =
      let ends = get_green_end_per_entry_lane d g.config tbd_start lanes in
      let updated =
        update_desired_phase_plan_list tbd_start ends base r.intersection_info
          g.signal_group_entry_lane_mapping r.groups in
      if is_empty ends
      then (g, ok [])
      else (record g { signal_group_entry_lane_mapping = updated.0 }, updated.1)

  -- From the start of the time that is to be decided on.
  unfoldable pub extend_base :
      Generator F → Request F → DesiredPhasePlan → ℕ → Generator F × Result (List DesiredPhasePlan)
  extend_base g r base tbd_start =
      let scheduler = scheduler_for g r in
      let ready = record g { scheduler = some scheduler } in
      if is_empty r.vehicles
      then (g, ok [])
      else (elim (queues ready r tbd_start (get_schedule_plan scheduler r.vehicles)) [
        | err x ↦ (ready, err x)
        | ok lanes ↦ candidates_for ready r base tbd_start lanes
      ])

  unfoldable pub generate_from :
      Generator F → Request F → DesiredPhasePlan → Generator F × Result (List DesiredPhasePlan)
  generate_from g r base =
      if is_empty base.desired_phase_plan
      then (g, err empty_base_plan)
      else if ltb g.config.desired_future_move_group_count (length base.desired_phase_plan)
      then (g, ok [])
      else (elim (find_tbd_start_time r.tsc_config base.desired_phase_plan) [
        | err x ↦ (g, err x)
        | ok tbd_start ↦ extend_base g r base tbd_start
      ])

  -- The members after the call, and the list or the exception.
  unfoldable pub generate_desire_phase_plan_list :
      Generator F → Request F → Generator F × Result (List DesiredPhasePlan)
  generate_desire_phase_plan_list g r =
      elim (verify_movement_group_list r.intersection_info.link_lanelets r.groups) [
        | err x ↦ (g, err x)
        | ok _ ↦ elim (convert_spat_to_dpp system_now now r.states r.groups) [
          | err x ↦ (configured d g, err x)
          | ok base ↦ generate_from (configured d g) r base
        ]
      ]
