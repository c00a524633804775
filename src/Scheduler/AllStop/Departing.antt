-- ===== src/Scheduler/AllStop/Departing.antt =====
-- all_stop_vehicle_scheduler.cpp, schedule_dvs, and the order of departure positions (vehicle_sorting.cpp).
-- `granted` is the list of vehicles that were granted access before.
use carma_streets.Base.{
  ℕ, suc, ltb, List, [], ◌∷◌, ◌++◌, Bool, true, if◌then◌else◌, add64, sort, Result, ok, err, ◌>>=◌,
  Outcome, done, thrown,
}
use carma_streets.Double.{Double}
use carma_streets.Vehicles.{Vehicle}
use carma_streets.Scheduler.{LaneletInfo, IntersectionInfo, get_link_lanelet_info}
use carma_streets.Scheduler.AllStop.{
  AllStopSchedule, is_rdv_previously_granted_access, estimate_clearance_time,
}

module _ {F : Type 0} where
  -- The member counts from -1 on: it is below 1 where the field is below 2. A position below 1 is
  -- compared with any other the other way round.
  unfoldable pub departure_position_comparator : Vehicle F → Vehicle F → Bool
  departure_position_comparator a b =
      if ltb a.departure_position 2
      then ltb b.departure_position a.departure_position
      else ltb a.departure_position b.departure_position

  module _ (d : Double F) (info : IntersectionInfo F) (timestamp : ℕ)
      (granted : List (Vehicle F)) where
    unfoldable pub departing_schedule : ℕ → Vehicle F → LaneletInfo F → AllStopSchedule
    departing_schedule position v link = record {
      v_id = v.id;
      entry_lane = v.entry_lane_id;
      link_id = v.link_id;
      est = v.actual_st;
      st = v.actual_st;
      et = if is_rdv_previously_granted_access granted v then timestamp else v.actual_et;
      dt = add64 timestamp (estimate_clearance_time d v link);
      dp = position;
      access = true;
      state = v.cur_state;
    }

    unfoldable pub schedule_departing : ℕ → Vehicle F → Result AllStopSchedule
    schedule_departing position v = do
      link ← get_link_lanelet_info info v
      ok (departing_schedule position v link)

    unfoldable pub schedule_each_departing :
        ℕ → List (Vehicle F) → List AllStopSchedule → Outcome (List AllStopSchedule)
    schedule_each_departing position [] schedules = done schedules
    schedule_each_departing position (v ∷ vs) schedules =
        let rest = λ (s : AllStopSchedule).
          schedule_each_departing (suc position) vs (schedules ++ s ∷ []) in
        elim (schedule_departing position v) [ ok s ↦ rest s | err x ↦ thrown x schedules ]

    -- From position 1 on, in the order of the positions that the vehicles had.
    unfoldable pub schedule_dvs :
        List (Vehicle F) → List AllStopSchedule → Outcome (List AllStopSchedule)
    schedule_dvs dvs schedules =
        schedule_each_departing 1 (sort departure_position_comparator dvs) schedules
