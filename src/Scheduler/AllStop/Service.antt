-- ===== src/Scheduler/AllStop/Service.antt =====
-- all_stop_vehicle_scheduler.cpp: schedule_vehicles. The state is the list of the vehicles that were
-- granted access, a member, and the schedules of the intersection schedule.
use carma_streets.Base.{
  ℕ, List, [], ◌∷◌, ◌++◌, Bool, true, false, if◌then◌else◌, Option, none, some, Outcome, done,
  thrown, final,
}
use carma_streets.Double.{Double}
use carma_streets.Plan.{is_empty}
use carma_streets.Vehicles.{Vehicle, VehicleState, entering, ready, departing, leaving, not_defined}
use carma_streets.Vehicles.VehicleList.{VehicleMap}
use carma_streets.Scheduler.{IntersectionInfo, estimate_vehicles_at_common_time}
use carma_streets.Scheduler.AllStop.{
  AllStopSchedule, AllStopScheduler, is_rdv_previously_granted_access,
  remove_rdv_previously_granted_access,
}
use carma_streets.Scheduler.AllStop.Departing.{schedule_dvs}
use carma_streets.Scheduler.AllStop.Queues.{schedule_evs}
use carma_streets.Scheduler.AllStop.Ready.{schedule_rdvs}
pub mod Ends
pub mod Grouped
pub mod Parts
pub mod Safe

-- The three lists that the vehicles are put into.
pub record Groups (F : Type 0) : Type 0 where
  pub dvs : List (Vehicle F)
  pub rdvs : List (Vehicle F)
  pub evs : List (Vehicle F)

module _ {F : Type 0} where
  -- A departing vehicle has confirmed its access, and is forgotten; a ready one that was granted access
  -- departs.
  unfoldable pub group_as :
      VehicleState → Vehicle F → Groups F × List (Vehicle F) → Groups F × List (Vehicle F)
  group_as departing v (groups, granted) = (
    record groups { dvs = groups.dvs ++ v ∷ [] },
    if is_rdv_previously_granted_access granted v
        then remove_rdv_previously_granted_access v granted
        else granted,
  )
  group_as ready v (groups, granted) = (
    if is_rdv_previously_granted_access granted v
        then record groups { dvs = groups.dvs ++ v ∷ [] }
        else record groups { rdvs = groups.rdvs ++ v ∷ [] },
    granted,
  )
  group_as entering v (groups, granted) = (record groups { evs = groups.evs ++ v ∷ [] }, granted)
  group_as leaving v (groups, granted) = (groups, granted)
  group_as not_defined v (groups, granted) = (groups, granted)

  unfoldable pub group_vehicle :
      Vehicle F → Groups F × List (Vehicle F) → Groups F × List (Vehicle F)
  group_vehicle v state = group_as v.cur_state v state

  unfoldable pub group_vehicles :
      VehicleMap F → Groups F × List (Vehicle F) → Groups F × List (Vehicle F)
  group_vehicles [] state = state
  group_vehicles ((id, v) ∷ m) state = group_vehicles m (group_vehicle v state)

module _ {F : Type 0} (d : Double F) (scheduler : AllStopScheduler F) (timestamp : ℕ) where
  open scheduler use {intersection_info}

  unfoldable pub run_dvs :
      List (Vehicle F)
      → List (Vehicle F) × List AllStopSchedule
      → Outcome (List (Vehicle F) × List AllStopSchedule)
  run_dvs dvs (granted, schedules) =
      if is_empty dvs
      then done (granted, schedules)
      else elim (schedule_dvs d intersection_info timestamp granted dvs schedules) [
        | done out ↦ done (granted, out)
        | thrown x out ↦ thrown x (granted, out)
      ]

  unfoldable pub run_rdvs :
      List (Vehicle F)
      → List (Vehicle F) × List AllStopSchedule
      → Option (Outcome (List (Vehicle F) × List AllStopSchedule))
  run_rdvs rdvs state =
      if is_empty rdvs then some (done state) else schedule_rdvs d scheduler timestamp rdvs state

  unfoldable pub run_evs :
      List (Vehicle F)
      → List (Vehicle F) × List AllStopSchedule
      → Option (Outcome (List (Vehicle F) × List AllStopSchedule))
  run_evs evs (granted, schedules) =
      if is_empty evs
      then some (done (granted, schedules))
      else elim (schedule_evs d scheduler timestamp evs schedules) [
        | none ↦ none
        | some (done out) ↦ some (done (granted, out))
        | some (thrown x out) ↦ some (thrown x (granted, out))
      ]

  -- What stands in the `try` block.
  unfoldable pub run_groups :
      Groups F
      → List (Vehicle F) × List AllStopSchedule
      → Option (Outcome (List (Vehicle F) × List AllStopSchedule))
  run_groups groups state = elim (run_dvs groups.dvs state) [
    | thrown x out ↦ some (thrown x out)
    | done departed ↦ elim (run_rdvs groups.rdvs departed) [
      | none ↦ none
      | some (thrown x out) ↦ some (thrown x out)
      | some (done stopped) ↦ run_evs groups.evs stopped
    ]
  ]

  -- None only if a loop ran out of fuel. An exception ends the call with the state as it is.
  unfoldable pub schedule_vehicles :
      VehicleMap F
      → List (Vehicle F) × List AllStopSchedule
      → Option (List (Vehicle F) × List AllStopSchedule)
  schedule_vehicles m (granted, schedules) =
      if is_empty m
      then some (granted, schedules)
      else let grouped =
          group_vehicles (estimate_vehicles_at_common_time d timestamp m)
            (record { dvs = []; rdvs = []; evs = [] }, granted) in
        elim (run_groups grouped.0 (grouped.1, schedules)) [ none ↦ none | some o ↦ some (final o) ]
