-- ===== src/Scheduler/AllStop/Service/Ends.antt =====
-- all_stop_vehicle_scheduler.cpp, schedule_vehicles: that every call ends.
use carma_streets.Base.{
  ℕ, ◌≡◌, ◌≢◌, refl, inl, inr, List, [], ◌∷◌, none, some, Option-cases, Outcome-cases, done, thrown,
  final,
}
use carma_streets.Double.{Double}
use carma_streets.Vehicles.{Vehicle}
use carma_streets.Vehicles.VehicleList.{VehicleMap}
use carma_streets.Scheduler.{estimate_vehicles_at_common_time}
use carma_streets.Scheduler.AllStop.{AllStopSchedule, AllStopScheduler}
use carma_streets.Scheduler.AllStop.Queues.{schedule_evs}
use carma_streets.Scheduler.AllStop.Queues.Rounds.{schedule_evs_total}
use carma_streets.Scheduler.AllStop.Ready.Granted.{schedule_rdvs_total}
use carma_streets.Scheduler.AllStop.Service.{
  Groups, group_vehicles, run_dvs, run_rdvs, run_evs, run_groups, schedule_vehicles,
}

module _ {F : Type 0} (d : Double F) (scheduler : AllStopScheduler F) (timestamp : ℕ) where
  run_rdvs_total :
      (rdvs : List (Vehicle F)) (s : List (Vehicle F) × List AllStopSchedule)
      → run_rdvs d scheduler timestamp rdvs s ≢ none
  unfolding run_rdvs
  run_rdvs_total [] s k = cc k
  run_rdvs_total (v ∷ vs) s k = schedule_rdvs_total d scheduler timestamp (v ∷ vs) s k

  run_evs_total :
      (evs : List (Vehicle F)) (s : List (Vehicle F) × List AllStopSchedule)
      → run_evs d scheduler timestamp evs s ≢ none
  unfolding run_evs
  run_evs_total [] s k = cc k
  run_evs_total (v ∷ vs) (granted, schedules) k =
      elim (Option-cases (schedule_evs d scheduler timestamp (v ∷ vs) schedules)) [
        | inl endless ↦ schedule_evs_total d scheduler timestamp (v ∷ vs) schedules endless
        | inr (done out, made) ↦
            let bad : some (done (granted, out)) ≡ none = rw (made, run_evs) at k in cc bad
        | inr (thrown x out, made) ↦
            let bad : some (thrown x (granted, out)) ≡ none = rw (made, run_evs) at k in cc bad
      ]

  run_groups_total :
      (groups : Groups F) (state : List (Vehicle F) × List AllStopSchedule)
      → run_groups d scheduler timestamp groups state ≢ none
  unfolding run_groups
  run_groups_total groups state h =
      elim (Outcome-cases (run_dvs d scheduler timestamp groups.dvs state)) [
        | inr (x, departed, made) ↦
            let bad : some (thrown x departed) ≡ none = rw (made, run_groups) at h in cc bad
        | inl (departed, made) ↦
            elim (Option-cases (run_rdvs d scheduler timestamp groups.rdvs departed)) [
              | inl endless ↦ elim (run_rdvs_total groups.rdvs departed endless) [ ]
              | inr (thrown x stopped, waiting) ↦
                  let bad : some (thrown x stopped) ≡ none = rw (made, waiting, run_groups) at h in
                  cc bad
              | inr (done stopped, waiting) ↦
                  elim (run_evs_total groups.evs stopped (rw (made, waiting, run_groups) at h)) [ ]
            ]
      ]

  -- Every call of schedule_vehicles ends: the fuel of the loops over permutations and lanes suffices.
  pub schedule_vehicles_total :
      (m : VehicleMap F) (state : List (Vehicle F) × List AllStopSchedule)
      → (out : List (Vehicle F) × List AllStopSchedule) × (schedule_vehicles d scheduler timestamp m
            state
          ≡ some out)
  unfolding schedule_vehicles
  schedule_vehicles_total [] state = (state, refl)
  schedule_vehicles_total (e ∷ m) (granted, schedules) =
      let grouped =
        group_vehicles (estimate_vehicles_at_common_time d timestamp (e ∷ m))
          (record { dvs = []; rdvs = []; evs = [] }, granted) in
      elim (Option-cases (run_groups d scheduler timestamp grouped.0 (grouped.1, schedules))) [
        | inl endless ↦ elim (run_groups_total grouped.0 (grouped.1, schedules) endless) [ ]
        | inr (o, made) ↦ rw (made, schedule_vehicles) (final o, refl)
      ]
