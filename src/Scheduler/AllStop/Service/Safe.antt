-- ===== src/Scheduler/AllStop/Service/Safe.antt =====
-- all_stop_vehicle_scheduler.cpp, schedule_vehicles: what holds of the schedule after any call.
use mathlib.Core.List.{append_assoc, append-nil}
use carma_streets.Base.{
  ℕ, ◌+◌, ◌≡◌, refl, sym, ◌∙◌, inl, inr, List, [], ◌∷◌, ◌++◌, length, length-append, All, none,
  some, Option-cases, Outcome, Outcome-cases, done, thrown, final, arith,
}
use carma_streets.Double.{Double}
use carma_streets.Vehicles.{Vehicle}
use carma_streets.Vehicles.VehicleList.{VehicleMap}
use carma_streets.Scheduler.{IntersectionInfo, estimate_vehicles_at_common_time}
use carma_streets.Scheduler.AllStop.{AllStopSchedule, AllStopScheduler}
use carma_streets.Scheduler.AllStop.Conflicts.{Clear, Clear-append}
use carma_streets.Scheduler.AllStop.Departing.{schedule_dvs}
use carma_streets.Scheduler.AllStop.Positions.{Numbered, Numbered-append}
use carma_streets.Scheduler.AllStop.Queues.{schedule_evs}
use carma_streets.Scheduler.AllStop.Service.{
  Groups, group_vehicles, run_dvs, run_rdvs, run_evs, run_groups, schedule_vehicles,
}
use carma_streets.Scheduler.AllStop.Service.Grouped.{MayDepart, IsIn, dvs-MayDepart}
use carma_streets.Scheduler.AllStop.Service.Parts.{
  Continues, Departs, schedule_dvs-Departs, schedule_rdvs-Continues, schedule_evs-Continues,
}

module _ {F : Type 0} where
  -- Positions count from 1. The first part is of vehicles of the map that depart, or are ready and were
  -- granted access before; all in it have access. Of the rest nobody enters before the conflicting
  -- vehicles that stand before have departed, and nobody has access with one of them before.
  abbrev pub IsSafe :
      IntersectionInfo F → VehicleMap F → List (Vehicle F) → List AllStopSchedule → Type 0
  IsSafe info m granted out =
      (departed rest : List AllStopSchedule) × (out ≡ departed ++ rest)
      × Numbered 1 out
      × All (Departs (λ v. MayDepart granted v × IsIn m v)) departed
      × Clear info departed rest

  Continues-refl : (info : IntersectionInfo F) (xs : List AllStopSchedule) → Continues info xs xs
  Continues-refl info xs = ([], sym (append-nil xs), tt, tt)

  Continues-Numbered :
      (info : IntersectionInfo F) (xs ys : List AllStopSchedule)
      → Numbered 1 xs
      → Continues info xs ys
      → Numbered 1 ys
  Continues-Numbered info xs ys h (new, same, numbered, clear) =
      rw same (Numbered-append 1 xs new h numbered)

  Continues-trans :
      (info : IntersectionInfo F) (xs ys zs : List AllStopSchedule)
      → Continues info xs ys
      → Continues info ys zs
      → Continues info xs zs
  Continues-trans info xs ys zs (us, same, numbered, clear) (ws, same₂, numbered₂, clear₂) =
      let longer : 1 + length ys ≡ (1 + length xs) + length us =
        rw same (omega (arith, length-append xs us)) in
      (
        us ++ ws,
        same₂ ∙ (rw same (append_assoc xs us ws)),
        Numbered-append (1 + length xs) us ws numbered (rw longer at numbered₂),
        Clear-append info xs us ws clear (rw same at clear₂),
      )

  Continues-IsSafe :
      (info : IntersectionInfo F) (m : VehicleMap F) (granted : List (Vehicle F))
      (departed out : List AllStopSchedule)
      → Numbered 1 departed
      → All (Departs (λ v. MayDepart granted v × IsIn m v)) departed
      → Continues info departed out
      → IsSafe info m granted out
  Continues-IsSafe info m granted departed out h k c =
      (departed, c.0, c.1, Continues-Numbered info departed out h c, k, c.3)

module _ {F : Type 0} (d : Double F) (scheduler : AllStopScheduler F) (timestamp : ℕ) where
  open scheduler use {intersection_info}

  run_dvs-Departs :
      (P : Vehicle F → Type 0) (dvs granted : List (Vehicle F))
      → All P dvs
      → let out = (final (run_dvs d scheduler timestamp dvs (granted, []))).1 in
        Numbered 1 out × All (Departs P) out
  unfolding run_dvs
  run_dvs-Departs P [] granted all = (tt, tt)
  run_dvs-Departs P (v ∷ vs) granted all =
      let sound = schedule_dvs-Departs d intersection_info timestamp granted P (v ∷ vs) all in
      elim (Outcome-cases (schedule_dvs d intersection_info timestamp granted (v ∷ vs) [])) [
        | inl (out, made) ↦ rw (made, run_dvs) (rw made at sound)
        | inr (x, out, made) ↦ rw (made, run_dvs) (rw made at sound)
      ]

  run_rdvs-Continues :
      (rdvs : List (Vehicle F)) (state : List (Vehicle F) × List AllStopSchedule)
      (o : Outcome (List (Vehicle F) × List AllStopSchedule))
      → Numbered 1 state.1
      → run_rdvs d scheduler timestamp rdvs state ≡ some o
      → Continues intersection_info state.1 (final o).1
  unfolding run_rdvs
  run_rdvs-Continues [] state o numbered h =
      let eq : done state ≡ o = cc h in rw (← eq) (Continues-refl intersection_info state.1)
  run_rdvs-Continues (v ∷ vs) state o numbered h =
      schedule_rdvs-Continues d scheduler timestamp (v ∷ vs) state.0 state.1 o numbered h

  run_evs-Continues :
      (evs : List (Vehicle F)) (state : List (Vehicle F) × List AllStopSchedule)
      (o : Outcome (List (Vehicle F) × List AllStopSchedule))
      → Numbered 1 state.1
      → run_evs d scheduler timestamp evs state ≡ some o
      → Continues intersection_info state.1 (final o).1
  unfolding run_evs
  run_evs-Continues [] state o numbered h =
      let eq : done state ≡ o = cc h in rw (← eq) (Continues-refl intersection_info state.1)
  run_evs-Continues (v ∷ vs) (granted, schedules) o numbered h =
      elim (Option-cases (schedule_evs d scheduler timestamp (v ∷ vs) schedules)) [
        | inl endless ↦ let bad : none ≡ some o = rw (endless, run_evs) at h in cc bad
        | inr (done out, made) ↦
            let same : some (done (granted, out)) ≡ some o = rw (made, run_evs) at h in
            let eq : done (granted, out) ≡ o = cc same in
            rw (← eq) (
              schedule_evs-Continues d scheduler timestamp (v ∷ vs) schedules (done out) numbered
                made)
        | inr (thrown x out, made) ↦
            let same : some (thrown x (granted, out)) ≡ some o = rw (made, run_evs) at h in
            let eq : thrown x (granted, out) ≡ o = cc same in
            rw (← eq) (
              schedule_evs-Continues d scheduler timestamp (v ∷ vs) schedules (thrown x out)
                numbered made)
      ]

  run_groups-IsSafe :
      (m : VehicleMap F) (granted : List (Vehicle F)) (groups : Groups F) (now : List (Vehicle F))
      (o : Outcome (List (Vehicle F) × List AllStopSchedule))
      → All (λ v. MayDepart granted v × IsIn m v) groups.dvs
      → run_groups d scheduler timestamp groups (now, []) ≡ some o
      → IsSafe intersection_info m granted (final o).1
  unfolding run_groups
  run_groups-IsSafe m granted groups now o all h =
      let departing = run_dvs-Departs (λ v. MayDepart granted v × IsIn m v) groups.dvs now all in
      elim (Outcome-cases (run_dvs d scheduler timestamp groups.dvs (now, []))) [
        | inr (x, departed, made) ↦
            let same : some (thrown x departed) ≡ some o = rw (made, run_groups) at h in
            let eq : thrown x departed ≡ o = cc same in
            let first = rw made at departing in
            rw (← eq) (
              Continues-IsSafe intersection_info m granted departed.1 departed.1 first.0 first.1
                (Continues-refl intersection_info departed.1))
        | inl (departed, made) ↦
            let first = rw made at departing in
            elim (Option-cases (run_rdvs d scheduler timestamp groups.rdvs departed)) [
              | inl endless ↦
                  let bad : none ≡ some o = rw (made, endless, run_groups) at h in cc bad
              | inr (thrown x stopped, waiting) ↦
                  let same : some (thrown x stopped) ≡ some o =
                    rw (made, waiting, run_groups) at h in
                  let eq : thrown x stopped ≡ o = cc same in
                  rw (← eq) (
                    Continues-IsSafe intersection_info m granted departed.1 stopped.1 first.0
                      first.1
                      (run_rdvs-Continues groups.rdvs departed (thrown x stopped) first.0 waiting))
              | inr (done stopped, waiting) ↦
                  let second =
                    run_rdvs-Continues groups.rdvs departed (done stopped) first.0 waiting in
                  let third =
                    run_evs-Continues groups.evs stopped o
                      (Continues-Numbered intersection_info departed.1 stopped.1 first.0 second)
                      (rw (made, waiting, run_groups) at h) in
                  Continues-IsSafe intersection_info m granted departed.1 (final o).1 first.0
                    first.1
                    (Continues-trans intersection_info departed.1 stopped.1 (final o).1 second
                      third)
            ]
      ]

  -- After any call of schedule_vehicles that started with an empty schedule, whether an exception ended
  -- it or not, the positions count from 1. A first part of the schedule is of vehicles of the list, moved
  -- to the common time, that are departing, or ready and on the list of those that were granted access
  -- before the call; all in it have access. Of the others nobody enters before the conflicting vehicles
  -- that stand before have departed, and nobody has access with a conflicting vehicle before.
  pub schedule_vehicles-IsSafe :
      (m : VehicleMap F) (granted : List (Vehicle F))
      (out : List (Vehicle F) × List AllStopSchedule)
      → schedule_vehicles d scheduler timestamp m (granted, []) ≡ some out
      → IsSafe intersection_info (estimate_vehicles_at_common_time d timestamp m) granted out.1
  unfolding schedule_vehicles
  schedule_vehicles-IsSafe [] granted out h =
      let eq : (granted, []) ≡ out = cc h in rw (← eq) ([], [], refl, tt, tt, tt)
  schedule_vehicles-IsSafe (e ∷ m) granted out h =
      let estimated = estimate_vehicles_at_common_time d timestamp (e ∷ m) in
      let grouped = group_vehicles estimated (record { dvs = []; rdvs = []; evs = [] }, granted) in
      elim (Option-cases (run_groups d scheduler timestamp grouped.0 (grouped.1, []))) [
        | inl endless ↦ let bad : none ≡ some out = rw (endless, schedule_vehicles) at h in cc bad
        | inr (o, made) ↦
            let same : some (final o) ≡ some out = rw (made, schedule_vehicles) at h in
            let eq : final o ≡ out = cc same in
            rw (← eq) (
              run_groups-IsSafe estimated granted grouped.0 grouped.1 o
                (dvs-MayDepart estimated granted) made)
      ]
