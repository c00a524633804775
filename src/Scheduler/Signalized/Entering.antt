-- ===== src/Scheduler/Signalized/Entering.antt =====
-- The claims about estimate_et of signalized_vehicle_scheduler.cpp.
use Prim.Native.Nat.{max}
use carma_streets.Base.{
  ℕ, ◌≡◌, ◌≤◌, ◌⊎◌, inl, inr, refl, Any, add64, Option, ok, err, arith, Option-cases, Result-cases,
}
use carma_streets.Double.{Double}
use carma_streets.Vehicles.{Vehicle}
use carma_streets.Spat.Movement.{MovementState}
use carma_streets.Scheduler.{LaneletInfo, VehicleSchedule, get_link_lanelet_info}
use carma_streets.Scheduler.Motion.{
  calculate_min_headway, calculate_earliest_entering_time, estimate_clearance_time,
}
use carma_streets.Scheduler.Signalized.{
  SignalizedScheduler, entering_schedule, entering_in_green, entering_time, first_available,
  last_end, estimate_et,
}
use carma_streets.Scheduler.Signalized.Greens.{
  IsAvailable, MayEnter, InOrder, first_available-IsAvailable, first_available-le,
  entering_in_green-MayEnter, entering_in_green-least,
}

module _ {F : Type 0} (d : Double F) (now : ℕ) (scheduler : SignalizedScheduler F) where
  open scheduler use {intersection_info, initial_green_buffer}

  -- What estimate_et found, when it returned.
  estimate_et-ok :
      (v : Vehicle F) (preceding : Option VehicleSchedule) (m : MovementState) (timestamp : ℕ)
      (link : LaneletInfo F) (s : VehicleSchedule)
      → get_link_lanelet_info intersection_info v ≡ ok link
      → estimate_et d now scheduler v preceding m timestamp ≡ ok s
      → (s.et
          ≡ entering_time d now scheduler
              (first_available timestamp (calculate_min_headway d v link.speed_limit) preceding)
              s.eet
              m.state_time_speed)
  unfolding estimate_et
  estimate_et-ok v preceding m timestamp link s found h =
      elim (Result-cases (calculate_earliest_entering_time d intersection_info v)) [
        | inr (x, bad) ↦ let no : err x ≡ ok s = rw (found, bad, estimate_et) at h in cc no
        | inl (eet, known) ↦ elim (Result-cases (estimate_clearance_time d intersection_info v)) [
          | inr (x, bad) ↦ let no : err x ≡ ok s = rw (found, known, bad, estimate_et) at h in cc no
          | inl (clearance, cleared) ↦
              let et =
                entering_time d now scheduler
                  (first_available timestamp (calculate_min_headway d v link.speed_limit) preceding)
                  eet m.state_time_speed in
              let yes : ok (entering_schedule v eet et clearance) ≡ ok s =
                rw (found, known, cleared, estimate_et) at h in
              let eq : entering_schedule v eet et clearance ≡ s = cc yes in rw (← eq) refl
        ]
      ]

  -- A vehicle that estimate_et schedules, its link lanelet found, does not enter before the schedule's
  -- timestamp, nor before its own earliest time, nor closer to the preceding vehicle than the minimum
  -- headway; and it enters between the buffers of a green event of its movement, or else not before the
  -- end of the last event and the initial buffer.
  pub estimate_et-IsAvailable :
      (v : Vehicle F) (preceding : Option VehicleSchedule) (m : MovementState) (timestamp : ℕ)
      (link : LaneletInfo F) (s : VehicleSchedule)
      → get_link_lanelet_info intersection_info v ≡ ok link
      → estimate_et d now scheduler v preceding m timestamp ≡ ok s
      → IsAvailable timestamp (calculate_min_headway d v link.speed_limit) preceding s.eet s.et
        × (Any (MayEnter d now scheduler s.et) m.state_time_speed
            ⊎ (add64 (last_end d now scheduler m.state_time_speed) initial_green_buffer ≤ s.et))
  unfolding entering_time
  estimate_et-IsAvailable v preceding m timestamp link s found h =
      let headway = calculate_min_headway d v link.speed_limit in
      let first = first_available timestamp headway preceding in
      let et = estimate_et-ok v preceding m timestamp link s found h in
      elim (Option-cases (entering_in_green d now scheduler first s.eet m.state_time_speed)) [
        | inl no_green ↦
            let late : s.et
                ≡ max first (
                    max s.eet
                      (add64 (last_end d now scheduler m.state_time_speed) initial_green_buffer)) =
              rw (no_green, entering_time) at et in
            (
              first_available-IsAvailable timestamp headway preceding s.eet s.et (omega arith)
                  (omega arith),
              inr (omega arith),
            )
        | inr (t, in_green) ↦
            let early : s.et ≡ t = rw (in_green, entering_time) at et in
            let ok_at =
              entering_in_green-MayEnter d now scheduler first s.eet m.state_time_speed t
                in_green in
            rw early (
              first_available-IsAvailable timestamp headway preceding s.eet t ok_at.0 ok_at.1,
              inl ok_at.2,
            )
      ]

  -- The entering time that estimate_et gives, the vehicle's link lanelet found and the events in order,
  -- is the least: the vehicle does not enter later than at any time that is available to it and lies
  -- between the buffers of a green event.
  pub estimate_et-least :
      (v : Vehicle F) (preceding : Option VehicleSchedule) (m : MovementState) (timestamp : ℕ)
      (link : LaneletInfo F) (s : VehicleSchedule) (t : ℕ)
      → get_link_lanelet_info intersection_info v ≡ ok link
      → estimate_et d now scheduler v preceding m timestamp ≡ ok s
      → InOrder d now scheduler m.state_time_speed
      → IsAvailable timestamp (calculate_min_headway d v link.speed_limit) preceding s.eet t
      → Any (MayEnter d now scheduler t) m.state_time_speed
      → s.et ≤ t
  unfolding entering_time
  estimate_et-least v preceding m timestamp link s t found h order available any =
      let headway = calculate_min_headway d v link.speed_limit in
      let first = first_available timestamp headway preceding in
      let et = estimate_et-ok v preceding m timestamp link s found h in
      let least =
        entering_in_green-least d now scheduler first s.eet t m.state_time_speed order
          (first_available-le timestamp headway preceding s.eet t available) available.1 any in
      let eq : s.et ≡ least.0 = rw (least.1, entering_time) at et in rw eq least.2
