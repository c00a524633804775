-- ===== src/Scheduler/Signalized/Lanes.antt =====
-- The vehicles of one lane, as signalized_vehicle_scheduler.cpp schedules them one behind the other.
use carma_streets.Base.{
  ℕ, ◌≡◌, sym, ◌∙◌, List, [], ◌∷◌, ◌++◌, Option, some, ok, err, done, thrown, inl, inr,
  Result-cases,
}
use mathlib.Core.List.{append_assoc, append-nil}
use carma_streets.Double.{Double}
use carma_streets.Vehicles.{Vehicle}
use carma_streets.Spat.Movement.{MovementState}
use carma_streets.Scheduler.{LaneletInfo, VehicleSchedule, get_link_lanelet_info}
use carma_streets.Scheduler.Motion.{calculate_min_headway}
use carma_streets.Scheduler.Signalized.{SignalizedScheduler, estimate_et, schedule_lane}
use carma_streets.Scheduler.Signalized.Greens.{IsAvailable}
use carma_streets.Scheduler.Signalized.Entering.{estimate_et-IsAvailable}

module _ {F : Type 0} (d : Double F) (now : ℕ) (scheduler : SignalizedScheduler F) where
  open scheduler use {intersection_info}

  link_found :
      (v : Vehicle F) (preceding : Option VehicleSchedule) (m : MovementState) (timestamp : ℕ)
      (s : VehicleSchedule)
      → estimate_et d now scheduler v preceding m timestamp ≡ ok s
      → (link : LaneletInfo F) × (get_link_lanelet_info intersection_info v ≡ ok link)
  unfolding estimate_et
  link_found v preceding m timestamp s h =
      elim (Result-cases (get_link_lanelet_info intersection_info v)) [
        | inl found ↦ found
        | inr (x, bad) ↦ let no : err x ≡ ok s = rw (bad, estimate_et) at h in cc no
      ]

  -- One schedule for each vehicle, each behind the one before it.
  abbrev pub Spaced : ℕ → Option VehicleSchedule → List (Vehicle F) → List VehicleSchedule → Type 0
  Spaced timestamp preceding [] [] = Unit
  Spaced timestamp preceding [] (s ∷ ss) = ⊥
  Spaced timestamp preceding (v ∷ vs) [] = ⊥
  Spaced timestamp preceding (v ∷ vs) (s ∷ ss) =
      ((link : LaneletInfo F) × (get_link_lanelet_info intersection_info v ≡ ok link)
        × IsAvailable timestamp (calculate_min_headway d v link.speed_limit) preceding s.eet s.et)
      × Spaced timestamp (some s) vs ss

  -- When the vehicles of a lane are scheduled without an exception, one schedule for each of them, in
  -- their order, is appended to the list; none enters before the timestamp or its own earliest time, and
  -- each enters at least its minimum headway after the vehicle ahead of it.
  pub schedule_lane-Spaced :
      (m : MovementState) (timestamp : ℕ) (vs : List (Vehicle F))
      (preceding : Option VehicleSchedule) (schedules out : List VehicleSchedule)
      → schedule_lane d now scheduler m timestamp vs preceding schedules ≡ done out
      → (new : List VehicleSchedule) × (out ≡ schedules ++ new) × Spaced timestamp preceding vs new
  unfolding schedule_lane
  schedule_lane-Spaced m timestamp [] preceding schedules out h =
      let eq : schedules ≡ out = cc h in ([], rw (append-nil schedules) (sym eq), tt)
  schedule_lane-Spaced m timestamp (v ∷ vs) preceding schedules out h =
      elim (Result-cases (estimate_et d now scheduler v preceding m timestamp)) [
        | inr (x, bad) ↦
            let no : thrown x schedules ≡ done out = rw (bad, schedule_lane) at h in cc no
        | inl (s, made) ↦
            let link = link_found v preceding m timestamp s made in
            let here =
              estimate_et-IsAvailable d now scheduler v preceding m timestamp link.0 s link.1
                made in
            let rest =
              schedule_lane-Spaced m timestamp vs (some s) (schedules ++ s ∷ []) out
                (rw (made, schedule_lane) at h) in
            (
              s ∷ rest.0,
              rest.1 ∙ append_assoc schedules (s ∷ []) rest.0,
              ((link.0, link.1, here.0), rest.2),
            )
      ]
