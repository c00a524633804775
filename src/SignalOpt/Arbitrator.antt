-- ===== src/SignalOpt/Arbitrator.antt =====
-- streets_desired_phase_plan_arbitrator.cpp: the candidate with the best ratio of the delays. `single`
-- is the arithmetic of `float`.
use carma_streets.Base.{
  ℕ, zero, suc, ltb, leb, max, List, [], ◌∷◌, Bool, if◌then◌else◌, last, add64, Option, none, some,
  Result, ok, err, ◌>>=◌, Outcome, done, thrown, null_pointer, empty_schedule, empty_movement,
}
use carma_streets.Double.{Double}
use carma_streets.Plan.{GreenTiming, DesiredPhasePlan, TscConfiguration}
use carma_streets.Vehicles.VehicleList.{VehicleMap}
use carma_streets.Spat.Movement.{MovementPhaseState, MovementState}
use carma_streets.Spat.Projection.{update_spat_with_candidate_dpp}
use carma_streets.Scheduler.{IntersectionInfo, VehicleSchedule, get_delay}
use carma_streets.Scheduler.Signalized.{SignalizedScheduler, schedule_vehicles}
use carma_streets.SignalOpt.Queues.{get_ev_schedules_within_so}
pub mod Best

-- The two sums of the loop, over the schedules: of the vehicles that the candidate serves, and of those
-- that it leaves for later.
unfoldable pub delays : GreenTiming → ℕ → ℕ → List VehicleSchedule → Result (ℕ × ℕ)
delays green served later [] = ok (served, later)
delays green served later (s ∷ ss) =
    let unchanged = delays green served later ss in
    let as_later = λ (t : ℕ). delays green served (add64 later t) ss in
    let as_served = λ (t : ℕ). delays green (add64 served t) later ss in
    if ltb green.end_time s.et
    then (elim (get_delay s) [ ok t ↦ as_later t | err x ↦ err x ])
    else if leb green.start_time s.et
    then (elim (get_delay s) [ ok t ↦ as_served t | err x ↦ err x ])
    else unchanged

module _ {G : Type 0} (single : Double G) where
  open single use {of_ℕ, div, lt}

  -- `back()` of a plan without greens is undefined in the source, and an error here.
  unfoldable pub calculate_delay_measure : List VehicleSchedule → DesiredPhasePlan → Result G
  calculate_delay_measure [] plan = err empty_schedule
  calculate_delay_measure (s ∷ ss) plan = elim plan.desired_phase_plan [
    | [] ↦ err empty_movement
    | g ∷ gs ↦ delays (last g gs) 0 0 (s ∷ ss) >>= λ sums.
        ok (div (of_ℕ (max sums.0 1)) (of_ℕ (max sums.1 1)))
  ]

  -- The entry with the greatest measure; an equal one does not replace it.
  unfoldable pub best_from : ℕ → G → List (ℕ × G) → ℕ
  best_from index measure [] = index
  best_from index measure ((i, f) ∷ rest) =
      if lt measure f then best_from i f rest else best_from index measure rest

  -- `dpp_list.at`
  unfoldable pub plan_at : ℕ → List DesiredPhasePlan → Option DesiredPhasePlan
  plan_at i [] = none
  plan_at zero (p ∷ ps) = some p
  plan_at (suc i) (p ∷ ps) = plan_at i ps

  -- The mapping's entries, in the order in which the loop meets them.
  unfoldable pub identify_ddp_by_delay_measures :
      List DesiredPhasePlan → List (ℕ × G) → Option DesiredPhasePlan
  identify_ddp_by_delay_measures plans [] = some (record { timestamp = 0; desired_phase_plan = [] })
  identify_ddp_by_delay_measures plans ((i, f) ∷ rest) =
      plan_at (best_from i f ((i, f) ∷ rest)) plans

-- What a call is given; `vehicles` is what `get_vehicles` returns throughout.
pub record Arbitration (F : Type 0) : Type 0 where
  pub intersection_info : IntersectionInfo F
  pub spat : Option (List MovementState)
  pub tsc_config : TscConfiguration
  pub vehicles : Option (VehicleMap F)
  pub initial_green_buffer : ℕ
  pub final_green_buffer : ℕ
  pub so_radius : F

module _ {F G : Type 0} (d : Double F) (single : Double G) (system_now now : ℕ)
    (garbage : MovementPhaseState) (a : Arbitration F) where
  unfoldable pub calculate_vehicle_schedules :
      List MovementState → VehicleMap F → List VehicleSchedule
  calculate_vehicle_schedules states vehicles =
      schedule_vehicles d now
        (record {
          intersection_info = a.intersection_info;
          spat = some states;
          initial_green_buffer = a.initial_green_buffer;
          final_green_buffer = a.final_green_buffer;
        })
        system_now vehicles []

  unfoldable pub measure_candidate : List MovementState → VehicleMap F → DesiredPhasePlan → Result G
  measure_candidate states vehicles plan =
      elim (update_spat_with_candidate_dpp now a.tsc_config garbage plan states) [
        | thrown x _ ↦ err x
        | done projected ↦
            get_ev_schedules_within_so d a.so_radius vehicles
              (calculate_vehicle_schedules projected vehicles)
            >>= λ schedules. calculate_delay_measure single schedules plan
      ]

  unfoldable pub delay_measures :
      List MovementState → VehicleMap F → ℕ → List DesiredPhasePlan → Result (List (ℕ × G))
  delay_measures states vehicles index [] = ok []
  delay_measures states vehicles index (p ∷ ps) = do
    here ← measure_candidate states vehicles p
    later ← delay_measures states vehicles (suc index) ps
    ok ((index, here) ∷ later)

  -- The loop of the source meets the measures in the order of an unordered map: `shuffle`.
  unfoldable pub select_optimal_dpp :
      (List (ℕ × G) → List (ℕ × G)) → List DesiredPhasePlan → Result (Option DesiredPhasePlan)
  select_optimal_dpp shuffle [] = ok (some (record { timestamp = 0; desired_phase_plan = [] }))
  select_optimal_dpp shuffle (p ∷ ps) = elim a.spat [
    | none ↦ err null_pointer
    | some states ↦ elim a.vehicles [
      | none ↦ err null_pointer
      | some vehicles ↦ do
        measures ← delay_measures states vehicles 0 (p ∷ ps)
        ok (identify_ddp_by_delay_measures single (p ∷ ps) (shuffle measures))
    ]
  ]
