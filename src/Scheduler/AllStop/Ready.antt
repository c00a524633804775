-- ===== src/Scheduler/AllStop/Ready.antt =====
-- all_stop_vehicle_scheduler.cpp: consider_departure_position_permutation and schedule_rdvs. The loop over
-- the permutations runs on fuel, one for each.
use carma_streets.Base.{
  ℕ, zero, suc, ◌+◌, ◌-◌, ◌*◌, ◌^◌, ltb, leb, max, List, [], ◌∷◌, ◌++◌, length, Bool, true, false,
  if◌then◌else◌, add64, sort, Option, none, some, Result, ok, err, ◌>>=◌, Outcome, done, thrown,
  no_valid_option,
}
use carma_streets.Double.{Double}
use carma_streets.Vehicles.{Vehicle, ready, departing}
use carma_streets.Scheduler.{LaneletInfo, IntersectionInfo, get_link_lanelet_info}
use carma_streets.Scheduler.AllStop.{
  AllStopSchedule, AllStopScheduler, total_delay, last_schedule, next_position,
  get_latest_conflicting, get_vehicle_with_id, estimate_clearance_time,
}
use carma_streets.Scheduler.AllStop.Departing.{departure_position_comparator}
use carma_streets.Scheduler.AllStop.Permutations.{next_permutation}
pub mod Chosen
pub mod Granted
pub mod Loop
pub mod Options

unfoldable pub delay_comparator : List AllStopSchedule → List AllStopSchedule → Bool
delay_comparator a b = ltb (total_delay a) (total_delay b)

abbrev pub with_option :
    Option (List AllStopSchedule) → List (List AllStopSchedule) → List (List AllStopSchedule)
with_option none options = options
with_option (some o) options = options ++ o ∷ []

module _ {F : Type 0} where
  unfoldable pub ready_schedule : Vehicle F → ℕ → Bool → ℕ → ℕ → AllStopSchedule
  ready_schedule v position has_access et clearance = record {
    v_id = v.id;
    entry_lane = v.entry_lane_id;
    link_id = v.link_id;
    est = v.actual_st;
    st = v.actual_st;
    et = et;
    dt = add64 et clearance;
    dp = position;
    access = has_access;
    state = if has_access then departing else ready;
  }

  -- `abs(position - departure_position)`; the field is the member plus 1.
  unfoldable pub is_flexible : ℕ → ℕ → Vehicle F → Bool
  is_flexible limit position v =
      leb ((suc position - v.departure_position) + (v.departure_position - suc position)) limit

  -- With a fuel of this many the loop over the permutations ends.
  unfoldable pub largest_position : List (Vehicle F) → ℕ
  largest_position [] = 1
  largest_position (v ∷ vs) = max v.departure_position (largest_position vs)

  unfoldable pub permutation_fuel : List (Vehicle F) → ℕ
  permutation_fuel vs = suc (largest_position vs) ^ length vs

  -- A vehicle that gets access is remembered as it stands in the list.
  unfoldable pub remember_access :
      List (Vehicle F) → AllStopSchedule → List (Vehicle F) → Result (List (Vehicle F))
  remember_access rdvs s granted =
      if s.access
      then (do v ← get_vehicle_with_id rdvs s.v_id; ok (granted ++ v ∷ []))
      else ok granted

  -- The vehicles of the option from the position on are pushed.
  unfoldable pub add_ready :
      List (Vehicle F)
      → ℕ
      → List AllStopSchedule
      → List (Vehicle F) × List AllStopSchedule
      → Outcome (List (Vehicle F) × List AllStopSchedule)
  add_ready rdvs position [] state = done state
  add_ready rdvs position (s ∷ ss) state =
      let later =
        λ (gs : List (Vehicle F)). add_ready rdvs (suc position) ss (gs, state.1 ++ s ∷ []) in
      let skipped = add_ready rdvs position ss state in
      if leb position s.dp
      then (elim (remember_access rdvs s state.0) [ err x ↦ thrown x state | ok gs ↦ later gs ])
      else skipped

module _ {F : Type 0} (d : Double F) (scheduler : AllStopScheduler F) (timestamp : ℕ) where
  open scheduler use {intersection_info, flexibility_limit}

  -- The next vehicle behind those of the option.
  unfoldable pub place_ready :
      List AllStopSchedule → ℕ → Vehicle F → LaneletInfo F → AllStopSchedule
  place_ready option position v link =
      let clearance = estimate_clearance_time d v link in
      elim (get_latest_conflicting link option) [
        | none ↦ elim (last_schedule option) [
          | none ↦ ready_schedule v position true timestamp clearance
          | some s ↦
              if s.access
              then ready_schedule v position true timestamp clearance
              else ready_schedule v position false s.et clearance
        ]
        | some c ↦ elim (last_schedule option) [
          | none ↦ ready_schedule v position false c.dt clearance
          | some s ↦ ready_schedule v position false (max c.dt s.et) clearance
        ]
      ]

  -- None where a vehicle is moved further than the limit.
  unfoldable pub consider_departure_position_permutation :
      List (Vehicle F) → List AllStopSchedule → ℕ → Result (Option (List AllStopSchedule))
  consider_departure_position_permutation [] option position = ok (some option)
  consider_departure_position_permutation (v ∷ vs) option position =
      let rest = λ (link : LaneletInfo F).
        consider_departure_position_permutation vs
          (option ++ place_ready option position v link ∷ []) (suc position) in
      if is_flexible flexibility_limit position v
      then (elim (get_link_lanelet_info intersection_info v) [
        | err x ↦ err x
        | ok link ↦ rest link
      ])
      else ok none

  -- The options of this permutation and the later ones; out of fuel, there is no result.
  unfoldable pub consider_each :
      ℕ
      → List (Vehicle F)
      → List AllStopSchedule
      → List (List AllStopSchedule)
      → Result (Option (List (List AllStopSchedule)))
  consider_each zero vs schedules options = ok none
  consider_each (suc fuel) vs schedules options =
      let rest = consider_each fuel in
      elim (consider_departure_position_permutation vs schedules (next_position schedules)) [
        | err x ↦ err x
        | ok o ↦ elim (next_permutation departure_position_comparator vs) [
          | none ↦ ok (some (with_option o options))
          | some ws ↦ rest ws schedules (with_option o options)
        ]
      ]

  -- None only if the fuel does not suffice.
  unfoldable pub schedule_rdvs_on :
      ℕ
      → List (Vehicle F)
      → List (Vehicle F) × List AllStopSchedule
      → Option (Outcome (List (Vehicle F) × List AllStopSchedule))
  schedule_rdvs_on fuel rdvs (granted, schedules) = elim (consider_each fuel rdvs schedules []) [
    | err x ↦ some (thrown x (granted, schedules))
    | ok none ↦ none
    | ok (some options) ↦ elim (sort delay_comparator options) [
      | [] ↦ some (thrown no_valid_option (granted, schedules))
      | best ∷ others ↦ some (add_ready rdvs (next_position schedules) best (granted, schedules))
    ]
  ]

  unfoldable pub schedule_rdvs :
      List (Vehicle F)
      → List (Vehicle F) × List AllStopSchedule
      → Option (Outcome (List (Vehicle F) × List AllStopSchedule))
  schedule_rdvs rdvs state =
      let sorted = sort departure_position_comparator rdvs in
      schedule_rdvs_on (permutation_fuel sorted) sorted state
