-- ===== src/Scheduler/Signalized.antt =====
-- signalized_vehicle_scheduler.cpp: when each vehicle enters the intersection, from the SPaT message.
-- `now` is the reading of the clock of the time marks. The schedule is its list of vehicle schedules;
-- those that were pushed before an exception stay. A movement without events is undefined behaviour in
-- the source (`back()`), and counts as ending at 0 here.
use Prim.Native.Nat.{max}
use carma_streets.Base.{
  ℕ, ◌==◌, ltb, List, [], ◌∷◌, ◌++◌, map, Bool, true, false, ◌&&◌, not, if◌then◌else◌, elem, last,
  add64, sub64, u8, insert, sort, Option, none, some, Result, ok, err, ◌>>=◌, or_fault, Outcome,
  done, thrown, and_then, final, no_group_id, mixed_group_ids, no_movement_state, no_spat,
  no_entering_vehicles,
}
use carma_streets.Double.{Double}
use carma_streets.Vehicles.{Vehicle, VehicleState, entering, is_entering, is_departing}
use carma_streets.Vehicles.VehicleList.{VehicleMap}
use carma_streets.Spat.Time.{get_epoch_start_time, get_epoch_min_end_time}
use carma_streets.Spat.Movement.{MovementEvent, MovementState, is_green}
use carma_streets.Plan.{is_empty}
use carma_streets.Scheduler.{
  LaneletInfo, IntersectionInfo, VehicleSchedule, get_link_lanelet_info,
  estimate_vehicles_at_common_time, distance_comparator,
}
use carma_streets.Scheduler.Motion.{
  calculate_min_headway, calculate_earliest_entering_time, estimate_clearance_time,
}
pub mod Greens
pub mod Entering
pub mod Lanes

-- The loop over the link lanelets, with the group of the first connected one, if it was visited.
unfoldable pub group_of_links :
    {F : Type 0} → Option ℕ → List ℕ → List (LaneletInfo F) → Result (Option ℕ)
group_of_links group connecting [] = ok group
group_of_links group connecting (l ∷ ls) =
    let rest = group_of_links group connecting ls in
    let first = group_of_links (some (u8 l.signal_group_id)) connecting ls in
    if elem l.id connecting
    then (if l.signal_group_id == 0 then err no_group_id else elim group [
      | none ↦ first
      | some g ↦ if l.signal_group_id == g then rest else err mixed_group_ids
    ])
    else rest

-- A lane without links has group 0.
abbrev pub group_or_zero : Option ℕ → ℕ
group_or_zero none = 0
group_or_zero (some g) = g

unfoldable pub state_with_group : ℕ → List MovementState → Option MovementState
state_with_group group [] = none
state_with_group group (m ∷ ms) =
    if m.signal_group == group then some m else state_with_group group ms

pub record SignalizedScheduler (F : Type 0) : Type 0 where
  pub intersection_info : IntersectionInfo F
  pub spat : Option (List MovementState)  -- spat_ptr
  pub initial_green_buffer : ℕ
  pub final_green_buffer : ℕ

-- From the preceding vehicle of the lane, if there is one.
unfoldable pub first_available : ℕ → ℕ → Option VehicleSchedule → ℕ
first_available timestamp headway none = timestamp
first_available timestamp headway (some p) = max timestamp (add64 p.et headway)

unfoldable pub is_before : VehicleSchedule → Option VehicleSchedule → Bool
is_before t none = true
is_before t (some p) = ltb t.et p.et

-- The departing vehicle of the lane with the least entering time.
unfoldable pub preceding_from :
    ℕ → Option VehicleSchedule → List VehicleSchedule → Option VehicleSchedule
preceding_from lane found [] = found
preceding_from lane found (s ∷ ss) =
    preceding_from lane
      (if s.entry_lane == lane && is_departing s.state && is_before s found then some s else found)
      ss

module _ {F : Type 0} where
  unfoldable pub vehicles_in_lane : ℕ → List (Vehicle F) → List (Vehicle F)
  vehicles_in_lane lane [] = []
  vehicles_in_lane lane (v ∷ vs) =
      if v.entry_lane_id == lane then v ∷ vehicles_in_lane lane vs else vehicles_in_lane lane vs

  abbrev pub entering_schedule : Vehicle F → ℕ → ℕ → ℕ → VehicleSchedule
  entering_schedule v eet et clearance = record {
    v_id = v.id;
    entry_lane = v.entry_lane_id;
    link_id = v.link_id;
    eet = eet;
    et = et;
    dt = add64 et clearance;
    state = entering;
  }

  unfoldable pub first_lanelet : ℕ → List (LaneletInfo F) → Option (LaneletInfo F)
  first_lanelet lane [] = none
  first_lanelet lane (l ∷ ls) = if l.id == lane then some l else first_lanelet lane ls

  unfoldable pub vehicles_in_state : (VehicleState → Bool) → VehicleMap F → List (Vehicle F)
  vehicles_in_state test [] = []
  vehicles_in_state test ((key, v) ∷ m) =
      if test v.cur_state then v ∷ vehicles_in_state test m else vehicles_in_state test m

module _ {F : Type 0} (d : Double F) (now : ℕ) (scheduler : SignalizedScheduler F) where
  open scheduler use {intersection_info, spat, initial_green_buffer, final_green_buffer}

  unfoldable pub find_movement_state_for_lane : LaneletInfo F → Result MovementState
  find_movement_state_for_lane lane =
      group_of_links none lane.connecting_lanelet_ids intersection_info.link_lanelets >>= λ group.
      elim spat [
        | none ↦ err no_spat
        | some states ↦ or_fault (state_with_group (group_or_zero group) states) no_movement_state
      ]

  -- The first green in which the vehicle can enter.
  unfoldable pub entering_in_green : ℕ → ℕ → List MovementEvent → Option ℕ
  entering_in_green first eet [] = none
  entering_in_green first eet (e ∷ es) =
      let later = entering_in_green first eet es in
      let et =
        max first (max eet (add64 (get_epoch_start_time now e.timing) initial_green_buffer)) in
      if is_green e.event_state
        && ltb et (sub64 (get_epoch_min_end_time now e.timing) final_green_buffer)
      then some et
      else later

  unfoldable pub last_end : List MovementEvent → ℕ
  last_end [] = 0
  last_end (e ∷ es) = get_epoch_min_end_time now (last e es).timing

  unfoldable pub entering_time : ℕ → ℕ → List MovementEvent → ℕ
  entering_time first eet es = elim (entering_in_green first eet es) [
    | some et ↦ et
    | none ↦ max first (max eet (add64 (last_end es) initial_green_buffer))
  ]

  unfoldable pub estimate_et :
      Vehicle F → Option VehicleSchedule → MovementState → ℕ → Result VehicleSchedule
  estimate_et v preceding m timestamp = do
    link ← get_link_lanelet_info intersection_info v
    eet ← calculate_earliest_entering_time d intersection_info v
    let headway = calculate_min_headway d v link.speed_limit
    let et = entering_time (first_available timestamp headway preceding) eet m.state_time_speed
    clearance ← estimate_clearance_time d intersection_info v
    ok (entering_schedule v eet et clearance)

  -- The vehicles of one lane, from the stop bar on.
  unfoldable pub schedule_lane :
      MovementState
      → ℕ
      → List (Vehicle F)
      → Option VehicleSchedule
      → List VehicleSchedule
      → Outcome (List VehicleSchedule)
  schedule_lane m timestamp [] preceding schedules = done schedules
  schedule_lane m timestamp (v ∷ vs) preceding schedules =
      let rest =
        λ (s : VehicleSchedule). schedule_lane m timestamp vs (some s) (schedules ++ s ∷ []) in
      elim (estimate_et v preceding m timestamp) [ ok s ↦ rest s | err x ↦ thrown x schedules ]

  -- The map from entry lanes to their vehicles, which are sorted twice; lanes without any are left out.
  unfoldable pub vehicle_lane_map :
      List (Vehicle F)
      → List (LaneletInfo F)
      → List (ℕ × List (Vehicle F))
      → List (ℕ × List (Vehicle F))
  vehicle_lane_map evs [] lanes = lanes
  vehicle_lane_map evs (l ∷ ls) lanes = vehicle_lane_map evs ls (
      if is_empty (vehicles_in_lane l.id evs)
      then lanes
      else insert l.id (sort (distance_comparator d) (vehicles_in_lane l.id evs)) lanes)

  -- The lanes of the map are entry lanelets, so one is found.
  unfoldable pub schedule_one_lane :
      ℕ → ℕ → List (Vehicle F) → List VehicleSchedule → Outcome (List VehicleSchedule)
  schedule_one_lane timestamp lane vs schedules =
      elim (first_lanelet lane intersection_info.entry_lanelets) [
        | none ↦ done schedules
        | some l ↦ elim (find_movement_state_for_lane l) [
          | err x ↦ thrown x schedules
          | ok m ↦ schedule_lane m timestamp vs (preceding_from lane none schedules) schedules
        ]
      ]

  unfoldable pub schedule_lanes :
      ℕ → List (ℕ × List (Vehicle F)) → List VehicleSchedule → Outcome (List VehicleSchedule)
  schedule_lanes timestamp [] schedules = done schedules
  schedule_lanes timestamp ((lane, vs) ∷ rest) schedules =
      and_then (schedule_one_lane timestamp lane vs schedules)
        (λ out. schedule_lanes timestamp rest out)

  unfoldable pub schedule_evs :
      ℕ → List (Vehicle F) → List VehicleSchedule → Outcome (List VehicleSchedule)
  schedule_evs timestamp evs schedules =
      let lanes =
        vehicle_lane_map (sort (distance_comparator d) evs) intersection_info.entry_lanelets [] in
      if is_empty lanes
      then thrown no_entering_vehicles schedules
      else schedule_lanes timestamp lanes schedules

  unfoldable pub schedule_dv : ℕ → Vehicle F → Result VehicleSchedule
  schedule_dv timestamp v = do
    link ← get_link_lanelet_info intersection_info v
    clearance ← estimate_clearance_time d intersection_info v
    ok (record {
      v_id = v.id;
      entry_lane = v.entry_lane_id;
      link_id = v.link_id;
      eet = 0;
      et = v.actual_et;
      dt = add64 timestamp clearance;
      state = v.cur_state;
    })

  unfoldable pub schedule_dvs :
      ℕ → List (Vehicle F) → List VehicleSchedule → Outcome (List VehicleSchedule)
  schedule_dvs timestamp [] schedules = done schedules
  schedule_dvs timestamp (v ∷ vs) schedules =
      let rest = λ (s : VehicleSchedule). schedule_dvs timestamp vs (schedules ++ s ∷ []) in
      elim (schedule_dv timestamp v) [ ok s ↦ rest s | err x ↦ thrown x schedules ]

  -- The schedules after the call, with the exception that is caught in it.
  unfoldable pub run_schedules :
      ℕ → VehicleMap F → List VehicleSchedule → Outcome (List VehicleSchedule)
  run_schedules timestamp m schedules =
      let estimated = estimate_vehicles_at_common_time d timestamp m in
      let evs = vehicles_in_state is_entering estimated in
      and_then (schedule_dvs timestamp (vehicles_in_state is_departing estimated) schedules)
        (λ out. if is_empty evs then done out else schedule_evs timestamp evs out)

  unfoldable pub schedule_vehicles : ℕ → VehicleMap F → List VehicleSchedule → List VehicleSchedule
  schedule_vehicles timestamp m schedules =
      if is_empty m then schedules else final (run_schedules timestamp m schedules)
