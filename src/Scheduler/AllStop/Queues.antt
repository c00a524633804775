-- ===== src/Scheduler/AllStop/Queues.antt =====
-- all_stop_vehicle_scheduler.cpp: schedule_evs. The rounds over the lanes run on fuel, one for each
-- vehicle. A std::unordered_map is gone through in the order in which its keys came.
use carma_streets.Base.{
  ℕ, zero, suc, ◌+◌, ◌==◌, ltb, leb, max, List, [], ◌∷◌, ◌++◌, Bool, true, false, ◌||◌, ◌&&◌,
  if◌then◌else◌, add64, sub64, sort, insert, lookup, length, Option, none, some, Result, ok, err,
  ◌>>=◌, Outcome, done, thrown, no_entering_vehicles,
}
use carma_streets.Double.{Double}
use carma_streets.Vehicles.{
  Vehicle, VehicleState, entering, ready, is_departing, same_vehicle_state,
}
use carma_streets.Scheduler.{
  LaneletInfo, IntersectionInfo, get_link_lanelet_info, distance_comparator,
}
use carma_streets.Scheduler.Signalized.{vehicles_in_lane}
use carma_streets.Scheduler.AllStop.{
  AllStopSchedule, AllStopScheduler, next_position, get_latest_conflicting,
  estimate_earliest_time_to_stop_bar, estimate_clearance_time,
}
pub mod Ahead
pub mod Lanes
pub mod Least
pub mod Rounds
pub mod Selection

unfoldable pub assign :
    ℕ → AllStopSchedule → List (ℕ × AllStopSchedule) → List (ℕ × AllStopSchedule)
assign k v [] = (k, v) ∷ []
assign k v ((j, w) ∷ m) = if j == k then (j, v) ∷ m else (j, w) ∷ assign k v m

-- Scheduled, but still in the entry lane, or not long out of it.
unfoldable pub is_preceding : ℕ → ℕ → AllStopSchedule → Bool
is_preceding buffer timestamp s =
    same_vehicle_state s.state ready || (is_departing s.state && leb (sub64 s.et timestamp) buffer)

-- The first such schedule of all is taken for every lane: the schedule's own lane is not looked at.
unfoldable pub first_preceding :
    ℕ → ℕ → ℕ → List AllStopSchedule → List (ℕ × AllStopSchedule) → List (ℕ × AllStopSchedule)
first_preceding buffer timestamp lane [] m = m
first_preceding buffer timestamp lane (s ∷ ss) m =
    first_preceding buffer timestamp lane ss
      (if is_preceding buffer timestamp s then insert lane s m else m)

-- The vehicles that wait in each lane: the first of them, and the others. No lane is empty.
abbrev pub Queues : Type 0 → Type 0
Queues F = List (ℕ × (Vehicle F × List (Vehicle F)))

module _ {F : Type 0} where
  unfoldable pub preceding_vehicles :
      ℕ
      → ℕ
      → List AllStopSchedule
      → List (LaneletInfo F)
      → List (ℕ × AllStopSchedule)
      → List (ℕ × AllStopSchedule)
  preceding_vehicles buffer timestamp schedules [] m = m
  preceding_vehicles buffer timestamp schedules (l ∷ ls) m =
      preceding_vehicles buffer timestamp schedules ls
        (first_preceding buffer timestamp l.id schedules m)

  unfoldable pub vehicle_to_be_scheduled_next :
      List (Vehicle F) → List (LaneletInfo F) → Queues F → Queues F
  vehicle_to_be_scheduled_next evs [] queues = queues
  vehicle_to_be_scheduled_next evs (l ∷ ls) queues =
      vehicle_to_be_scheduled_next evs ls (elim (vehicles_in_lane l.id evs) [
        | [] ↦ queues
        | v ∷ vs ↦ insert {A = Vehicle F × List (Vehicle F)} l.id (v, vs) queues
      ])

  -- `pop_front`, and the lane goes when nothing is left of it.
  unfoldable pub pop_vehicle : ℕ → Queues F → Queues F
  pop_vehicle lane [] = []
  pop_vehicle lane ((j, (v, vs)) ∷ queues) =
      let rest = pop_vehicle lane queues in
      if j == lane
      then (elim vs [ [] ↦ queues | u ∷ us ↦ (j, (u, us)) ∷ queues ])
      else (j, (v, vs)) ∷ rest

  unfoldable pub waiting : Queues F → ℕ
  waiting [] = 0
  waiting ((j, (v, vs)) ∷ queues) = suc (length vs) + waiting queues

module _ {F : Type 0} (d : Double F) (scheduler : AllStopScheduler F) where
  open scheduler use {intersection_info, entering_time_buffer}

  -- The preceding vehicle is looked up by the lane that the vehicle is in.
  unfoldable pub stopping_time : List (ℕ × AllStopSchedule) → Vehicle F → ℕ → ℕ
  stopping_time preceding v est = elim (lookup v.cur_lane_id preceding) [
    | none ↦ est
    | some p ↦ max est (add64 p.et entering_time_buffer)
  ]

  unfoldable pub estimate_entering_time_for_ev : List AllStopSchedule → LaneletInfo F → ℕ → ℕ
  estimate_entering_time_for_ev schedules link st = elim (get_latest_conflicting link schedules) [
    | none ↦ st
    | some c ↦ max c.dt st
  ]

  unfoldable pub entering_schedule :
      List AllStopSchedule → ℕ → Vehicle F → LaneletInfo F → ℕ → ℕ → AllStopSchedule
  entering_schedule schedules position v link est st =
      let et = estimate_entering_time_for_ev schedules link st in
      record {
        v_id = v.id;
        entry_lane = v.entry_lane_id;
        link_id = v.link_id;
        est = est;
        st = st;
        et = et;
        dt = add64 et (estimate_clearance_time d v link);
        dp = position;
        access = false;
        state = entering;
      }

  -- The schedule with the lowest stopping time of the first vehicles in the lanes. A lowest time of 0
  -- stands for none.
  unfoldable pub select_next :
      List AllStopSchedule
      → ℕ
      → List (ℕ × AllStopSchedule)
      → Queues F
      → ℕ
      → Option AllStopSchedule
      → Result (Option AllStopSchedule)
  select_next schedules position preceding [] lowest_st found = ok found
  select_next schedules position preceding ((j, (v, vs)) ∷ queues) lowest_st found =
      let rest = select_next schedules position preceding queues in
      do
        link ← get_link_lanelet_info intersection_info v
        est ← estimate_earliest_time_to_stop_bar d intersection_info v
        let st = stopping_time preceding v est
        if (lowest_st == 0) || ltb st lowest_st
            then rest st (some (entering_schedule schedules position v link est st))
            else rest lowest_st found

  -- One vehicle for each round; out of fuel, there is no result.
  unfoldable pub schedule_rounds :
      ℕ
      → ℕ
      → List (ℕ × AllStopSchedule)
      → Queues F
      → List AllStopSchedule
      → Option (Outcome (List AllStopSchedule))
  schedule_rounds zero position preceding queues schedules = none
  schedule_rounds (suc fuel) position preceding queues schedules =
      let again = schedule_rounds fuel (suc position) in
      elim (select_next schedules position preceding queues 0 none) [
        | err x ↦ some (thrown x schedules)
        | ok none ↦ some (done schedules)
        | ok (some s) ↦ elim (pop_vehicle s.entry_lane queues) [
          | [] ↦ some (done (schedules ++ s ∷ []))
          | q ∷ qs ↦ again (assign s.entry_lane s preceding) (q ∷ qs) (schedules ++ s ∷ [])
        ]
      ]

  unfoldable pub schedule_evs :
      ℕ → List (Vehicle F) → List AllStopSchedule → Option (Outcome (List AllStopSchedule))
  schedule_evs timestamp evs schedules =
      let preceding =
        preceding_vehicles entering_time_buffer timestamp schedules intersection_info.entry_lanelets
          [] in
      let queues =
        vehicle_to_be_scheduled_next (sort (distance_comparator d) evs)
          intersection_info.entry_lanelets [] in
      elim queues [
        | [] ↦ some (thrown no_entering_vehicles schedules)
        | q ∷ qs ↦
            schedule_rounds (waiting (q ∷ qs)) (next_position schedules) preceding (q ∷ qs)
              schedules
      ]
