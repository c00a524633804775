-- ===== src/Tests/AllStopRuns.antt =====
-- Two vehicles that wait at an intersection where every vehicle stops and one that comes, with whole
-- numbers for the processor's arithmetic.
use Prim.Native.String.{String}
use mathlib.Core.List.{Permᴰ}
use carma_streets.Base.{
  ℕ, ◌+◌, ◌≤◌, ◌≡◌, refl, List, [], ◌∷◌, ◌++◌, map, some, none, true, false, arith, ok, done, sort,
  sub64, add64,
}
use carma_streets.Double.{whole}
use carma_streets.Vehicles.{Vehicle, entering, ready, departing, new_vehicle}
use carma_streets.Scheduler.{
  IntersectionInfo, LaneletInfo, distance_comparator, estimate_vehicles_at_common_time, erase_all,
  vehicles_to_remove, is_discarded, elapsed, estimate_each, estimate_vehicle, future_points,
  erase_vehicle, get_entry_lanelet_info, get_link_lanelet_info, lanelet_from,
}
use carma_streets.Scheduler.AllStop.{
  AllStopSchedule, AllStopScheduler, next_position, total_delay, estimate_earliest_time_to_stop_bar,
  is_rdv_previously_granted_access, calculate_acceleration_time, calculate_cruising_time,
  calculate_deceleration_time, calculate_v_hat, clearance_seconds, delay_from,
  estimate_clearance_time, estimate_delta_x_prime, get_latest_conflicting, get_vehicle_with_id,
  last_schedule, latest_from, vehicle_from,
}
use carma_streets.Scheduler.AllStop.Departing.{departure_position_comparator}
use carma_streets.Scheduler.AllStop.Queues.{
  preceding_vehicles, vehicle_to_be_scheduled_next, select_next, schedule_evs, assign,
  entering_schedule, estimate_entering_time_for_ev, first_preceding, is_preceding, pop_vehicle,
  schedule_rounds, stopping_time, waiting,
}
use carma_streets.Scheduler.AllStop.Queues.Lanes.{everyone}
use carma_streets.Scheduler.AllStop.Queues.Least.{StopsLater, NoneSooner, select_next-NoneSooner}
use carma_streets.Scheduler.AllStop.Queues.Rounds.{InTurn, schedule_evs-InTurn}
use carma_streets.Scheduler.AllStop.Ready.{
  consider_departure_position_permutation, schedule_rdvs, schedule_rdvs_on, consider_each,
  permutation_fuel, add_ready, delay_comparator, is_flexible, largest_position, place_ready,
  ready_schedule, remember_access,
}
use carma_streets.Scheduler.AllStop.Ready.Chosen.{schedule_rdvs-Placed, schedule_rdvs_least}
use carma_streets.Scheduler.AllStop.Ready.Options.{Placed}
use carma_streets.Scheduler.AllStop.Service.Ends.{schedule_vehicles_total}
use carma_streets.Scheduler.AllStop.Service.Safe.{IsSafe, schedule_vehicles-IsSafe}
use carma_streets.Vehicles.VehicleList.{VehicleMap}
use carma_streets.Scheduler.AllStop.Service.{
  schedule_vehicles, run_groups, run_dvs, run_rdvs, run_evs, group_vehicles, group_vehicle,
  group_as,
}
use carma_streets.Scheduler.AllStop.Permutations.{ascend_here, exchange_last, next_permutation}
use carma_streets.Scheduler.Signalized.{vehicles_in_lane}
use carma_streets.Tests.VehicleRuns.{car, lanelet}

abbrev conflicting : ℕ → List ℕ → LaneletInfo ℕ
conflicting id others = record (lanelet id 0 []) { conflict_lanelet_ids = others }

abbrev corner : IntersectionInfo ℕ
corner = record {
  entry_lanelets = lanelet 1 0 (2 ∷ []) ∷ lanelet 3 0 (4 ∷ []) ∷ [];
  link_lanelets = conflicting 2 (4 ∷ []) ∷ conflicting 4 (2 ∷ []) ∷ [];
}

abbrev all_stop : AllStopScheduler ℕ
all_stop = record { intersection_info = corner; entering_time_buffer = 1000; flexibility_limit = 5 }

-- The field is the departure position plus 1.
abbrev stopped : String → ℕ → ℕ → ℕ → Vehicle ℕ
stopped id lane link position = record (car id 0) {
  entry_lane_id = lane;
  cur_lane_id = lane;
  link_id = link;
  departure_position = position;
  actual_st = 9000;
  cur_speed = 0;
  cur_state = ready;
}

abbrev coming : Vehicle ℕ
coming = record (car "c" 100) { cur_lane_id = 1 }

abbrev a : Vehicle ℕ
a = stopped "a" 1 2 2

abbrev b : Vehicle ℕ
b = stopped "b" 3 4 3

abbrev for_a : AllStopSchedule
for_a = record {
  v_id = "a";
  entry_lane = 1;
  link_id = 2;
  est = 9000;
  st = 9000;
  et = 10000;
  dt = 30000;
  dp = 1;
  access = true;
  state = departing;
}

-- It waits for the first, whose link conflicts.
abbrev for_b : AllStopSchedule
for_b = record {
  v_id = "b";
  entry_lane = 3;
  link_id = 4;
  est = 9000;
  st = 9000;
  et = 30000;
  dt = 50000;
  dp = 2;
  access = false;
  state = ready;
}

abbrev for_c : AllStopSchedule
for_c = record {
  v_id = "c";
  entry_lane = 1;
  link_id = 2;
  est = 25000;
  st = 25000;
  et = 50000;
  dt = 70000;
  dp = 3;
  access = false;
  state = entering;
}

-- With nobody before it.
abbrev alone : AllStopSchedule
alone = record for_c { et = 25000; dt = 45000; dp = 1 }

abbrev everybody : VehicleMap ℕ
everybody = ("a", a) ∷ ("b", b) ∷ ("c", coming) ∷ []

vehicles_made :
    schedule_vehicles whole all_stop 10000 everybody ([], [])
    ≡ some (a ∷ [], for_a ∷ for_b ∷ for_c ∷ [])
unfolding new_vehicle schedule_vehicles run_groups run_dvs run_rdvs run_evs group_vehicles
    group_vehicle group_as estimate_vehicles_at_common_time erase_all vehicles_to_remove
    is_discarded elapsed estimate_each estimate_vehicle future_points erase_vehicle
    distance_comparator get_entry_lanelet_info get_link_lanelet_info lanelet_from
    is_rdv_previously_granted_access schedule_rdvs schedule_rdvs_on consider_each permutation_fuel
    add_ready consider_departure_position_permutation delay_comparator is_flexible largest_position
    place_ready ready_schedule remember_access ascend_here exchange_last next_permutation
    departure_position_comparator total_delay delay_from sub64 get_vehicle_with_id vehicle_from
    get_latest_conflicting latest_from estimate_clearance_time clearance_seconds add64 next_position
    last_schedule assign entering_schedule estimate_entering_time_for_ev first_preceding
    is_preceding pop_vehicle preceding_vehicles schedule_evs schedule_rounds select_next
    stopping_time vehicle_to_be_scheduled_next waiting vehicles_in_lane
    estimate_earliest_time_to_stop_bar estimate_delta_x_prime calculate_acceleration_time
    calculate_cruising_time calculate_deceleration_time calculate_v_hat
vehicles_made = refl

ready_made :
    schedule_rdvs whole all_stop 10000 (b ∷ a ∷ []) ([], [])
    ≡ some (done (a ∷ [], for_a ∷ for_b ∷ []))
unfolding schedule_rdvs schedule_rdvs_on consider_each permutation_fuel add_ready
    consider_departure_position_permutation delay_comparator is_flexible largest_position
    place_ready ready_schedule remember_access ascend_here exchange_last next_permutation
    departure_position_comparator total_delay delay_from sub64 get_vehicle_with_id vehicle_from
    lanelet_from get_link_lanelet_info get_latest_conflicting latest_from estimate_clearance_time
    clearance_seconds add64 next_position last_schedule
ready_made = refl

in_order :
    consider_departure_position_permutation whole all_stop 10000
      (sort departure_position_comparator (b ∷ a ∷ []))
      []
      (next_position [])
    ≡ ok (some (for_a ∷ for_b ∷ []))
unfolding consider_departure_position_permutation is_flexible place_ready ready_schedule
    departure_position_comparator lanelet_from get_link_lanelet_info get_latest_conflicting
    latest_from estimate_clearance_time clearance_seconds add64 next_position last_schedule
in_order = refl

entering_made :
    schedule_evs whole all_stop 10000 (coming ∷ []) (for_a ∷ for_b ∷ [])
    ≡ some (done (for_a ∷ for_b ∷ for_c ∷ []))
unfolding assign entering_schedule estimate_entering_time_for_ev first_preceding is_preceding
    pop_vehicle preceding_vehicles schedule_evs schedule_rounds select_next stopping_time
    vehicle_to_be_scheduled_next waiting vehicles_in_lane distance_comparator sub64
    estimate_earliest_time_to_stop_bar get_entry_lanelet_info estimate_delta_x_prime
    calculate_acceleration_time calculate_cruising_time calculate_deceleration_time calculate_v_hat
    lanelet_from get_link_lanelet_info get_latest_conflicting latest_from estimate_clearance_time
    clearance_seconds add64 next_position last_schedule
entering_made = refl

first_lane : select_next whole all_stop [] 1 [] ((1, (coming, [])) ∷ []) 0 none ≡ ok (some alone)
unfolding select_next stopping_time entering_schedule estimate_entering_time_for_ev
    estimate_earliest_time_to_stop_bar get_entry_lanelet_info estimate_delta_x_prime
    calculate_acceleration_time calculate_cruising_time calculate_deceleration_time calculate_v_hat
    lanelet_from get_link_lanelet_info get_latest_conflicting latest_from estimate_clearance_time
    clearance_seconds add64 next_position last_schedule
first_lane = refl

schedule_vehicles-IsSafe_example :
    IsSafe corner
      (estimate_vehicles_at_common_time whole 10000 everybody)
      []
      (for_a ∷ for_b ∷ for_c ∷ [])
schedule_vehicles-IsSafe_example =
    schedule_vehicles-IsSafe whole all_stop 10000 everybody [] (a ∷ [], for_a ∷ for_b ∷ for_c ∷ [])
      vehicles_made

schedule_vehicles_total_example :
    (out : List (Vehicle ℕ) × List AllStopSchedule) × (schedule_vehicles whole all_stop 10000
        everybody
        ([], [])
      ≡ some out)
schedule_vehicles_total_example = schedule_vehicles_total whole all_stop 10000 everybody ([], [])

schedule_rdvs-Placed_example :
    (ws : List (Vehicle ℕ)) × (new : List AllStopSchedule) × Permᴰ ws (b ∷ a ∷ [])
    × (for_a ∷ for_b ∷ [] ≡ [] ++ new)
    × Placed all_stop (1 + 0) [] ws new
schedule_rdvs-Placed_example =
    schedule_rdvs-Placed whole all_stop 10000 (b ∷ a ∷ []) [] [] (a ∷ [], for_a ∷ for_b ∷ []) tt
      ready_made

schedule_rdvs_least_example : total_delay (for_a ∷ for_b ∷ []) ≤ total_delay (for_a ∷ for_b ∷ [])
schedule_rdvs_least_example =
    schedule_rdvs_least whole all_stop 10000 (b ∷ a ∷ []) [] [] (a ∷ [], for_a ∷ for_b ∷ [])
      (for_a ∷ for_b ∷ []) tt ready_made in_order

schedule_evs-InTurn_example :
    (new : List AllStopSchedule) × (for_a ∷ for_b ∷ for_c ∷ [] ≡ (for_a ∷ for_b ∷ []) ++ new)
    × InTurn whole all_stop 10000
        (for_a ∷ for_b ∷ [])
        (next_position (for_a ∷ for_b ∷ []))
        []
        (vehicle_to_be_scheduled_next
          (sort (distance_comparator whole) (coming ∷ []))
          corner.entry_lanelets
          [])
        new
    × (vs : List (Vehicle ℕ)) × Permᴰ vs (
        everyone (
          vehicle_to_be_scheduled_next
            (sort (distance_comparator whole) (coming ∷ []))
            corner.entry_lanelets
            []))
    × (map (λ s. s.v_id) new ≡ map (λ v. v.id) vs)
schedule_evs-InTurn_example =
    schedule_evs-InTurn whole all_stop 10000 (coming ∷ []) (for_a ∷ for_b ∷ [])
      (for_a ∷ for_b ∷ for_c ∷ []) entering_made

stops_later : StopsLater whole all_stop (1, (coming, []))
unfolding select_next stopping_time entering_schedule estimate_entering_time_for_ev
    estimate_earliest_time_to_stop_bar get_entry_lanelet_info estimate_delta_x_prime
    calculate_acceleration_time calculate_cruising_time calculate_deceleration_time calculate_v_hat
    lanelet_from get_link_lanelet_info get_latest_conflicting latest_from estimate_clearance_time
    clearance_seconds add64 next_position last_schedule
stops_later est h = let eq : 25000 ≡ est = cc h in omega arith

select_next-NoneSooner_example : NoneSooner whole all_stop [] 1 [] alone.st ((1, (coming, [])) ∷ [])
select_next-NoneSooner_example =
    select_next-NoneSooner whole all_stop [] 1 [] ((1, (coming, [])) ∷ []) alone (stops_later, tt)
      first_lane
