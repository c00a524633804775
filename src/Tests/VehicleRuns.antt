-- ===== src/Tests/VehicleRuns.antt =====
-- Two vehicles in one lane of an intersection, with whole numbers for the processor's arithmetic.
use Prim.Native.String.{String}
use carma_streets.Base.{
  ℕ, ◌≤◌, ◌≡◌, ◌⊎◌, inl, refl, List, [], ◌∷◌, ◌++◌, Any, none, some, ok, done, arith, add64, sub64,
}
use carma_streets.Double.{whole}
use carma_streets.Vehicles.{Vehicle, entering, new_vehicle}
use carma_streets.Vehicles.VehicleList.{VehicleMap, Processor, process_update}
use carma_streets.Vehicles.VehicleList.Keys.{IsKeyed, process_update-IsKeyed}
use carma_streets.Spat.Time.{
  unknown_times, get_epoch_start_time, get_epoch_min_end_time, convert_hour_tenth_secs2epoch_ts,
}
use carma_streets.Spat.Movement.{MovementEvent, MovementState, protected_movement_allowed}
use carma_streets.Scheduler.{
  LaneletInfo, IntersectionInfo, VehicleSchedule, get_entry_lanelet_info, get_link_lanelet_info,
  lanelet_from,
}
use carma_streets.Scheduler.Motion.{
  calculate_distance_accel_and_decel, calculate_distance_accel_or_decel, calculate_v_hat,
  calculate_acceleration_time, calculate_deceleration_time, calculate_cruising_time,
  calculate_min_headway, calculate_earliest_entering_time, estimate_clearance_time,
}
use carma_streets.Scheduler.Signalized.{
  SignalizedScheduler, entering_schedule, entering_time, first_available, entering_in_green,
  estimate_et, last_end, schedule_lane,
}
use carma_streets.Scheduler.Signalized.Greens.{IsAvailable, MayEnter, InOrder}
use carma_streets.Scheduler.Signalized.Entering.{estimate_et-IsAvailable, estimate_et-least}
use carma_streets.Scheduler.Signalized.Lanes.{Spaced, schedule_lane-Spaced}

abbrev pub car : String → ℕ → Vehicle ℕ
car id distance = record (new_vehicle whole 0) {
  id = id;
  length = 5;
  min_gap = 5;
  reaction_time = 1;
  accel_max = 2;
  decel_max = 2;
  entry_lane_id = 1;
  link_id = 2;
  cur_time = 10000;
  cur_distance = distance;
  cur_speed = 10;
  cur_state = entering;
}

abbrev pub lanelet : ℕ → ℕ → List ℕ → LaneletInfo ℕ
lanelet id group next = record {
  id = id;
  speed_limit = 10;
  length = 20;
  signal_group_id = group;
  connecting_lanelet_ids = next;
  conflict_lanelet_ids = [];
}

abbrev pub crossing : IntersectionInfo ℕ
crossing = record {
  entry_lanelets = lanelet 1 0 (2 ∷ []) ∷ [];
  link_lanelets = lanelet 2 5 [] ∷ [];
}

abbrev pub shown : ℕ → ℕ → MovementEvent
shown start finish = record {
  event_state = protected_movement_allowed;
  timing = record unknown_times { start_time = start; min_end_time = finish };
  speeds = [];
}

-- Green from 20 s to 30 s, and from 50 s to 60 s, of the first hour.
abbrev pub movement : MovementState
movement = record {
  movement_name = "";
  signal_group = 5;
  state_time_speed = shown 200 300 ∷ shown 500 600 ∷ [];
  maneuver_assist_list = [];
}

abbrev pub signals : SignalizedScheduler ℕ
signals = record {
  intersection_info = crossing;
  spat = some (movement ∷ []);
  initial_green_buffer = 2000;
  final_green_buffer = 2000;
}

abbrev pub first : VehicleSchedule
first = entering_schedule (car "a" 100) 20000 22000 2000

abbrev pub second : VehicleSchedule
second = entering_schedule (car "b" 110) 21000 24000 2000

first_made : estimate_et whole 12000 signals (car "a" 100) none movement 10000 ≡ ok first
unfolding estimate_et get_link_lanelet_info calculate_earliest_entering_time get_entry_lanelet_info
    calculate_distance_accel_and_decel calculate_distance_accel_or_decel calculate_v_hat
    calculate_acceleration_time calculate_deceleration_time calculate_cruising_time
    calculate_min_headway estimate_clearance_time entering_time first_available entering_in_green
    get_epoch_start_time get_epoch_min_end_time convert_hour_tenth_secs2epoch_ts add64 sub64
    lanelet_from
first_made = refl

second_made : estimate_et whole 12000 signals (car "b" 110) (some first) movement 10000 ≡ ok second
unfolding estimate_et get_link_lanelet_info calculate_earliest_entering_time get_entry_lanelet_info
    calculate_distance_accel_and_decel calculate_distance_accel_or_decel calculate_v_hat
    calculate_acceleration_time calculate_deceleration_time calculate_cruising_time
    calculate_min_headway estimate_clearance_time entering_time first_available entering_in_green
    get_epoch_start_time get_epoch_min_end_time convert_hour_tenth_secs2epoch_ts add64 sub64
    lanelet_from
second_made = refl

link_found : get_link_lanelet_info crossing (car "b" 110) ≡ ok (lanelet 2 5 [])
unfolding get_link_lanelet_info lanelet_from
link_found = refl

estimate_et-IsAvailable_example :
    IsAvailable 10000 (calculate_min_headway whole (car "b" 110) 10) (some first) 21000 24000
    × (Any (MayEnter whole 12000 signals 24000) movement.state_time_speed
        ⊎ (add64 (last_end whole 12000 signals movement.state_time_speed) 2000 ≤ 24000))
estimate_et-IsAvailable_example =
    estimate_et-IsAvailable whole 12000 signals (car "b" 110) (some first) movement 10000
      (lanelet 2 5 []) second link_found second_made

in_order : InOrder whole 12000 signals movement.state_time_speed
unfolding get_epoch_start_time get_epoch_min_end_time convert_hour_tenth_secs2epoch_ts add64 sub64
in_order = ((omega arith, tt), (tt, tt))

available :
    IsAvailable 10000 (calculate_min_headway whole (car "b" 110) 10) (some first) 21000 25000
unfolding calculate_min_headway add64
available = (omega arith, omega arith, omega arith)

may_enter : Any (MayEnter whole 12000 signals 25000) movement.state_time_speed
unfolding get_epoch_start_time get_epoch_min_end_time convert_hour_tenth_secs2epoch_ts add64 sub64
may_enter = inl (refl, omega arith, omega arith)

estimate_et-least_example : 24000 ≤ 25000
estimate_et-least_example =
    estimate_et-least whole 12000 signals (car "b" 110) (some first) movement 10000 (lanelet 2 5 [])
      second 25000 link_found second_made in_order available may_enter

lane_made :
    schedule_lane whole 12000 signals movement 10000 (car "a" 100 ∷ car "b" 110 ∷ []) none []
    ≡ done (first ∷ second ∷ [])
unfolding schedule_lane
lane_made = rw (first_made, second_made, schedule_lane) refl

schedule_lane-Spaced_example :
    (new : List VehicleSchedule) × (first ∷ second ∷ [] ≡ [] ++ new)
    × Spaced whole 12000 signals 10000 none (car "a" 100 ∷ car "b" 110 ∷ []) new
schedule_lane-Spaced_example =
    schedule_lane-Spaced whole 12000 signals movement 10000 (car "a" 100 ∷ car "b" 110 ∷ []) none []
      (first ∷ second ∷ []) lane_made

-- An update is a vehicle's distance; every one is of vehicle "a".
abbrev intents : Processor ℕ ℕ
intents = record {
  timeout = 5000;
  get_vehicle_id = λ u. ok "a";
  process_status_intent = λ u v. ok (record v { id = "a"; cur_distance = u; cur_time = 20000 });
}

abbrev known : VehicleMap ℕ
known = ("a", car "a" 100) ∷ ("b", car "b" 110) ∷ []

process_update-IsKeyed_example :
    IsKeyed (process_update intents (new_vehicle whole 0) 12000 90 known)
process_update-IsKeyed_example =
    process_update-IsKeyed intents (new_vehicle whole 0) 12000 90 known
      (refl, (refl, tt), (refl, tt, tt))
