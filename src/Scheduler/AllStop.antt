-- ===== src/Scheduler/AllStop.antt =====
-- all_stop_vehicle_scheduler.cpp: schedules for an intersection where every vehicle stops. This file has
-- the data, the motion of one vehicle, the conflicts and the vehicles that were granted access; the
-- children have the three groups of vehicles.
use Prim.Native.String.{String}
use text.Mathlib.Text.{◌==◌ as str_eq}
use carma_streets.Base.{
  ℕ, suc, ◌==◌, ltb, List, [], ◌∷◌, Bool, true, false, ◌||◌, if◌then◌else◌, elem, add64, sub64,
  Option, none, some, Result, ok, err, ◌>>=◌, or_fault, max, vehicle_list_empty, vehicle_not_found,
}
use carma_streets.Double.{Double}
use carma_streets.Plan.{is_empty}
use carma_streets.Vehicles.{Vehicle, VehicleState, is_entering, is_departing}
use carma_streets.Scheduler.{LaneletInfo, IntersectionInfo, get_entry_lanelet_info}
pub mod Conflicts
pub mod Departing
pub mod Positions
pub mod Permutations
pub mod Ready
pub mod Queues
pub mod Service

-- all_stop_vehicle_schedule, with the members of its base. Positions of scheduled vehicles count from 1.
pub record AllStopSchedule : Type 0 where
  pub v_id : String
  pub entry_lane : ℕ
  pub link_id : ℕ
  pub est : ℕ  -- uint64_t, ms since the epoch, as the others
  pub st : ℕ
  pub et : ℕ
  pub dt : ℕ
  pub dp : ℕ
  pub access : Bool
  pub state : VehicleState

pub record AllStopScheduler (F : Type 0) : Type 0 where
  pub intersection_info : IntersectionInfo F
  pub entering_time_buffer : ℕ
  pub flexibility_limit : ℕ

-- The sum of `et - st`, in uint64_t.
unfoldable pub delay_from : ℕ → List AllStopSchedule → ℕ
delay_from total [] = total
delay_from total (s ∷ ss) = delay_from (add64 total (sub64 s.et s.st)) ss

unfoldable pub total_delay : List AllStopSchedule → ℕ
total_delay ss = delay_from 0 ss

-- `back()`, where there is one.
unfoldable pub last_schedule : List AllStopSchedule → Option AllStopSchedule
last_schedule [] = none
last_schedule (s ∷ ss) = elim (last_schedule ss) [ none ↦ some s | some t ↦ some t ]

unfoldable pub next_position : List AllStopSchedule → ℕ
next_position ss = elim (last_schedule ss) [ none ↦ 1 | some s ↦ suc s.dp ]

module _ {F : Type 0} where
  -- The conflicting schedule with the greatest departure time so far; an equal one does not replace it.
  unfoldable pub latest_from :
      LaneletInfo F → Option AllStopSchedule → List AllStopSchedule → Option AllStopSchedule
  latest_from link found [] = found
  latest_from link found (s ∷ ss) =
      latest_from link
        (if elem s.link_id link.conflict_lanelet_ids
          then (elim found [ none ↦ some s | some c ↦ if ltb c.dt s.dt then some s else some c ])
          else found)
        ss

  unfoldable pub get_latest_conflicting :
      LaneletInfo F → List AllStopSchedule → Option AllStopSchedule
  get_latest_conflicting link ss = latest_from link none ss

  unfoldable pub is_rdv_previously_granted_access : List (Vehicle F) → Vehicle F → Bool
  is_rdv_previously_granted_access [] v = false
  is_rdv_previously_granted_access (g ∷ gs) v =
      str_eq g.id v.id || is_rdv_previously_granted_access gs v

  unfoldable pub remove_rdv_previously_granted_access :
      Vehicle F → List (Vehicle F) → List (Vehicle F)
  remove_rdv_previously_granted_access v [] = []
  remove_rdv_previously_granted_access v (g ∷ gs) =
      if str_eq g.id v.id then gs else g ∷ remove_rdv_previously_granted_access v gs

  -- Every match overwrites the result, so the last one stays.
  unfoldable pub vehicle_from : Option (Vehicle F) → String → List (Vehicle F) → Option (Vehicle F)
  vehicle_from found id [] = found
  vehicle_from found id (v ∷ vs) = vehicle_from (if str_eq v.id id then some v else found) id vs

  unfoldable pub get_vehicle_with_id : List (Vehicle F) → String → Result (Vehicle F)
  get_vehicle_with_id vs id =
      if is_empty vs
      then err vehicle_list_empty
      else or_fault (vehicle_from none id vs) vehicle_not_found

module _ {F : Type 0} (d : Double F) where
  open d use {of_ℕ, of_difference, add, sub, neg, mul, div, pow, sqrt, lt, le, ceil_u64}

  unfoldable pub estimate_delta_x_prime : Vehicle F → LaneletInfo F → F
  estimate_delta_x_prime v entry =
      if is_entering v.cur_state
      then sub (div (sub (pow entry.speed_limit 2) (pow v.cur_speed 2)) (mul (of_ℕ 2) v.accel_max))
          (div (pow entry.speed_limit 2) (mul (of_ℕ 2) v.decel_max))
      else neg (of_ℕ 1)

  unfoldable pub calculate_v_hat : Vehicle F → F
  calculate_v_hat v =
      let numerator =
        mul v.decel_max (add (mul (mul (of_ℕ 2) v.cur_distance) v.accel_max) (pow v.cur_speed 2)) in
      sqrt (div numerator (sub v.decel_max v.accel_max))

  unfoldable pub calculate_acceleration_time : Vehicle F → F → F
  calculate_acceleration_time v v_hat =
      if lt v_hat v.cur_speed then of_ℕ 0 else div (sub v_hat v.cur_speed) v.accel_max

  unfoldable pub calculate_cruising_time : Vehicle F → F → F → F
  calculate_cruising_time v v_hat delta_x_prime =
      if lt v_hat v.cur_speed then of_ℕ 0 else div (sub v.cur_distance delta_x_prime) v_hat

  unfoldable pub calculate_deceleration_time : Vehicle F → F → F
  calculate_deceleration_time v v_hat = div (neg v_hat) v.decel_max

  unfoldable pub estimate_earliest_time_to_stop_bar : IntersectionInfo F → Vehicle F → Result ℕ
  estimate_earliest_time_to_stop_bar info v = do
    entry ← get_entry_lanelet_info info v
    let prime = estimate_delta_x_prime v entry
    let reaches = le prime v.cur_distance
    let v_hat = if reaches then entry.speed_limit else calculate_v_hat v
    let t_cruising = if reaches then calculate_cruising_time v v_hat prime else of_ℕ 0
    let t_accel = calculate_acceleration_time v v_hat
    let t_decel = calculate_deceleration_time v v_hat
    let time_to_stop_bar = add (add t_accel t_cruising) t_decel
    ok (add64 (ceil_u64 (mul time_to_stop_bar (of_ℕ 1000))) v.cur_time)

  -- A departing vehicle is somewhere in the link; any other is taken to start at the stop bar.
  unfoldable pub clearance_seconds : Vehicle F → LaneletInfo F → F
  clearance_seconds v link =
      let twice_accel = mul (of_ℕ 2) v.accel_max in
      if is_departing v.cur_state
      then (if lt (div (sub (pow link.speed_limit 2) (pow v.cur_speed 2)) twice_accel)
            v.cur_distance
          then div
              (add (sub (mul twice_accel v.cur_distance) (mul link.speed_limit v.cur_speed))
                (pow v.cur_speed 2))
              (mul twice_accel link.speed_limit)
          else div
              (sub (sqrt (add (pow v.cur_speed 2) (mul twice_accel v.cur_distance))) v.cur_speed)
              v.accel_max)
      else if lt (div (pow link.speed_limit 2) twice_accel) link.length
      then add (div link.length link.speed_limit) (div link.speed_limit twice_accel)
      else sqrt (div (mul (of_ℕ 2) link.length) v.accel_max)

  unfoldable pub estimate_clearance_time : Vehicle F → LaneletInfo F → ℕ
  estimate_clearance_time v link = ceil_u64 (mul (of_ℕ 1000) (clearance_seconds v link))
