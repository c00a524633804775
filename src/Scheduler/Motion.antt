-- ===== src/Scheduler/Motion.antt =====
-- signalized_vehicle_scheduler.cpp: the motion of one vehicle up to the stop bar, from the kinematic
-- formulas of the source, in the order of its operations.
use carma_streets.Base.{ℕ, ◌&&◌, ◌||◌, if◌then◌else◌, add64, Result, ok, err, ◌>>=◌, not_entering}
use carma_streets.Double.{Double}
use carma_streets.Vehicles.{Vehicle, is_entering, is_departing}
use carma_streets.Scheduler.{IntersectionInfo, get_entry_lanelet_info, get_link_lanelet_info}

module _ {F : Type 0} (d : Double F) where
  open d use {of_ℕ, add, sub, mul, div, pow, sqrt, lt, le, ceil_u64}

  unfoldable pub calculate_distance_accel_and_decel : Vehicle F → F → F → F
  calculate_distance_accel_and_decel v max_speed departure_speed =
      add (div (sub (pow max_speed 2) (pow v.cur_speed 2)) (mul (of_ℕ 2) v.accel_max))
        (div (sub (pow departure_speed 2) (pow max_speed 2)) (mul (of_ℕ 2) v.decel_max))

  unfoldable pub calculate_distance_accel_or_decel : Vehicle F → F → F
  calculate_distance_accel_or_decel v departure_speed =
      if le v.cur_speed departure_speed
      then div (sub (pow departure_speed 2) (pow v.cur_speed 2)) (mul (of_ℕ 2) v.accel_max)
      else div (sub (pow departure_speed 2) (pow v.cur_speed 2)) (mul (of_ℕ 2) v.decel_max)

  unfoldable pub calculate_v_hat : Vehicle F → F → F → F → F → F → F
  calculate_v_hat v max_speed departure_speed delta_x delta_x_prime delta_x_zegond =
      if le delta_x_prime delta_x
      then max_speed
      else if lt delta_x delta_x_prime && le delta_x_zegond delta_x
      then sqrt (
          div
            (sub
              (add (mul (mul (mul (of_ℕ 2) delta_x) v.decel_max) v.accel_max)
                (mul v.decel_max (pow v.cur_speed 2)))
              (mul v.accel_max (pow departure_speed 2)))
            (sub v.decel_max v.accel_max))
      else if le v.cur_speed departure_speed
      then sqrt (add (mul (mul (of_ℕ 2) delta_x) v.accel_max) (pow v.cur_speed 2))
      else sqrt (add (mul (mul (of_ℕ 2) delta_x) v.decel_max) (pow v.cur_speed 2))

  unfoldable pub calculate_acceleration_time : Vehicle F → F → F → F → F → F
  calculate_acceleration_time v v_hat departure_speed delta_x delta_x_zegond =
      if (le delta_x_zegond delta_x || le v.cur_speed departure_speed) && le v.cur_speed v_hat
      then div (sub v_hat v.cur_speed) v.accel_max
      else of_ℕ 0

  unfoldable pub calculate_deceleration_time : Vehicle F → F → F → F → F → F
  calculate_deceleration_time v v_hat departure_speed delta_x delta_x_zegond =
      if lt delta_x delta_x_zegond && lt departure_speed v.cur_speed
      then (if le v_hat v.cur_speed then div (sub v_hat v.cur_speed) v.decel_max else of_ℕ 0)
      else if le delta_x_zegond delta_x && le departure_speed v_hat
      then div (sub departure_speed v_hat) v.decel_max
      else of_ℕ 0

  unfoldable pub calculate_cruising_time : F → F → F → F
  calculate_cruising_time v_hat delta_x delta_x_prime =
      if lt delta_x_prime delta_x then div (sub delta_x delta_x_prime) v_hat else of_ℕ 0

  unfoldable pub calculate_min_headway : Vehicle F → F → ℕ
  calculate_min_headway v speed =
      ceil_u64 (mul (of_ℕ 1000) (add v.reaction_time (div (add v.length v.min_gap) speed)))

  module _ (info : IntersectionInfo F) where
    unfoldable pub calculate_earliest_entering_time : Vehicle F → Result ℕ
    calculate_earliest_entering_time v =
        if is_entering v.cur_state
        then (do
          entry ← get_entry_lanelet_info info v
          link ← get_link_lanelet_info info v
          let delta_x = v.cur_distance
          let prime = calculate_distance_accel_and_decel v entry.speed_limit link.speed_limit
          let zegond = calculate_distance_accel_or_decel v link.speed_limit
          let v_hat = calculate_v_hat v entry.speed_limit link.speed_limit delta_x prime zegond
          let t_accel = calculate_acceleration_time v v_hat link.speed_limit delta_x zegond
          let t_decel = calculate_deceleration_time v v_hat link.speed_limit delta_x zegond
          let t_cruising = calculate_cruising_time v_hat delta_x prime
          ok (add64 (ceil_u64 (mul (add (add t_accel t_cruising) t_decel) (of_ℕ 1000))) v.cur_time))
        else err not_entering

    unfoldable pub estimate_clearance_time : Vehicle F → Result ℕ
    estimate_clearance_time v = do
      link ← get_link_lanelet_info info v
      ok (
          if is_departing v.cur_state
          then ceil_u64 (div (mul (of_ℕ 1000) v.cur_distance) v.cur_speed)
          else ceil_u64 (div (mul (of_ℕ 1000) link.length) link.speed_limit))
