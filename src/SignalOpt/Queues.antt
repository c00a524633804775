-- ===== src/SignalOpt/Queues.antt =====
-- streets_desired_phase_plan_generator.cpp: the queue of each entry lane, and the green that it needs.
use Prim.Native.String.{String}
use Prim.Native.Nat.{min}
use text.Mathlib.Text.{◌==◌ as str_eq}
use carma_streets.Base.{
  ℕ, ◌*◌, ◌%◌, ◌==◌, ltb, leb, max, List, [], ◌∷◌, map, Bool, ◌&&◌, not, if◌then◌else◌, last, add64,
  sub64, u64_mod, insert, sort, Option, none, some, Result, ok, err, ◌>>=◌, map_result, or_fault,
  no_vehicle,
}
use carma_streets.Double.{Double}
use carma_streets.Plan.{is_empty}
use carma_streets.Vehicles.{is_entering}
use carma_streets.Vehicles.VehicleList.{VehicleMap, find_vehicle}
use carma_streets.Scheduler.{LaneletInfo, VehicleSchedule, et_comparator}
use carma_streets.SignalOpt.{Configuration}
pub mod Bounds
pub mod Served

-- The schedules of the entering vehicles within the radius; `vehicles.at` throws for an unknown one.
unfoldable pub get_ev_schedules_within_so :
    {F : Type 0}
    → Double F
    → F
    → VehicleMap F
    → List VehicleSchedule
    → Result (List VehicleSchedule)
get_ev_schedules_within_so d so_radius vehicles [] = ok []
get_ev_schedules_within_so d so_radius vehicles (s ∷ ss) =
    let rest = get_ev_schedules_within_so d so_radius vehicles ss in
    if is_entering s.state
    then (or_fault (find_vehicle s.v_id vehicles) no_vehicle >>= λ v.
        if d.le v.cur_distance so_radius then map_result (λ out. s ∷ out) rest else rest)
    else rest

-- Those of one lane that enter in the time that is to be decided.
unfoldable pub schedules_in_lane : ℕ → ℕ → List VehicleSchedule → List VehicleSchedule
schedules_in_lane tbd_start lane [] = []
schedules_in_lane tbd_start lane (s ∷ ss) =
    if is_entering s.state && s.entry_lane == lane && leb tbd_start s.et
    then s ∷ schedules_in_lane tbd_start lane ss
    else schedules_in_lane tbd_start lane ss

unfoldable pub get_schedules_in_tbd_per_lane :
    {F : Type 0}
    → ℕ
    → List VehicleSchedule
    → List (LaneletInfo F)
    → List (ℕ × List VehicleSchedule)
    → List (ℕ × List VehicleSchedule)
get_schedules_in_tbd_per_lane tbd_start evs [] lanes = lanes
get_schedules_in_tbd_per_lane tbd_start evs (l ∷ ls) lanes =
    get_schedules_in_tbd_per_lane tbd_start evs ls (
      if is_empty (schedules_in_lane tbd_start l.id evs)
      then lanes
      else insert l.id (sort et_comparator (schedules_in_lane tbd_start l.id evs)) lanes)

-- The test of the loop: `s` is behind `previous`, and is not held up.
unfoldable pub is_gap : ℕ → String → VehicleSchedule → VehicleSchedule → Bool
is_gap headway front previous s =
    not (str_eq s.v_id front) && s.et == s.eet && leb headway (sub64 s.et previous.et)

-- The vehicle before the last gap of the queue. The loop is at the vehicles behind `previous`.
unfoldable pub before_gap :
    ℕ
    → String
    → VehicleSchedule
    → Option VehicleSchedule
    → List VehicleSchedule
    → Option VehicleSchedule
before_gap headway front previous found [] = found
before_gap headway front previous found (s ∷ ss) =
    before_gap headway front s (if is_gap headway front previous s then some previous else found) ss

unfoldable pub get_last_vehicle_in_queue :
    ℕ → VehicleSchedule → List VehicleSchedule → VehicleSchedule
get_last_vehicle_in_queue headway front rest =
    elim (before_gap headway front.v_id front none rest) [ none ↦ last front rest | some s ↦ s ]

module _ {F : Type 0} (d : Double F) (config : Configuration F) (tbd_start : ℕ) where
  -- `uint64_t(std::ceil(double(et)/100.0) * 100)`
  unfoldable pub round_up : ℕ → ℕ
  round_up et = d.ceil_u64 (d.div (d.of_ℕ et) (d.of_ℕ 100)) * 100 % u64_mod

  -- The end of the green that clears the queue, not cut by the longest green.
  unfoldable pub end_for_queue : VehicleSchedule → ℕ
  end_for_queue back =
      max (add64 (add64 (round_up back.et) config.et_inaccuracy_buffer) config.final_green_buffer)
        (add64 tbd_start config.min_green)

  -- None if the longest green would not serve even the first vehicle.
  unfoldable pub green_end : VehicleSchedule → List VehicleSchedule → Option ℕ
  green_end front rest =
      let needed =
        end_for_queue (get_last_vehicle_in_queue config.queue_max_time_headway front rest) in
      let out = min needed (add64 tbd_start config.max_green) in
      if ltb out needed && leb (sub64 out config.final_green_buffer) front.et
      then none
      else some out

  unfoldable pub get_green_end_per_entry_lane : List (ℕ × List VehicleSchedule) → List (ℕ × ℕ)
  get_green_end_per_entry_lane [] = []
  get_green_end_per_entry_lane ((lane, []) ∷ lanes) = get_green_end_per_entry_lane lanes
  get_green_end_per_entry_lane ((lane, (s ∷ ss)) ∷ lanes) =
      let rest = get_green_end_per_entry_lane lanes in
      elim (green_end s ss) [ none ↦ rest | some t ↦ (lane, t) ∷ rest ]
