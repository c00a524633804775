-- ===== src/Scheduler.antt =====
-- streets_utils/streets_vehicle_scheduler: what the schedulers share (vehicle_scheduler.cpp,
-- vehicle_sorting.cpp, the schedule types), over the lanelets of the intersection model's REST API.
use Prim.Native.String.{String}
use text.Mathlib.Text.{◌==◌ as str_eq}
use carma_streets.Base.{
  ℕ, ◌+◌, ◌-◌, ◌%◌, ◌==◌, ltb, List, [], ◌∷◌, Bool, true, false, ◌||◌, not, if◌then◌else◌, u64_mod,
  sub64, Option, none, some, Result, ok, err, or_fault, no_entry_lane, no_link_lane, eet_after_et,
}
use carma_streets.Double.{Double}
use carma_streets.Vehicles.{Vehicle, VehicleState, not_defined, FutureInformation}
use carma_streets.Vehicles.VehicleList.{VehicleMap}
pub mod Motion
pub mod Signalized
pub mod AllStop

-- What the schedulers read of OAILanelet_info.
pub record LaneletInfo (F : Type 0) : Type 0 where
  pub id : ℕ
  pub speed_limit : F
  pub length : F
  pub signal_group_id : ℕ
  pub connecting_lanelet_ids : List ℕ
  pub conflict_lanelet_ids : List ℕ

pub record IntersectionInfo (F : Type 0) : Type 0 where
  pub entry_lanelets : List (LaneletInfo F)
  pub link_lanelets : List (LaneletInfo F)

-- signalized_vehicle_schedule, with the members of its base
pub record VehicleSchedule : Type 0 where
  pub v_id : String
  pub entry_lane : ℕ
  pub link_id : ℕ
  pub eet : ℕ  -- uint64_t, ms since the epoch, as the others
  pub et : ℕ
  pub dt : ℕ
  pub state : VehicleState

-- `int(et - eet)`, where the difference is a uint64_t, of which the lower 32 bits are kept.
unfoldable pub get_delay : VehicleSchedule → Result ℕ
get_delay s =
    let delta = sub64 s.et s.eet % 4294967296 in
    if ltb delta 2147483648 then ok delta else err eet_after_et

module _ {F : Type 0} where
  -- Every match overwrites the result, so the last one stays.
  unfoldable pub lanelet_from :
      Option (LaneletInfo F) → ℕ → List (LaneletInfo F) → Option (LaneletInfo F)
  lanelet_from found id [] = found
  lanelet_from found id (l ∷ ls) = lanelet_from (if l.id == id then some l else found) id ls

  unfoldable pub get_entry_lanelet_info : IntersectionInfo F → Vehicle F → Result (LaneletInfo F)
  get_entry_lanelet_info info v =
      or_fault (lanelet_from none v.entry_lane_id info.entry_lanelets) no_entry_lane

  unfoldable pub get_link_lanelet_info : IntersectionInfo F → Vehicle F → Result (LaneletInfo F)
  get_link_lanelet_info info v =
      or_fault (lanelet_from none v.link_id info.link_lanelets) no_link_lane

  -- `erase(it--)` in the loop: the points that are older than the timestamp go.
  unfoldable pub future_points : ℕ → List (FutureInformation F) → List (FutureInformation F)
  future_points timestamp [] = []
  future_points timestamp (p ∷ ps) =
      if ltb p.timestamp timestamp
      then future_points timestamp ps
      else p ∷ future_points timestamp ps

module _ {F : Type 0} (d : Double F) where
  open d use {of_ℕ, of_difference, add, sub, mul, div, lt, le}

  unfoldable pub elapsed : ℕ → Vehicle F → F
  elapsed timestamp v = div (of_difference timestamp v.cur_time) (of_ℕ 1000)

  -- More than five seconds old, or from the future.
  unfoldable pub is_discarded : ℕ → Vehicle F → Bool
  is_discarded timestamp v =
      let delta_t = elapsed timestamp v in lt (of_ℕ 5) delta_t || lt delta_t (of_ℕ 0)

  unfoldable pub estimate_vehicle : ℕ → Vehicle F → Vehicle F
  estimate_vehicle timestamp v =
      let delta_t = elapsed timestamp v in
      let v_final = add v.cur_speed (mul v.cur_accel delta_t) in
      let delta_x = mul (div (add v_final v.cur_speed) (of_ℕ 2)) delta_t in
      record v {
        cur_speed = v_final;
        cur_time = timestamp;
        cur_distance =
            if le (of_ℕ 0) (sub v.cur_distance delta_x) then sub v.cur_distance delta_x else of_ℕ 0;
        future_info = future_points timestamp v.future_info;
      }

  unfoldable pub estimate_each : ℕ → VehicleMap F → VehicleMap F
  estimate_each timestamp [] = []
  estimate_each timestamp ((key, v) ∷ m) =
      (key, (if is_discarded timestamp v then v else estimate_vehicle timestamp v))
      ∷ estimate_each timestamp m

  unfoldable pub vehicles_to_remove : ℕ → VehicleMap F → List String
  vehicles_to_remove timestamp [] = []
  vehicles_to_remove timestamp ((key, v) ∷ m) =
      if is_discarded timestamp v
      then v.id ∷ vehicles_to_remove timestamp m
      else vehicles_to_remove timestamp m

  unfoldable pub erase_vehicle : String → VehicleMap F → VehicleMap F
  erase_vehicle id [] = []
  erase_vehicle id ((key, v) ∷ m) = if str_eq key id then m else (key, v) ∷ erase_vehicle id m

  unfoldable pub erase_all : List String → VehicleMap F → VehicleMap F
  erase_all [] m = m
  erase_all (id ∷ ids) m = erase_all ids (erase_vehicle id m)

  unfoldable pub estimate_vehicles_at_common_time : ℕ → VehicleMap F → VehicleMap F
  estimate_vehicles_at_common_time timestamp m =
      erase_all (vehicles_to_remove timestamp m) (estimate_each timestamp m)

  unfoldable pub distance_comparator : Vehicle F → Vehicle F → Bool
  distance_comparator a b = lt a.cur_distance b.cur_distance

unfoldable pub et_comparator : VehicleSchedule → VehicleSchedule → Bool
et_comparator a b = ltb a.et b.et
