-- ===== src/Vehicles.antt =====
-- include/vehicle.h of streets_utils/streets_vehicle_list: the vehicles that the services know.
use Prim.Native.String.{String}
use carma_streets.Base.{ℕ, Bool, true, false, List, []}
use carma_streets.Double.{Double}
pub mod VehicleList

pub data VehicleState : Type 0 where
  entering ready departing leaving not_defined : VehicleState  -- EV, RDV, DV, LV, ND

pub record FutureInformation (F : Type 0) : Type 0 where
  pub timestamp : ℕ
  pub lane_id : ℕ
  pub distance : F

-- `_departure_position` is -1 or positive; it is kept as the number above -1.
pub record Vehicle (F : Type 0) : Type 0 where
  pub id : String
  pub length : F
  pub min_gap : F
  pub reaction_time : F
  pub accel_max : F
  pub decel_max : F
  pub cur_lane_id : ℕ
  pub entry_lane_id : ℕ
  pub exit_lane_id : ℕ
  pub link_id : ℕ
  pub direction : String
  pub link_priority : ℕ
  pub access : Bool
  pub departure_position : ℕ
  pub actual_st : ℕ  -- ms since the epoch, as the other times
  pub actual_et : ℕ
  pub actual_dt : ℕ
  pub cur_time : ℕ
  pub cur_distance : F
  pub cur_speed : F
  pub cur_accel : F
  pub cur_state : VehicleState
  pub future_info : List (FutureInformation F)

abbrev pub is_entering : VehicleState → Bool
is_entering entering = true
is_entering _ = false

abbrev pub is_departing : VehicleState → Bool
is_departing departing = true
is_departing _ = false

abbrev pub same_vehicle_state : VehicleState → VehicleState → Bool
same_vehicle_state entering entering = true
same_vehicle_state ready ready = true
same_vehicle_state departing departing = true
same_vehicle_state leaving leaving = true
same_vehicle_state not_defined not_defined = true
same_vehicle_state _ _ = false

-- A declared vehicle: the members' initialisers. `_link_priority` has none, and `garbage` stands for it.
unfoldable pub new_vehicle : {F : Type 0} → Double F → ℕ → Vehicle F
new_vehicle d garbage = record {
  id = "";
  length = d.of_ℕ 0;
  min_gap = d.of_ℕ 0;
  reaction_time = d.of_ℕ 0;
  accel_max = d.of_ℕ 0;
  decel_max = d.of_ℕ 0;
  cur_lane_id = 0;
  entry_lane_id = 0;
  exit_lane_id = 0;
  link_id = 0;
  direction = "";
  link_priority = garbage;
  access = false;
  departure_position = 0;
  actual_st = 0;
  actual_et = 0;
  actual_dt = 0;
  cur_time = 0;
  cur_distance = d.of_ℕ 0;
  cur_speed = d.of_ℕ 0;
  cur_accel = d.of_ℕ 0;
  cur_state = not_defined;
  future_info = [];
}
