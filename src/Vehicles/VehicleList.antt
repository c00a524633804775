-- ===== src/Vehicles/VehicleList.antt =====
-- streets_utils/streets_vehicle_list/src/models/vehicle_list.cpp: the map from vehicle ids to vehicles.
-- The processor of the messages is an interface there (status_intent_processor): it reads the id from
-- an update, and writes what the update says into a vehicle, or throws. The locks order whole calls.
use Prim.Native.String.{String}
use text.Mathlib.Text.{◌==◌ as str_eq}
use carma_streets.Base.{
  ℕ, ◌==◌, List, [], ◌∷◌, Bool, true, false, ltb, if◌then◌else◌, sub64, Option, none, some, Result,
  ok, err,
}
use carma_streets.Vehicles.{Vehicle, VehicleState, same_vehicle_state}
pub mod Keys

-- std::unordered_map<std::string, vehicle>
abbrev pub VehicleMap : Type 0 → Type 0
VehicleMap F = List (String × Vehicle F)

-- `Update` is the type of the messages.
pub record Processor (F : Type 0) (Update : Type 0) : Type 0 where
  pub timeout : ℕ
  pub get_vehicle_id : Update → Result String
  pub process_status_intent : Update → Vehicle F → Result (Vehicle F)

module _ {F : Type 0} where
  unfoldable pub find_vehicle : String → VehicleMap F → Option (Vehicle F)
  find_vehicle id [] = none
  find_vehicle id ((key, v) ∷ m) = if str_eq key id then some v else find_vehicle id m

  unfoldable pub get_vehicles_by_lane : ℕ → VehicleMap F → List (Vehicle F)
  get_vehicles_by_lane lane [] = []
  get_vehicles_by_lane lane ((key, v) ∷ m) =
      if v.cur_lane_id == lane then v ∷ get_vehicles_by_lane lane m else get_vehicles_by_lane lane m

  unfoldable pub get_vehicles_by_state : VehicleState → VehicleMap F → List (Vehicle F)
  get_vehicles_by_state state [] = []
  get_vehicles_by_state state ((key, v) ∷ m) =
      if same_vehicle_state v.cur_state state
      then v ∷ get_vehicles_by_state state m
      else get_vehicles_by_state state m

  -- `insert` keeps an entry that is there.
  unfoldable pub add_vehicle : Vehicle F → VehicleMap F → VehicleMap F
  add_vehicle new [] = (new.id, new) ∷ []
  add_vehicle new ((key, v) ∷ m) =
      if str_eq key new.id then (key, v) ∷ m else (key, v) ∷ add_vehicle new m

  unfoldable pub update_vehicle : Vehicle F → VehicleMap F → VehicleMap F
  update_vehicle new [] = []
  update_vehicle new ((key, v) ∷ m) =
      if str_eq key new.id then (key, new) ∷ m else (key, v) ∷ update_vehicle new m

  -- `now - timeout` is computed in uint64_t.
  unfoldable pub purge_old_vehicles : ℕ → ℕ → VehicleMap F → VehicleMap F
  purge_old_vehicles now timeout [] = []
  purge_old_vehicles now timeout ((key, v) ∷ m) =
      if ltb v.cur_time (sub64 now timeout)
      then purge_old_vehicles now timeout m
      else (key, v) ∷ purge_old_vehicles now timeout m

  -- The map that is returned is also the one that is kept.
  unfoldable pub get_vehicles :
      {Update : Type 0} → Processor F Update → ℕ → VehicleMap F → VehicleMap F
  get_vehicles p now m = purge_old_vehicles now p.timeout m

  module _ {Update : Type 0} (p : Processor F Update) (blank : Vehicle F) where
    -- The body of `try`: what is found under the id is updated, otherwise a new vehicle is added.
    unfoldable pub take_update : Update → String → VehicleMap F → Result (VehicleMap F)
    take_update update id m = elim (find_vehicle id m) [
      | none ↦ elim (p.process_status_intent update blank) [
        | ok v ↦ ok (add_vehicle v m)
        | err x ↦ err x
      ]
      | some old ↦ elim (p.process_status_intent update old) [
        | ok v ↦ ok (update_vehicle v m)
        | err x ↦ err x
      ]
    ]

    keep_on_error : VehicleMap F → Result (VehicleMap F) → VehicleMap F
    keep_on_error m (ok new) = new
    keep_on_error m (err x) = m

    -- An exception of the processor is caught; the purge stays.
    unfoldable pub process_update : ℕ → Update → VehicleMap F → VehicleMap F
    unfolding keep_on_error
    process_update now update m =
        let kept = purge_old_vehicles now p.timeout m in
        elim (p.get_vehicle_id update) [
          | ok id ↦ keep_on_error kept (take_update update id kept)
          | err x ↦ kept
        ]
