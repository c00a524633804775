-- ===== src/Spat/Intersection.antt =====
-- src/models/intersection_state.cpp: the movements of the intersection and their update from the
-- controller's status block. `now` is the reading of the streets clock. `get_movement` returns a
-- reference: a write through it is `replace_movement`. `front()` of an empty list is undefined, and
-- leaves the model as it is; `update_movements` fills every list first.
use Prim.Native.String.{String}
use carma_streets.Base.{
  ℕ, ◌+◌, ◌*◌, ◌/◌, ◌%◌, ◌^◌, Bool, List, [], ◌∷◌, map, Option, none, some, ◌==◌, if◌then◌else◌, u8,
  u16, Result, ok, err, Outcome, done, thrown, within, and_then, no_movement, or_fault,
}
use carma_streets.Spat.Time.{TimeChangeDetails, unknown_times}
use carma_streets.Spat.Movement.{
  MovementPhaseState, dark, stop_then_proceed, stop_and_remain, protected_movement_allowed,
  protected_clearance, caution_conflicting_traffic, MovementEvent, MovementState,
  ConnectionManeuverAssist, same_state,
}
use carma_streets.Spat.Ntcip.{
  Ntcip1202Ext, get_phase_red_status, get_phase_yellow_status, get_phase_green_status,
  get_phase_flashing_status, get_phasetime, get_spat_veh_min_time_to_change,
  get_spat_veh_max_time_to_change,
}
pub mod Store
pub mod Single
pub mod Reported

pub record IntersectionState : Type 0 where
  pub name : String
  pub id : ℕ  -- uint16_t
  pub revision : ℕ  -- uint8_t
  pub status : ℕ  -- uint8_t
  pub moy : ℕ  -- uint32_t
  pub time_stamp : ℕ  -- uint16_t
  pub enabled_lanes : List ℕ
  pub states : List MovementState
  pub maneuver_assist_list : List ConnectionManeuverAssist

-- The first movement with the signal group, as `get_movement` finds it.
unfoldable pub find_movement : ℕ → List MovementState → Option MovementState
find_movement sg [] = none
find_movement sg (m ∷ ms) = if m.signal_group == sg then some m else find_movement sg ms

unfoldable pub get_movement : ℕ → List MovementState → Result MovementState
get_movement sg ms = or_fault (find_movement sg ms) no_movement

-- A write through the reference that `get_movement` returned.
unfoldable pub replace_movement : ℕ → MovementState → List MovementState → List MovementState
replace_movement sg new [] = []
replace_movement sg new (m ∷ ms) =
    if m.signal_group == sg then new ∷ ms else m ∷ replace_movement sg new ms

unfoldable pub initialize_movement_states : List (ℕ × ℕ) → List MovementState
initialize_movement_states [] = []
initialize_movement_states ((phase, sg) ∷ rest) =
    record {
      movement_name = "";
      signal_group = u8 sg;
      state_time_speed = [];
      maneuver_assist_list = [];
    }
    ∷ initialize_movement_states rest

-- `movement_event cur_event;` leaves `event_state` without a value: `garbage` stands for what it holds.
unfoldable pub current_event : MovementPhaseState → MovementEvent
current_event garbage = record { event_state = garbage; timing = unknown_times; speeds = [] }

-- The body of the loop in `clear_future_movement_events`, and of the first in `update_movements`.
unfoldable pub current_only : MovementPhaseState → List MovementEvent → List MovementEvent
current_only garbage [] = current_event garbage ∷ []
current_only garbage (e ∷ es) = e ∷ []

unfoldable pub clear_movement : MovementPhaseState → MovementState → MovementState
clear_movement garbage m = record m { state_time_speed = current_only garbage m.state_time_speed }

unfoldable pub clear_future_movement_events :
    MovementPhaseState → List MovementState → List MovementState
clear_future_movement_events garbage = map (clear_movement garbage)

-- The signal indication that the block reports for a phase.
unfoldable pub reported_state : Ntcip1202Ext → ℕ → MovementPhaseState
reported_state d phase =
    let flashing = get_phase_flashing_status d phase in
    if get_phase_red_status d phase
    then (if flashing then stop_then_proceed else stop_and_remain)
    else if get_phase_yellow_status d phase
    then (if flashing then caution_conflicting_traffic else protected_clearance)
    else if get_phase_green_status d phase
    then protected_movement_allowed
    else dark

-- `tenths m s ms` is the double `(m * 60 + s + ms / 1000) * 10`, truncated.
module _ (tenths : ℕ → ℕ → ℕ → ℕ) (now : ℕ) where
  unfoldable pub convert_offset : ℕ → ℕ
  convert_offset offset =
      let tp = (now + offset * 100) % 3600000 in
      u16 (tenths (tp / 60000) (tp / 1000 % 60) (tp % 1000))

  -- Each branch of `update_movement_state`: the start time is now if the indication is a new one.
  unfoldable pub enter_state : MovementPhaseState → MovementEvent → MovementEvent
  enter_state s e =
      if same_state e.event_state s
      then record e { event_state = s }
      else record e { event_state = s; timing = record t { start_time = convert_offset 0 } }
    where
      t : TimeChangeDetails
      t = e.timing

  unfoldable pub set_end_times : Ntcip1202Ext → ℕ → MovementEvent → Result MovementEvent
  set_end_times d phase e = elim (get_phasetime d phase) [
    | ok p ↦
        let t = e.timing in
        ok (record e {
          timing = record t {
            max_end_time = convert_offset (get_spat_veh_max_time_to_change p);
            min_end_time = convert_offset (get_spat_veh_min_time_to_change p);
          };
        })
    | err x ↦ err x
  ]

  -- The movement's list after the call, with the exception that ends it.
  unfoldable pub update_events :
      Ntcip1202Ext → ℕ → List MovementEvent → Outcome (List MovementEvent)
  update_events d phase [] = done []
  update_events d phase (e ∷ es) =
      let entered = enter_state (reported_state d phase) e in
      elim (set_end_times d phase entered) [
        | ok e' ↦ done (e' ∷ es)
        | err x ↦ thrown x (entered ∷ es)
      ]

  unfoldable pub update_movement_state :
      Ntcip1202Ext → ℕ → ℕ → List MovementState → Outcome (List MovementState)
  update_movement_state d sg phase ms = elim (find_movement sg ms) [
    | none ↦ thrown no_movement ms
    | some m ↦
        within (λ es. replace_movement sg (record m { state_time_speed = es }) ms)
          (update_events d phase m.state_time_speed)
  ]

  -- The second loop, over the map of phases to signal groups.
  unfoldable pub update_each :
      Ntcip1202Ext → List (ℕ × ℕ) → List MovementState → Outcome (List MovementState)
  update_each d [] ms = done ms
  update_each d ((phase, sg) ∷ rest) ms =
      and_then (update_movement_state d sg phase ms) (λ ms'. update_each d rest ms')

  unfoldable pub update_movements :
      MovementPhaseState
      → Ntcip1202Ext
      → List (ℕ × ℕ)
      → List MovementState
      → Outcome (List MovementState)
  update_movements garbage d phases ms =
      update_each d phases (clear_future_movement_events garbage ms)
