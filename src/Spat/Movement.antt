-- ===== src/Spat/Movement.antt =====
-- include/movement_event.h, include/movement_state.h, include/advisory_speed.h and
-- include/connection_maneuver_assist.h: the data of a SPaT message.
use Prim.Native.String.{String}
use carma_streets.Base.{ℕ, List, Bool, true, false, ◌==◌}
use carma_streets.Spat.Time.{TimeChangeDetails}

pub data MovementPhaseState : Type 0 where
  unavailable dark stop_then_proceed stop_and_remain pre_movement : MovementPhaseState
  permissive_movement_allowed protected_movement_allowed permissive_clearance : MovementPhaseState
  protected_clearance caution_conflicting_traffic : MovementPhaseState

pub data AdvisorySpeedType : Type 0 where
  none_type greenwave ecodrive transit : AdvisorySpeedType

pub data SpeedConfidence : Type 0 where
  unknown pre100ms prec10ms prec5ms prec1ms prec0_1ms prec0_05ms prec0_01ms : SpeedConfidence

pub record AdvisorySpeed : Type 0 where
  pub type : AdvisorySpeedType
  pub speed : ℕ  -- uint16_t, 0.1 m/s
  pub confidence : SpeedConfidence
  pub distance : ℕ  -- uint16_t, m
  pub veh_class : ℕ  -- uint8_t

pub record ConnectionManeuverAssist : Type 0 where
  pub connection_id : ℕ
  pub queue_length : ℕ
  pub available_storage_length : ℕ
  pub wait_on_stop : Bool
  pub ped_bicycle_detect : Bool

pub record MovementEvent : Type 0 where
  pub event_state : MovementPhaseState
  pub timing : TimeChangeDetails
  pub speeds : List AdvisorySpeed

pub record MovementState : Type 0 where
  pub movement_name : String
  pub signal_group : ℕ  -- uint8_t
  pub state_time_speed : List MovementEvent
  pub maneuver_assist_list : List ConnectionManeuverAssist

abbrev pub is_red : MovementPhaseState → Bool
is_red stop_and_remain = true
is_red _ = false

abbrev pub is_yellow : MovementPhaseState → Bool
is_yellow protected_clearance = true
is_yellow _ = false

abbrev pub is_green : MovementPhaseState → Bool
is_green protected_movement_allowed = true
is_green _ = false

-- `==` of the enumeration.
pub code_of : MovementPhaseState → ℕ
code_of unavailable = 0
code_of dark = 1
code_of stop_then_proceed = 2
code_of stop_and_remain = 3
code_of pre_movement = 4
code_of permissive_movement_allowed = 5
code_of protected_movement_allowed = 6
code_of permissive_clearance = 7
code_of protected_clearance = 8
code_of caution_conflicting_traffic = 9

unfoldable pub same_state : MovementPhaseState → MovementPhaseState → Bool
unfolding code_of
same_state a b = code_of a == code_of b
