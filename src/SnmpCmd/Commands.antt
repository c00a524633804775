-- ===== src/SnmpCmd/Commands.antt =====
-- include/streets_snmp_cmd.h, include/streets_phase_control_command.h, and the converter's methods on
-- one command (src/models/streets_snmp_cmd_converter.cpp).
use Prim.Native.Nat.{bit_or, bit_xor}
use carma_streets.Base.{ℕ, ◌-◌, ◌^◌, List, [], ◌∷◌, u8}

-- Both enumerations, `PHASE_CONTROL_TYPE` and `COMMAND_TYPE`, in their numbering.
pub data PhaseControlType : Type 0 where
  call_veh call_ped forceoff hold_veh omit_veh omit_ped : PhaseControlType

pub data CommandType : Type 0 where
  call_veh_phases call_ped_phases forceoff_phases : CommandType
  hold_veh_phases omit_veh_phases omit_ped_phases : CommandType

-- The key of the nested `std::map`.
abbrev pub code_of : CommandType → ℕ
code_of call_veh_phases = 1
code_of call_ped_phases = 2
code_of forceoff_phases = 3
code_of hold_veh_phases = 4
code_of omit_veh_phases = 5
code_of omit_ped_phases = 6

abbrev pub to_phase_control_type : CommandType → PhaseControlType
to_phase_control_type call_ped_phases = call_ped
to_phase_control_type call_veh_phases = call_veh
to_phase_control_type forceoff_phases = forceoff
to_phase_control_type hold_veh_phases = hold_veh
to_phase_control_type omit_ped_phases = omit_ped
to_phase_control_type omit_veh_phases = omit_veh

pub record PhaseControlCommand : Type 0 where
  pub command_type : CommandType
  pub command_phase : ℕ
  pub command_start_time : ℕ  -- uint64_t, ms since the epoch
  pub command_end_time : ℕ

-- `set_val_` always holds an integer.
pub record SnmpCmd : Type 0 where
  pub start_time : ℕ
  pub control_type : PhaseControlType
  pub set_val : ℕ

-- `val |= (1 << (phase - 1))` on a `uint8_t`. Phases are positive.
unfoldable pub bitwise_or_phases : ℕ → List ℕ → ℕ
bitwise_or_phases val [] = val
bitwise_or_phases val (phase ∷ phases) =
    bitwise_or_phases (u8 (bit_or val (2 ^ (phase - 1)))) phases

unfoldable pub bitwise_xor_phases : ℕ → List ℕ → ℕ
bitwise_xor_phases val [] = val
bitwise_xor_phases val (phase ∷ phases) =
    bitwise_xor_phases (u8 (bit_xor val (2 ^ (phase - 1)))) phases

unfoldable pub create_snmp_command_by_phases : List ℕ → PhaseControlType → ℕ → SnmpCmd
create_snmp_command_by_phases phases type start_time = record {
  start_time = start_time;
  control_type = type;
  set_val = bitwise_or_phases 0 phases;
}

unfoldable pub create_snmp_reset_command : PhaseControlType → ℕ → SnmpCmd
create_snmp_reset_command type start_time = record {
  start_time = start_time;
  control_type = type;
  set_val = 0;
}

unfoldable pub create_clear_all_snmp_commands : ℕ → List SnmpCmd
create_clear_all_snmp_commands time =
    create_snmp_reset_command call_ped time
    ∷ create_snmp_reset_command call_veh time
    ∷ create_snmp_reset_command omit_ped time
    ∷ create_snmp_reset_command omit_veh time
    ∷ create_snmp_reset_command forceoff time
    ∷ create_snmp_reset_command hold_veh time
    ∷ []
