-- ===== src/Tests/SnmpRuns.antt =====
-- A schedule of two overlapping commands, and the masks of some phases.
use carma_streets.Base.{◌≡◌, ◌≢◌, ◌⊎◌, refl, All, Any, List, [], ◌∷◌}
use carma_streets.SnmpCmd.Commands.{
  PhaseControlCommand, SnmpCmd, hold_veh_phases, omit_veh_phases, hold_veh, omit_veh,
  bitwise_or_phases, bitwise_xor_phases,
}
use carma_streets.SnmpCmd.Schedule.{create_snmp_cmds_by_phase_control_schedule}
use carma_streets.SnmpCmd.Schedule.Order.{SortedFrom, schedule-SortedFrom}
use carma_streets.SnmpCmd.Schedule.Starts.{Starts, schedule-Starts}

abbrev hold_then_omit : List PhaseControlCommand
hold_then_omit =
    record {
      command_type = hold_veh_phases;
      command_phase = 2;
      command_start_time = 100;
      command_end_time = 200;
    }
    ∷ record {
      command_type = omit_veh_phases;
      command_phase = 4;
      command_start_time = 200;
      command_end_time = 300;
    }
    ∷ []

-- Nothing releases the hold at 200.
abbrev no_release : List SnmpCmd
no_release =
    record { start_time = 100; control_type = hold_veh; set_val = bitwise_or_phases 0 (2 ∷ []) }
    ∷ record { start_time = 200; control_type = omit_veh; set_val = bitwise_or_phases 0 (4 ∷ []) }
    ∷ record {
      start_time = 300;
      control_type = omit_veh;
      set_val = bitwise_xor_phases (bitwise_or_phases 0 (4 ∷ [])) (4 ∷ []);
    }
    ∷ []

schedule-SortedFrom_example :
    SortedFrom 0 (create_snmp_cmds_by_phase_control_schedule hold_then_omit)
schedule-SortedFrom_example = schedule-SortedFrom hold_then_omit

three_commands : create_snmp_cmds_by_phase_control_schedule hold_then_omit ≡ no_release
unfolding create_snmp_cmds_by_phase_control_schedule carma_streets.SnmpCmd.Schedule.start_time_map
    carma_streets.SnmpCmd.Schedule.end_time_map carma_streets.SnmpCmd.Schedule.add_command
    carma_streets.SnmpCmd.Schedule.add_type_phase carma_streets.SnmpCmd.Schedule.run_starts
    carma_streets.SnmpCmd.Schedule.ends_before carma_streets.SnmpCmd.Schedule.end_types
    carma_streets.SnmpCmd.Schedule.start_types carma_streets.SnmpCmd.Schedule.is_started
    carma_streets.SnmpCmd.Schedule.silent_types carma_streets.SnmpCmd.Schedule.ends_now
    carma_streets.SnmpCmd.Schedule.start_commands carma_streets.SnmpCmd.Schedule.ends_after
    carma_streets.SnmpCmd.Schedule.xor_value carma_streets.SnmpCmd.Schedule.or_value
three_commands = refl

schedule-Starts_example :
    All
      (λ c.
        All (λ s. s.command_start_time ≢ c.start_time) hold_then_omit
        ⊎ Any (Starts c) hold_then_omit)
      (create_snmp_cmds_by_phase_control_schedule hold_then_omit)
schedule-Starts_example = schedule-Starts hold_then_omit
