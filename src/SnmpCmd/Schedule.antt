-- ===== src/SnmpCmd/Schedule.antt =====
-- `create_snmp_cmds_by_phase_control_schedule` of src/models/streets_snmp_cmd_converter.cpp. Its five
-- steps are the functions below, in the order of the source. The six `set_val_` variables are `Values`,
-- the six `is_` flags are the tests `is_started`, and each ladder over the control types is one function
-- by clauses.
use carma_streets.Base.{ℕ, List, [], ◌∷◌, ◌++◌, Bool, true, false, ◌&&◌, ltb, ◌==◌, if◌then◌else◌}
use carma_streets.SnmpCmd.Commands.{
  PhaseControlType, call_veh, call_ped, forceoff, hold_veh, omit_veh, omit_ped, CommandType,
  code_of, to_phase_control_type, PhaseControlCommand, SnmpCmd, bitwise_or_phases,
  bitwise_xor_phases,
}
pub mod Order
pub mod Starts
pub mod Times

-- std::map<COMMAND_TYPE, std::vector<int>>
abbrev pub TypePhases : Type 0
TypePhases = List (CommandType × List ℕ)

-- std::map<uint64_t, std::map<COMMAND_TYPE, std::vector<int>>>
abbrev pub TimeCommands : Type 0
TimeCommands = List (ℕ × TypePhases)

-- The new phase goes behind those of its type; a new type stands at its place in the order.
unfoldable pub add_type_phase : CommandType → ℕ → TypePhases → TypePhases
add_type_phase type phase [] = (type, phase ∷ []) ∷ []
add_type_phase type phase ((other, phases) ∷ rest) =
    if code_of type == code_of other
    then (other, phases ++ phase ∷ []) ∷ rest
    else if ltb (code_of type) (code_of other)
    then (type, phase ∷ []) ∷ (other, phases) ∷ rest
    else (other, phases) ∷ add_type_phase type phase rest

-- add_phase_control_schedule_command_to_two_dimension_map
unfoldable pub add_command : ℕ → PhaseControlCommand → TimeCommands → TimeCommands
add_command time c [] = (time, (c.command_type, c.command_phase ∷ []) ∷ []) ∷ []
add_command time c ((other, types) ∷ rest) =
    if time == other
    then (other, add_type_phase c.command_type c.command_phase types) ∷ rest
    else if ltb time other
    then (time, (c.command_type, c.command_phase ∷ []) ∷ []) ∷ (other, types) ∷ rest
    else (other, types) ∷ add_command time c rest

unfoldable pub start_time_map : List PhaseControlCommand → TimeCommands → TimeCommands
start_time_map [] m = m
start_time_map (c ∷ cs) m = start_time_map cs (add_command c.command_start_time c m)

unfoldable pub end_time_map : List PhaseControlCommand → TimeCommands → TimeCommands
end_time_map [] m = m
end_time_map (c ∷ cs) m = end_time_map cs (add_command c.command_end_time c m)

pub record Values : Type 0 where
  pub hold : ℕ
  pub force : ℕ
  pub veh_call : ℕ
  pub ped_call : ℕ
  pub veh_omit : ℕ
  pub ped_omit : ℕ

abbrev pub no_values : Values
no_values = record { hold = 0; force = 0; veh_call = 0; ped_call = 0; veh_omit = 0; ped_omit = 0 }

abbrev pub value : PhaseControlType → Values → ℕ
value call_ped v = v.ped_call
value call_veh v = v.veh_call
value omit_ped v = v.ped_omit
value omit_veh v = v.veh_omit
value forceoff v = v.force
value hold_veh v = v.hold

abbrev pub set_value : PhaseControlType → ℕ → Values → Values
set_value call_ped n v = record v { ped_call = n }
set_value call_veh n v = record v { veh_call = n }
set_value omit_ped n v = record v { ped_omit = n }
set_value omit_veh n v = record v { veh_omit = n }
set_value forceoff n v = record v { force = n }
set_value hold_veh n v = record v { hold = n }

-- set_val = bitwise_xor_phases(set_val, phases), and the `or` form
unfoldable pub xor_value : PhaseControlType → List ℕ → Values → Values
xor_value type phases v = set_value type (bitwise_xor_phases (value type v) phases) v

unfoldable pub or_value : PhaseControlType → List ℕ → Values → Values
or_value type phases v = set_value type (bitwise_or_phases (value type v) phases) v

abbrev pub command_at : ℕ → PhaseControlType → Values → SnmpCmd
command_at time type v = record { start_time = time; control_type = type; set_val = value type v }

-- The loop over the types that end at one time, with a command for each (steps 1.2 and 5).
unfoldable pub end_types : ℕ → TypePhases → Values → Values × List SnmpCmd
end_types time [] v = (v, [])
end_types time ((type, phases) ∷ rest) v =
    let v' = xor_value (to_phase_control_type type) phases v in
    let (after, cmds) = end_types time rest v' in
    (after, command_at time (to_phase_control_type type) v' ∷ cmds)

-- Step 1: end times before the start time and after the previous one.
unfoldable pub ends_before : ℕ → ℕ → TimeCommands → Values → Values × List SnmpCmd
ends_before start prev [] v = (v, [])
ends_before start prev ((time, types) ∷ rest) v =
    let (v', cmds) = if ltb time start && ltb prev time then end_types time types v else (v, []) in
    let (after, more) = ends_before start prev rest v' in (after, cmds ++ more)

-- Step 2: the values of the types that start now, and which types these are.
unfoldable pub start_types : TypePhases → Values → Values
start_types [] v = v
start_types ((type, phases) ∷ rest) v =
    start_types rest (or_value (to_phase_control_type type) phases v)

abbrev pub same_type : PhaseControlType → PhaseControlType → Bool
same_type call_veh call_veh = true
same_type call_ped call_ped = true
same_type forceoff forceoff = true
same_type hold_veh hold_veh = true
same_type omit_veh omit_veh = true
same_type omit_ped omit_ped = true
same_type _ _ = false

unfoldable pub is_started : PhaseControlType → TypePhases → Bool
is_started type [] = false
is_started type ((other, phases) ∷ rest) =
    let later = is_started type rest in
    if same_type type (to_phase_control_type other) then true else later

-- Step 3: types that end at this very start time; no command is pushed for them.
unfoldable pub silent_types : TypePhases → Values → Values
silent_types [] v = v
silent_types ((type, phases) ∷ rest) v =
    silent_types rest (xor_value (to_phase_control_type type) phases v)

unfoldable pub ends_now : ℕ → TimeCommands → Values → Values
ends_now start [] v = v
ends_now start ((time, types) ∷ rest) v =
    ends_now start rest (if time == start then silent_types types v else v)

abbrev pub push_if : Bool → ℕ → PhaseControlType → Values → List SnmpCmd → List SnmpCmd
push_if true time type v cmds = command_at time type v ∷ cmds
push_if false time type v cmds = cmds

-- Step 4: the commands of the start time, in this order of the types.
unfoldable pub start_commands : ℕ → TypePhases → Values → List SnmpCmd
start_commands time types v = push_if (is_started hold_veh types) time hold_veh v (
    push_if (is_started forceoff types) time forceoff v (
      push_if (is_started omit_veh types) time omit_veh v (
        push_if (is_started omit_ped types) time omit_ped v (
          push_if (is_started call_ped types) time call_ped v
            (push_if (is_started call_veh types) time call_veh v [])))))

-- Step 5: end times after the last start time.
unfoldable pub ends_after : ℕ → TimeCommands → Values → List SnmpCmd
ends_after start [] v = []
ends_after start ((time, types) ∷ rest) v =
    let (v', cmds) = if ltb start time then end_types time types v else (v, []) in
    cmds ++ ends_after start rest v'

-- The loop over the start times, then step 5. `prev` is also `snmp_cmd_start_time` of the last round.
unfoldable pub run_starts : ℕ → TimeCommands → TimeCommands → Values → List SnmpCmd
run_starts prev [] ends v = ends_after prev ends v
run_starts prev ((start, types) ∷ rest) ends v =
    let (v1, before) = ends_before start prev ends v in
    let v3 = ends_now start ends (start_types types v1) in
    before ++ (start_commands start types v3 ++ run_starts start rest ends v3)

unfoldable pub create_snmp_cmds_by_phase_control_schedule : List PhaseControlCommand → List SnmpCmd
create_snmp_cmds_by_phase_control_schedule commands =
    run_starts 0 (start_time_map commands []) (end_time_map commands []) no_values
