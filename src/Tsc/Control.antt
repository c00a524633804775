-- ===== src/Tsc/Control.antt =====
-- tsc_client_service/src/control_tsc_state.cpp: the queue of omit and hold commands that makes the
-- controller follow a desired phase plan. `now` is the reading of the clock. The execution times are
-- computed in `uint64_t`, and their way through `int64_t` changes no bit. An exception leaves the
-- queue as it was then, so the methods are outcomes.
use carma_streets.Base.{
  ℕ, ◌+◌, ◌/◌, List, [], ◌∷◌, ◌++◌, Bool, true, false, ◌||◌, if◌then◌else◌, elem, add64, sub64,
  Option, none, some, Result, ok, err, ◌>>=◌, Outcome, done, thrown, and_then,
  repeated_signal_group,
}
use carma_streets.Plan.{GreenTiming, DesiredPhasePlan}
use carma_streets.SnmpCmd.Commands.{
  PhaseControlType, hold_veh, omit_veh, PhaseControlCommand, SnmpCmd, create_snmp_command_by_phases,
  create_snmp_reset_command, create_clear_all_snmp_commands,
}
use carma_streets.SnmpCmd.Schedule.{create_snmp_cmds_by_phase_control_schedule}
use carma_streets.Base.{IntMap}
use carma_streets.Tsc.Snmp.{get_phase_number}
pub mod Queue
pub mod Timing

unfoldable pub phase_numbers : IntMap → List ℕ → Result (List ℕ)
phase_numbers groups [] = ok []
phase_numbers groups (sg ∷ sgs) = do
  phase ← get_phase_number groups sg
  phases ← phase_numbers groups sgs
  ok (phase ∷ phases)

unfoldable pub create_snmp_command_by_signal_groups :
    IntMap → List ℕ → PhaseControlType → ℕ → Result SnmpCmd
create_snmp_command_by_signal_groups groups sgs type time = do
  phases ← phase_numbers groups sgs
  ok (create_snmp_command_by_phases phases type time)

-- The signal groups of the map that the event does not have.
unfoldable pub groups_to_omit : IntMap → List ℕ → List ℕ
groups_to_omit [] event = []
groups_to_omit ((sg, phase) ∷ rest) event =
    if elem sg event then groups_to_omit rest event else sg ∷ groups_to_omit rest event

-- The loops that look for a group of the first event in the second.
unfoldable pub any_repeated : List ℕ → List ℕ → Bool
any_repeated [] next = false
any_repeated (sg ∷ sgs) next = if elem sg next then true else any_repeated sgs next

-- `queue.push(create(...))`: an exception of `create` comes before the push.
abbrev pub push : List SnmpCmd → Result SnmpCmd → Outcome (List SnmpCmd)
push queue (ok c) = done (queue ++ c ∷ [])
push queue (err x) = thrown x queue

-- The middle of the interval, in uint64_t.
unfoldable pub middle : ℕ → ℕ → ℕ
middle start finish = add64 start (sub64 finish start / 2)

module _ (groups : IntMap) where
  -- The commands that bring the controller from one event to the next.
  unfoldable pub transition : ℕ → ℕ → List ℕ → List SnmpCmd → Outcome (List SnmpCmd)
  transition omit_time hold_time next queue =
      and_then
        (push queue (
          create_snmp_command_by_signal_groups groups (groups_to_omit groups next) omit_veh
            omit_time))
        (λ q. push q (create_snmp_command_by_signal_groups groups next hold_veh hold_time))

  -- The `while` loop from an event on, and the resets for the last event.
  unfoldable pub later_transitions :
      GreenTiming → List GreenTiming → List SnmpCmd → Outcome (List SnmpCmd)
  later_transitions current [] queue = done (
      (queue
        ++ create_snmp_reset_command omit_veh (middle current.start_time current.end_time) ∷ [])
      ++ create_snmp_reset_command hold_veh current.end_time ∷ [])
  later_transitions current (next ∷ rest) queue =
      and_then
        (transition (middle current.start_time current.end_time) current.end_time next.signal_groups
          queue)
        (λ q. later_transitions next rest q)

  -- The overload for a desired phase plan. The check for repeated groups reads events 0 and 1 in every
  -- round of its loop, so one round stands for all.
  unfoldable pub update_tsc_control_queue :
      ℕ → List GreenTiming → List SnmpCmd → Outcome (List SnmpCmd)
  update_tsc_control_queue now [] queue = done queue
  update_tsc_control_queue now (first ∷ []) queue = done queue
  update_tsc_control_queue now (first ∷ second ∷ rest) queue =
      if any_repeated first.signal_groups second.signal_groups
      then thrown repeated_signal_group queue
      else and_then (transition (middle now first.end_time) first.end_time second.signal_groups [])
          (λ q. later_transitions second rest q)

-- The overload for a phase control schedule: no pointer, a clearing schedule, or commands. The second
-- part is what is sent to the controller at once.
unfoldable pub update_with_schedule :
    Option (Bool × List PhaseControlCommand) → List SnmpCmd → List SnmpCmd × List SnmpCmd
update_with_schedule none queue = (queue, [])
update_with_schedule (some (true, commands)) queue = ([], create_clear_all_snmp_commands 0)
update_with_schedule (some (false, commands)) queue =
    (create_snmp_cmds_by_phase_control_schedule commands, [])
