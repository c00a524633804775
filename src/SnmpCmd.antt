-- ===== src/SnmpCmd.antt =====
-- streets_utils/streets_snmp_cmd and the commands of streets_utils/streets_phase_control_schedule: the
-- values that are set on the traffic signal controller, and the queue of timed commands that a phase
-- control schedule is turned into. `std::map` is a list in the order of its keys; `print_two_dimension_map`
-- only logs.
pub mod Masks
pub mod Commands
pub mod Schedule
