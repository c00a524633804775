-- ===== src/Lib.antt =====
-- The signal timing core of CARMA Streets: the SPaT message that an intersection sends to vehicles, the
-- desired phase plan that the signal optimization asks for, and the commands that make a traffic
-- signal controller follow it.
--
-- Base holds shared helpers: tests, lists, exceptions as values (`Result` where a method throws before
-- it writes, `Outcome` where it can throw half way), and machine words.
-- The data of streets_utils/streets_desired_phase_plan and streets_utils/streets_tsc_configuration stands
-- in the module Plan.
-- Spat is streets_utils/streets_signal_phase_and_timing. Spat/Time is time_change_details.cpp,
-- Spat/Movement the data of the message, Spat/Ntcip the status block ntcip_1202_ext.cpp,
-- Spat/Intersection is intersection_state.cpp (`update_movements`, `clear_future_movement_events`),
-- Spat/Message is the message object of spat.cpp with its update from the controller, and
-- Spat/Projection is `update_spat_with_candidate_dpp` of spat.cpp with what it calls.
-- SnmpCmd is streets_utils/streets_snmp_cmd: SnmpCmd/Commands the commands, SnmpCmd/Schedule the
-- conversion `create_snmp_cmds_by_phase_control_schedule`.
-- Tsc is tsc_client_service/src: Tsc/Snmp and Tsc/State are monitor_tsc_state.cpp, Tsc/Fixed its
-- `add_future_movement_events`, Tsc/Monitor is monitor_desired_phase_plan.cpp, and Tsc/Control is
-- control_tsc_state.cpp. Tsc/Executor is the loop `control_tsc_phases` of tsc_service.cpp, with
-- `run_snmp_cmd_set_request` of control_tsc_state.cpp; what it reads in each round is an argument.
-- Vehicles is streets_utils/streets_vehicle_list: the vehicle, and in Vehicles/VehicleList the list with
-- its purge and update. Scheduler is streets_utils/streets_vehicle_scheduler: the common time of
-- vehicle_scheduler.cpp, Scheduler/Motion and Scheduler/Signalized signalized_vehicle_scheduler.cpp.
-- Scheduler/AllStop is all_stop_vehicle_scheduler.cpp: Departing, Ready and Queues are `schedule_dvs`,
-- `schedule_rdvs` and `schedule_evs`, and Service is `schedule_vehicles`, which calls them in this order.
-- SignalOpt is streets_utils/streets_signal_optimization: SignalOpt/BasePlan, Queues, Candidates and
-- Generator are streets_desired_phase_plan_generator.cpp, in the order of its calls, and
-- SignalOpt/Arbitrator is streets_desired_phase_plan_arbitrator.cpp. SignalOpt/Groups are the movement
-- groups of signal_opt_service/src/signal_opt_service.cpp.
-- Tests holds runs of the theorems on concrete inputs.
--
-- The parts meet as in the program: Tsc/State reads the controller and makes the configuration with
-- which Spat/Projection works; Tsc/Monitor prunes the plan and calls Spat/Projection with it, or with
-- one fixed green; SignalOpt/Generator schedules the vehicles of the list with Scheduler over the same
-- SPaT message, SignalOpt/Arbitrator projects each candidate with Spat/Projection; Tsc/Control turns a
-- plan or a schedule into a queue of commands of SnmpCmd, which Tsc/Executor sends.
--
-- The reading of the clock is an argument `now`, one for each call. The SNMP client is a record of its
-- answers. A member that the source leaves without an initialiser has an argument `garbage` for its
-- value. `uint64_t` and `uint8_t` arithmetic wraps. Maps are association lists; the order of an
-- unordered map is that of the list. Loops are structural recursion. On fuel run only
-- `get_signal_group_to_ped_phase_map`, whose loop does not advance, the loop of `schedule_rdvs` over the
-- permutations, with as much as there are numbers of as many digits as vehicles, since each permutation
-- is a greater one, and the rounds of `schedule_evs`, one for each vehicle. `std::next_permutation` and
-- `sort` are written out as the standard has them, for any comparison.
--
-- `double` and `float` arithmetic is the record of operations in Double, an argument; no law of it is
-- assumed but those that a theorem names. The processor that reads vehicle messages is an argument.
--
-- Not modelled: JSON, logging, Kafka, sockets and threads; Lanelet2 geometry;
-- generated code.

pub mod Base
pub mod Double
pub mod Plan
pub mod Spat
pub mod SnmpCmd
pub mod Tsc
pub mod Vehicles
pub mod Scheduler
pub mod SignalOpt
pub mod Tests
