-- ===== src/Tests/TscRuns.antt =====
-- A controller with two rings, a plan for it, and its call bits.
use carma_streets.Base.{
  ℕ, ◌+◌, ◌≤◌, ◌≡◌, refl, List, [], ◌∷◌, ◌++◌, true, false, length, All, none, some, ok, done,
  arith, add64, sub64,
}
use carma_streets.Plan.{GreenTiming}
use carma_streets.SnmpCmd.Commands.{
  SnmpCmd, hold_veh, omit_veh, create_snmp_command_by_phases, create_snmp_reset_command,
}
use carma_streets.SnmpCmd.Schedule.Order.{SortedFrom}
use carma_streets.Spat.Time.{unknown_times}
use carma_streets.Spat.Movement.{
  MovementPhaseState, MovementEvent, MovementState, dark, stop_and_remain,
  protected_movement_allowed,
}
use carma_streets.Spat.Projection.Chain.{IsLinked}
use carma_streets.Base.{IntMap}
use carma_streets.Tsc.Snmp.{get_phase_number, get_signal_group_id}
use carma_streets.Tsc.State.{
  SignalGroupState, StateMap, TscState, empty_state, get_following_phases, rotate_at,
  get_red_duration, red_duration_from, get_signal_group_to_ped_phase_map,
}
use carma_streets.Tsc.State.Rings.{IsRotation, get_following_phases-IsRotation}
use carma_streets.Tsc.State.Cycle.{cycle, get_red_duration-cycle}
use carma_streets.Tsc.State.Calls.{get_ped_phase_map_never_ends}
use carma_streets.Tsc.Fixed.{project_events}
use carma_streets.Tsc.Fixed.Timeline.{project_events-IsLinked}
use carma_streets.Tsc.Monitor.{
  Monitor, state_of, fixed_green, next_groups, green_end, update_spat_future_movement_events,
}
use carma_streets.Tsc.Monitor.Served.{fixed_green-lasts}
use carma_streets.Tsc.Monitor.Current.{KeepsCurrent, plan_after, update_future-KeepsCurrent}
use carma_streets.Tsc.Control.{
  phase_numbers, create_snmp_command_by_signal_groups, groups_to_omit, any_repeated, middle,
  transition, later_transitions, update_tsc_control_queue,
}
use carma_streets.Tsc.Control.Queue.{Directs, update_queue-Directs, update_queue_total}
use carma_streets.Tsc.Control.Timing.{update_queue-SortedFrom}
use carma_streets.Base.{map}
use carma_streets.SnmpCmd.Commands.{create_clear_all_snmp_commands}
use carma_streets.Tsc.Executor.{Reading, request_of, set_tsc_hold_and_omit_forceoff_call}
use carma_streets.Tsc.Executor.Served.{set_tsc_hold_and_omit_forceoff_call_serves}

-- Signal groups 1 and 2 of phases 2 and 4.
abbrev group_phase : IntMap
group_phase = (1, 2) ∷ (2, 4) ∷ []

abbrev phase_group : IntMap
phase_group = (2, 1) ∷ (4, 2) ∷ []

abbrev green : ℕ → ℕ → ℕ → GreenTiming
green sg start finish = record { start_time = start; end_time = finish; signal_groups = sg ∷ [] }

abbrev plan : List GreenTiming
plan = green 1 10000 20000 ∷ green 2 20000 36000 ∷ green 2 36000 40000 ∷ []

abbrev command : ℕ → ℕ → SnmpCmd
command time phase = create_snmp_command_by_phases (phase ∷ []) hold_veh time

abbrev queue : List SnmpCmd
queue =
    create_snmp_command_by_phases (2 ∷ []) omit_veh 16000
    ∷ create_snmp_command_by_phases (4 ∷ []) hold_veh 20000
    ∷ create_snmp_command_by_phases (2 ∷ []) omit_veh 28000
    ∷ create_snmp_command_by_phases (4 ∷ []) hold_veh 36000
    ∷ create_snmp_reset_command omit_veh 38000
    ∷ create_snmp_reset_command hold_veh 40000
    ∷ []

plan-queue : update_tsc_control_queue group_phase 12000 plan (command 1 2 ∷ []) ≡ done queue
unfolding update_tsc_control_queue later_transitions transition middle add64 sub64 any_repeated
    groups_to_omit create_snmp_command_by_signal_groups phase_numbers get_phase_number
plan-queue = refl

update_queue-Directs_example :
    Directs group_phase (green 1 12000 20000) (green 2 20000 36000 ∷ green 2 36000 40000 ∷ []) queue
update_queue-Directs_example =
    update_queue-Directs group_phase 12000 (green 1 10000 20000) (green 2 20000 36000)
      (green 2 36000 40000 ∷ []) (command 1 2 ∷ []) queue plan-queue

update_queue-SortedFrom_example : SortedFrom 12000 queue
update_queue-SortedFrom_example =
    update_queue-SortedFrom group_phase 12000 (green 1 10000 20000) (green 2 20000 36000)
      (green 2 36000 40000 ∷ []) (command 1 2 ∷ []) queue
      (
        (omega arith),
        (omega arith),
        (omega arith),
        (
          (omega arith),
          (omega arith),
          (omega arith),
          ((omega arith), (omega arith), (omega arith), tt),
        ),
      )
      plan-queue

two_known : (get_phase_number group_phase 1 ≡ ok 2) × (get_phase_number group_phase 2 ≡ ok 4)
unfolding get_phase_number
two_known = (refl, refl)

fresh : any_repeated (1 ∷ []) (2 ∷ []) ≡ false
unfolding any_repeated
fresh = refl

-- The third event repeats the group of the second.
update_queue_total_example :
    (out : List SnmpCmd) × (update_tsc_control_queue group_phase 12000 plan [] ≡ done out)
    × (length out ≡ 6)
update_queue_total_example =
    update_queue_total group_phase 12000 (green 1 10000 20000) (green 2 20000 36000)
      (green 2 36000 40000 ∷ []) [] ((2, two_known.0), ((4, two_known.1), tt))
      (((4, two_known.1), tt), (((4, two_known.1), tt), tt)) fresh

abbrev state : ℕ → ℕ → List ℕ → SignalGroupState
state phase green_ms sequence = record empty_state {
  phase_num = phase;
  min_green = green_ms;
  green_duration = green_ms;
  yellow_duration = 3000;
  red_clearance = 1000;
  phase_seq = sequence;
}

abbrev states : StateMap
states = (1, state 2 5000 (2 ∷ 4 ∷ [])) ∷ (2, state 4 9000 (4 ∷ 2 ∷ [])) ∷ []

abbrev controller : TscState
controller = record {
  states = states;
  group_phase = group_phase;
  vehicle_phase_group = phase_group;
  ped_phase_group = [];
  config =
      record {
        signal_group_id = 1;
        yellow_change_duration = 3000;
        red_clearance = 1000;
        concurrent_signal_groups = [];
      }
      ∷ [];
}

rotated : get_following_phases 4 ((1 ∷ 3 ∷ []) ∷ (2 ∷ 4 ∷ 6 ∷ []) ∷ []) ≡ ok (4 ∷ 6 ∷ 2 ∷ [])
unfolding get_following_phases rotate_at
rotated = refl

get_following_phases-IsRotation_example :
    (before : List (List ℕ)) × (ring : List ℕ) × (after : List (List ℕ)) × ((1 ∷ 3 ∷ [])
        ∷ (2 ∷ 4 ∷ 6 ∷ [])
        ∷ []
      ≡ before ++ ring ∷ after)
    × IsRotation 4 ring (4 ∷ 6 ∷ 2 ∷ [])
get_following_phases-IsRotation_example =
    get_following_phases-IsRotation 4 ((1 ∷ 3 ∷ []) ∷ (2 ∷ 4 ∷ 6 ∷ []) ∷ []) (4 ∷ 6 ∷ 2 ∷ [])
      rotated

group_of_4 : get_signal_group_id phase_group 4 ≡ ok 2
unfolding get_signal_group_id
group_of_4 = refl

red_of_4 : get_red_duration phase_group states 4 ≡ ok 10000
unfolding get_red_duration red_duration_from get_signal_group_id
red_of_4 = refl

get_red_duration-cycle_example : 10000 + 9000 + 3000 ≡ cycle phase_group states (2 ∷ 4 ∷ [])
get_red_duration-cycle_example =
    get_red_duration-cycle phase_group states 4 2 10000 (2 ∷ []) [] group_of_4 refl refl red_of_4

get_ped_phase_map_never_ends_example :
    get_signal_group_to_ped_phase_map 1000 ((2, 5) ∷ (4, 6) ∷ []) ≡ none
get_ped_phase_map_never_ends_example = get_ped_phase_map_never_ends 1000 (2, 5) ((4, 6) ∷ [])

abbrev shown_event : MovementPhaseState → MovementEvent
shown_event s = record {
  event_state = s;
  timing = record unknown_times { start_time = 100 };
  speeds = [];
}

project_events-IsLinked_example :
    (first : MovementEvent) × (later : List MovementEvent) × (project_events 12000 10000
        (shown_event protected_movement_allowed)
        []
        (state 2 5000 [])
      ≡ ok (first ∷ later))
    × (first.event_state ≡ protected_movement_allowed)
    × (length later ≡ 3)
    × IsLinked (first ∷ later)
project_events-IsLinked_example =
    project_events-IsLinked 12000 10000 (shown_event protected_movement_allowed) (state 2 5000 [])
      tt

abbrev next_green : GreenTiming
next_green = green 2 50000 59000

-- Bit 3 stands for phase 4.
fixed : fixed_green 45000 dark controller 8 50000 ≡ ok next_green
unfolding fixed_green next_groups get_signal_group_id green_end add64
fixed = refl

fixed_green-lasts_example :
    (1 ≤ length next_green.signal_groups)
    × (length next_green.signal_groups ≤ 2)
    × (next_green.start_time ≡ 50000)
    × All (λ sg. add64 50000 (state_of states sg).min_green ≤ 59000) (2 ∷ [])
fixed_green-lasts_example = fixed_green-lasts 45000 dark controller 8 50000 next_green fixed

abbrev monitor : Monitor
monitor = record {
  plan = some (record { timestamp = 0; desired_phase_plan = plan });
  last_green_served = 1 ∷ [];
}

abbrev movements : List MovementState
movements =
    record {
      movement_name = "";
      signal_group = 1;
      state_time_speed = shown_event stop_and_remain ∷ [];
      maneuver_assist_list = [];
    }
    ∷ []

update_future-KeepsCurrent_example :
    KeepsCurrent 25000
      (plan_after (update_spat_future_movement_events 25000 dark controller 8 monitor movements))
update_future-KeepsCurrent_example =
    update_future-KeepsCurrent 25000 dark controller 8 monitor movements refl refl

abbrev reading : ℕ → Reading
reading now = record { now = now; replaced = none }

abbrev omit : SnmpCmd
omit = record { start_time = 15000; control_type = omit_veh; set_val = 2 }

abbrev hold : SnmpCmd
hold = record { start_time = 20000; control_type = hold_veh; set_val = 8 }

set_tsc_hold_and_omit_forceoff_call_serves_example :
    set_tsc_hold_and_omit_forceoff_call
      (λ q. true)
      (reading 14000 ∷ reading 15000 ∷ [])
      (record { queue = omit ∷ hold ∷ []; sent = [] })
    ≡ done (record {
      queue = [];
      sent =
          ([] ++ map request_of (create_clear_all_snmp_commands 0))
          ++ map request_of (omit ∷ hold ∷ []);
    })
set_tsc_hold_and_omit_forceoff_call_serves_example =
    set_tsc_hold_and_omit_forceoff_call_serves (λ q. true) (λ q. refl)
      (reading 14000 ∷ reading 15000 ∷ []) omit (hold ∷ []) []
      (refl, omega arith, (refl, omega arith, tt))
