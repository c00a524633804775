-- ===== src/Tests/OptRuns.antt =====
-- Two lanes with a signal group each: the green of one is fixed, and a vehicle waits in the other.
use Prim.Native.Nat.{min}
use carma_streets.Base.{
  ℕ, ◌+◌, ◌-◌, ◌/◌, max, ◌≤◌, ◌<◌, ◌≡◌, ◌⊎◌, inr, refl, List, [], ◌∷◌, Any, All, some, ok, done,
  arith, add64, sub64, length, IntMap, ◌&&◌, not, elem,
}
use mathlib.Core.List.{Perm}
use carma_streets.Double.{Double, whole}
use carma_streets.Scheduler.{VehicleSchedule}
use carma_streets.Plan.{GreenTiming, DesiredPhasePlan, TscConfiguration, default_configuration}
use carma_streets.SignalOpt.Groups.{
  new_group, already_added, add_concurrent, add_configured, remove_signal_group,
  remove_signal_groups, populate_movement_groups,
}
use carma_streets.SignalOpt.Groups.Covered.{names, populate_movement_groups-covers}
use carma_streets.SignalOpt.Groups.Removed.{covers}
use carma_streets.SignalOpt.{MovementGroup, Configuration, default_generator_configuration}
use carma_streets.SignalOpt.BasePlan.{order_greens, find_tbd_start_time, clearance_from}
use carma_streets.SignalOpt.BasePlan.Order.{InSequence, order_greens-InSequence}
use carma_streets.SignalOpt.BasePlan.Start.{clearance, IsCleared, find_tbd_start_time-IsCleared}
use carma_streets.SignalOpt.Queues.{get_last_vehicle_in_queue, end_for_queue, green_end}
use carma_streets.SignalOpt.Queues.Bounds.{NoGaps, BeforeLastGap, get_last_vehicle_in_queue-cases}
use carma_streets.SignalOpt.Queues.Served.{IsTime, RoundsUp, AreTimes, green_end-serves}
use carma_streets.SignalOpt.Candidates.{candidate, candidate_list, groups_of}
use carma_streets.SignalOpt.Candidates.Disjoint.{
  Extends, candidate_list-Extends, candidate_list-update_tsc_control_queue,
}
use carma_streets.SnmpCmd.Commands.{SnmpCmd}
use carma_streets.Tsc.Control.{update_tsc_control_queue}
use carma_streets.Tsc.Control.Queue.{Mapped}
use carma_streets.Tests.VehicleRuns.{first, second}

abbrev pub green : ℕ → ℕ → ℕ → GreenTiming
green sg start finish = record { start_time = start; end_time = finish; signal_groups = sg ∷ [] }

order_greens-InSequence_example :
    (out : List GreenTiming) × (order_greens [] (green 6 34000 39000 ∷ green 5 20000 30000 ∷ [])
      ≡ ok out)
    × InSequence out
    × Perm out (green 6 34000 39000 ∷ green 5 20000 30000 ∷ [])
order_greens-InSequence_example =
    order_greens-InSequence (green 6 34000 39000 ∷ green 5 20000 30000 ∷ [])
      (omega arith, (inr (omega arith), tt), (omega arith, tt, tt))

abbrev pub config : TscConfiguration
config =
    record {
      signal_group_id = 5;
      yellow_change_duration = 3000;
      red_clearance = 1000;
      concurrent_signal_groups = [];
    }
    ∷ []

start_found : find_tbd_start_time config (green 5 20000 30000 ∷ []) ≡ ok 34000
unfolding find_tbd_start_time clearance_from add64
    carma_streets.Plan.get_signal_group_configuration_by_sg
start_found = refl

find_tbd_start_time-IsCleared_example :
    (longest : ℕ) × (34000 ≡ add64 30000 longest)
    × (0 < longest)
    × All (IsCleared config longest) (5 ∷ [])
    × Any (λ sg. clearance config sg ≡ longest) (5 ∷ [])
find_tbd_start_time-IsCleared_example =
    find_tbd_start_time-IsCleared config (green 5 20000 30000) [] 34000 start_found

get_last_vehicle_in_queue-cases_example :
    ((get_last_vehicle_in_queue 3000 first (second ∷ []) ≡ second)
      × NoGaps 3000 "a" first (second ∷ []))
    ⊎ BeforeLastGap 3000 "a"
        (first ∷ second ∷ [])
        (get_last_vehicle_in_queue 3000 first (second ∷ []))
get_last_vehicle_in_queue-cases_example = get_last_vehicle_in_queue-cases 3000 first (second ∷ [])

abbrev pub settings : Configuration ℕ
settings = record (default_generator_configuration whole) { so_radius = 1000 }

-- A quotient is rounded up.
abbrev upward : Double ℕ
upward = record whole { div = λ m n. (m + n - 1) / n }

upward-RoundsUp : RoundsUp upward
upward-RoundsUp n h = (omega arith, omega arith)

abbrev in_front : VehicleSchedule
in_front = record first { et = 35010 }

abbrev behind : VehicleSchedule
behind = record second { et = 36120; eet = 36000 }

in_order : All (λ s. (35010 ≤ s.et) × IsTime s.et) (in_front ∷ behind ∷ [])
in_order = ((omega arith, omega arith), ((omega arith, omega arith), tt))

ends_at : green_end upward settings 34000 in_front (behind ∷ []) ≡ some 40200
unfolding green_end end_for_queue add64 carma_streets.SignalOpt.Queues.round_up
    get_last_vehicle_in_queue carma_streets.SignalOpt.Queues.before_gap
    carma_streets.SignalOpt.Queues.is_gap sub64 default_generator_configuration
ends_at = refl

settings_AreTimes : AreTimes upward settings 34000
unfolding default_generator_configuration
settings_AreTimes = (omega arith, omega arith, omega arith, omega arith, omega arith)

room : settings.final_green_buffer ≤ 34000 + settings.max_green
unfolding default_generator_configuration
room = omega arith

abbrev last_one : VehicleSchedule
last_one = get_last_vehicle_in_queue settings.queue_max_time_headway in_front (behind ∷ [])

green_end-serves_example :
    (40200 ≤ 34000 + settings.max_green)
    × (min (34000 + settings.min_green) (34000 + settings.max_green) ≤ 40200)
    × (35010 + settings.final_green_buffer ≤ 40200)
    × (((last_one.et + settings.et_inaccuracy_buffer + settings.final_green_buffer ≤ 40200)
          × ((40200 ≡ 34000 + settings.min_green)
              ⊎ (40200
                  < last_one.et + 100 + settings.et_inaccuracy_buffer
                    + settings.final_green_buffer)))
        ⊎ ((40200 ≡ 34000 + settings.max_green)
            × (40200
                < max
                    (last_one.et + 100 + settings.et_inaccuracy_buffer
                      + settings.final_green_buffer)
                    (34000 + settings.min_green))))
green_end-serves_example =
    green_end-serves upward settings 34000 in_front (behind ∷ []) 40200 upward-RoundsUp
      settings_AreTimes room in_order ends_at

abbrev pub group : ℕ → MovementGroup
group sg = record { name = ""; first = sg; second = 0 }

abbrev fixed : DesiredPhasePlan
fixed = record { timestamp = 10000; desired_phase_plan = green 5 20000 30000 ∷ [] }

abbrev pub proposed : DesiredPhasePlan
proposed = record {
  timestamp = 10000;
  desired_phase_plan = green 5 20000 30000 ∷ green 6 34000 39000 ∷ [];
}

listed :
    candidate_list 34000
      ((3, 39000) ∷ [])
      fixed
      ((5, 1 ∷ []) ∷ (6, 3 ∷ []) ∷ [])
      (green 5 20000 30000 ∷ [])
      (group 5 ∷ group 6 ∷ [])
    ≡ ok (proposed ∷ [])
unfolding candidate_list carma_streets.SignalOpt.Candidates.candidates_after
    carma_streets.SignalOpt.Candidates.can_be_added
    carma_streets.SignalOpt.Candidates.group_candidates
    carma_streets.SignalOpt.Candidates.lane_candidates candidate groups_of
listed = refl

candidate_list-Extends_example :
    All (Extends 34000 ((3, 39000) ∷ []) fixed (5 ∷ [])) (proposed ∷ [])
candidate_list-Extends_example =
    candidate_list-Extends 34000 ((3, 39000) ∷ []) fixed ((5, 1 ∷ []) ∷ (6, 3 ∷ []) ∷ [])
      (green 5 20000 30000) [] (group 5 ∷ group 6 ∷ []) (proposed ∷ []) listed

abbrev phases : IntMap
phases = (5, 1) ∷ (6, 2) ∷ []

groups_Mapped : All (λ mg. Mapped phases (groups_of mg)) (group 5 ∷ group 6 ∷ [])
unfolding carma_streets.Tsc.Snmp.get_phase_number groups_of
groups_Mapped = (((1, refl), tt), (((2, refl), tt), tt))

all_Mapped : Mapped phases (5 ∷ 6 ∷ [])
unfolding carma_streets.Tsc.Snmp.get_phase_number
all_Mapped = ((1, refl), ((2, refl), tt))

candidate_list-update_tsc_control_queue_example :
    All
      (λ plan.
        (out : List SnmpCmd) × (update_tsc_control_queue phases 25000 plan.desired_phase_plan []
          ≡ done out)
        × (length out ≡ 4))
      (proposed ∷ [])
candidate_list-update_tsc_control_queue_example =
    candidate_list-update_tsc_control_queue 34000 ((3, 39000) ∷ []) 10000
      ((5, 1 ∷ []) ∷ (6, 3 ∷ []) ∷ []) (green 5 20000 30000) (group 5 ∷ group 6 ∷ [])
      (proposed ∷ []) phases 25000 [] listed all_Mapped groups_Mapped

-- 1 with 5 and 6, which name 1 again, and 3 alone.
abbrev controller : TscConfiguration
controller =
    record default_configuration { signal_group_id = 1; concurrent_signal_groups = 5 ∷ 6 ∷ [] }
    ∷ record default_configuration { signal_group_id = 5; concurrent_signal_groups = 1 ∷ [] }
    ∷ record default_configuration { signal_group_id = 3 }
    ∷ []

groups_made :
    populate_movement_groups (5 ∷ []) (some controller) []
    ≡ new_group 1 0 ∷ new_group 1 6 ∷ new_group 3 0 ∷ []
unfolding populate_movement_groups add_configured add_concurrent already_added remove_signal_groups
    remove_signal_group
groups_made = refl

populate_movement_groups-covers_example :
    covers (populate_movement_groups (5 ∷ []) (some controller) []) 6
    ≡ (names controller 6 && not (elem 6 (5 ∷ [])))
populate_movement_groups-covers_example =
    populate_movement_groups-covers (5 ∷ []) controller 6
      (
        (omega arith, (omega arith, (omega arith, tt))),
        ((omega arith, (omega arith, tt)), ((omega arith, tt), tt)),
      )
      (omega arith)
