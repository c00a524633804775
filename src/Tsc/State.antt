-- ===== src/Tsc/State.antt =====
-- tsc_client_service/src/monitor_tsc_state.cpp: the signal groups of the controller, their phases, rings
-- and durations. Where `initialize` throws, the half-filled object is given up and is not modelled.
use carma_streets.Base.{
  ℕ, zero, suc, ◌+◌, ◌-◌, ◌*◌, ◌/◌, ◌%◌, ◌^◌, List, [], ◌∷◌, ◌++◌, map, Bool, true, false, ◌==◌,
  if◌then◌else◌, elem, Option, none, some, u8, u16, Fault, Result, ok, err, ◌>>=◌, or_fault,
  snmp_failed, no_following_phases,
}
use carma_streets.Plan.{SignalGroupConfiguration, TscConfiguration}
use carma_streets.Base.{IntMap, lookup, insert}
use carma_streets.Tsc.Snmp.{
  SnmpClient, int_or_zero, get_max_channels, get_max_rings, get_channels,
  get_phases_associated_with_channel, get_active_ring_sequences, get_min_green, get_max_green,
  get_yellow_duration, get_red_clearance, get_signal_group_id, get_concurrent_signal_groups,
  convert_phases_to_signal_groups, veh_calls_1_8, veh_calls_9_16, ped_calls_1_8, ped_calls_9_16,
}
pub mod Rings
pub mod Cycle
pub mod Calls

pub record SignalGroupState : Type 0 where
  pub phase_num : ℕ
  pub min_green : ℕ  -- ms, as the others
  pub max_green : ℕ
  pub green_duration : ℕ
  pub yellow_duration : ℕ
  pub red_clearance : ℕ
  pub red_duration : ℕ
  pub phase_seq : List ℕ
  pub concurrent_signal_groups : List ℕ

-- What `operator[]` inserts for a missing key.
abbrev pub empty_state : SignalGroupState
empty_state = record {
  phase_num = 0;
  min_green = 0;
  max_green = 0;
  green_duration = 0;
  yellow_duration = 0;
  red_clearance = 0;
  red_duration = 0;
  phase_seq = [];
  concurrent_signal_groups = [];
}

abbrev pub StateMap : Type 0
StateMap = List (ℕ × SignalGroupState)

abbrev pub state_or_empty : Option SignalGroupState → SignalGroupState
state_or_empty none = empty_state
state_or_empty (some s) = s

-- `ring[i] == phase_num`: the phases from `i` on, then those before it.
unfoldable pub rotate_at : ℕ → List ℕ → List ℕ → Option (List ℕ)
rotate_at phase before [] = none
rotate_at phase before (q ∷ qs) =
    if q == phase then some ((q ∷ qs) ++ before) else rotate_at phase (before ++ q ∷ []) qs

unfoldable pub get_following_phases : ℕ → List (List ℕ) → Result (List ℕ)
get_following_phases phase [] = err no_following_phases
get_following_phases phase (ring ∷ rings) =
    let later = get_following_phases phase rings in
    elim (rotate_at phase [] ring) [ none ↦ later | some sequence ↦ ok sequence ]

abbrev pub in_some : ℕ → List (List ℕ) → Bool
in_some phase [] = false
in_some phase (ring ∷ rings) = if elem phase ring then true else in_some phase rings

-- The vehicle phases that stay, and the map from signal groups to phases.
unfoldable pub map_phase_and_signalgroup : List (List ℕ) → IntMap → IntMap → IntMap × IntMap
map_phase_and_signalgroup rings [] groups = ([], groups)
map_phase_and_signalgroup rings ((phase, sg) ∷ rest) groups =
    let found = in_some phase rings in
    let (phases, groups') =
      map_phase_and_signalgroup rings rest (if found then insert sg phase groups else groups) in
    ((if found then (phase, sg) ∷ phases else phases), groups')

-- The loop of `get_red_duration` over the phases of the sequence.
unfoldable pub red_duration_from : IntMap → StateMap → ℕ → ℕ → List ℕ → Result ℕ
red_duration_from phases states phase red [] = ok red
red_duration_from phases states phase red (q ∷ qs) = do
  sg ← get_signal_group_id phases q
  let s = state_or_empty (lookup sg states)
  red_duration_from phases states phase
      (if q == phase then red else red + (s.green_duration + s.yellow_duration + s.red_clearance))
      qs

unfoldable pub get_red_duration : IntMap → StateMap → ℕ → Result ℕ
get_red_duration phases states phase = do
  sg ← get_signal_group_id phases phase
  let s = state_or_empty (lookup sg states)
  red_duration_from phases states phase s.red_clearance s.phase_seq

abbrev configuration_of : ℕ × SignalGroupState → SignalGroupConfiguration
configuration_of (sg, s) = record {
  signal_group_id = u8 sg;
  yellow_change_duration = u16 s.yellow_duration;
  red_clearance = u16 s.red_clearance;
  concurrent_signal_groups = map u8 s.concurrent_signal_groups;
}

unfoldable pub define_tsc_config_state : StateMap → TscConfiguration
define_tsc_config_state = map configuration_of

pub record TscState : Type 0 where
  pub states : StateMap
  pub group_phase : IntMap  -- signal_group_2vehiclephase_map_
  pub vehicle_phase_group : IntMap
  pub ped_phase_group : IntMap
  pub config : TscConfiguration

module _ (client : SnmpClient) (vehicle : IntMap) (rings : List (List ℕ)) where
  unfoldable pub define_state : ℕ → Result SignalGroupState
  define_state phase = do
    sequence ← get_following_phases phase rings
    concurrent ← get_concurrent_signal_groups client vehicle phase
    ok (record {
      phase_num = phase;
      min_green = get_min_green client phase;
      max_green = get_max_green client phase;
      green_duration = get_min_green client phase;
      yellow_duration = get_yellow_duration client phase;
      red_clearance = get_red_clearance client phase;
      red_duration = 0;
      phase_seq = sequence;
      concurrent_signal_groups = concurrent;
    })

  unfoldable pub define_states : IntMap → StateMap → Result StateMap
  define_states [] states = ok states
  define_states ((sg, phase) ∷ rest) states = do
    s ← define_state phase
    define_states rest (insert sg s states)

-- The second loop: every state gets its red duration; the durations read are not changed by it.
unfoldable pub with_red_durations : IntMap → StateMap → StateMap → Result StateMap
with_red_durations vehicle states [] = ok []
with_red_durations vehicle states ((sg, s) ∷ rest) = do
  red ← get_red_duration vehicle states s.phase_num
  later ← with_red_durations vehicle states rest
  ok ((sg, record s { red_duration = red }) ∷ later)

unfoldable pub configure : SnmpClient → Result TscState
configure client = do
  channels ← get_max_channels client
  kinds ← get_channels client channels
  vehicle ← get_phases_associated_with_channel client kinds.0
  ped ← get_phases_associated_with_channel client kinds.1
  max_rings ← get_max_rings client
  let rings = get_active_ring_sequences client max_rings vehicle 1
  let maps = map_phase_and_signalgroup rings vehicle []
  defined ← define_states client maps.0 rings maps.1 []
  states ← with_red_durations maps.0 defined defined
  ok (record {
    states = states;
    group_phase = maps.1;
    vehicle_phase_group = maps.0;
    ped_phase_group = ped;
    config = define_tsc_config_state states;
  })

-- `initialize` turns an snmp_client_exception into false; a monitor_states_exception leaves it.
abbrev caught : Fault → Bool
caught snmp_failed = true
caught no_following_phases = true
caught _ = false

pub data Initialized : Type 0 where
  ready : TscState → Initialized
  failed : Initialized
  escaped : Fault → Initialized

unfoldable pub initialize : SnmpClient → Initialized
initialize client = elim (configure client) [
  | ok s ↦ ready s
  | err x ↦ if caught x then failed else escaped x
]

-- Bit `i` of the response stands for phase `i + 1 + offset`; the rounds left and the next `i`.
unfoldable pub bits_from : ℕ → ℕ → ℕ → ℕ → List ℕ
bits_from zero i val offset = []
bits_from (suc left) i val offset =
    let rest = bits_from left (i + 1) val offset in
    if (val / 2 ^ i) % 2 == 1 then (i + 1 + offset) ∷ rest else rest

unfoldable pub process_bitwise_response : ℕ → ℕ → List ℕ
process_bitwise_response val offset = bits_from 8 0 val offset

pub record CallLists : Type 0 where
  pub vehicle_calls : List ℕ
  pub pedestrian_calls : List ℕ

-- Nothing is written before all four conversions have returned.
unfoldable pub poll_vehicle_pedestrian_calls : SnmpClient → TscState → Result CallLists
poll_vehicle_pedestrian_calls client s = do
  veh_1_8 ←
      convert_phases_to_signal_groups s.vehicle_phase_group
        (process_bitwise_response (int_or_zero (client.get_int veh_calls_1_8)) 0)
  veh_9_16 ←
      convert_phases_to_signal_groups s.vehicle_phase_group
        (process_bitwise_response (int_or_zero (client.get_int veh_calls_9_16)) 8)
  ped_1_8 ←
      convert_phases_to_signal_groups s.ped_phase_group
        (process_bitwise_response (int_or_zero (client.get_int ped_calls_1_8)) 0)
  ped_9_16 ←
      convert_phases_to_signal_groups s.ped_phase_group
        (process_bitwise_response (int_or_zero (client.get_int ped_calls_9_16)) 8)
  ok (record { vehicle_calls = veh_1_8 ++ veh_9_16; pedestrian_calls = ped_1_8 ++ ped_9_16 })

-- The loop of `get_signal_group_to_ped_phase_map`, whose iterator is never advanced. `none` means that
-- the fuel ran out.
unfoldable pub ped_map_loop : ℕ → IntMap → IntMap → Option IntMap
ped_map_loop fuel [] result = some result
ped_map_loop zero ((phase, sg) ∷ rest) result = none
ped_map_loop (suc fuel) ((phase, sg) ∷ rest) result =
    ped_map_loop fuel ((phase, sg) ∷ rest) (insert sg phase result)

unfoldable pub get_signal_group_to_ped_phase_map : ℕ → IntMap → Option IntMap
get_signal_group_to_ped_phase_map fuel ped = ped_map_loop fuel ped []
