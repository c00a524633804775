-- ===== src/Tsc/Snmp.antt =====
-- What tsc_client_service/src/monitor_tsc_state.cpp reads from the controller. The SNMP client is a
-- parameter: `none` stands for `process_snmp_request` returning false, and the configuration that it
-- reads does not change during one call of `initialize`. NTCIP 1202 values are not negative.
use carma_streets.Base.{
  IntMap, insert, lookup, has_key, ℕ, zero, suc, ◌+◌, ◌*◌, List, [], ◌∷◌, ◌++◌, ◌&&◌, not, ◌==◌,
  if◌then◌else◌, Option, none, some, Result, ok, err, ◌>>=◌, or_fault, snmp_failed,
  no_channel_phase, no_signal_group, invalid_id, no_phase_number,
}

pub data Oid : Type 0 where
  max_channels max_rings phase_next veh_calls_1_8 veh_calls_9_16 ped_calls_1_8 ped_calls_9_16 : Oid
  channel_control_type channel_control_source phase_concurrency minimum_green maximum_green :
      ℕ → Oid
  yellow_change red_clear : ℕ → Oid
  sequence_data : ℕ → ℕ → Oid

pub record SnmpClient : Type 0 where
  pub get_int : Oid → Option ℕ
  pub get_string : Oid → Option (List ℕ)

-- A response object that the request did not fill.
abbrev pub int_or_zero : Option ℕ → ℕ
int_or_zero none = 0
int_or_zero (some n) = n

abbrev pub string_or_empty : Option (List ℕ) → List ℕ
string_or_empty none = []
string_or_empty (some s) = s

module _ (client : SnmpClient) where
  unfoldable pub get_max_channels : Result ℕ
  get_max_channels = or_fault (client.get_int max_channels) snmp_failed

  unfoldable pub get_max_rings : Result ℕ
  get_max_rings = or_fault (client.get_int max_rings) snmp_failed

  -- The loop of `get_channels`, with the channels left and the next one: vehicle, then pedestrian.
  unfoldable pub channels_from : ℕ → ℕ → List ℕ × List ℕ → Result (List ℕ × List ℕ)
  channels_from zero channel found = ok found
  channels_from (suc left) channel (vehicle, ped) = do
    control_type ← or_fault (client.get_int (channel_control_type channel)) snmp_failed
    channels_from left (channel + 1) (
      (if control_type == 2 then vehicle ++ channel ∷ [] else vehicle),
      (if control_type == 3 then ped ++ channel ∷ [] else ped),
    )

  unfoldable pub get_channels : ℕ → Result (List ℕ × List ℕ)
  get_channels channels = channels_from channels 1 ([], [])

  unfoldable pub phases_from : List ℕ → IntMap → Result IntMap
  phases_from [] m = ok m
  phases_from (sg ∷ sgs) m =
      let phase = int_or_zero (client.get_int (channel_control_source sg)) in
      let rest = phases_from sgs (insert phase sg m) in
      if phase == 0 then err no_channel_phase else rest

  unfoldable pub get_phases_associated_with_channel : List ℕ → Result IntMap
  get_phases_associated_with_channel sgs = phases_from sgs []

  abbrev active_phases : IntMap → List ℕ → List ℕ
  active_phases vehicle [] = []
  active_phases vehicle (p ∷ ps) =
      if has_key p vehicle && not (p == 0)
      then p ∷ active_phases vehicle ps
      else active_phases vehicle ps

  abbrev push_ring : List ℕ → List (List ℕ) → List (List ℕ)
  push_ring [] rings = rings
  push_ring (p ∷ ps) rings = (p ∷ ps) ∷ rings

  -- The rounds left and the next ring.
  unfoldable pub rings_from : ℕ → ℕ → IntMap → ℕ → List (List ℕ)
  rings_from zero ring vehicle sequence = []
  rings_from (suc left) ring vehicle sequence =
      push_ring
        (active_phases vehicle (string_or_empty (client.get_string (sequence_data sequence ring))))
        (rings_from left (ring + 1) vehicle sequence)

  unfoldable pub get_active_ring_sequences : ℕ → IntMap → ℕ → List (List ℕ)
  get_active_ring_sequences rings vehicle sequence = rings_from rings 1 vehicle sequence

  unfoldable pub get_min_green : ℕ → ℕ
  get_min_green phase = int_or_zero (client.get_int (minimum_green phase)) * 1000

  unfoldable pub get_max_green : ℕ → ℕ
  get_max_green phase = int_or_zero (client.get_int (maximum_green phase)) * 1000

  unfoldable pub get_yellow_duration : ℕ → ℕ
  get_yellow_duration phase = int_or_zero (client.get_int (yellow_change phase)) * 100

  unfoldable pub get_red_clearance : ℕ → ℕ
  get_red_clearance phase = int_or_zero (client.get_int (red_clear phase)) * 100

-- get_vehicle_signal_group_id and get_pedestrian_signal_group_id, each over its own map
unfoldable pub get_signal_group_id : IntMap → ℕ → Result ℕ
get_signal_group_id m zero = err invalid_id
get_signal_group_id m (suc p) = or_fault (lookup (suc p) m) no_signal_group

unfoldable pub get_phase_number : IntMap → ℕ → Result ℕ
get_phase_number m zero = err invalid_id
get_phase_number m (suc sg) = or_fault (lookup (suc sg) m) no_phase_number

-- convert_veh_phases_to_signal_groups and convert_ped_phases_to_signal_groups
unfoldable pub convert_phases_to_signal_groups : IntMap → List ℕ → Result (List ℕ)
convert_phases_to_signal_groups m [] = ok []
convert_phases_to_signal_groups m (p ∷ ps) = do
  sg ← get_signal_group_id m p
  sgs ← convert_phases_to_signal_groups m ps
  ok (sg ∷ sgs)

abbrev nonzero : List ℕ → List ℕ
nonzero [] = []
nonzero (p ∷ ps) = if p == 0 then nonzero ps else p ∷ nonzero ps

unfoldable pub get_concurrent_signal_groups : SnmpClient → IntMap → ℕ → Result (List ℕ)
get_concurrent_signal_groups client m phase =
    convert_phases_to_signal_groups m
      (nonzero (string_or_empty (client.get_string (phase_concurrency phase))))
