-- ===== src/Plan.antt =====
-- streets_utils/streets_desired_phase_plan and streets_utils/streets_tsc_configuration: the plan that
-- the signal optimization service asks for, and the controller configuration that it is read with.
use carma_streets.Base.{ℕ, List, [], ◌∷◌, ◌==◌, if◌then◌else◌, Bool, true, false}

pub record GreenTiming : Type 0 where
  pub start_time : ℕ  -- uint64_t, ms since the epoch
  pub end_time : ℕ
  pub signal_groups : List ℕ

pub record DesiredPhasePlan : Type 0 where
  pub timestamp : ℕ
  pub desired_phase_plan : List GreenTiming

pub record SignalGroupConfiguration : Type 0 where
  pub signal_group_id : ℕ  -- uint8_t
  pub yellow_change_duration : ℕ  -- uint16_t, ms
  pub red_clearance : ℕ  -- uint16_t, ms
  pub concurrent_signal_groups : List ℕ

abbrev pub TscConfiguration : Type 0
TscConfiguration = List SignalGroupConfiguration

-- The members' initialisers: `uint16_t = -1` is 65535.
abbrev pub default_configuration : SignalGroupConfiguration
default_configuration = record {
  signal_group_id = 0;
  yellow_change_duration = 65535;
  red_clearance = 65535;
  concurrent_signal_groups = [];
}

-- The loop of the getter: every match overwrites the result, so the last one stays.
config_from : SignalGroupConfiguration → ℕ → TscConfiguration → SignalGroupConfiguration
config_from found sg [] = found
config_from found sg (c ∷ cs) = config_from (if c.signal_group_id == sg then c else found) sg cs

unfoldable pub get_signal_group_configuration_by_sg :
    TscConfiguration → ℕ → SignalGroupConfiguration
unfolding config_from
get_signal_group_configuration_by_sg cs sg = config_from default_configuration sg cs

abbrev pub is_empty {ℓ} : {A : Type ℓ} → List A → Bool
is_empty [] = true
is_empty (x ∷ xs) = false
