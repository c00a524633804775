-- ===== src/Spat/Ntcip.antt =====
-- src/models/ntcip_1202_ext.cpp and ntcip_1202_ext_phasetime.cpp: the status block that the controller
-- broadcasts. The 16-bit masks are stored in network byte order; `ntohs` is that of a little-endian
-- host. The overlap and pedestrian phase masks are read in the same way and are left out.
use carma_streets.Base.{
  ℕ, ◌-◌, ◌*◌, ◌+◌, ◌/◌, ◌%◌, ◌^◌, Bool, List, [], ◌∷◌, ◌==◌, if◌then◌else◌, Result, ok, err,
  no_phasetime,
}

pub record PhaseTime : Type 0 where
  pub phase_number : ℕ  -- uint8_t
  pub spat_veh_min_time_to_change : ℕ  -- uint16_t, network byte order, as the others
  pub spat_veh_max_time_to_change : ℕ
  pub spat_ped_min_time_to_change : ℕ
  pub spat_ped_max_time_to_change : ℕ
  pub spat_ovlp_min_time_to_change : ℕ
  pub spat_ovp_max_time_to_change : ℕ

pub record Ntcip1202Ext : Type 0 where
  pub phase_times : List PhaseTime  -- 16 of them
  pub phase_status_group_reds : ℕ
  pub phase_status_group_yellows : ℕ
  pub phase_status_group_greens : ℕ
  pub flashing_output_phase_status : ℕ
  pub spat_intersection_status : ℕ
  pub spat_timestamp_second_byte1 : ℕ  -- u_char
  pub spat_timestamp_second_byte2 : ℕ
  pub spat_timestamp_second_byte3 : ℕ
  pub spat_timestamp_msec : ℕ

abbrev pub ntohs : ℕ → ℕ
ntohs n = n % 256 * 256 + n / 256 % 256

-- (ntohs(mask) >> (phase_number - 1)) & 0x01
abbrev pub status_bit : ℕ → ℕ → Bool
status_bit mask phase_number = (ntohs mask / 2 ^ (phase_number - 1)) % 2 == 1

unfoldable pub get_phase_red_status : Ntcip1202Ext → ℕ → Bool
get_phase_red_status d p = status_bit d.phase_status_group_reds p

unfoldable pub get_phase_yellow_status : Ntcip1202Ext → ℕ → Bool
get_phase_yellow_status d p = status_bit d.phase_status_group_yellows p

unfoldable pub get_phase_green_status : Ntcip1202Ext → ℕ → Bool
get_phase_green_status d p = status_bit d.phase_status_group_greens p

unfoldable pub get_phase_flashing_status : Ntcip1202Ext → ℕ → Bool
get_phase_flashing_status d p = status_bit d.flashing_output_phase_status p

-- The bytes do not overlap, so the `|` of the shifted bytes is their sum.
unfoldable pub get_timestamp_seconds_of_day : Ntcip1202Ext → ℕ
get_timestamp_seconds_of_day d =
    d.spat_timestamp_second_byte1 * 65536
    + d.spat_timestamp_second_byte2 * 256
    + d.spat_timestamp_second_byte3

unfoldable pub get_spat_veh_min_time_to_change : PhaseTime → ℕ
get_spat_veh_min_time_to_change t = ntohs t.spat_veh_min_time_to_change

unfoldable pub get_spat_veh_max_time_to_change : PhaseTime → ℕ
get_spat_veh_max_time_to_change t = ntohs t.spat_veh_max_time_to_change

find_phasetime : List PhaseTime → ℕ → Result PhaseTime
find_phasetime [] p = err no_phasetime
find_phasetime (t ∷ ts) p = if t.phase_number == p then ok t else find_phasetime ts p

unfoldable pub get_phasetime : Ntcip1202Ext → ℕ → Result PhaseTime
unfolding find_phasetime
get_phasetime d p = find_phasetime d.phase_times p
