-- ===== src/Spat/Time.antt =====
-- src/models/time_change_details.cpp: the times of a movement event, in tenths of a second of the
-- current hour (J2735 TimeMark). `now` is the reading of the streets clock, in ms since the epoch;
-- the doubles of the source are exact below 2^53 ms, so the quotients are those of the numbers.
use carma_streets.Base.{ℕ, ◌+◌, ◌-◌, ◌*◌, ◌/◌, Bool, ◌&&◌, ltb, leb, ◌==◌, if◌then◌else◌, not}
pub mod Marks

pub record TimeChangeDetails : Type 0 where
  pub start_time : ℕ  -- uint16_t, as the others; 36001 is unknown
  pub min_end_time : ℕ
  pub max_end_time : ℕ
  pub likely_time : ℕ
  pub confidence : ℕ  -- uint8_t
  pub next_time : ℕ

abbrev pub unknown_times : TimeChangeDetails
unknown_times = record {
  start_time = 36001;
  min_end_time = 36001;
  max_end_time = 36001;
  likely_time = 36001;
  confidence = 0;
  next_time = 36001;
}

-- HOUR_TO_SECONDS * SECOND_TO_MILLISECONDS
abbrev pub hour_ms : ℕ
hour_ms = 3600000

unfoldable pub convert_hour_tenth_secs2epoch_ts : ℕ → ℕ → ℕ
convert_hour_tenth_secs2epoch_ts now hour_tenth_secs =
    now / hour_ms * hour_ms + hour_tenth_secs * 100

unfoldable pub convert_msepoch_to_hour_tenth_secs : ℕ → ℕ → ℕ
convert_msepoch_to_hour_tenth_secs now epoch_time_ms =
    let hours_since_epoch_ms = now / hour_ms * hour_ms in
    let tenths =
      if ltb epoch_time_ms hours_since_epoch_ms
      then 0
      else (epoch_time_ms - hours_since_epoch_ms) / 100 in
    if leb 36000 tenths then 36000 else tenths

unfoldable pub get_epoch_start_time : ℕ → TimeChangeDetails → ℕ
get_epoch_start_time now t = convert_hour_tenth_secs2epoch_ts now t.start_time

unfoldable pub get_epoch_min_end_time : ℕ → TimeChangeDetails → ℕ
get_epoch_min_end_time now t = convert_hour_tenth_secs2epoch_ts now t.min_end_time

unfoldable pub get_epoch_max_end_time : ℕ → TimeChangeDetails → ℕ
get_epoch_max_end_time now t = convert_hour_tenth_secs2epoch_ts now t.max_end_time

unfoldable pub get_epoch_next_time : ℕ → TimeChangeDetails → ℕ
get_epoch_next_time now t = convert_hour_tenth_secs2epoch_ts now t.next_time

unfoldable pub set_start_time : ℕ → ℕ → TimeChangeDetails → TimeChangeDetails
set_start_time now e t = record t { start_time = convert_msepoch_to_hour_tenth_secs now e }

unfoldable pub set_min_end_time : ℕ → ℕ → TimeChangeDetails → TimeChangeDetails
set_min_end_time now e t = record t { min_end_time = convert_msepoch_to_hour_tenth_secs now e }

unfoldable pub set_max_end_time : ℕ → ℕ → TimeChangeDetails → TimeChangeDetails
set_max_end_time now e t = record t { max_end_time = convert_msepoch_to_hour_tenth_secs now e }

unfoldable pub set_next_time : ℕ → ℕ → TimeChangeDetails → TimeChangeDetails
set_next_time now e t = record t { next_time = convert_msepoch_to_hour_tenth_secs now e }

-- operator== and operator!=
unfoldable pub details_equal : TimeChangeDetails → TimeChangeDetails → Bool
details_equal a b =
    a.start_time == b.start_time
    && a.min_end_time == b.min_end_time
    && a.max_end_time == b.max_end_time
    && a.likely_time == b.likely_time
    && a.confidence == b.confidence

unfoldable pub details_differ : TimeChangeDetails → TimeChangeDetails → Bool
unfolding details_equal
details_differ a b = not (details_equal a b)
