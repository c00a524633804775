-- ===== src/Spat/Time/Marks.antt =====
-- What the conversions between epoch times and time marks keep and lose.
use carma_streets.Base.{ℕ, ◌+◌, ◌-◌, ◌*◌, ◌/◌, ◌%◌, ◌≤◌, ◌≡◌, arith, true}
use carma_streets.Spat.Time.{
  TimeChangeDetails, hour_ms, convert_hour_tenth_secs2epoch_ts, convert_msepoch_to_hour_tenth_secs,
  get_epoch_start_time, get_epoch_min_end_time, set_start_time, set_min_end_time, details_equal,
}

-- A converted time is a valid TimeMark, at most 36000, whatever the clock and the epoch time are.
pub mark-le : (now e : ℕ) → convert_msepoch_to_hour_tenth_secs now e ≤ 36000
unfolding convert_msepoch_to_hour_tenth_secs
mark-le now e = ground arith

-- Conversion keeps the order of epoch times.
pub mark_mono :
    (now a b : ℕ)
    → a ≤ b
    → convert_msepoch_to_hour_tenth_secs now a ≤ convert_msepoch_to_hour_tenth_secs now b
unfolding convert_msepoch_to_hour_tenth_secs
mark_mono now a b h = ground arith

-- A start time set in the hour of the clock, or on its last instant, is read back rounded down to a
-- tenth of a second.
pub get_epoch_start_time-set_start_time :
    (now e : ℕ) (t : TimeChangeDetails)
    → now / hour_ms * hour_ms ≤ e
    → e ≤ now / hour_ms * hour_ms + hour_ms
    → get_epoch_start_time now (set_start_time now e t) ≡ e - e % 100
unfolding get_epoch_start_time set_start_time convert_hour_tenth_secs2epoch_ts
    convert_msepoch_to_hour_tenth_secs
get_epoch_start_time-set_start_time now e t lo hi = ground arith

-- A minimum end time at or after the end of the hour of the clock is read back as the end of that hour.
pub get_epoch_min_end_time-set_min_end_time_late :
    (now e : ℕ) (t : TimeChangeDetails)
    → now / hour_ms * hour_ms + hour_ms ≤ e
    → get_epoch_min_end_time now (set_min_end_time now e t) ≡ now / hour_ms * hour_ms + hour_ms
unfolding get_epoch_min_end_time set_min_end_time convert_hour_tenth_secs2epoch_ts
    convert_msepoch_to_hour_tenth_secs
get_epoch_min_end_time-set_min_end_time_late now e t h = ground arith

-- Two values that differ only in `next_time` are equal for `operator==`.
pub details_equal_ignores_next_time :
    (t : TimeChangeDetails) (n : ℕ) → details_equal t (record t { next_time = n }) ≡ true
unfolding details_equal
details_equal_ignores_next_time t n = ground arith
