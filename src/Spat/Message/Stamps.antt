-- ===== src/Spat/Message/Stamps.antt =====
-- intersection_state.cpp, set_timestamp_local and get_epoch_timestamp: what is written is read back.
use carma_streets.Base.{ℕ, ◌+◌, ◌*◌, ◌<◌, ◌≤◌, ◌≡◌, arith}
use carma_streets.Spat.Intersection.{IntersectionState}
use carma_streets.Spat.Message.{stamp_local, get_epoch_timestamp}

-- For a reading of the clock on the given day of a year that began at a full day, the minute of the year
-- and the milliseconds that set_timestamp_local stores are read back as that reading.
pub get_epoch_timestamp-stamp_local :
    (days day_of_year rest : ℕ) (i : IntersectionState)
    → day_of_year ≤ 366
    → rest < 86400000
    → let year_begin = 86400000 * days in
      let now = year_begin + day_of_year * 86400000 + rest in
      get_epoch_timestamp year_begin (stamp_local now day_of_year i) ≡ now
unfolding get_epoch_timestamp stamp_local
get_epoch_timestamp-stamp_local days day_of_year rest i year day = omega arith
