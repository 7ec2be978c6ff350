-- ===== src/Timestamp/RoundTrip.antt =====
-- Conversions of src/timestamp.c there and back.
use wimlib.Common.{ℕ, ◌+◌, ◌-◌, ◌*◌, ◌/◌, ◌^◌, ◌<◌, ◌≡◌, ◌⊎◌, arith}
use wimlib.Common.Int.{pos, negsuc, ◌-ℤ◌, ◌≤ℤ◌, signed64, word64}
use wimlib.Timestamp.{
  Timespec, wim_timestamp_to_time_t, wim_timestamp_to_timespec, wim_timestamp_to_timeval,
  time_t_to_wim_timestamp, timespec_to_wim_timestamp, timeval_to_wim_timestamp, ticks_per_second,
  epoch_distance,
}

-- The seconds of a timestamp, from 1601 on, and its ticks.
seconds_back :
    (s : ℕ)
    → s < 2 ^ 62
    → word64 (signed64 (word64 (pos s -ℤ pos epoch_distance))) + epoch_distance ≡ s
      ⊎ word64 (signed64 (word64 (pos s -ℤ pos epoch_distance))) + epoch_distance ≡ s + 2 ^ 64
unfolding ◌-ℤ◌
seconds_back s h = ground arith

time_t_back :
    (timestamp : ℕ)
    → timestamp < 2 ^ 64
    → time_t_to_wim_timestamp (wim_timestamp_to_time_t timestamp)
      ≡ timestamp / ticks_per_second * ticks_per_second
unfolding time_t_to_wim_timestamp wim_timestamp_to_time_t
time_t_back timestamp h = omega (arith, seconds_back (timestamp / ticks_per_second))

-- Every Windows timestamp converts to a `timespec` and back to itself; by way of a `timeval` it loses
-- the ticks below a microsecond.
pub wim_timestamp_back :
    (timestamp : ℕ)
    → timestamp < 2 ^ 64
    → (timespec_to_wim_timestamp (wim_timestamp_to_timespec timestamp) ≡ timestamp)
      × (timeval_to_wim_timestamp (wim_timestamp_to_timeval timestamp) ≡ timestamp / 10 * 10)
unfolding timespec_to_wim_timestamp wim_timestamp_to_timespec timeval_to_wim_timestamp
    wim_timestamp_to_timeval
wim_timestamp_back timestamp h =
    (omega (arith, time_t_back timestamp h), omega (arith, time_t_back timestamp h))

-- A UNIX time from 1601 on, up to the last second of the Windows range, converts to a timestamp and
-- back, with its nanoseconds rounded down to a multiple of 100.
pub timespec_back :
    (ts : Timespec)
    → negsuc (epoch_distance - 1) ≤ℤ ts.tv_sec
    → ts.tv_sec ≤ℤ pos (2 ^ 64 / ticks_per_second - 1 - epoch_distance)
    → ts.tv_nsec < 1000000000
    → wim_timestamp_to_timespec (timespec_to_wim_timestamp ts)
      ≡ record ts { tv_nsec = ts.tv_nsec / 100 * 100 }
unfolding timespec_to_wim_timestamp wim_timestamp_to_timespec wim_timestamp_to_time_t
    time_t_to_wim_timestamp ◌-ℤ◌
timespec_back ts lo hi ns = ground arith
