-- ===== src/Timestamp.antt =====
-- src/timestamp.c: Windows NT timestamps, 100-nanosecond ticks since 1601, and UNIX timestamps. A
-- `u64` is a number below 2^64; `time_t` is 64 bits wide, as it is wherever the source's
-- `sizeof(tv_sec)` is not 4.
pub mod RoundTrip
mod Tests
use wimlib.Common.{ℕ, ◌+◌, ◌-◌, ◌*◌, ◌/◌, ◌%◌, ◌^◌, ◌≤◌, ◌<◌}
use wimlib.Common.Int.{ℤ, pos, negsuc, ◌+ℤ◌, ◌-ℤ◌, signed64, word64}

abbrev pub nanoseconds_per_tick : ℕ
nanoseconds_per_tick = 100

abbrev pub ticks_per_second : ℕ
ticks_per_second = 10000000

abbrev pub ticks_per_microsecond : ℕ
ticks_per_microsecond = 10

-- The seconds from 1601 to 1970.
abbrev pub epoch_distance : ℕ
epoch_distance = 11644473600

pub record Timespec : Type 0 where
  pub tv_sec : ℤ
  pub tv_nsec : ℕ

pub record Timeval : Type 0 where
  pub tv_sec : ℤ
  pub tv_usec : ℕ

-- The difference of a `u64` and an `s64` constant is taken in 64 bits.
pub wim_timestamp_to_time_t : ℕ → ℤ
wim_timestamp_to_time_t timestamp =
    signed64 (word64 (pos (timestamp / ticks_per_second) -ℤ pos epoch_distance))

pub wim_timestamp_to_timeval : ℕ → Timeval
wim_timestamp_to_timeval timestamp = record {
  tv_sec = wim_timestamp_to_time_t timestamp;
  tv_usec = timestamp % ticks_per_second / ticks_per_microsecond;
}

pub wim_timestamp_to_timespec : ℕ → Timespec
wim_timestamp_to_timespec timestamp = record {
  tv_sec = wim_timestamp_to_time_t timestamp;
  tv_nsec = timestamp % ticks_per_second * nanoseconds_per_tick;
}

-- `((u64)t + EPOCH_DISTANCE) * TICKS_PER_SECOND`
pub time_t_to_wim_timestamp : ℤ → ℕ
time_t_to_wim_timestamp t = (word64 t + epoch_distance) % 2 ^ 64 * ticks_per_second % 2 ^ 64

-- `(u32)tv->tv_usec * TICKS_PER_MICROSECOND` is taken in 32 bits.
pub timeval_to_wim_timestamp : Timeval → ℕ
timeval_to_wim_timestamp tv =
    (time_t_to_wim_timestamp tv.tv_sec + tv.tv_usec % 2 ^ 32 * ticks_per_microsecond % 2 ^ 32)
    % 2 ^ 64

pub timespec_to_wim_timestamp : Timespec → ℕ
timespec_to_wim_timestamp ts =
    (time_t_to_wim_timestamp ts.tv_sec + ts.tv_nsec % 2 ^ 32 / nanoseconds_per_tick) % 2 ^ 64
