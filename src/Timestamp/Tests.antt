-- ===== src/Timestamp/Tests.antt =====
-- The theorems on src/timestamp.c at one timestamp, and at a time before 1970.
use wimlib.Common.{◌≡◌, ◌*◌, ◌/◌, arith}
use wimlib.Common.Int.{negsuc}
use wimlib.Timestamp.{
  Timespec, timespec_to_wim_timestamp, wim_timestamp_to_timespec, timeval_to_wim_timestamp,
  wim_timestamp_to_timeval,
}
use wimlib.Timestamp.RoundTrip.{wim_timestamp_back}

wim_timestamp_back_example :
    (timespec_to_wim_timestamp (wim_timestamp_to_timespec 132000000001234567) ≡ 132000000001234567)
    × (timeval_to_wim_timestamp (wim_timestamp_to_timeval 132000000001234567)
        ≡ 132000000001234567 / 10 * 10)
wim_timestamp_back_example = wim_timestamp_back 132000000001234567 (omega arith)

abbrev before_1970 : Timespec
before_1970 = record { tv_sec = negsuc 99; tv_nsec = 123456789 }
