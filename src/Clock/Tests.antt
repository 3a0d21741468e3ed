-- ===== src/Clock/Tests.antt =====
-- Timestamps of concrete readings.
use aeron_fast.Base.{◌≡◌, refl}
use aeron_fast.Clock.{Timespec, get_timestamp_ns, us_to_ns, ms_to_ns}
use aeron_fast.Clock.Laws.{ms_to_ns-us_to_ns}

abbrev first_reading : Timespec
first_reading = record { tv_sec = 1700000000; tv_nsec = 999999999 }

abbrev next_reading : Timespec
next_reading = record { tv_sec = 1700000001; tv_nsec = 0 }

first_timestamp : get_timestamp_ns first_reading ≡ 1700000000999999999
unfolding get_timestamp_ns
first_timestamp = refl

ms_to_ns-us_to_ns_example : ms_to_ns 5 ≡ us_to_ns 5000
ms_to_ns-us_to_ns_example = ms_to_ns-us_to_ns 5
