-- ===== src/Clock.antt =====
-- c-performance/src/time_utils.c and include/time_utils.h: nanosecond timestamps. The readings of
-- `clock_gettime` come from outside; an operation that takes the time is given the reading.
pub mod Laws
mod Tests
use aeron_fast.Base.{ℕ, ◌/◌, ◌*◌, ◌^◌, add64, mul64, ◌<◌, arith}

-- `struct timespec`, its fields as they are after the casts to `uint64_t`.
pub record Timespec : Type 0 where
  pub tv_sec : ℕ
  pub tv_nsec : ℕ

-- A reading of CLOCK_REALTIME.
unfoldable pub get_timestamp_ns : Timespec → ℕ
get_timestamp_ns ts = add64 (mul64 ts.tv_sec (10 ^ 9)) ts.tv_nsec

-- A reading of CLOCK_MONOTONIC.
pub get_monotonic_ns : Timespec → ℕ
get_monotonic_ns ts = add64 (mul64 ts.tv_sec (10 ^ 9)) ts.tv_nsec

-- A reading of CLOCK_MONOTONIC too, not the counter of the processor.
pub rdtsc : Timespec → ℕ
rdtsc ts = add64 (mul64 ts.tv_sec (10 ^ 9)) ts.tv_nsec

pub us_to_ns : ℕ → ℕ
us_to_ns microseconds = mul64 microseconds 1000

pub ns_to_us : ℕ → ℕ
ns_to_us nanoseconds = nanoseconds / 1000

pub ms_to_ns : ℕ → ℕ
ms_to_ns milliseconds = mul64 milliseconds (10 ^ 6)

pub get_timestamp_ns_small : (now : Timespec) → get_timestamp_ns now < 2 ^ 64
unfolding get_timestamp_ns
get_timestamp_ns_small now = omega arith
