-- ===== src/Clock/Laws.antt =====
-- Order and range of the timestamps, and the conversions of units.
use aeron_fast.Base.{ℕ, ◌*◌, ◌^◌, ◌<◌, ◌≡◌, ◌↔◌, ◌⊎◌, arith}
use aeron_fast.Clock.{Timespec, get_timestamp_ns, us_to_ns, ns_to_us, ms_to_ns}

-- What `clock_gettime` documents of a reading, before the count of nanoseconds leaves 64 bits.
pub record IsReading (ts : Timespec) : Type 0 where
  pub normal : ts.tv_nsec < 10 ^ 9
  pub early : ts.tv_sec < 18446744073

-- `a` is an earlier reading than `b`.
abbrev pub Before : Timespec → Timespec → Type 0
Before a b = (a.tv_sec < b.tv_sec) ⊎ ((a.tv_sec ≡ b.tv_sec) × (a.tv_nsec < b.tv_nsec))

-- Of two normal readings before the year 2554 the earlier one has the smaller timestamp, and the
-- other way round; and the timestamp gives the reading back.
pub get_timestamp_ns_order :
    (a b : Timespec)
    → IsReading a
    → IsReading b
    → (Before a b ↔ (get_timestamp_ns a < get_timestamp_ns b))
      × ((get_timestamp_ns a ≡ get_timestamp_ns b) ↔ (a ≡ b))
unfolding get_timestamp_ns
get_timestamp_ns_order a b ra rb = ground arith

-- Microseconds survive the way to nanoseconds and back exactly when their nanoseconds fit 64 bits.
pub ns_to_us-us_to_ns : (us : ℕ) → (ns_to_us (us_to_ns us) ≡ us) ↔ (us * 1000 < 2 ^ 64)
unfolding ns_to_us us_to_ns
ns_to_us-us_to_ns us = omega arith

-- A millisecond is a thousand microseconds, wrap-around included.
pub ms_to_ns-us_to_ns : (ms : ℕ) → ms_to_ns ms ≡ us_to_ns (ms * 1000)
unfolding ms_to_ns us_to_ns
ms_to_ns-us_to_ns ms = omega arith
