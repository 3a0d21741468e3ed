-- ===== src/Rate.antt =====
-- The integer rates that both programs print: `(n * 1000000000ULL) / duration`, and the same
-- divided by a mebibyte, in c-performance/src/binary_publisher.c (`print_stats`) and
-- binary_subscriber.c (`print_realtime_stats`, `print_final_stats`).
pub mod Exact
mod Tests
use aeron_fast.Base.{ℕ, ◌*◌, ◌/◌, ◌^◌, mul64}

-- Per second, of `n` in `duration` nanoseconds. The callers have tested that it is not 0.
pub per_second : ℕ → ℕ → ℕ
per_second n duration = mul64 n (10 ^ 9) / duration

-- In mebibytes per second.
pub mebibytes_per_second : ℕ → ℕ → ℕ
mebibytes_per_second bytes duration = mul64 bytes (10 ^ 9) / duration / (1024 * 1024)
