-- ===== src/Stats/Defs.antt =====
-- `performance_stats_t`, and the two functions that set it up.
use aeron_fast.Base.{ℕ, zero, suc, List, [], ◌∷◌, Bool, true, false, Option, none, some, u64_max}
use aeron_fast.Base.Int.{ℤ}
use aeron_fast.Common.{error_success, error_invalid_param}

-- `DETAILED_RECORD_COUNT`
abbrev pub detailed_record_count : ℕ
detailed_record_count = 1000

-- An array that `memset` or `calloc` has cleared.
unfoldable pub zeros : ℕ → List ℕ
zeros zero = []
zeros (suc n) = 0 ∷ zeros n

-- `stats_counters_t`; the padding to cache lines holds nothing.
pub record StatsCounters : Type 0 where
  pub message_count : ℕ
  pub total_latency : ℕ
  pub min_latency : ℕ
  pub max_latency : ℕ
  pub back_pressure_count : ℕ
  pub retry_count : ℕ

-- `detailed_records_t`
pub record DetailedRecords : Type 0 where
  pub send_times : List ℕ
  pub receive_times : List ℕ
  pub latencies : List ℕ
  pub recorded_count : ℕ

-- `performance_stats_t`
pub record PerformanceStats : Type 0 where
  pub counters : StatsCounters
  pub records : DetailedRecords
  pub test_start_time : ℕ
  pub first_message_time : ℕ
  pub last_message_time : ℕ
  pub min_latency_message_index : ℕ
  pub min_latency_send_time : ℕ
  pub min_latency_receive_time : ℕ
  pub latency_buckets : List ℕ
  pub latency_bucket_limits : List ℕ

-- The bucket limits that `init_performance_stats` sets, in microseconds.
abbrev pub init_limits : List ℕ
init_limits = 1 ∷ 5 ∷ 10 ∷ 20 ∷ 50 ∷ 100 ∷ 500 ∷ 1000 ∷ 10000 ∷ u64_max ∷ []

-- The bucket limits that `create_performance_stats` sets, in microseconds.
abbrev pub create_limits : List ℕ
create_limits = 1 ∷ 5 ∷ 10 ∷ 50 ∷ 100 ∷ 500 ∷ 1000 ∷ 5000 ∷ 10000 ∷ u64_max ∷ []

-- The structure after `memset` or `calloc`.
unfoldable pub cleared : PerformanceStats
cleared = record {
  counters = record {
    message_count = 0;
    total_latency = 0;
    min_latency = 0;
    max_latency = 0;
    back_pressure_count = 0;
    retry_count = 0;
  };
  records = record {
    send_times = zeros detailed_record_count;
    receive_times = zeros detailed_record_count;
    latencies = zeros detailed_record_count;
    recorded_count = 0;
  };
  test_start_time = 0;
  first_message_time = 0;
  last_message_time = 0;
  min_latency_message_index = 0;
  min_latency_send_time = 0;
  min_latency_receive_time = 0;
  latency_buckets = zeros 10;
  latency_bucket_limits = zeros 10;
}

-- A null pointer is `none`. The contents before the call do not matter.
unfoldable pub init_performance_stats : Option PerformanceStats → ℤ × Option PerformanceStats
unfolding cleared
init_performance_stats none = (error_invalid_param, none)
init_performance_stats (some _) =
    let stats = cleared in
    (
      error_success,
      some (record stats {
        counters = record (stats.counters) { min_latency = u64_max };
        latency_bucket_limits = init_limits;
      }),
    )

-- `allocated` says whether `calloc` returned memory.
unfoldable pub create_performance_stats : Bool → Option PerformanceStats
unfolding cleared
create_performance_stats false = none
create_performance_stats true =
    let stats = cleared in
    some (record stats {
      latency_bucket_limits = create_limits;
      counters = record (stats.counters) { min_latency = u64_max; max_latency = 0 };
    })
