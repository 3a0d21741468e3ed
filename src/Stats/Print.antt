-- ===== src/Stats/Print.antt =====
-- The printing functions of c-performance/src/performance_stats.c that need no floating-point test.
-- A percentage is printed from two counts; here it is the two.
pub mod Table
pub mod Details
use aeron_fast.Base.{
  ℕ, zero, suc, ◌+◌, Option, none, some, List, [], ◌∷◌, ◌++◌, ltb, ◌==◌, if◌then◌else◌, get_or,
}
use aeron_fast.Stats.Defs.{PerformanceStats, DetailedRecords}

-- What is printed, a constructor for each `printf` that has an argument or that a test guards.
pub data StatsLine : Type 0 where
  distribution_title : StatsLine
  no_latencies : StatsLine
  range : (index messages : ℕ) (hundred_times out_of : ℕ) → StatsLine
  records_title : ℕ → StatsLine
  detail : (index send_time receive_time latency : ℕ) → StatsLine
  more_records : ℕ → StatsLine

-- The lines of the buckets from `index` on.
pub range_lines : ℕ → ℕ → List ℕ → List StatsLine
range_lines total_messages index [] = []
range_lines total_messages index (b ∷ buckets) =
    StatsLine.range index b b total_messages ∷ range_lines total_messages (suc index) buckets

unfoldable pub print_latency_distribution : Option PerformanceStats → List StatsLine
print_latency_distribution none = []
print_latency_distribution (some s) =
    StatsLine.distribution_title
    ∷ (if s.counters.message_count == 0
        then StatsLine.no_latencies ∷ []
        else range_lines s.counters.message_count 0 s.latency_buckets)

-- `for (i; i < recorded_count && i < 20; i++)`, with `left` a bound on its rounds.
pub detail_lines : ℕ → ℕ → DetailedRecords → List StatsLine
detail_lines zero i r = []
detail_lines (suc left) i r =
    let rest = detail_lines left (suc i) r in
    if ltb i r.recorded_count
    then StatsLine.detail (i + 1) (get_or r.send_times i 0) (get_or r.receive_times i 0)
        (get_or r.latencies i 0)
      ∷ rest
    else []

unfoldable pub print_detailed_records : Option PerformanceStats → List StatsLine
unfolding detail_lines
print_detailed_records none = []
print_detailed_records (some s) =
    if s.records.recorded_count == 0
    then []
    else StatsLine.records_title s.records.recorded_count
      ∷ (detail_lines 20 0 s.records
          ++ (if ltb 20 s.records.recorded_count
              then StatsLine.more_records s.records.recorded_count ∷ []
              else []))
