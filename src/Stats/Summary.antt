-- ===== src/Stats/Summary.antt =====
-- `print_performance_summary` of c-performance/src/performance_stats.c. Its floating-point
-- arithmetic is a parameter: the type `double`, the conversion of an integer, division,
-- multiplication and `<`.
pub mod Figures
pub mod Report
use aeron_fast.Base.{
  ℕ, zero, suc, Bool, Option, some, List, [], ◌∷◌, ◌++◌, ltb, ◌==◌, if◌then◌else◌, get_or, sub64,
}
use aeron_fast.Common.{Config, codes}
use aeron_fast.Config.Getopt.{text_eq}
use aeron_fast.Stats.Defs.{PerformanceStats}

-- The grades of the latency and of the throughput, the best first.
pub data Grade : Type 0 where
  best second third worst : Grade

-- What is printed, a constructor for each `printf` that has an argument or that a test guards.
pub data SummaryLine {ℓ} (D : Type ℓ) : Type ℓ where
  title : List ℕ → SummaryLine D
  messages : ℕ → SummaryLine D
  message_size : ℕ → SummaryLine D
  seconds : D → SummaryLine D
  message_rate : D → SummaryLine D
  data_rate : D → SummaryLine D
  average : D → SummaryLine D
  lowest : D → ℕ → SummaryLine D
  highest : D → SummaryLine D
  up_to : ℕ → ℕ → D → SummaryLine D
  above : ℕ → ℕ → D → SummaryLine D
  back_pressure : ℕ → SummaryLine D
  retries : ℕ → SummaryLine D
  retries_each : D → SummaryLine D
  back_pressure_rate : D → SummaryLine D
  latency_grade : Grade → SummaryLine D
  throughput_grade : Grade → SummaryLine D

module _ {ℓ} (D : Type ℓ) (double : ℕ → D) (divide multiply : D → D → D) (less : D → D → Bool) where
  percentage : ℕ → ℕ → D
  percentage n total = divide (multiply (double n) (double 100)) (double total)

  -- The rows of the distribution from index `i` on, of `left` that are left.
  pub distribution_lines : ℕ → ℕ → ℕ → PerformanceStats → List (SummaryLine D)
  unfolding percentage
  distribution_lines zero i final_count s = []
  distribution_lines (suc left) i final_count s =
      let bucket = get_or s.latency_buckets i 0 in
      (if i == 9
        then SummaryLine.above (get_or s.latency_bucket_limits 8 0) bucket
            (percentage bucket final_count)
        else SummaryLine.up_to (get_or s.latency_bucket_limits i 0) bucket
            (percentage bucket final_count))
      ∷ distribution_lines left (suc i) final_count s

  pub subscriber_lines : ℕ → D → PerformanceStats → List (SummaryLine D)
  unfolding distribution_lines
  subscriber_lines final_count avg_latency_us s =
      SummaryLine.average avg_latency_us
      ∷ SummaryLine.lowest (divide (double s.counters.min_latency) (double 1000))
          s.min_latency_message_index
      ∷ SummaryLine.highest (divide (double s.counters.max_latency) (double 1000))
      ∷ distribution_lines 10 0 final_count s

  pub publisher_lines : ℕ → PerformanceStats → List (SummaryLine D)
  unfolding percentage
  publisher_lines final_count s =
      SummaryLine.back_pressure s.counters.back_pressure_count
      ∷ SummaryLine.retries s.counters.retry_count
      ∷ (if ltb 0 final_count
          then SummaryLine.retries_each
              (divide (double s.counters.retry_count) (double final_count))
            ∷ SummaryLine.back_pressure_rate (percentage s.counters.back_pressure_count final_count)
            ∷ []
          else [])

  pub grade_latency : D → Grade
  grade_latency avg_latency_us =
      if less avg_latency_us (double 1)
      then Grade.best
      else if less avg_latency_us (double 5)
      then Grade.second
      else if less avg_latency_us (double 20)
      then Grade.third
      else Grade.worst

  pub grade_throughput : D → Grade
  grade_throughput messages_per_sec =
      if less (double 5000000) messages_per_sec
      then Grade.best
      else if less (double 1000000) messages_per_sec
      then Grade.second
      else if less (double 500000) messages_per_sec
      then Grade.third
      else Grade.worst

  -- A null pointer, the role included, prints nothing.
  pub print_performance_summary :
      Option PerformanceStats → Option Config → Option (List ℕ) → List (SummaryLine D)
  unfolding subscriber_lines publisher_lines grade_latency grade_throughput
  print_performance_summary (some s) (some config) (some role) =
      let final_count = s.counters.message_count in
      let time_span_ns = sub64 s.last_message_time s.first_message_time in
      let time_span_sec = divide (double time_span_ns) (double 1000000000) in
      let messages_per_sec = divide (double final_count) time_span_sec in
      let avg_latency_us =
        divide (divide (double s.counters.total_latency) (double final_count)) (double 1000) in
      let throughput_mbps =
        divide (multiply messages_per_sec (double config.message_size)) (double 1048576) in
      let for_subscriber = text_eq role (codes "Subscriber") in
      SummaryLine.title role
      ∷ SummaryLine.messages final_count
      ∷ SummaryLine.message_size config.message_size
      ∷ SummaryLine.seconds time_span_sec
      ∷ SummaryLine.message_rate messages_per_sec
      ∷ SummaryLine.data_rate throughput_mbps
      ∷ ((if for_subscriber
            then subscriber_lines final_count avg_latency_us s
            else publisher_lines final_count s)
          ++ ((if for_subscriber
                then SummaryLine.latency_grade (grade_latency avg_latency_us) ∷ []
                else [])
              ++ SummaryLine.throughput_grade (grade_throughput messages_per_sec) ∷ []))
  print_performance_summary _ _ _ = []
