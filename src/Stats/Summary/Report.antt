-- ===== src/Stats/Summary/Report.antt =====
-- The report that `print_performance_summary` prints for the subscriber.
use aeron_fast.Base.{
  ℕ, ◌≡◌, refl, Bool, some, List, [], ◌∷◌, ◌++◌, length, map, u64, sub64, ◌<◌, ◌^◌,
}
use aeron_fast.Common.{Config, codes}
use aeron_fast.Config.Getopt.{text_eq}
use aeron_fast.Stats.Defs.{PerformanceStats, init_limits, init_performance_stats}
use aeron_fast.Stats.History.{minimum, maximum}
use aeron_fast.Stats.Tally.{sum, tally}
use aeron_fast.Stats.Messages.{Delivery, latency}
use aeron_fast.Stats.Messages.Distribution.{ranges}
use aeron_fast.Stats.Deliveries.{receive, record_deliveries}
use aeron_fast.Stats.Summary.{
  SummaryLine, print_performance_summary, grade_latency, grade_throughput,
}
use aeron_fast.Stats.Summary.Figures.{
  fastest, first_of, last_of, HasFigures, record_deliveries-HasFigures,
}

module _ {ℓ} (D : Type ℓ) (double : ℕ → D) (divide multiply : D → D → D) (less : D → D → Bool) where
  -- The rows of a distribution: each names its limit, the last the limit before it.
  abbrev pub rows_of : ℕ → ℕ → List ℕ → List ℕ → List (SummaryLine D)
  rows_of total before [] counts = []
  rows_of total before (limit ∷ limits) [] = []
  rows_of total before (limit ∷ []) (n ∷ counts) =
      SummaryLine.above before n (divide (multiply (double n) (double 100)) (double total)) ∷ []
  rows_of total before (limit ∷ limit' ∷ limits) (n ∷ counts) =
      SummaryLine.up_to limit n (divide (multiply (double n) (double 100)) (double total))
      ∷ rows_of total limit (limit' ∷ limits) counts

  -- The report on the messages of `ds`, of their lengths, sums and extremes alone.
  abbrev pub summary_of : Config → List Delivery → List (SummaryLine D)
  summary_of config ds =
      let delays = map latency ds in
      let n = length ds in
      let span = sub64 (last_of (map receive ds)) (first_of (map receive ds)) in
      let duration = divide (double span) (double 1000000000) in
      let rate = divide (double n) duration in
      let mean = divide (divide (double (u64 (sum delays))) (double n)) (double 1000) in
      SummaryLine.title (codes "Subscriber")
      ∷ SummaryLine.messages n
      ∷ SummaryLine.message_size config.message_size
      ∷ SummaryLine.seconds duration
      ∷ SummaryLine.message_rate rate
      ∷ SummaryLine.data_rate (divide (multiply rate (double config.message_size)) (double 1048576))
      ∷ SummaryLine.average mean
      ∷ SummaryLine.lowest (divide (double (minimum delays)) (double 1000)) (fastest delays)
      ∷ SummaryLine.highest (divide (double (maximum delays)) (double 1000))
      ∷ (rows_of n 0 init_limits (tally 0 ranges delays)
          ++ SummaryLine.latency_grade (grade_latency D double divide multiply less mean)
            ∷ SummaryLine.throughput_grade (grade_throughput D double divide multiply less rate)
            ∷ [])

  print_performance_summary_lem :
      (config : Config) (ds : List Delivery) (s : PerformanceStats)
      → HasFigures ds s
      → print_performance_summary D double divide multiply less
          (some s)
          (some config)
          (some (codes "Subscriber"))
        ≡ summary_of config ds
  unfolding print_performance_summary text_eq
  print_performance_summary_lem config ds s has =
      rw
        (
          has.count, has.total, has.lowest, has.highest, has.named, has.started, has.ended,
          has.limits, has.buckets,
        )
        refl

  -- After `init_performance_stats`, whatever the memory held, and `record_message_latency` for
  -- fewer than 2 ^ 64 messages, `print_performance_summary` for the subscriber prints the report on
  -- those messages, whatever the arithmetic of `double` is: their number and the time from the
  -- first to the last receipt, the mean, the lowest and the highest of their latencies, the number
  -- of the first message with the lowest, the latencies in each of the ten ranges, and the two
  -- grades.
  pub print_performance_summary-record_deliveries :
      (config : Config) (memory : PerformanceStats) (ds : List Delivery)
      → length ds < 2 ^ 64
      → print_performance_summary D double divide multiply less
          (record_deliveries (init_performance_stats (some memory)).1 ds)
          (some config)
          (some (codes "Subscriber"))
        ≡ summary_of config ds
  print_performance_summary-record_deliveries config memory ds few =
      let (s, ran, has) = record_deliveries-HasFigures memory ds few in
      rw ran (print_performance_summary_lem config ds s has)
