-- ===== src/Stats/Tests.antt =====
-- Runs of the statistics.
use aeron_fast.Stats.Recorder.Filled.{performance_recorder, Counts, record_each-Counts}
use aeron_fast.Stats.Messages
use aeron_fast.Stats.Messages.{Delivery}
use aeron_fast.Stats.Deliveries.{record_deliveries}
use aeron_fast.Stats.Print.{records_title, detail, print_detailed_records}
use aeron_fast.Stats.Print.Details.{print_detailed_records-record_deliveries}
use aeron_fast.Stats.Summary.{print_performance_summary}
use aeron_fast.Stats.Summary.Figures.{fastest}
use aeron_fast.Stats.Summary.Report.{summary_of, print_performance_summary-record_deliveries}
use aeron_fast.Common.{Config, udp, codes}
use aeron_fast.Stats.Recorder.{record_each, latency, back_pressure, retry}
use aeron_fast.Stats.Layout.{line, offset, group, Counter, line-offset_iff}
use aeron_fast.Base.{
  ℕ, List, [], ◌∷◌, ◌≡◌, arith, ℕ, some, true, ◌↔◌, ◌+◌, ◌⊎◌, false, none, ◌/◌, ◌*◌, ltb, map, refl,
}
use aeron_fast.Stats.Defs.{PerformanceStats, create_performance_stats, init_performance_stats}
use aeron_fast.Stats.History.{Tracks, AllU64, create_performance_stats-Tracks}

abbrev three_latencies : List ℕ
three_latencies = 950 ∷ 7000 ∷ 12000000 ∷ []

three_latencies-AllU64 : AllU64 three_latencies
three_latencies-AllU64 = omega arith

-- The statistics after the three latencies.
abbrev three_stats : PerformanceStats
three_stats = (create_performance_stats-Tracks three_latencies three_latencies-AllU64).0

three_stats-Tracks : Tracks three_latencies three_stats
three_stats-Tracks = (create_performance_stats-Tracks three_latencies three_latencies-AllU64).2

-- Counters a multiple of 16 bytes, but not of 64, from the start of a line.
line-offset_iff_example :
    (line (48 + offset Counter.min_latency) ≡ line (48 + offset Counter.min_latency + 7))
    × ((line (48 + offset Counter.min_latency) ≡ line (48 + offset Counter.back_pressure_count))
        ↔ (group Counter.min_latency ≡ group Counter.back_pressure_count))
line-offset_iff_example =
    line-offset_iff 48 Counter.min_latency Counter.back_pressure_count (omega arith)

record_each-Counts_example :
    let last =
      record_each performance_recorder
        (create_performance_stats true)
        (retry ∷ latency 700 ∷ back_pressure ∷ latency 20 ∷ []) in
    ((true ≡ false) × (last ≡ none))
    ⊎ ((s : PerformanceStats) × (last ≡ some s) × Counts (700 ∷ 20 ∷ []) 1 1 s)
record_each-Counts_example =
    record_each-Counts true (retry ∷ latency 700 ∷ back_pressure ∷ latency 20 ∷ []) (omega arith)

abbrev usual : Config
usual = record {
  transport_type = udp;
  channel = [];
  custom_endpoint = [];
  aeron_dir = [];
  stream_id = 1001;
  message_size = 64;
  message_count = 1;
  target_message_count = 1;
  fragment_limit = 10;
}

abbrev two_messages : List Delivery
two_messages =
    record { send_time = 100; receive_time = 800 }
    ∷ record { send_time = 200; receive_time = 250 }
    ∷ []

print_detailed_records-record_deliveries_example :
    print_detailed_records
      (record_deliveries (init_performance_stats (some three_stats)).1 two_messages)
    ≡ records_title 2 ∷ detail 1 100 800 700 ∷ detail 2 200 250 50 ∷ []
print_detailed_records-record_deliveries_example =
    print_detailed_records-record_deliveries three_stats two_messages (omega arith)

-- With whole numbers for `double`.
print_performance_summary-record_deliveries_example :
    print_performance_summary ℕ
      (λ n. n)
      ◌/◌
      ◌*◌
      ltb
      (record_deliveries (init_performance_stats (some three_stats)).1 two_messages)
      (some usual)
      (some (codes "Subscriber"))
    ≡ summary_of ℕ (λ n. n) ◌/◌ ◌*◌ ltb usual two_messages
print_performance_summary-record_deliveries_example =
    print_performance_summary-record_deliveries ℕ (λ n. n) ◌/◌ ◌*◌ ltb usual three_stats
      two_messages (omega arith)

-- The second of the two is the fastest.
second_fastest : fastest (map Messages.latency two_messages) ≡ 2
second_fastest = refl
