-- ===== src/Subscriber/Report.antt =====
-- The reports of the subscriber.
use aeron_fast.Base.{ℕ, ◌/◌, ◌^◌, List, [], ◌∷◌, ◌++◌, map, ltb, if◌then◌else◌, sub64}
use aeron_fast.Rate.{per_second, mebibytes_per_second}
use aeron_fast.Stats.Print.{StatsLine, print_latency_distribution}
use aeron_fast.Subscriber.{SubscriberStats, Globals}

-- What a report prints, a constructor for each `printf`.
pub data ReportLine : Type 0 where
  progress : (messages target bytes message_rate mebibyte_rate : ℕ) → ReportLine
  final_title : ReportLine
  total_messages : ℕ → ReportLine
  total_bytes : ℕ → ReportLine
  total_fragments : ℕ → ReportLine
  polls : ℕ → ReportLine
  elapsed : (nanoseconds seconds : ℕ) → ReportLine
  throughput : ℕ → ReportLine
  bandwidth : ℕ → ReportLine
  latency_title : ReportLine
  lowest : (nanoseconds microseconds : ℕ) → ReportLine
  highest : (nanoseconds microseconds : ℕ) → ReportLine
  average : (nanoseconds microseconds : ℕ) → ReportLine
  distribution : StatsLine → ReportLine

-- `print_realtime_stats` at the time `current_time`, under the mutex.
unfoldable pub print_realtime_stats : ℕ → Globals → Globals × List ReportLine
print_realtime_stats current_time g =
    let s = g.stats in
    let interval_time = sub64 current_time s.last_stats_time in
    let interval_messages = sub64 s.messages_received s.last_messages_received in
    let interval_bytes = sub64 s.bytes_received s.last_bytes_received in
    (
      record g {
        stats = record s {
          last_stats_time = current_time;
          last_messages_received = s.messages_received;
          last_bytes_received = s.bytes_received;
        };
      },
      if ltb 0 interval_time
          then ReportLine.progress s.messages_received g.target_messages s.bytes_received
              (per_second interval_messages interval_time)
              (mebibytes_per_second interval_bytes interval_time)
            ∷ []
          else [],
    )

-- The lines of `print_final_stats` about the rates.
abbrev pub rate_lines : ℕ → SubscriberStats → List ReportLine
rate_lines total_duration s =
    if ltb 0 total_duration
    then ReportLine.throughput (per_second s.messages_received total_duration)
      ∷ ReportLine.bandwidth (mebibytes_per_second s.bytes_received total_duration)
      ∷ []
    else []

-- Those about the latencies.
abbrev pub latency_lines : SubscriberStats → List ReportLine
latency_lines s =
    let avg_latency = s.total_latency / s.messages_received in
    if ltb 0 s.messages_received
    then ReportLine.latency_title
      ∷ ReportLine.lowest s.min_latency (s.min_latency / 1000)
      ∷ ReportLine.highest s.max_latency (s.max_latency / 1000)
      ∷ ReportLine.average avg_latency (avg_latency / 1000)
      ∷ map ReportLine.distribution (print_latency_distribution s.latency_stats)
    else []

unfoldable pub print_final_stats : SubscriberStats → List ReportLine
print_final_stats s =
    let total_duration = sub64 s.end_time s.start_time in
    ReportLine.final_title
    ∷ ReportLine.total_messages s.messages_received
    ∷ ReportLine.total_bytes s.bytes_received
    ∷ ReportLine.total_fragments s.fragments_received
    ∷ ReportLine.polls s.polling_iterations
    ∷ ReportLine.elapsed total_duration (total_duration / 10 ^ 9)
    ∷ (rate_lines total_duration s ++ latency_lines s)
