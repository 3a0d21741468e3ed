-- ===== src/Subscriber/Average.antt =====
-- The final report of a run of the subscriber, and the average latency in it.
use aeron_fast.Base.{ℕ, ◌/◌, ◌^◌, List, [], ◌∷◌, ◌++◌, length, map, ltb, if◌then◌else◌}
use aeron_fast.Rate.{per_second, mebibytes_per_second}
use aeron_fast.Stats.Defs.{create_limits}
use aeron_fast.Stats.Print.{StatsLine, range_lines}
use aeron_fast.Stats.Tally.{sum, tally}
use aeron_fast.Stats.History.{minimum, maximum}
use aeron_fast.Subscriber.Report.{ReportLine}

-- The lines about the latencies of `h`: the lowest, the highest and the mean, and how many fall
-- into each of the ten ranges.
abbrev pub latencies_of : List ℕ → List ReportLine
latencies_of [] = []
latencies_of (l ∷ ls) =
    let h = l ∷ ls in
    let mean = sum h / length h in
    ReportLine.latency_title
    ∷ ReportLine.lowest (minimum h) (minimum h / 1000)
    ∷ ReportLine.highest (maximum h) (maximum h / 1000)
    ∷ ReportLine.average mean (mean / 1000)
    ∷ ReportLine.distribution StatsLine.distribution_title
    ∷ map ReportLine.distribution (range_lines (length h) 0 (tally 0 create_limits h))

-- The report on messages with the latencies of `h` and `bytes` bytes, after `polls` polls in
-- `duration` nanoseconds.
abbrev pub report_of : List ℕ → ℕ → ℕ → ℕ → List ReportLine
report_of h bytes polls duration =
    ReportLine.final_title
    ∷ ReportLine.total_messages (length h)
    ∷ ReportLine.total_bytes bytes
    ∷ ReportLine.total_fragments (length h)
    ∷ ReportLine.polls polls
    ∷ ReportLine.elapsed duration (duration / 10 ^ 9)
    ∷ ((if ltb 0 duration
          then ReportLine.throughput (per_second (length h) duration)
            ∷ ReportLine.bandwidth (mebibytes_per_second bytes duration)
            ∷ []
          else [])
        ++ latencies_of h)
