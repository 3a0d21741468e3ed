-- ===== src/Stats/Print/Table.antt =====
-- The table that `print_latency_distribution` prints.
use aeron_fast.Base.{
  ℕ, suc, ◌%◌, ◌^◌, ◌<◌, ◌≡◌, ◌∙◌, refl, ap, arith, List, [], ◌∷◌, length, some, ◌==◌, false,
}
use aeron_fast.Stats.Defs.{PerformanceStats}
use aeron_fast.Stats.Tally.{sum}
use aeron_fast.Stats.History.{Tracks, AllU64, buckets-sum}
use aeron_fast.Stats.Print.{StatsLine, range_lines, print_latency_distribution}

-- The numbers of messages in the rows of a table.
abbrev pub row_counts : List StatsLine → List ℕ
row_counts [] = []
row_counts (StatsLine.range index messages hundred_times out_of ∷ lines) =
    messages ∷ row_counts lines
row_counts (_ ∷ lines) = row_counts lines

row_counts-range_lines :
    (total index : ℕ) (buckets : List ℕ) → row_counts (range_lines total index buckets) ≡ buckets
unfolding range_lines
row_counts-range_lines total index [] = refl
row_counts-range_lines total index (b ∷ buckets) =
    ap (λ (rows : List ℕ). b ∷ rows) (row_counts-range_lines total (suc index) buckets)

-- After a history of 64-bit latencies, not empty and shorter than 2 ^ 64, the table has ten rows,
-- and their numbers of messages add up to the length of the history, modulo 2 ^ 64.
pub row_counts-print_latency_distribution :
    (h : List ℕ) (s : PerformanceStats)
    → AllU64 h
    → Tracks h s
    → 0 < length h
    → length h < 2 ^ 64
    → let rows = row_counts (print_latency_distribution (some s)) in
      (length rows ≡ 10) × (sum rows % 2 ^ 64 ≡ length h)
unfolding print_latency_distribution
row_counts-print_latency_distribution h s small t some_message few =
    let count : s.counters.message_count ≡ length h = omega (arith, t.count) in
    let positive : (s.counters.message_count == 0) ≡ false = ground arith in
    let (ten, total) = buckets-sum h s small t in
    rw (positive, row_counts-range_lines s.counters.message_count 0 s.latency_buckets)
      ((ten, total ∙ count))
