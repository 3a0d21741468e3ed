-- ===== src/Stats/Messages/Settled.antt =====
-- The statistics when no call of `record_message_latency` is under way.
use aeron_fast.Stats.Messages.Loaded.{Reach_lowered}
use mathlib.Core.Path.{subst}
use native.Mathlib.Nat.{le_antisymm}
use mathlib.Core.Option.{some-injective}
use aeron_fast.Base.{
  ℕ, zero, suc, ◌^◌, ◌≤◌, ◌<◌, ◌≡◌, refl, sym, ap, ◌∙◌, some, [], arith, length, map, get_elem?,
  u64, u64_max, length-map,
}
use aeron_fast.Stats.Defs.{
  PerformanceStats, init_limits, init_performance_stats, detailed_record_count, zeros,
  DetailedRecords,
}
use aeron_fast.Stats.History.{minimum, maximum}
use aeron_fast.Stats.Tally.{sum, tally}
use aeron_fast.Stats.Bag.{tally-SameBag}
use aeron_fast.Stats.Concurrent.Quiet.{held}
use aeron_fast.Stats.Messages.{Delivery, latency, System, start, Reach}
use aeron_fast.Stats.Messages.Indices.{Reach-IsIndexed}
use aeron_fast.Stats.Messages.Tasks.{AllIdle, weigh_idle}
use aeron_fast.Stats.Messages.Records.{Column, column, column_filled, HasRoom}
use aeron_fast.Stats.Messages.Bounds.{Reach-IsBounded}
use aeron_fast.Stats.Messages.Extremes.{all_between}
use aeron_fast.Stats.Messages.Attained.{Reach-IsAttained, le-minimum_of, maximum-le_of}
use aeron_fast.Stats.Messages.Totals.{of_latency, Reach_total, Reach_total_small}
use aeron_fast.Stats.Messages.Distribution.{ranges, Reach-IsCounted}

-- What `init_performance_stats` sets.
pub record IsInit (m : PerformanceStats) : Type 0 where
  pub zeroed : m.counters.message_count ≡ 0
  pub total : m.counters.total_latency ≡ 0
  pub top : m.counters.min_latency ≡ u64_max
  pub bottom : m.counters.max_latency ≡ 0
  pub room : (c : Column) → HasRoom c m
  pub recorded : m.records.recorded_count ≡ 0
  pub limits : m.latency_bucket_limits ≡ init_limits
  pub buckets : m.latency_buckets ≡ tally 0 ranges []

length-zeros : (n : ℕ) → length (zeros n) ≡ n
unfolding zeros
length-zeros zero = refl
length-zeros (suc n) = ap suc (length-zeros n)

same_room :
    (r : DetailedRecords)
    → length r.send_times ≡ detailed_record_count
    → length r.receive_times ≡ detailed_record_count
    → length r.latencies ≡ detailed_record_count
    → (c : Column) → length (column c r) ≡ detailed_record_count
same_room r a b c Column.send = a
same_room r a b c Column.receive = b
same_room r a b c Column.delay = c

pub zeros-tally : zeros 10 ≡ tally 0 ranges []
unfolding zeros
zeros-tally = refl

pub new-IsInit :
    (old : PerformanceStats)
    → (m : PerformanceStats) × ((init_performance_stats (some old)).1 ≡ some m) × IsInit m
unfolding init_performance_stats
new-IsInit old = (
  _,
  refl,
  record {
    zeroed = refl;
    total = refl;
    top = refl;
    bottom = refl;
    room =
        same_room _ (length-zeros detailed_record_count) (length-zeros detailed_record_count)
          (length-zeros detailed_record_count);
    recorded = refl;
    limits = refl;
    buckets = zeros-tally;
  },
)

pub made-IsInit :
    (old memory : PerformanceStats)
    → (init_performance_stats (some old)).1 ≡ some memory
    → IsInit memory
made-IsInit old memory made =
    let (m, e, h) = new-IsInit old in subst IsInit (some-injective _ _ (sym e ∙ made)) h

module _ (n : ℕ) (old memory : PerformanceStats)
    (made : (init_performance_stats (some old)).1 ≡ some memory) {s : System}
    (r : Reach (start n memory) s) (few : length s.drawn < 2 ^ 64) (idle : AllIdle s.threads) where
  fresh : IsInit memory
  fresh = made-IsInit old memory made

  count_lem : s.memory.counters.message_count ≡ u64 (length (map latency s.drawn))
  count_lem =
      omega (arith, (Reach-IsIndexed n memory fresh.zeroed r few).count, length-map latency s.drawn)

  total_lem : s.memory.counters.total_latency ≡ u64 (sum (map latency s.drawn))
  total_lem = omega (
    arith,
    Reach_total n memory fresh.total r,
    weigh_idle 2 (of_latency (λ x. x)) s.threads idle,
    Reach_total_small n memory (omega (arith, fresh.total)) r,
  )

  extremes_lem :
      (s.memory.counters.min_latency ≡ minimum (map latency s.drawn))
      × (s.memory.counters.max_latency ≡ maximum (map latency s.drawn))
  extremes_lem =
      let (low, high) = Reach-IsAttained n memory fresh.zeroed fresh.top fresh.bottom r few in
      let between = all_between n memory fresh.zeroed r few idle in
      let capped : s.memory.counters.min_latency ≤ u64_max =
        omega (arith, Reach_lowered n memory r, fresh.top) in
      (
        le_antisymm
            (le-minimum_of s.memory.counters.min_latency s.drawn capped
              (λ j d e. (between j d e).0))
            low,
        le_antisymm high
            (maximum-le_of s.memory.counters.max_latency s.drawn (λ j d e. (between j d e).1)),
      )

  buckets_lem : s.memory.latency_buckets ≡ tally 0 ranges (map latency s.drawn)
  buckets_lem =
      let h = Reach-IsCounted n memory fresh.limits fresh.buckets r in
      h.buckets
      ∙ tally-SameBag 0 ranges h.counted (map latency s.drawn)
          (λ w. omega (arith, h.balanced w, weigh_idle 9 (of_latency w) s.threads idle))

  -- In every state that any number of threads in `record_message_latency` can reach from
  -- initialised statistics, in any order of their operations, with fewer than 2 ^ 64 calls of which
  -- none is still under way, the message count, the sum modulo 2 ^ 64, the extremes and the ten
  -- buckets are those of the latencies of all the calls.
  pub messages_figures :
      let h = map latency s.drawn in
      held s.memory
      ≡ (u64 (length h), u64 (sum h), minimum h, maximum h, tally 0 (map suc init_limits) h)
  messages_figures = rw (count_lem, total_lem, extremes_lem.0, extremes_lem.1, buckets_lem) refl

  -- In every state that any number of threads in `record_message_latency` can reach from
  -- initialised statistics, in any order of their operations, with fewer than 2 ^ 64 calls of which
  -- none is still under way, the records of the calls with an index below 1000 are whole: the send
  -- time, the receive time and the latency of each stand in the three arrays at the index that the
  -- call has drawn, and no other thread's have come between them. The number of records is at most
  -- 1000, and at most the number of the calls.
  pub records_whole :
      ((j : ℕ) (d : Delivery)
        → get_elem? s.drawn j ≡ some d
        → j < detailed_record_count
        → (get_elem? s.memory.records.send_times j ≡ some d.send_time)
          × (get_elem? s.memory.records.receive_times j ≡ some d.receive_time)
          × (get_elem? s.memory.records.latencies j ≡ some (latency d)))
      × (s.memory.records.recorded_count ≤ detailed_record_count)
      × (s.memory.records.recorded_count ≤ length s.drawn)
  records_whole =
      let h = fresh in
      let bounded = Reach-IsBounded n memory h.zeroed h.recorded r few in
      let filled = λ (c : Column). column_filled n memory h.zeroed c (h.room c) r few idle in
      (
        (λ j d e room. (
          filled Column.send j d e room,
          filled Column.receive j d e room,
          filled Column.delay j d e room,
        )),
        bounded.0,
        bounded.1,
      )
