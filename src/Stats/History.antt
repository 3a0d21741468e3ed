-- ===== src/Stats/History.antt =====
-- The statistics as a summary of the latencies recorded so far.
use mathlib.Core.List.{append_assoc, append-nil}
use aeron_fast.Base.{
  sym, ◌∙◌, Option, min, max, length-append, ◌++◌, ℕ, zero, suc, ◌+◌, ◌/◌, ◌%◌, ◌^◌, ◌≡◌, refl, ap,
  ◌∙◌, min, max, true, List, [], ◌∷◌, ◌++◌, Option, some, arith, ltb, if◌then◌else◌, length, u64,
  u64_max, IsU64, length-append, set,
}
use aeron_fast.Stats.Defs.{
  PerformanceStats, zeros, create_limits, create_performance_stats, detailed_record_count,
}
use aeron_fast.Stats.Tally.{tally, sum, IsAscending, count_bucket-tally, AllBelow, sum-tally}
use aeron_fast.Stats.{
  count_message, update_extremes, append_record, record_latency, lower_min_self, raise_max_self,
  count_bucket,
}

-- The smallest and the largest latency; of no latencies, the values that the fields start from.
abbrev pub minimum : List ℕ → ℕ
minimum [] = u64_max
minimum (l ∷ h) = min l (minimum h)

abbrev pub maximum : List ℕ → ℕ
maximum [] = 0
maximum (l ∷ h) = max l (maximum h)

-- The array of latencies that has room for `n` and holds the first of a history, then zeros.
unfoldable pub first_latencies : ℕ → List ℕ → List ℕ
first_latencies zero h = []
first_latencies (suc n) [] = 0 ∷ first_latencies n []
first_latencies (suc n) (l ∷ h) = l ∷ first_latencies n h

-- `s` is what `record_latency` leaves after the latencies of `h`, oldest first: their number and
-- sum modulo 2 ^ 64, their extremes, their distribution, and the first thousand in order.
pub record Tracks (h : List ℕ) (s : PerformanceStats) : Type 0 where
  pub count : s.counters.message_count ≡ u64 (length h)
  pub total : s.counters.total_latency ≡ u64 (sum h)
  pub lowest : s.counters.min_latency ≡ minimum h
  pub highest : s.counters.max_latency ≡ maximum h
  pub limits : s.latency_bucket_limits ≡ create_limits
  pub buckets : s.latency_buckets ≡ tally 0 create_limits h
  pub recorded : s.records.recorded_count ≡ min detailed_record_count (length h)
  pub latencies : s.records.latencies ≡ first_latencies detailed_record_count h

pub sum-snoc : (h : List ℕ) (l : ℕ) → sum (h ++ l ∷ []) ≡ sum h + l
sum-snoc [] l = omega arith
sum-snoc (x ∷ h) l = omega (arith, sum-snoc h l)

pub minimum-snoc : (h : List ℕ) (l : ℕ) → IsU64 l → minimum (h ++ l ∷ []) ≡ min (minimum h) l
minimum-snoc [] l p = omega arith
minimum-snoc (x ∷ h) l p = omega (arith, minimum-snoc h l p)

pub maximum-snoc : (h : List ℕ) (l : ℕ) → maximum (h ++ l ∷ []) ≡ max (maximum h) l
maximum-snoc [] l = omega arith
maximum-snoc (x ∷ h) l = omega (arith, maximum-snoc h l)

-- The next latency goes into the first free slot, if there is one.
pub first_latencies-snoc :
    (n : ℕ) (h : List ℕ) (l : ℕ)
    → first_latencies n (h ++ l ∷ [])
      ≡ (if ltb (length h) n then set (first_latencies n h) (length h) l else first_latencies n h)
unfolding first_latencies
first_latencies-snoc zero [] l = refl
first_latencies-snoc zero (x ∷ h) l = ground arith
first_latencies-snoc (suc n) [] l = ground arith
first_latencies-snoc (suc n) (x ∷ h) l = ground (arith, first_latencies-snoc n h l)

pub zeros-first_latencies : (n : ℕ) → zeros n ≡ first_latencies n []
unfolding zeros first_latencies
zeros-first_latencies zero = refl
zeros-first_latencies (suc n) = ap (λ (l : List ℕ). 0 ∷ l) (zeros-first_latencies n)

zeros-tally : zeros 10 ≡ tally 0 create_limits []
unfolding zeros
zeros-tally = refl

pub create-Tracks : (s : PerformanceStats) × (create_performance_stats true ≡ some s) × Tracks [] s
unfolding create_performance_stats
create-Tracks = (
  _,
  refl,
  record {
    count = refl;
    total = refl;
    lowest = refl;
    highest = refl;
    limits = refl;
    buckets = zeros-tally;
    recorded = refl;
    latencies = zeros-first_latencies detailed_record_count;
  },
)

pub create_limits-IsAscending : IsAscending 0 create_limits
create_limits-IsAscending = omega arith

module _ (h : List ℕ) (s : PerformanceStats) (l : ℕ) (before : Tracks h s) (small : IsU64 l) where
  open before use {count, total, lowest, highest, limits, buckets, recorded, latencies}

  counters_lem :
      let c = update_extremes l (count_message l s.counters) in
      (c.message_count ≡ u64 (length (h ++ l ∷ [])))
      × (c.total_latency ≡ u64 (sum (h ++ l ∷ [])))
      × (c.min_latency ≡ minimum (h ++ l ∷ []))
      × (c.max_latency ≡ maximum (h ++ l ∷ []))
  unfolding update_extremes count_message
  counters_lem = ground (
    arith,
    length-append h (l ∷ []),
    sum-snoc h l,
    minimum-snoc h l small,
    maximum-snoc h l,
    lower_min_self 0 (s.counters.min_latency) l,
    raise_max_self 0 (s.counters.max_latency) l,
  )

  buckets_lem :
      count_bucket ltb (l / 1000) s.latency_bucket_limits s.latency_buckets
      ≡ tally 0 create_limits (h ++ l ∷ [])
  buckets_lem =
      rw (limits, buckets)
        (count_bucket-tally 0 create_limits h l create_limits-IsAscending (omega arith))

  append_record_lem :
      let r = append_record l s.records in
      (r.recorded_count ≡ min detailed_record_count (length (h ++ l ∷ [])))
      × (r.latencies ≡ first_latencies detailed_record_count (h ++ l ∷ []))
  unfolding append_record
  append_record_lem =
      ground (arith, length-append h (l ∷ []), first_latencies-snoc detailed_record_count h l)

  -- One more latency: `record_latency` keeps the statistics a summary of all that was recorded.
  pub record_latency-Tracks :
      (s' : PerformanceStats) × (record_latency (some s) l ≡ some s') × Tracks (h ++ l ∷ []) s'
  unfolding record_latency
  record_latency-Tracks = (
    _,
    refl,
    record {
      count = counters_lem.0;
      total = counters_lem.1;
      lowest = counters_lem.2;
      highest = counters_lem.3;
      limits = limits;
      buckets = buckets_lem;
      recorded = append_record_lem.0;
      latencies = append_record_lem.1;
    },
  )

-- A run of `record_latency` over latencies, oldest first.
pub record_all : Option PerformanceStats → List ℕ → Option PerformanceStats
record_all stats [] = stats
record_all stats (l ∷ ls) = record_all (record_latency stats l) ls

abbrev pub AllU64 : List ℕ → Type 0
AllU64 [] = Unit {0}
AllU64 (l ∷ ls) = IsU64 l × AllU64 ls

record_all-Tracks :
    (h ls : List ℕ) (s : PerformanceStats)
    → Tracks h s
    → AllU64 ls
    → (s' : PerformanceStats) × (record_all (some s) ls ≡ some s') × Tracks (h ++ ls) s'
unfolding record_all
record_all-Tracks h [] s t small = (s, refl, rw append-nil t)
record_all-Tracks h (l ∷ ls) s t small =
    let (s', step, t') = record_latency-Tracks h s l t small.0 in
    let (s'', rest, t'') = record_all-Tracks (h ++ l ∷ []) ls s' t' small.1 in
    (s'', rw (step, rest), rw (append_assoc h (l ∷ []) ls) at t'')

-- Statistics that `create_performance_stats` has allocated, and that then recorded the 64-bit
-- latencies of `h`, hold the number and the sum of them modulo 2 ^ 64, the smallest and the
-- largest, the distribution over the ten ranges, and the first thousand latencies in order.
pub create_performance_stats-Tracks :
    (h : List ℕ)
    → AllU64 h
    → (s : PerformanceStats) × (record_all (create_performance_stats true) h ≡ some s) × Tracks h s
create_performance_stats-Tracks h small =
    let (s, made, t) = create-Tracks in
    let (s', run, t') = record_all-Tracks [] h s t small in (s', rw (made, run), t')

AllU64-AllBelow : (h : List ℕ) → AllU64 h → AllBelow u64_max h
AllU64-AllBelow [] small = tt
AllU64-AllBelow (l ∷ h) small = (omega arith, AllU64-AllBelow h small.1)

-- No latency is left out of the distribution: the ten buckets add up to the message count, modulo
-- 2 ^ 64, after any history of 64-bit latencies.
pub buckets-sum :
    (h : List ℕ) (s : PerformanceStats)
    → AllU64 h
    → Tracks h s
    → (length s.latency_buckets ≡ 10) × (sum s.latency_buckets % 2 ^ 64 ≡ s.counters.message_count)
buckets-sum h s small t = (
  ap length t.buckets,
  rw t.buckets
      (sum-tally create_limits h create_limits-IsAscending (AllU64-AllBelow h small) ∙ sym t.count),
)
