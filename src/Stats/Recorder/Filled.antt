-- ===== src/Stats/Recorder/Filled.antt =====
-- performance_stats.c fills the interface of its header.
use mathlib.Core.Option.{some-injective}
use aeron_fast.Base.{
  ℕ, suc, ◌≡◌, refl, sym, ap, ◌∙◌, ◌⊎◌, Bool, true, false, Option, none, some, List, [], ◌∷◌, ◌++◌,
  arith, u64, add64, IsU64,
}
use aeron_fast.Stats.Defs.{PerformanceStats, create_performance_stats}
use aeron_fast.Stats.History.{Tracks, create-Tracks, record_latency-Tracks}
use aeron_fast.Stats.{
  record_latency, record_send_latency, record_back_pressure, record_retry, update_extremes,
  count_message, record_message_latency, destroy_performance_stats,
}
use aeron_fast.Stats.Recorder.{
  LatencyRecorder, Recording, AllFit, latencies, back_pressures, retries, record_each,
  record_each-create,
}

-- The statistics of performance_stats.c, with the two counts modulo 2 ^ 64.
pub record Counts (h : List ℕ) (b r : ℕ) (s : PerformanceStats) : Type 0 where
  pub tracks : Tracks h s
  pub back_pressure_counted : s.counters.back_pressure_count ≡ u64 b
  pub retries_counted : s.counters.retry_count ≡ u64 r

-- Recording a latency leaves both counts alone.
pub record_latency-Counts :
    (h : List ℕ) (b r : ℕ) (s : PerformanceStats) (l : ℕ)
    → Counts h b r s
    → IsU64 l
    → (s' : PerformanceStats) × (record_latency (some s) l ≡ some s') × Counts (h ++ l ∷ []) b r s'
unfolding record_latency update_extremes count_message
record_latency-Counts h b r s l c small =
    let (s', e, t) = record_latency-Tracks h s l c.tracks small in
    let same = some-injective _ _ e in
    (
      s',
      e,
      record {
        tracks = t;
        back_pressure_counted =
            ap (λ (p : PerformanceStats). p.counters.back_pressure_count) (sym same)
            ∙ c.back_pressure_counted;
        retries_counted =
            ap (λ (p : PerformanceStats). p.counters.retry_count) (sym same) ∙ c.retries_counted;
      },
    )

-- The two counts are no part of the history.
other_counts-Tracks :
    (h : List ℕ) (s : PerformanceStats) (b r : ℕ)
    → Tracks h s
    → Tracks h
        (record s { counters = record (s.counters) { back_pressure_count = b; retry_count = r } })
other_counts-Tracks h s b r t = record {
  count = t.count;
  total = t.total;
  lowest = t.lowest;
  highest = t.highest;
  limits = t.limits;
  buckets = t.buckets;
  recorded = t.recorded;
  latencies = t.latencies;
}

pub record_back_pressure-Counts :
    (h : List ℕ) (b r : ℕ) (s : PerformanceStats)
    → Counts h b r s
    → (s' : PerformanceStats) × (record_back_pressure (some s) ≡ some s') × Counts h (suc b) r s'
unfolding record_back_pressure
record_back_pressure-Counts h b r s c = (
  _,
  refl,
  record {
    tracks =
        other_counts-Tracks h s (add64 s.counters.back_pressure_count 1) s.counters.retry_count
          c.tracks;
    back_pressure_counted = omega (arith, c.back_pressure_counted);
    retries_counted = c.retries_counted;
  },
)

pub record_retry-Counts :
    (h : List ℕ) (b r : ℕ) (s : PerformanceStats)
    → Counts h b r s
    → (s' : PerformanceStats) × (record_retry (some s) ≡ some s') × Counts h b (suc r) s'
unfolding record_retry
record_retry-Counts h b r s c = (
  _,
  refl,
  record {
    tracks =
        other_counts-Tracks h s s.counters.back_pressure_count (add64 s.counters.retry_count 1)
          c.tracks;
    back_pressure_counted = c.back_pressure_counted;
    retries_counted = omega (arith, c.retries_counted);
  },
)

pub create-Counts :
    (s : PerformanceStats) × (create_performance_stats true ≡ some s) × Counts [] 0 0 s
unfolding create_performance_stats
create-Counts =
    let (s, e, t) = create-Tracks in
    let same = some-injective _ _ e in
    (
      s,
      e,
      record {
        tracks = t;
        back_pressure_counted =
            ap (λ (p : PerformanceStats). p.counters.back_pressure_count) (sym same);
        retries_counted = ap (λ (p : PerformanceStats). p.counters.retry_count) (sym same);
      },
    )

-- A null pointer is passed over.
pub create-false : create_performance_stats false ≡ none
unfolding create_performance_stats
create-false = refl

pub record_latency-none : (l : ℕ) → record_latency none l ≡ none
unfolding record_latency
record_latency-none l = refl

pub record_message_latency-none : (m n : ℕ) → record_message_latency none m n ≡ none
unfolding record_message_latency
record_message_latency-none m n = refl

pub record_back_pressure-none : record_back_pressure none ≡ none
unfolding record_back_pressure
record_back_pressure-none = refl

pub record_retry-none : record_retry none ≡ none
unfolding record_retry
record_retry-none = refl

pub record_send_latency_same : (s : Option PerformanceStats) (l : ℕ) → record_send_latency s l ≡ s
unfolding record_send_latency
record_send_latency_same s l = refl

-- performance_stats.c keeps the promises of its header.
abbrev pub performance_recorder : LatencyRecorder
performance_recorder = record {
  Stats = PerformanceStats;
  create_performance_stats = create_performance_stats;
  destroy_performance_stats = destroy_performance_stats;
  record_latency = record_latency;
  record_message_latency = record_message_latency;
  record_send_latency = record_send_latency;
  record_back_pressure = record_back_pressure;
  record_retry = record_retry;
  Holds = Counts;
  refused = create-false;
  created = create-Counts;
  latency_held = record_latency-Counts;
  send_latency_held = λ h b r s l holds. (s, record_send_latency_same (some s) l, holds);
  back_pressure_held = record_back_pressure-Counts;
  retry_held = record_retry-Counts;
  null_message_latency = record_message_latency-none;
  null_latency = record_latency-none;
  null_send_latency = record_send_latency_same none;
  null_back_pressure = record_back_pressure-none;
  null_retry = record_retry-none;
}

-- Statistics that `create_performance_stats` sets up, and that then record 64-bit latencies, events
-- of back pressure and retries in any order: without memory every call does nothing; otherwise the
-- figures, the buckets and the first thousand latencies are those of the latencies alone, and the
-- two counts those of their events alone, modulo 2 ^ 64.
pub record_each-Counts :
    (allocated : Bool) (rs : List Recording)
    → AllFit rs
    → let last = record_each performance_recorder (create_performance_stats allocated) rs in
      ((allocated ≡ false) × (last ≡ none))
      ⊎ ((s : PerformanceStats) × (last ≡ some s)
          × Counts (latencies rs) (back_pressures rs) (retries rs) s)
record_each-Counts allocated rs fit = record_each-create performance_recorder allocated rs fit
