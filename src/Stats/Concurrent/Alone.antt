-- ===== src/Stats/Concurrent/Alone.antt =====
-- One thread while the others stand still: its call does what `record_latency` does.
use aeron_fast.Base.{ℕ, ◌≡◌, refl, ap, ◌∙◌, inl, inr, true, some, arith, ltb, ◌==◌, Bool-cases, ◌/◌}
use aeron_fast.Stats.Defs.{PerformanceStats, detailed_record_count}
use aeron_fast.Stats.{
  count_bucket, record_latency, append_record, lower_min, raise_max, lower_min_self, raise_max_self,
  count_message, update_extremes,
}
use aeron_fast.Stats.Concurrent.{Pc, exec, run_alone}

pub same_number : (n : ℕ) → (n == n) ≡ true
same_number n = ground arith

-- The memory after each part of a call that no other comes between.
abbrev counted : ℕ → PerformanceStats → PerformanceStats
counted l m = record m { counters = count_message l m.counters }

abbrev pub lowered : ℕ → PerformanceStats → PerformanceStats
lowered l m = record m {
  counters = record (m.counters) {
    min_latency = (lower_min 1 m.counters.min_latency m.counters.min_latency l).0;
  };
}

abbrev pub raised : ℕ → PerformanceStats → PerformanceStats
raised l m = record m {
  counters = record (m.counters) {
    max_latency = raise_max 1 m.counters.max_latency m.counters.max_latency l;
  };
}

abbrev bucketed : ℕ → PerformanceStats → PerformanceStats
bucketed l m = record m {
  latency_buckets = count_bucket ltb (l / 1000) m.latency_bucket_limits m.latency_buckets;
}

-- A loop that starts from the value just loaded takes one operation.
pub lowering_self :
    (l : ℕ) (m : PerformanceStats)
    → exec (Pc.lowering l m.counters.min_latency) m ≡ (Pc.loading_max l, lowered l m)
unfolding exec
lowering_self l m = elim (Bool-cases (ltb l m.counters.min_latency)) [
  | inl p ↦ rw (lower_min_self, p, same_number) refl
  | inr p ↦ rw (lower_min_self, p) refl
]

pub raising_self :
    (l : ℕ) (m : PerformanceStats)
    → exec (Pc.raising l m.counters.max_latency) m ≡ (Pc.bucketing l, raised l m)
unfolding exec
raising_self l m = elim (Bool-cases (ltb m.counters.max_latency l)) [
  | inl p ↦ rw (raise_max_self, p, same_number) refl
  | inr p ↦ rw (raise_max_self, p) refl
]

-- The last two operations, of which the second may be none.
appending_self :
    (l : ℕ) (m : PerformanceStats)
    → run_alone 2 (Pc.appending l m.records.recorded_count) m
      ≡ (Pc.idle, record m { records = append_record l m.records })
unfolding exec append_record
appending_self l m = elim (Bool-cases (ltb m.records.recorded_count detailed_record_count)) [
  | inl p ↦ rw (p, same_number) refl
  | inr p ↦ rw p refl
]

abbrev pub after : ℕ → Pc × PerformanceStats → Pc × PerformanceStats
after k (pc, m) = run_alone k pc m

-- Ten operations of a thread that no other comes between are one `record_latency`, for any
-- statistics.
pub run_alone-record_latency :
    (l : ℕ) (m : PerformanceStats)
    → (m' : PerformanceStats) × (run_alone 10 (Pc.counting l) m ≡ (Pc.idle, m'))
      × (record_latency (some m) l ≡ some m')
unfolding exec record_latency count_message update_extremes
run_alone-record_latency l m =
    let m₁ = lowered l (counted l m) in
    let m₂ = bucketed l (raised l m₁) in
    (
      record m₂ { records = append_record l m₂.records },
      ap (after 6) (lowering_self l (counted l m))
          ∙ ap (after 4) (raising_self l m₁)
          ∙ appending_self l m₂,
      refl,
    )
