-- ===== src/Stats/Concurrent/Kept.antt =====
-- Every operation keeps the memory a picture of the latencies that have passed.
use aeron_fast.Base.{
  ℕ, refl, inl, inr, List, [], ◌∷◌, arith, length-append, ltb, ◌==◌, IsU64, Bool-cases,
}
use aeron_fast.Stats.History.{sum-snoc}
use aeron_fast.Stats.Defs.{PerformanceStats, detailed_record_count}
use aeron_fast.Stats.Concurrent.{Pc, exec}
use aeron_fast.Stats.Concurrent.Memory.{Reflects, IsLoaded, Keeps, still, bucket-tally}
use aeron_fast.Stats.Concurrent.Extremes.{lowering-Keeps, raising-Keeps}

module _ (l c : ℕ) (m : PerformanceStats) (passed : ℕ → List ℕ) (r : Reflects passed m) where
  appending-Keeps :
      IsU64 l
      → Keeps
          (Pc.appending l c)
          m
          passed
          (exec (Pc.appending l c) m).0
          (exec (Pc.appending l c) m).1
  unfolding exec
  appending-Keeps small = elim (Bool-cases (ltb c detailed_record_count)) [
    | inr p ↦ rw p (record { reflects = r; loaded = omega arith; later = still refl refl })
    | inl p ↦ elim (Bool-cases (m.records.recorded_count == c)) [
      | inl q ↦
          rw (p, q)
            (record {
              reflects = record {
                count = r.count;
                total = r.total;
                lowest = r.lowest;
                highest = r.highest;
                limits = r.limits;
                buckets = r.buckets;
                recorded = ground arith;
              };
              loaded = small;
              later = still refl refl;
            })
      | inr q ↦ rw (p, q) (record { reflects = r; loaded = omega arith; later = still refl refl })
    ]
  ]

module _ (l : ℕ) (m : PerformanceStats) (passed : ℕ → List ℕ) (r : Reflects passed m)
    (small : IsU64 l) where
  counting-Keeps :
      Keeps (Pc.counting l) m passed (exec (Pc.counting l) m).0 (exec (Pc.counting l) m).1
  unfolding exec
  counting-Keeps = record {
    reflects = record {
      count = omega (arith, r.count, length-append (passed 0) (l ∷ []));
      total = r.total;
      lowest = r.lowest;
      highest = r.highest;
      limits = r.limits;
      buckets = r.buckets;
      recorded = r.recorded;
    };
    loaded = small;
    later = still refl refl;
  }

  totalling-Keeps :
      Keeps (Pc.totalling l) m passed (exec (Pc.totalling l) m).0 (exec (Pc.totalling l) m).1
  unfolding exec
  totalling-Keeps = record {
    reflects = record {
      count = r.count;
      total = omega (arith, r.total, sum-snoc (passed 1) l);
      lowest = r.lowest;
      highest = r.highest;
      limits = r.limits;
      buckets = r.buckets;
      recorded = r.recorded;
    };
    loaded = small;
    later = still refl refl;
  }

  bucketing-Keeps :
      Keeps (Pc.bucketing l) m passed (exec (Pc.bucketing l) m).0 (exec (Pc.bucketing l) m).1
  unfolding exec
  bucketing-Keeps = record {
    reflects = record {
      count = r.count;
      total = r.total;
      lowest = r.lowest;
      highest = r.highest;
      limits = r.limits;
      buckets =
          bucket-tally (passed 4) l m.latency_bucket_limits m.latency_buckets r.limits r.buckets;
      recorded = r.recorded;
    };
    loaded = small;
    later = still refl refl;
  }

-- Every operation of a thread keeps the memory a picture of what has passed, and what the threads
-- have loaded in order.
pub exec-Keeps :
    (pc : Pc) (m : PerformanceStats) (passed : ℕ → List ℕ)
    → Reflects passed m
    → IsLoaded m pc
    → Keeps pc m passed (exec pc m).0 (exec pc m).1
unfolding exec
exec-Keeps Pc.idle m passed r h = record { reflects = r; loaded = h; later = still refl refl }
exec-Keeps (Pc.counting l) m passed r h = counting-Keeps l m passed r h
exec-Keeps (Pc.totalling l) m passed r h = totalling-Keeps l m passed r h
exec-Keeps (Pc.loading_min l) m passed r h = record {
  reflects = r;
  loaded = (h, omega arith);
  later = still refl refl;
}
exec-Keeps (Pc.lowering l c) m passed r h = lowering-Keeps l c m passed r h
exec-Keeps (Pc.loading_max l) m passed r h = record {
  reflects = r;
  loaded = (h, omega arith);
  later = still refl refl;
}
exec-Keeps (Pc.raising l c) m passed r h = raising-Keeps l c m passed r h
exec-Keeps (Pc.bucketing l) m passed r h = bucketing-Keeps l m passed r h
exec-Keeps (Pc.loading_count l) m passed r h = record {
  reflects = r;
  loaded = h;
  later = still refl refl;
}
exec-Keeps (Pc.appending l c) m passed r h = appending-Keeps l c m passed r h
exec-Keeps (Pc.storing l slot) m passed r h = record {
  reflects = record {
    count = r.count;
    total = r.total;
    lowest = r.lowest;
    highest = r.highest;
    limits = r.limits;
    buckets = r.buckets;
    recorded = r.recorded;
  };
  loaded = omega arith;
  later = still refl refl;
}
