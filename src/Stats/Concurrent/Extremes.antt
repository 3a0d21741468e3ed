-- ===== src/Stats/Concurrent/Extremes.antt =====
-- The loops of compare-exchanges that lower the minimum and raise the maximum.
use aeron_fast.Base.{ℕ, ◌≡◌, refl, inl, inr, List, [], ◌∷◌, ◌++◌, arith, ltb, ◌==◌, Bool-cases}
use aeron_fast.Stats.History.{maximum-snoc}
use aeron_fast.Stats.Defs.{PerformanceStats}
use aeron_fast.Stats.History.{minimum, maximum, minimum-snoc}
use aeron_fast.Stats.Concurrent.{Pc, exec, note}
use aeron_fast.Stats.Concurrent.Memory.{Reflects, IsLoaded, Keeps, still}

module _ (l c : ℕ) (m : PerformanceStats) (passed : ℕ → List ℕ) (r : Reflects passed m) where
  new_lowest :
      (v : ℕ)
      → v ≡ minimum (passed 2 ++ l ∷ [])
      → Reflects
          (note (Pc.lowering l c) (Pc.loading_max l) passed)
          (record m { counters = record (m.counters) { min_latency = v } })
  new_lowest v e = record {
    count = r.count;
    total = r.total;
    lowest = e;
    highest = r.highest;
    limits = r.limits;
    buckets = r.buckets;
    recorded = r.recorded;
  }

  pub lowering-Keeps :
      IsLoaded m (Pc.lowering l c)
      → Keeps (Pc.lowering l c) m passed (exec (Pc.lowering l c) m).0 (exec (Pc.lowering l c) m).1
  unfolding exec
  lowering-Keeps (small, near) = elim (Bool-cases (ltb l c)) [
    | inr p ↦ rw p (record {
      reflects =
          new_lowest m.counters.min_latency
            (ground (arith, r.lowest, minimum-snoc (passed 2) l small));
      loaded = small;
      later = still refl refl;
    })
    | inl p ↦ elim (Bool-cases (m.counters.min_latency == c)) [
      | inl q ↦
          rw (p, q)
            (record {
              reflects = new_lowest l (ground (arith, r.lowest, minimum-snoc (passed 2) l small));
              loaded = small;
              later = record { lower = ground arith; higher = omega arith };
            })
      | inr q ↦
          rw (p, q)
            (record { reflects = r; loaded = (small, omega arith); later = still refl refl })
    ]
  ]

  new_highest :
      (v : ℕ)
      → v ≡ maximum (passed 3 ++ l ∷ [])
      → Reflects
          (note (Pc.raising l c) (Pc.bucketing l) passed)
          (record m { counters = record (m.counters) { max_latency = v } })
  new_highest v e = record {
    count = r.count;
    total = r.total;
    lowest = r.lowest;
    highest = e;
    limits = r.limits;
    buckets = r.buckets;
    recorded = r.recorded;
  }

  pub raising-Keeps :
      IsLoaded m (Pc.raising l c)
      → Keeps (Pc.raising l c) m passed (exec (Pc.raising l c) m).0 (exec (Pc.raising l c) m).1
  unfolding exec
  raising-Keeps (small, near) = elim (Bool-cases (ltb c l)) [
    | inr p ↦ rw p (record {
      reflects =
          new_highest m.counters.max_latency (ground (arith, r.highest, maximum-snoc (passed 3) l));
      loaded = small;
      later = still refl refl;
    })
    | inl p ↦ elim (Bool-cases (m.counters.max_latency == c)) [
      | inl q ↦
          rw (p, q)
            (record {
              reflects = new_highest l (ground (arith, r.highest, maximum-snoc (passed 3) l));
              loaded = small;
              later = record { lower = omega arith; higher = ground arith };
            })
      | inr q ↦
          rw (p, q)
            (record { reflects = r; loaded = (small, omega arith); later = still refl refl })
    ]
  ]
