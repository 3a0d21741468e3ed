-- ===== src/Stats/Concurrent/Quiet.antt =====
-- The statistics when no thread has an update left to do.
use aeron_fast.Base.{
  ℕ, ◌≤◌, ◌<◌, ◌≡◌, refl, sym, ◌∙◌, true, some, List, [], ◌∷◌, arith, All, All-set, All-replicate,
  All-get_elem?, All-map,
}
use mathlib.Core.Quot
use mathlib.Core.Option.{some-injective}
use aeron_fast.Stats.Defs.{
  PerformanceStats, create_limits, detailed_record_count, create_performance_stats,
}
use aeron_fast.Stats.History.{Tracks, create-Tracks}
use aeron_fast.Stats.Bag.{
  SameBag, Figures, figures, length-SameBag, sum-SameBag, minimum-SameBag, maximum-SameBag,
  tally-SameBag,
}
use aeron_fast.Stats.Concurrent.{Pc, exec, rank, System, Step, call, run, start, Reach, here, next}
use aeron_fast.Stats.Concurrent.Stages.{pending, Reach-IsBalanced}
use aeron_fast.Stats.Concurrent.Kept.{exec-Keeps}
use aeron_fast.Stats.Concurrent.Memory.{Reflects, IsLoaded, Later-IsLoaded}

abbrev pub AllLoaded : PerformanceStats → List Pc → Type 0
AllLoaded m pcs = All (IsLoaded m) pcs

-- What holds at every moment.
pub record IsSound (s : System) : Type 0 where
  pub reflects : Reflects s.passed s.memory
  pub loaded : AllLoaded s.memory s.threads

Step-IsSound : {s t : System} → Step s t → IsSound s → IsSound t
Step-IsSound {s} (call i l e small) h = record {
  reflects = h.reflects;
  loaded = All-set (IsLoaded s.memory) s.threads i (Pc.counting l) small h.loaded;
}
Step-IsSound {s} (run i pc e) h =
    let k =
      exec-Keeps pc s.memory s.passed h.reflects
        (All-get_elem? (IsLoaded s.memory) s.threads i pc e h.loaded) in
    record {
      reflects = k.reflects;
      loaded = All-set (IsLoaded (exec pc s.memory).1) s.threads i (exec pc s.memory).0 k.loaded (
          All-map (IsLoaded s.memory) (IsLoaded (exec pc s.memory).1) s.threads
            (Later-IsLoaded k.later) h.loaded);
    }

Tracks-Reflects : (m : PerformanceStats) → Tracks [] m → Reflects (λ k. []) m
Tracks-Reflects m t = record {
  count = t.count;
  total = t.total;
  lowest = t.lowest;
  highest = t.highest;
  limits = t.limits;
  buckets = t.buckets;
  recorded = omega (arith, t.recorded);
}

module _ (n : ℕ) (memory : PerformanceStats)
    (made : create_performance_stats true ≡ some memory) where
  pub Reach-IsSound : {s : System} → Reach (start n memory) s → IsSound s
  Reach-IsSound here =
      let (m, e, t) = create-Tracks in
      record {
        reflects = Tracks-Reflects memory (rw (some-injective _ _ (sym e ∙ made)) at t);
        loaded = All-replicate (IsLoaded memory) n Pc.idle (omega arith);
      }
  Reach-IsSound (next r st) = Step-IsSound st (Reach-IsSound r)

  -- At every moment no more records are counted than there is room for.
  pub recorded_le :
      {s : System}
      → Reach (start n memory) s
      → s.memory.records.recorded_count ≤ detailed_record_count
  recorded_le r = (Reach-IsSound r).reflects.recorded

-- No thread has an update of the figures left to do.
abbrev pub IsQuiet : List Pc → Type 0
IsQuiet [] = Unit {0}
IsQuiet (pc ∷ pcs) = (5 ≤ rank pc) × IsQuiet pcs

pending-quiet : (k : ℕ) (w : ℕ → ℕ) (pcs : List Pc) → k < 5 → IsQuiet pcs → pending k w pcs ≡ 0
pending-quiet k w [] p q = refl
pending-quiet k w (pc ∷ pcs) p q = ground (arith, pending-quiet k w pcs p q.1, q.0)

-- The figures in the memory.
abbrev pub held : PerformanceStats → Figures
held m = (
  m.counters.message_count, m.counters.total_latency, m.counters.min_latency,
  m.counters.max_latency, m.latency_buckets,
)

-- In every state that the threads can reach from new statistics, in any order of their atomic
-- operations, in which no call has an update of the figures left to do, the figures are those of
-- the bag of the latencies of all calls: none is lost or counted twice, and neither the order of
-- the calls nor that of their operations shows.
pub held-figures :
    (n : ℕ) (memory : PerformanceStats) {s : System}
    → create_performance_stats true ≡ some memory
    → Reach (start n memory) s
    → IsQuiet s.threads
    → held s.memory ≡ figures (Quot.mk s.started)
unfolding figures
held-figures n memory {s} made r quiet =
    let b = Reach-IsBalanced n memory r in
    let h = (Reach-IsSound n memory made r).reflects in
    let same : (k : ℕ) → k < 5 → SameBag (s.passed k) s.started =
      λ k p w. omega (arith, b k p w, pending-quiet k w s.threads p quiet) in
    rw
      (
        h.count,
        h.total,
        h.lowest,
        h.highest,
        h.buckets,
        length-SameBag (s.passed 0) s.started (same 0 (omega arith)),
        sum-SameBag (s.passed 1) s.started (same 1 (omega arith)),
        minimum-SameBag (s.passed 2) s.started (same 2 (omega arith)),
        maximum-SameBag (s.passed 3) s.started (same 3 (omega arith)),
        tally-SameBag 0 create_limits (s.passed 4) s.started (same 4 (omega arith)),
      )
      refl
