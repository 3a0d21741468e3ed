-- ===== src/Stats/Concurrent/Returns.antt =====
-- Every call ends: a thread that goes on alone is done within twelve operations, wherever it
-- stands.
use aeron_fast.Base.{
  ℕ, zero, suc, ◌+◌, ◌≤◌, ◌<◌, ◌≡◌, refl, ap, ◌∙◌, inl, inr, arith, ltb, ◌==◌, Bool-cases,
}
use aeron_fast.Stats.Defs.{PerformanceStats, detailed_record_count}
use aeron_fast.Stats.Concurrent.{Pc, exec, run_alone}
use aeron_fast.Stats.Concurrent.Alone.{lowering_self, raising_self, after}

-- A thread that goes on alone is at the end of its call after `k` operations and more.
abbrev Ends : ℕ → Pc → PerformanceStats → Type 0
Ends k pc m = (n : ℕ) → k ≤ n → (run_alone n pc m).0 ≡ Pc.idle

idle-Ends : (m : PerformanceStats) → Ends 0 Pc.idle m
unfolding exec
idle-Ends m zero p = refl
idle-Ends m (suc n) p = idle-Ends m n (omega arith)

by_step :
    (j k : ℕ) (pc : Pc) {pc' : Pc} (m : PerformanceStats) {m' : PerformanceStats}
    → j < k
    → exec pc m ≡ (pc', m')
    → Ends j pc' m'
    → Ends k pc m
by_step j k pc m p e ends zero q = absurd (omega arith)
by_step j k pc m p e ends (suc n) q = ap (λ s. (after n s).0) e ∙ ends n (omega arith)

-- One operation that depends on no test.
straight :
    (j k : ℕ) (pc : Pc) (m : PerformanceStats)
    → j < k
    → Ends j (exec pc m).0 (exec pc m).1
    → Ends k pc m
straight j k pc m p ends = by_step j k pc m p refl ends

storing-Ends : (l slot : ℕ) (m : PerformanceStats) → Ends 1 (Pc.storing l slot) m
unfolding exec
storing-Ends l slot m = straight 0 1 (Pc.storing l slot) m (omega arith) (idle-Ends _)

-- What the operation that takes a slot leads to.
data Taken (l : ℕ) : Pc → Type 0 where
  taken : (slot : ℕ) → Taken l (Pc.storing l slot)
  given_up : Taken l Pc.idle

appending-Taken : (l c : ℕ) (m : PerformanceStats) → Taken l (exec (Pc.appending l c) m).0
unfolding exec
appending-Taken l c m = elim (Bool-cases (ltb c detailed_record_count)) [
  | inr p ↦ rw p given_up
  | inl p ↦ elim (Bool-cases (m.records.recorded_count == c)) [
    | inl q ↦ rw (p, q) (taken c)
    | inr q ↦ rw (p, q) given_up
  ]
]

Taken-Ends : {l : ℕ} {pc : Pc} → Taken l pc → (m : PerformanceStats) → Ends 1 pc m
Taken-Ends {l} (taken slot) m = storing-Ends l slot m
Taken-Ends given_up m = λ n p. idle-Ends m n (omega arith)

appending-Ends : (l c : ℕ) (m : PerformanceStats) → Ends 2 (Pc.appending l c) m
appending-Ends l c m =
    straight 1 2 (Pc.appending l c) m (omega arith) (Taken-Ends (appending-Taken l c m) _)

loading_count-Ends : (l : ℕ) (m : PerformanceStats) → Ends 3 (Pc.loading_count l) m
unfolding exec
loading_count-Ends l m =
    straight 2 3 (Pc.loading_count l) m (omega arith) (appending-Ends l m.records.recorded_count m)

bucketing-Ends : (l : ℕ) (m : PerformanceStats) → Ends 4 (Pc.bucketing l) m
unfolding exec
bucketing-Ends l m = straight 3 4 (Pc.bucketing l) m (omega arith) (loading_count-Ends l _)

-- A round of a loop goes on to `next`, or starts again at `again` with the memory as it was.
pub data Round (next again : Pc) (m : PerformanceStats) : Pc × PerformanceStats → Type 0 where
  left : (m' : PerformanceStats) → Round next again m (next, m')
  lost : Round next again m (again, m)

pub raising-Round :
    (l c : ℕ) (m : PerformanceStats)
    → Round (Pc.bucketing l) (Pc.raising l m.counters.max_latency) m (exec (Pc.raising l c) m)
unfolding exec
raising-Round l c m = elim (Bool-cases (ltb c l)) [
  | inr p ↦ rw p (left m)
  | inl p ↦ elim (Bool-cases (m.counters.max_latency == c)) [
    | inl q ↦ rw (p, q) (left (record m { counters = record (m.counters) { max_latency = l } }))
    | inr q ↦ rw (p, q) lost
  ]
]

pub lowering-Round :
    (l c : ℕ) (m : PerformanceStats)
    → Round (Pc.loading_max l) (Pc.lowering l m.counters.min_latency) m (exec (Pc.lowering l c) m)
unfolding exec
lowering-Round l c m = elim (Bool-cases (ltb l c)) [
  | inr p ↦ rw p (left m)
  | inl p ↦ elim (Bool-cases (m.counters.min_latency == c)) [
    | inl q ↦ rw (p, q) (left (record m { counters = record (m.counters) { min_latency = l } }))
    | inr q ↦ rw (p, q) lost
  ]
]

Round-Ends :
    (j : ℕ) {next again : Pc} {m : PerformanceStats} (s : Pc × PerformanceStats)
    → Round next again m s
    → ((m' : PerformanceStats) → Ends j next m')
    → Ends (j + 1) again m
    → Ends (j + 1) s.0 s.1
Round-Ends j _ (left m') ends more = λ n p. ends m' n (omega arith)
Round-Ends j _ lost ends more = more

raising-Ends : (l c : ℕ) (m : PerformanceStats) → Ends 6 (Pc.raising l c) m
raising-Ends l c m = straight 5 6 (Pc.raising l c) m (omega arith) (
    Round-Ends 4 (exec (Pc.raising l c) m) (raising-Round l c m) (bucketing-Ends l) (
      by_step 4 5 (Pc.raising l m.counters.max_latency) m (omega arith) (raising_self l m)
        (bucketing-Ends l _)))

loading_max-Ends : (l : ℕ) (m : PerformanceStats) → Ends 7 (Pc.loading_max l) m
unfolding exec
loading_max-Ends l m =
    straight 6 7 (Pc.loading_max l) m (omega arith) (raising-Ends l m.counters.max_latency m)

lowering-Ends : (l c : ℕ) (m : PerformanceStats) → Ends 9 (Pc.lowering l c) m
lowering-Ends l c m = straight 8 9 (Pc.lowering l c) m (omega arith) (
    Round-Ends 7 (exec (Pc.lowering l c) m) (lowering-Round l c m) (loading_max-Ends l) (
      by_step 7 8 (Pc.lowering l m.counters.min_latency) m (omega arith) (lowering_self l m)
        (loading_max-Ends l _)))

loading_min-Ends : (l : ℕ) (m : PerformanceStats) → Ends 10 (Pc.loading_min l) m
unfolding exec
loading_min-Ends l m =
    straight 9 10 (Pc.loading_min l) m (omega arith) (lowering-Ends l m.counters.min_latency m)

totalling-Ends : (l : ℕ) (m : PerformanceStats) → Ends 11 (Pc.totalling l) m
unfolding exec
totalling-Ends l m = straight 10 11 (Pc.totalling l) m (omega arith) (loading_min-Ends l _)

counting-Ends : (l : ℕ) (m : PerformanceStats) → Ends 12 (Pc.counting l) m
unfolding exec
counting-Ends l m = straight 11 12 (Pc.counting l) m (omega arith) (totalling-Ends l _)

-- A thread that goes on alone, from any place of a call and with any memory, is at the end of the
-- call after twelve operations.
pub run_alone_ends : (pc : Pc) (m : PerformanceStats) → (run_alone 12 pc m).0 ≡ Pc.idle
run_alone_ends Pc.idle m = idle-Ends m 12 (omega arith)
run_alone_ends (Pc.counting l) m = counting-Ends l m 12 (omega arith)
run_alone_ends (Pc.totalling l) m = totalling-Ends l m 12 (omega arith)
run_alone_ends (Pc.loading_min l) m = loading_min-Ends l m 12 (omega arith)
run_alone_ends (Pc.lowering l c) m = lowering-Ends l c m 12 (omega arith)
run_alone_ends (Pc.loading_max l) m = loading_max-Ends l m 12 (omega arith)
run_alone_ends (Pc.raising l c) m = raising-Ends l c m 12 (omega arith)
run_alone_ends (Pc.bucketing l) m = bucketing-Ends l m 12 (omega arith)
run_alone_ends (Pc.loading_count l) m = loading_count-Ends l m 12 (omega arith)
run_alone_ends (Pc.appending l c) m = appending-Ends l c m 12 (omega arith)
run_alone_ends (Pc.storing l slot) m = storing-Ends l slot m 12 (omega arith)
