-- ===== src/Stats/Messages/Loaded.antt =====
-- What the threads have loaded of the extremes, which only move outwards.
use aeron_fast.Base.{
  ℕ, ◌≤◌, inl, inr, arith, ltb, ◌==◌, Bool-cases, All, All-get_elem?, All-set, All-map,
  All-replicate,
}
use aeron_fast.Stats.Defs.{PerformanceStats, detailed_record_count}
use aeron_fast.Stats.Messages.{
  Delivery, latency, Place, Pc, proceed, exec, recording, System, call, run, start, Reach, here,
  next,
}

-- What a thread has loaded of an extreme is out of date only on its far side.
abbrev pub IsLoadedAt : PerformanceStats → Place → Type 0
IsLoadedAt m (Place.lowering c) = m.counters.min_latency ≤ c
IsLoadedAt m (Place.raising c) = c ≤ m.counters.max_latency
IsLoadedAt m p = Unit {0}

abbrev pub IsLoaded : PerformanceStats → Pc → Type 0
IsLoaded m (Pc.inside p d i) = IsLoadedAt m p
IsLoaded m pc = Unit {0}

-- The extremes only move outwards.
abbrev pub IsLater : PerformanceStats → PerformanceStats → Type 0
IsLater m m' =
    (m'.counters.min_latency ≤ m.counters.min_latency)
    × (m.counters.max_latency ≤ m'.counters.max_latency)

proceed-IsLater :
    (p : Place) (d : Delivery) (i : ℕ) (m : PerformanceStats)
    → IsLoadedAt m p
    → IsLater m (proceed p d i m).1
unfolding proceed
proceed-IsLater (Place.lowering c) d i m h = ground arith
proceed-IsLater (Place.raising c) d i m h = ground arith
proceed-IsLater p d i m h = ground arith

recording-IsLoaded : (i : ℕ) (m : PerformanceStats) → IsLoadedAt m (recording i)
recording-IsLoaded i m = elim (Bool-cases (ltb i detailed_record_count)) [
  | inl p ↦ rw p tt
  | inr p ↦ rw p tt
]

proceed-IsLoaded :
    (p : Place) (d : Delivery) (i : ℕ) (m : PerformanceStats)
    → IsLoaded (proceed p d i m).1 (proceed p d i m).0
unfolding proceed
proceed-IsLoaded (Place.lowering c) d i m = elim (Bool-cases (ltb (latency d) c)) [
  | inr p ↦ rw p tt
  | inl p ↦ elim (Bool-cases (m.counters.min_latency == c)) [
    | inl q ↦ rw (p, q) tt
    | inr q ↦ rw (p, q) (omega arith)
  ]
]
proceed-IsLoaded (Place.raising c) d i m = elim (Bool-cases (ltb c (latency d))) [
  | inr p ↦ rw p (recording-IsLoaded i m)
  | inl p ↦ elim (Bool-cases (m.counters.max_latency == c)) [
    | inl q ↦
        rw (p, q)
          (recording-IsLoaded i
            (record m { counters = record (m.counters) { max_latency = latency d } }))
    | inr q ↦ rw (p, q) (omega arith)
  ]
]
proceed-IsLoaded p d i m = omega arith

Later-IsLoaded :
    (m m' : PerformanceStats) → IsLater m m' → (pc : Pc) → IsLoaded m pc → IsLoaded m' pc
Later-IsLoaded m m' later (Pc.inside (Place.lowering c) d i) h = omega arith
Later-IsLoaded m m' later (Pc.inside (Place.raising c) d i) h = omega arith
Later-IsLoaded m m' later Pc.idle h = tt
Later-IsLoaded m m' later (Pc.drawing d) h = tt
Later-IsLoaded m m' later (Pc.inside p d i) h = omega arith

pub exec-IsLater : (pc : Pc) (m : PerformanceStats) → IsLoaded m pc → IsLater m (exec pc m).1
unfolding exec
exec-IsLater Pc.idle m h = omega arith
exec-IsLater (Pc.drawing d) m h = omega arith
exec-IsLater (Pc.inside p d i) m h = proceed-IsLater p d i m h

exec-IsLoaded : (pc : Pc) (m : PerformanceStats) → IsLoaded (exec pc m).1 (exec pc m).0
unfolding exec
exec-IsLoaded Pc.idle m = tt
exec-IsLoaded (Pc.drawing d) m = tt
exec-IsLoaded (Pc.inside p d i) m = proceed-IsLoaded p d i m

-- At every moment, in any order.
pub Reach-IsLoaded :
    (n : ℕ) (memory : PerformanceStats) {s : System}
    → Reach (start n memory) s
    → All (IsLoaded s.memory) s.threads
Reach-IsLoaded n memory here = All-replicate (IsLoaded memory) n Pc.idle tt
Reach-IsLoaded n memory (next {t} r (call i d e)) =
    All-set (IsLoaded t.memory) t.threads i (Pc.drawing d) tt (Reach-IsLoaded n memory r)
Reach-IsLoaded n memory (next {t} r (run i pc e)) =
    let all = Reach-IsLoaded n memory r in
    let later = exec-IsLater pc t.memory (All-get_elem? (IsLoaded t.memory) t.threads i pc e all) in
    All-set (IsLoaded (exec pc t.memory).1) t.threads i (exec pc t.memory).0
      (exec-IsLoaded pc t.memory)
      (All-map (IsLoaded t.memory) (IsLoaded (exec pc t.memory).1) t.threads
        (Later-IsLoaded t.memory (exec pc t.memory).1 later) all)

pub Reach_lowered :
    (n : ℕ) (memory : PerformanceStats) {s : System}
    → Reach (start n memory) s
    → s.memory.counters.min_latency ≤ memory.counters.min_latency
Reach_lowered n memory here = omega arith
Reach_lowered n memory (next r (call i d e)) = Reach_lowered n memory r
Reach_lowered n memory (next {t} r (run i pc e)) =
    let loaded = All-get_elem? (IsLoaded t.memory) t.threads i pc e (Reach-IsLoaded n memory r) in
    omega (arith, Reach_lowered n memory r, (exec-IsLater pc t.memory loaded).0)
