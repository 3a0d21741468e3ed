-- ===== src/Stats/Messages/Extremes.antt =====
-- The minimum and the maximum when several threads lower and raise them.
use aeron_fast.Stats.Messages.Loaded.{IsLoadedAt, IsLoaded, exec-IsLater, Reach-IsLoaded}
use aeron_fast.Base.{
  ℕ, ◌≤◌, ◌<◌, ◌≡◌, refl, ◌⊎◌, inl, inr, some, arith, length, get_elem?, ltb, ◌==◌, IsU64,
  Bool-cases, All-get_elem?,
}
use aeron_fast.Stats.Defs.{PerformanceStats}
use aeron_fast.Stats.Messages.{Delivery, latency, Place, Pc, proceed, System, start, Reach}
use aeron_fast.Stats.Messages.Indices.{rank, proceed-Next, Next-place}
use aeron_fast.Stats.Messages.Tasks.{
  Does, before, past, now, Serves, Reach-Task, Task_idle, AllIdle,
}

-- An update that is done in a loop of its own, at the places with its rank.
not_its_turn :
    (k : ℕ) (Done : PerformanceStats → ℕ → Delivery → Type 0) (p : Place) (d : Delivery) (i : ℕ)
    (m : PerformanceStats)
    → k ≤ 4
    → (rank p < k) ⊎ (k < rank p)
    → Does k Done p d i m
not_its_turn k Done p d i m small (inr later) = past later
not_its_turn k Done p d i m small (inl sooner) =
    let (p', to, up) = Next-place p d i (proceed-Next p d i m) (omega arith) in
    elim up [ inl near ↦ before to (omega arith) | inr full ↦ absurd (omega (arith, full.0)) ]

-- Past its loop, the minimum is at most the latency of a call.
abbrev pub AtLeast : PerformanceStats → ℕ → Delivery → Type 0
AtLeast m j d = m.counters.min_latency ≤ latency d

lowering-Does :
    (p : Place) (d : Delivery) (i : ℕ) (m : PerformanceStats)
    → IsLoadedAt m p
    → Does 3 AtLeast p d i m
unfolding proceed
lowering-Does Place.loading_min d i m h = before refl (omega arith)
lowering-Does (Place.lowering c) d i m h = elim (Bool-cases (ltb (latency d) c)) [
  | inr p ↦ now (rw p (ground arith))
  | inl p ↦ elim (Bool-cases (m.counters.min_latency == c)) [
    | inl q ↦ now (rw (p, q) (omega arith))
    | inr q ↦ before {p' = Place.lowering m.counters.min_latency} (rw (p, q) refl) (omega arith)
  ]
]
lowering-Does Place.dating_first d i m h =
    not_its_turn 3 AtLeast _ d i m (omega arith) (inl (omega arith))
lowering-Does Place.dating_last d i m h =
    not_its_turn 3 AtLeast _ d i m (omega arith) (inl (omega arith))
lowering-Does Place.totalling d i m h =
    not_its_turn 3 AtLeast _ d i m (omega arith) (inl (omega arith))
lowering-Does p d i m h = past (omega arith)

-- Past its loop, the maximum is at least the latency of a call.
abbrev pub AtMost : PerformanceStats → ℕ → Delivery → Type 0
AtMost m j d = latency d ≤ m.counters.max_latency

raising-Does :
    (p : Place) (d : Delivery) (i : ℕ) (m : PerformanceStats)
    → IsLoadedAt m p
    → Does 4 AtMost p d i m
unfolding proceed
raising-Does Place.naming_index d i m h = before refl (omega arith)
raising-Does Place.naming_send d i m h = before refl (omega arith)
raising-Does Place.naming_receive d i m h = before refl (omega arith)
raising-Does Place.loading_max d i m h = before refl (omega arith)
raising-Does (Place.raising c) d i m h = elim (Bool-cases (ltb c (latency d))) [
  | inr p ↦ now (rw p (ground arith))
  | inl p ↦ elim (Bool-cases (m.counters.max_latency == c)) [
    | inl q ↦ now (rw (p, q) (omega arith))
    | inr q ↦ before {p' = Place.raising m.counters.max_latency} (rw (p, q) refl) (omega arith)
  ]
]
raising-Does Place.dating_first d i m h =
    not_its_turn 4 AtMost _ d i m (omega arith) (inl (omega arith))
raising-Does Place.dating_last d i m h =
    not_its_turn 4 AtMost _ d i m (omega arith) (inl (omega arith))
raising-Does Place.totalling d i m h =
    not_its_turn 4 AtMost _ d i m (omega arith) (inl (omega arith))
raising-Does Place.loading_min d i m h =
    not_its_turn 4 AtMost _ d i m (omega arith) (inl (omega arith))
raising-Does (Place.lowering c) d i m h =
    not_its_turn 4 AtMost _ d i m (omega arith) (inl (omega arith))
raising-Does p d i m h = past (omega arith)

module _ (n : ℕ) (memory : PerformanceStats) (zeroed : memory.counters.message_count ≡ 0) where
  lowest-Serves :
      (s : System) → Reach (start n memory) s → IsU64 (length s.drawn) → Serves 3 AtLeast s
  lowest-Serves s r small =
      let loaded = Reach-IsLoaded n memory r in
      record {
        keeps = λ i pc e j d f h.
            let later =
              exec-IsLater pc s.memory
                (All-get_elem? (IsLoaded s.memory) s.threads i pc e loaded) in
            omega (arith, later.0, h);
        does = λ i p d k e.
            lowering-Does p d k s.memory
              (All-get_elem? (IsLoaded s.memory) s.threads i (Pc.inside p d k) e loaded);
      }

  highest-Serves :
      (s : System) → Reach (start n memory) s → IsU64 (length s.drawn) → Serves 4 AtMost s
  highest-Serves s r small =
      let loaded = Reach-IsLoaded n memory r in
      record {
        keeps = λ i pc e j d f h.
            let later =
              exec-IsLater pc s.memory
                (All-get_elem? (IsLoaded s.memory) s.threads i pc e loaded) in
            omega (arith, later.1, h);
        does = λ i p d k e.
            raising-Does p d k s.memory
              (All-get_elem? (IsLoaded s.memory) s.threads i (Pc.inside p d k) e loaded);
      }

  -- Without a call under way, no call has a latency below the minimum or above the maximum.
  pub all_between :
      {s : System}
      → Reach (start n memory) s
      → IsU64 (length s.drawn)
      → AllIdle s.threads
      → (j : ℕ) (d : Delivery) → get_elem? s.drawn j ≡ some d
      → (s.memory.counters.min_latency ≤ latency d) × (latency d ≤ s.memory.counters.max_latency)
  all_between {s} r small idle j d f = (
    Task_idle 3 AtLeast s idle (Reach-Task 3 AtLeast n memory zeroed lowest-Serves r small) j d f,
    Task_idle 4 AtMost s idle (Reach-Task 4 AtMost n memory zeroed highest-Serves r small) j d f,
  )
