-- ===== src/Stats/Messages/Attained.antt =====
-- The extremes are latencies of calls, or what they started from.
use mathlib.Core.Option.{some-injective}
use aeron_fast.Base.{
  ℕ, zero, suc, ◌≤◌, ◌≡◌, refl, ap, some, List, [], ◌∷◌, ◌++◌, arith, length, map, get_elem?,
  u64_max, IsU64, All-get_elem?, none-get_elem?,
}
use aeron_fast.Stats.Defs.{PerformanceStats}
use aeron_fast.Stats.History.{minimum, maximum}
use aeron_fast.Stats.Messages.{
  Delivery, latency, Place, Pc, proceed, exec, System, drawn_after, call, run, start, Reach, here,
  next,
}
use aeron_fast.Stats.Messages.Indices.{IsDrawn, Reach-IsIndexed, Step-small}

minimum-le_drawn :
    (drawn : List Delivery) (j : ℕ) (d : Delivery)
    → get_elem? drawn j ≡ some d
    → (minimum (map latency drawn) ≤ latency d) × (latency d ≤ maximum (map latency drawn))
minimum-le_drawn [] j d e = absurd (none-get_elem? e)
minimum-le_drawn (x ∷ drawn) zero d e =
    let same : latency x ≡ latency d = ap latency (some-injective _ _ e) in
    (omega arith, omega arith)
minimum-le_drawn (x ∷ drawn) (suc j) d e =
    let rest = minimum-le_drawn drawn j d e in (omega arith, omega arith)

-- The fields lie between the extremes of the calls.
abbrev IsAttained : List Delivery → PerformanceStats → Type 0
IsAttained drawn m =
    (minimum (map latency drawn) ≤ m.counters.min_latency)
    × (m.counters.max_latency ≤ maximum (map latency drawn))

wider :
    (drawn : List Delivery) (d : Delivery)
    → (minimum (map latency (drawn ++ d ∷ [])) ≤ minimum (map latency drawn))
      × (maximum (map latency drawn) ≤ maximum (map latency (drawn ++ d ∷ [])))
wider [] d = (omega arith, omega arith)
wider (x ∷ drawn) d = let rest = wider drawn d in (omega arith, omega arith)

proceed-IsAttained :
    (p : Place) (d : Delivery) (i : ℕ) (m : PerformanceStats) (low high : ℕ)
    → (low ≤ latency d) × (latency d ≤ high)
    → (low ≤ m.counters.min_latency) × (m.counters.max_latency ≤ high)
    → (low ≤ (proceed p d i m).1.counters.min_latency)
      × ((proceed p d i m).1.counters.max_latency ≤ high)
unfolding proceed
proceed-IsAttained (Place.lowering c) d i m low high between h = ground arith
proceed-IsAttained (Place.raising c) d i m low high between h = ground arith
proceed-IsAttained p d i m low high between h = ground arith

exec-IsAttained :
    (pc : Pc) (m : PerformanceStats) (drawn : List Delivery)
    → IsDrawn drawn pc
    → IsAttained drawn m
    → IsAttained (drawn_after pc drawn) (exec pc m).1
unfolding exec
exec-IsAttained Pc.idle m drawn own h = h
exec-IsAttained (Pc.drawing d) m drawn own h = let w = wider drawn d in (omega arith, omega arith)
exec-IsAttained (Pc.inside p d i) m drawn own h =
    proceed-IsAttained p d i m (minimum (map latency drawn)) (maximum (map latency drawn))
      (minimum-le_drawn drawn i d own) h

pub Reach-IsAttained :
    (n : ℕ) (memory : PerformanceStats) {s : System}
    → memory.counters.message_count ≡ 0
    → memory.counters.min_latency ≡ u64_max
    → memory.counters.max_latency ≡ 0
    → Reach (start n memory) s
    → IsU64 (length s.drawn)
    → (minimum (map latency s.drawn) ≤ s.memory.counters.min_latency)
      × (s.memory.counters.max_latency ≤ maximum (map latency s.drawn))
Reach-IsAttained n memory zeroed top bottom here small = (omega arith, omega arith)
Reach-IsAttained n memory zeroed top bottom (next {t} r (call i d e)) small =
    Reach-IsAttained n memory zeroed top bottom r small
Reach-IsAttained n memory zeroed top bottom (next {t} r (run i pc e)) small =
    let few = Step-small {s = t} (run i pc e) small in
    exec-IsAttained pc t.memory t.drawn
      (All-get_elem? (IsDrawn t.drawn) t.threads i pc e
        (Reach-IsIndexed n memory zeroed r few).indices)
      (Reach-IsAttained n memory zeroed top bottom r few)

-- No latency is outside of two numbers, so neither extreme is.
pub le-minimum_of :
    (low : ℕ) (drawn : List Delivery)
    → low ≤ u64_max
    → ((j : ℕ) (d : Delivery) → get_elem? drawn j ≡ some d → low ≤ latency d)
    → low ≤ minimum (map latency drawn)
le-minimum_of low [] small all = small
le-minimum_of low (x ∷ drawn) small all =
    omega (arith, all 0 x refl, le-minimum_of low drawn small (λ j d e. all (suc j) d e))

pub maximum-le_of :
    (high : ℕ) (drawn : List Delivery)
    → ((j : ℕ) (d : Delivery) → get_elem? drawn j ≡ some d → latency d ≤ high)
    → maximum (map latency drawn) ≤ high
maximum-le_of high [] all = omega arith
maximum-le_of high (x ∷ drawn) all =
    omega (arith, all 0 x refl, maximum-le_of high drawn (λ j d e. all (suc j) d e))
