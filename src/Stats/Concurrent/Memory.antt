-- ===== src/Stats/Concurrent/Memory.antt =====
-- What the shared memory holds while calls of `record_latency` are under way.
use aeron_fast.Base.{ℕ, ◌/◌, ◌≤◌, ◌≡◌, List, [], ◌∷◌, ◌++◌, arith, length, ltb, u64, IsU64}
use aeron_fast.Stats.Tally.{count_bucket-tally}
use aeron_fast.Stats.History.{create_limits-IsAscending}
use aeron_fast.Stats.{count_bucket}
use aeron_fast.Stats.Defs.{PerformanceStats, create_limits, detailed_record_count}
use aeron_fast.Stats.Tally.{sum, tally}
use aeron_fast.Stats.History.{minimum, maximum}
use aeron_fast.Stats.Concurrent.{Pc, latency, note}

-- Each field is that of the latencies that have passed its update.
pub record Holds (counted totalled lowered raised bucketed : List ℕ) (m : PerformanceStats)
    : Type 0 where
  pub count : m.counters.message_count ≡ u64 (length counted)
  pub total : m.counters.total_latency ≡ u64 (sum totalled)
  pub lowest : m.counters.min_latency ≡ minimum lowered
  pub highest : m.counters.max_latency ≡ maximum raised
  pub limits : m.latency_bucket_limits ≡ create_limits
  pub buckets : m.latency_buckets ≡ tally 0 create_limits bucketed
  pub recorded : m.records.recorded_count ≤ detailed_record_count

abbrev pub Reflects : (ℕ → List ℕ) → PerformanceStats → Type 0
Reflects passed m = Holds (passed 0) (passed 1) (passed 2) (passed 3) (passed 4) m

-- A latency fits 64 bits, and what a thread has loaded of an extreme is out of date only on its far
-- side.
abbrev pub IsLoaded : PerformanceStats → Pc → Type 0
IsLoaded m (Pc.lowering l c) = IsU64 l × (m.counters.min_latency ≤ c)
IsLoaded m (Pc.raising l c) = IsU64 l × (c ≤ m.counters.max_latency)
IsLoaded m pc = IsU64 (latency pc)

-- The extremes only move outwards.
pub record Later (m m' : PerformanceStats) : Type 0 where
  pub lower : m'.counters.min_latency ≤ m.counters.min_latency
  pub higher : m.counters.max_latency ≤ m'.counters.max_latency

pub Later-IsLoaded :
    {m m' : PerformanceStats} → Later m m' → (pc : Pc) → IsLoaded m pc → IsLoaded m' pc
Later-IsLoaded later Pc.idle h = h
Later-IsLoaded later (Pc.counting l) h = h
Later-IsLoaded later (Pc.totalling l) h = h
Later-IsLoaded later (Pc.loading_min l) h = h
Later-IsLoaded later (Pc.lowering l c) h = (h.0, omega (arith, later.lower, h.1))
Later-IsLoaded later (Pc.loading_max l) h = h
Later-IsLoaded later (Pc.raising l c) h = (h.0, omega (arith, later.higher, h.1))
Later-IsLoaded later (Pc.bucketing l) h = h
Later-IsLoaded later (Pc.loading_count l) h = h
Later-IsLoaded later (Pc.appending l c) h = h
Later-IsLoaded later (Pc.storing l slot) h = h

-- What one operation of a thread keeps.
pub record Keeps (pc : Pc) (m : PerformanceStats) (passed : ℕ → List ℕ) (pc' : Pc)
    (m' : PerformanceStats) : Type 0 where
  pub reflects : Reflects (note pc pc' passed) m'
  pub loaded : IsLoaded m' pc'
  pub later : Later m m'

-- The bucket that one more latency is counted in.
pub bucket-tally :
    (h : List ℕ) (l : ℕ) (limits buckets : List ℕ)
    → limits ≡ create_limits
    → buckets ≡ tally 0 create_limits h
    → count_bucket ltb (l / 1000) limits buckets ≡ tally 0 create_limits (h ++ l ∷ [])
bucket-tally h l limits buckets e f =
    rw (e, f) (count_bucket-tally 0 create_limits h l create_limits-IsAscending (omega arith))

pub still :
    {m m' : PerformanceStats}
    → m'.counters.min_latency ≡ m.counters.min_latency
    → m'.counters.max_latency ≡ m.counters.max_latency
    → Later m m'
still e f = record { lower = omega arith; higher = omega arith }
