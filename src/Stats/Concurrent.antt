-- ===== src/Stats/Concurrent.antt =====
-- `record_latency` of c-performance/src/performance_stats.c run by several threads at once: each
-- atomic operation is a step, and the steps of the threads interleave in any order.
pub mod Stages
pub mod Memory
pub mod Extremes
pub mod Kept
pub mod Quiet
pub mod Alone
pub mod Returns
pub mod Settle
pub mod Slots
pub mod Records
pub mod Recorded
mod Tests
use aeron_fast.Base.{
  ℕ, zero, suc, ◌+◌, ◌-◌, ◌*◌, ◌/◌, ◌%◌, ◌^◌, ◌≤◌, ◌<◌, min, max, ◌≡◌, refl, sym, ap, ap₂, ◌∙◌, ◌≢◌,
  ◌↔◌, ◌⊎◌, inl, inr, Bool, true, false, not, ◌&&◌, ◌||◌, Option, none, some, List, [], ◌∷◌, ◌++◌,
  map, reverse, arith, length, get_elem?, set, get_or, take, drop, replicate, length-append,
  length-set, ltb, leb, ◌==◌, if◌then◌else◌, u64, u64_max, add64, sub64, IsU64, lt→ltb,
  le→ltb_false, Bool-cases, Option-cases,
}
use aeron_fast.Stats.Defs.{PerformanceStats, detailed_record_count}
use aeron_fast.Stats.{compare_exchange, count_bucket}

-- Where a thread stands in a call for a latency, with what it has loaded: before the addition to
-- the message count or to the sum, before the load of an extreme, at the test of its loop, before
-- the addition to a bucket, before the load of the number of records, at its test, and before the
-- store into the slot that it has won.
pub data Pc : Type 0 where
  idle : Pc
  counting totalling loading_min : ℕ → Pc
  lowering : (latency current_min : ℕ) → Pc
  loading_max : ℕ → Pc
  raising : (latency current_max : ℕ) → Pc
  bucketing loading_count : ℕ → Pc
  appending : (latency current_count : ℕ) → Pc
  storing : (latency slot : ℕ) → Pc

-- The next atomic operation of a thread, with the tests of its registers up to the one after it.
unfoldable pub exec : Pc → PerformanceStats → Pc × PerformanceStats
exec Pc.idle m = (Pc.idle, m)
exec (Pc.counting l) m = (
  Pc.totalling l,
  record m { counters = record (m.counters) { message_count = add64 m.counters.message_count 1 } },
)
exec (Pc.totalling l) m = (
  Pc.loading_min l,
  record m { counters = record (m.counters) { total_latency = add64 m.counters.total_latency l } },
)
exec (Pc.loading_min l) m = (Pc.lowering l m.counters.min_latency, m)
exec (Pc.lowering l current_min) m =
    let exchange = compare_exchange m.counters.min_latency current_min l in
    if ltb l current_min
    then (
      (if exchange.success then Pc.loading_max l else Pc.lowering l exchange.expected),
      record m { counters = record (m.counters) { min_latency = exchange.cell } },
    )
    else (Pc.loading_max l, m)
exec (Pc.loading_max l) m = (Pc.raising l m.counters.max_latency, m)
exec (Pc.raising l current_max) m =
    let exchange = compare_exchange m.counters.max_latency current_max l in
    if ltb current_max l
    then (
      (if exchange.success then Pc.bucketing l else Pc.raising l exchange.expected),
      record m { counters = record (m.counters) { max_latency = exchange.cell } },
    )
    else (Pc.bucketing l, m)
exec (Pc.bucketing l) m = (
  Pc.loading_count l,
  record m {
    latency_buckets = count_bucket ltb (l / 1000) m.latency_bucket_limits m.latency_buckets;
  },
)
exec (Pc.loading_count l) m = (Pc.appending l m.records.recorded_count, m)
exec (Pc.appending l current_count) m =
    let exchange = compare_exchange m.records.recorded_count current_count (current_count + 1) in
    if ltb current_count detailed_record_count
    then (
      (if exchange.success then Pc.storing l current_count else Pc.idle),
      record m { records = record (m.records) { recorded_count = exchange.cell } },
    )
    else (Pc.idle, m)
exec (Pc.storing l slot) m = (
  Pc.idle,
  record m { records = record (m.records) { latencies = set m.records.latencies slot l } },
)

-- How many of the five updates of the figures a call has behind it; a thread with no call waits for
-- none.
abbrev pub rank : Pc → ℕ
rank (Pc.counting l) = 0
rank (Pc.totalling l) = 1
rank (Pc.loading_min l) = 2
rank (Pc.lowering l c) = 2
rank (Pc.loading_max l) = 3
rank (Pc.raising l c) = 3
rank (Pc.bucketing l) = 4
rank _ = 5

abbrev pub latency : Pc → ℕ
latency Pc.idle = 0
latency (Pc.counting l) = l
latency (Pc.totalling l) = l
latency (Pc.loading_min l) = l
latency (Pc.lowering l c) = l
latency (Pc.loading_max l) = l
latency (Pc.raising l c) = l
latency (Pc.bucketing l) = l
latency (Pc.loading_count l) = l
latency (Pc.appending l c) = l
latency (Pc.storing l slot) = l

-- The shared memory, the threads, the latencies of the calls so far, and those that have passed
-- each of the five updates, in the order in which they did. The last two are for the proofs; no
-- step reads them.
pub record System : Type 0 where
  pub memory : PerformanceStats
  pub threads : List Pc
  pub started : List ℕ
  pub passed : ℕ → List ℕ

-- Update `k` lies between the two places of a thread.
abbrev pub note : Pc → Pc → (ℕ → List ℕ) → ℕ → List ℕ
note pc pc' passed k =
    if leb (rank pc) k && ltb k (rank pc') then passed k ++ latency pc ∷ [] else passed k

-- A thread begins a call, or does its next operation.
pub data Step (s : System) : System → Type 0 where
  call :
      (i l : ℕ)
      → get_elem? s.threads i ≡ some Pc.idle
      → IsU64 l
      → Step s
          (record s { threads = set s.threads i (Pc.counting l); started = s.started ++ l ∷ [] })
  run :
      (i : ℕ) (pc : Pc)
      → get_elem? s.threads i ≡ some pc
      → Step s (record s {
        memory = (exec pc s.memory).1;
        threads = set s.threads i (exec pc s.memory).0;
        passed = note pc (exec pc s.memory).0 s.passed;
      })

-- `n` threads before their first call.
abbrev pub start : ℕ → PerformanceStats → System
start n memory = record {
  memory = memory;
  threads = replicate n Pc.idle;
  started = [];
  passed = λ k. [];
}

pub data Reach (s : System) : System → Type 0 where
  here : Reach s s
  next : {t u : System} → Reach s t → Step t u → Reach s u

-- The next operations of one thread while the others stand still.
abbrev pub run_alone : ℕ → Pc → PerformanceStats → Pc × PerformanceStats
run_alone zero pc m = (pc, m)
run_alone (suc fuel) pc m = run_alone fuel (exec pc m).0 (exec pc m).1

-- The scheduler's choice, as a function: each number is the thread that goes on.
abbrev pub schedule : List ℕ → PerformanceStats × List Pc → PerformanceStats × List Pc
schedule [] s = s
schedule (i ∷ is) (memory, threads) =
    let (pc, memory') = exec (get_or threads i Pc.idle) memory in
    schedule is (memory', set threads i pc)
