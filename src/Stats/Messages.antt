-- ===== src/Stats/Messages.antt =====
-- `record_message_latency` of c-performance/src/performance_stats.c run by several threads at once.
-- Every atomic operation, and every plain store into the shared structure, is a step of its own;
-- the steps of the threads interleave in any order.
pub mod Indices
pub mod Tasks
pub mod Records
pub mod Bounds
pub mod Loaded
pub mod Extremes
pub mod Attained
pub mod Totals
pub mod Distribution
pub mod Settled
pub mod Alone
pub mod Returns
pub mod Settle
pub mod Overtaken
mod Tests
use aeron_fast.Base.{
  ℕ, zero, suc, ◌+◌, ◌/◌, ◌≡◌, Bool, true, false, Option, some, List, [], ◌∷◌, ◌++◌, length,
  get_elem?, set, get_or, replicate, ltb, leb, ◌==◌, if◌then◌else◌, add64, sub64, IsU64,
}
use aeron_fast.Stats.Defs.{PerformanceStats, detailed_record_count}
use aeron_fast.Stats.{compare_exchange, count_bucket}

-- The arguments of a call.
pub record Delivery : Type 0 where
  pub send_time : ℕ
  pub receive_time : ℕ

abbrev pub latency : Delivery → ℕ
latency d = sub64 d.receive_time d.send_time

-- Where a call stands that has drawn its index: before the store of the first time, of the last
-- time, before the addition to the sum, before the load of the minimum, at the test of its loop,
-- before the three stores that describe the new minimum, before the load of the maximum, at its
-- test, before the four stores of its record, and before the addition to a bucket.
pub data Place : Type 0 where
  dating_first dating_last totalling loading_min : Place
  lowering : (current_min : ℕ) → Place
  naming_index naming_send naming_receive loading_max : Place
  raising : (current_max : ℕ) → Place
  storing_send storing_receive storing_latency storing_count bucketing : Place

-- A thread has no call, is before the addition to the message count, or is past it with the index
-- that the addition gave it.
pub data Pc : Type 0 where
  idle : Pc
  drawing : Delivery → Pc
  inside : Place → Delivery → (message_index : ℕ) → Pc

-- The rest of the call after the loop for the maximum.
abbrev pub recording : ℕ → Place
recording message_index =
    if ltb message_index detailed_record_count then Place.storing_send else Place.bucketing

-- The next operation of a call with its index, with the tests of its registers up to the one after
-- it.
unfoldable pub proceed : Place → Delivery → ℕ → PerformanceStats → Pc × PerformanceStats
proceed Place.dating_first d i m = (
  Pc.inside Place.dating_last d i,
  record m { first_message_time = if i == 0 then d.receive_time else m.first_message_time },
)
proceed Place.dating_last d i m =
    (Pc.inside Place.totalling d i, record m { last_message_time = d.receive_time })
proceed Place.totalling d i m = (
  Pc.inside Place.loading_min d i,
  record m {
    counters = record (m.counters) { total_latency = add64 m.counters.total_latency (latency d) };
  },
)
proceed Place.loading_min d i m = (Pc.inside (Place.lowering m.counters.min_latency) d i, m)
proceed (Place.lowering current_min) d i m =
    let exchange = compare_exchange m.counters.min_latency current_min (latency d) in
    if ltb (latency d) current_min
    then (
      Pc.inside (if exchange.success then Place.naming_index else Place.lowering exchange.expected)
          d i,
      record m { counters = record (m.counters) { min_latency = exchange.cell } },
    )
    else (Pc.inside Place.loading_max d i, m)
proceed Place.naming_index d i m =
    (Pc.inside Place.naming_send d i, record m { min_latency_message_index = add64 i 1 })
proceed Place.naming_send d i m =
    (Pc.inside Place.naming_receive d i, record m { min_latency_send_time = d.send_time })
proceed Place.naming_receive d i m =
    (Pc.inside Place.loading_max d i, record m { min_latency_receive_time = d.receive_time })
proceed Place.loading_max d i m = (Pc.inside (Place.raising m.counters.max_latency) d i, m)
proceed (Place.raising current_max) d i m =
    let exchange = compare_exchange m.counters.max_latency current_max (latency d) in
    if ltb current_max (latency d)
    then (
      Pc.inside (if exchange.success then recording i else Place.raising exchange.expected) d i,
      record m { counters = record (m.counters) { max_latency = exchange.cell } },
    )
    else (Pc.inside (recording i) d i, m)
proceed Place.storing_send d i m = (
  Pc.inside Place.storing_receive d i,
  record m { records = record (m.records) { send_times = set m.records.send_times i d.send_time } },
)
proceed Place.storing_receive d i m = (
  Pc.inside Place.storing_latency d i,
  record m {
    records = record (m.records) { receive_times = set m.records.receive_times i d.receive_time };
  },
)
proceed Place.storing_latency d i m = (
  Pc.inside Place.storing_count d i,
  record m { records = record (m.records) { latencies = set m.records.latencies i (latency d) } },
)
proceed Place.storing_count d i m = (
  Pc.inside Place.bucketing d i,
  record m { records = record (m.records) { recorded_count = i + 1 } },
)
proceed Place.bucketing d i m = (
  Pc.idle,
  record m {
    latency_buckets = count_bucket leb (latency d / 1000) m.latency_bucket_limits m.latency_buckets;
  },
)

-- The next operation of a thread. The addition to the message count hands out its old value.
unfoldable pub exec : Pc → PerformanceStats → Pc × PerformanceStats
exec Pc.idle m = (Pc.idle, m)
exec (Pc.drawing d) m = (
  Pc.inside Place.dating_first d m.counters.message_count,
  record m { counters = record (m.counters) { message_count = add64 m.counters.message_count 1 } },
)
exec (Pc.inside p d i) m = proceed p d i m

-- The shared memory, the threads, and the calls that have drawn an index, in the order in which
-- they did. The last is for the proofs; no step reads it.
pub record System : Type 0 where
  pub memory : PerformanceStats
  pub threads : List Pc
  pub drawn : List Delivery

abbrev pub drawn_after : Pc → List Delivery → List Delivery
drawn_after (Pc.drawing d) drawn = drawn ++ d ∷ []
drawn_after pc drawn = drawn

-- A thread begins a call, or does its next operation.
pub data Step (s : System) : System → Type 0 where
  call :
      (i : ℕ) (d : Delivery)
      → get_elem? s.threads i ≡ some Pc.idle
      → Step s (record s { threads = set s.threads i (Pc.drawing d) })
  run :
      (i : ℕ) (pc : Pc)
      → get_elem? s.threads i ≡ some pc
      → Step s (record s {
        memory = (exec pc s.memory).1;
        threads = set s.threads i (exec pc s.memory).0;
        drawn = drawn_after pc s.drawn;
      })

-- `n` threads before their first call.
abbrev pub start : ℕ → PerformanceStats → System
start n memory = record { memory = memory; threads = replicate n Pc.idle; drawn = [] }

pub data Reach (s : System) : System → Type 0 where
  here : Reach s s
  next : {t u : System} → Reach s t → Step t u → Reach s u

-- The next operations of one thread while the others stand still.
abbrev pub run_alone : ℕ → Pc → PerformanceStats → Pc × PerformanceStats
run_alone zero pc m = (pc, m)
run_alone (suc fuel) pc m = run_alone fuel (exec pc m).0 (exec pc m).1

-- The scheduler's choice, as a function: each number is the thread that goes on.
abbrev pub schedule : List ℕ → PerformanceStats × List Pc → PerformanceStats × List Pc
schedule [] s = s
schedule (i ∷ is) (memory, threads) =
    let (pc, memory') = exec (get_or threads i Pc.idle) memory in
    schedule is (memory', set threads i pc)
