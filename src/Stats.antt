-- ===== src/Stats.antt =====
-- c-performance/src/performance_stats.c and include/performance_stats.h: the latency statistics.
-- This file has the operations that record, each run by one thread from its start to its end: an
-- atomic operation that no other thread comes between is a plain one.
pub mod Defs
pub mod Layout
pub mod Tally
pub mod History
pub mod Bag
pub mod Concurrent
pub mod Messages
pub mod Deliveries
pub mod Recorder
pub mod Lowest
pub mod Print
pub mod Summary
mod Tests
use aeron_fast.Base.{
  ℕ, zero, suc, ◌+◌, ◌/◌, ◌≡◌, arith, Bool, true, false, Option, none, some, List, [], ◌∷◌, ltb,
  leb, ◌==◌, if◌then◌else◌, set, add64, sub64,
}
use Defs.{PerformanceStats, StatsCounters, DetailedRecords, detailed_record_count}

-- What `__atomic_compare_exchange_n` leaves: its result, the cell, and the expected value, which a
-- failure replaces by what the cell holds.
pub record Exchange : Type 0 where
  pub success : Bool
  pub cell : ℕ
  pub expected : ℕ

abbrev pub compare_exchange : ℕ → ℕ → ℕ → Exchange
compare_exchange cell expected desired =
    if cell == expected
    then record { success = true; cell = desired; expected = expected }
    else record { success = false; cell = cell; expected = cell }

-- `while (latency < current) if (compare_exchange(cell, &current, latency)) break;` with a bound on
-- its rounds. The result is the cell and whether this call stored into it.
pub lower_min : ℕ → ℕ → ℕ → ℕ → ℕ × Bool
lower_min zero cell current latency = (cell, false)
lower_min (suc rounds) cell current latency =
    let exchange = compare_exchange cell current latency in
    let retry = lower_min rounds exchange.cell exchange.expected latency in
    if ltb latency current
    then (if exchange.success then (exchange.cell, true) else retry)
    else (cell, false)

-- The loop for the maximum.
pub raise_max : ℕ → ℕ → ℕ → ℕ → ℕ
raise_max zero cell current latency = cell
raise_max (suc rounds) cell current latency =
    let exchange = compare_exchange cell current latency in
    let retry = raise_max rounds exchange.cell exchange.expected latency in
    if ltb current latency then (if exchange.success then exchange.cell else retry) else cell

-- The loop over the buckets: the first limit that the test accepts names the bucket.
pub count_bucket : (ℕ → ℕ → Bool) → ℕ → List ℕ → List ℕ → List ℕ
count_bucket test latency_us [] buckets = buckets
count_bucket test latency_us (limit ∷ limits) [] = []
count_bucket test latency_us (limit ∷ limits) (b ∷ buckets) =
    if test latency_us limit
    then add64 b 1 ∷ buckets
    else b ∷ count_bucket test latency_us limits buckets

-- The updates of the message count and of the sum of the latencies.
pub count_message : ℕ → StatsCounters → StatsCounters
count_message latency c = record c {
  message_count = add64 c.message_count 1;
  total_latency = add64 c.total_latency latency;
}

-- Both extremes. One round is enough for each loop, since the cell holds what was loaded.
pub update_extremes : ℕ → StatsCounters → StatsCounters
unfolding lower_min raise_max
update_extremes latency c = record c {
  min_latency = (lower_min 1 c.min_latency c.min_latency latency).0;
  max_latency = raise_max 1 c.max_latency c.max_latency latency;
}

-- The end of `record_latency`: the slot is taken by a single compare-exchange.
pub append_record : ℕ → DetailedRecords → DetailedRecords
append_record latency r =
    let current_count = r.recorded_count in
    let exchange = compare_exchange r.recorded_count current_count (current_count + 1) in
    if ltb current_count detailed_record_count
    then (if exchange.success
        then record r {
          recorded_count = exchange.cell;
          latencies = set r.latencies current_count latency;
        }
        else r)
    else r

pub record_latency : Option PerformanceStats → ℕ → Option PerformanceStats
unfolding count_message update_extremes count_bucket append_record
record_latency none latency_ns = none
record_latency (some s) latency_ns = some (record s {
  counters = update_extremes latency_ns (count_message latency_ns s.counters);
  latency_buckets = count_bucket ltb (latency_ns / 1000) s.latency_bucket_limits s.latency_buckets;
  records = append_record latency_ns s.records;
})

-- The end of the detailed part of `record_message_latency`, indexed by the message.
pub write_record : ℕ → ℕ → ℕ → ℕ → DetailedRecords → DetailedRecords
write_record message_index send_time receive_time latency r =
    if ltb message_index detailed_record_count
    then record r {
      send_times = set r.send_times message_index send_time;
      receive_times = set r.receive_times message_index receive_time;
      latencies = set r.latencies message_index latency;
      recorded_count = message_index + 1;
    }
    else r

pub record_message_latency : Option PerformanceStats → ℕ → ℕ → Option PerformanceStats
unfolding count_message update_extremes lower_min raise_max count_bucket write_record
record_message_latency none send_time receive_time = none
record_message_latency (some s) send_time receive_time =
    let latency = sub64 receive_time send_time in
    let message_index = s.counters.message_count in
    let lowest = (lower_min 1 s.counters.min_latency s.counters.min_latency latency).1 in
    some (record s {
      counters = update_extremes latency (count_message latency s.counters);
      first_message_time = if message_index == 0 then receive_time else s.first_message_time;
      last_message_time = receive_time;
      min_latency_message_index =
          if lowest then add64 message_index 1 else s.min_latency_message_index;
      min_latency_send_time = if lowest then send_time else s.min_latency_send_time;
      min_latency_receive_time = if lowest then receive_time else s.min_latency_receive_time;
      records = write_record message_index send_time receive_time latency s.records;
      latency_buckets = count_bucket leb (latency / 1000) s.latency_bucket_limits s.latency_buckets;
    })

-- `record_send_latency` has an empty body.
pub record_send_latency : Option PerformanceStats → ℕ → Option PerformanceStats
record_send_latency stats send_latency = stats

pub record_back_pressure : Option PerformanceStats → Option PerformanceStats
record_back_pressure none = none
record_back_pressure (some s) = some (record s {
  counters = record (s.counters) { back_pressure_count = add64 s.counters.back_pressure_count 1 };
})

pub record_retry : Option PerformanceStats → Option PerformanceStats
record_retry none = none
record_retry (some s) =
    some
      (record s { counters = record (s.counters) { retry_count = add64 s.counters.retry_count 1 } })

-- The memory is not released, and keeps what it holds.
abbrev pub destroy_performance_stats : PerformanceStats → PerformanceStats
destroy_performance_stats stats = stats

-- The loop stores the smaller value in one round, and in any greater number of rounds.
pub lower_min_self :
    (rounds cell latency : ℕ)
    → lower_min (suc rounds) cell cell latency
      ≡ (if ltb latency cell then (latency, true) else (cell, false))
unfolding lower_min
lower_min_self rounds cell latency = ground arith

pub raise_max_self :
    (rounds cell latency : ℕ)
    → raise_max (suc rounds) cell cell latency ≡ (if ltb cell latency then latency else cell)
unfolding raise_max
raise_max_self rounds cell latency = ground arith
