-- ===== src/Subscriber.antt =====
-- c-performance/src/binary_subscriber.c: the counters, what one fragment does to them, and the
-- reports. Subscriber/Loop has the receiving loop.
pub mod Heard
pub mod Delivered
pub mod Latency
pub mod Average
mod Tests
pub mod Report
pub mod Loop
pub mod Threads
pub mod Main
use aeron_fast.Base.{
  ℕ, ◌+◌, ◌/◌, ◌^◌, ◌*◌, Bool, true, false, Option, none, some, List, [], ◌∷◌, ◌++◌, ltb, leb,
  if◌then◌else◌, add64, sub64, length, u64_max,
}
use aeron_fast.Base.Int.{ℤ}
use aeron_fast.Common.{error_success, error_memory_allocation}
use aeron_fast.Clock.{Timespec, get_timestamp_ns}
use aeron_fast.Rate.{per_second, mebibytes_per_second}
use aeron_fast.Message.Bytes.{Endian}
use aeron_fast.Message.{timestamp_size, parse_binary_message_timestamp}
use aeron_fast.Stats.Defs.{PerformanceStats, create_performance_stats}
use aeron_fast.Stats.{record_latency}

-- `subscriber_stats_t`. A null `latency_stats` is `none`.
pub record SubscriberStats : Type 0 where
  pub messages_received : ℕ
  pub bytes_received : ℕ
  pub fragments_received : ℕ
  pub polling_iterations : ℕ
  pub start_time : ℕ
  pub end_time : ℕ
  pub last_stats_time : ℕ
  pub last_messages_received : ℕ
  pub last_bytes_received : ℕ
  pub latency_stats : Option PerformanceStats
  pub min_latency : ℕ
  pub max_latency : ℕ
  pub total_latency : ℕ

-- `g_stats` at the start of the program.
abbrev pub initial_subscriber_stats : SubscriberStats
initial_subscriber_stats = record {
  messages_received = 0;
  bytes_received = 0;
  fragments_received = 0;
  polling_iterations = 0;
  start_time = 0;
  end_time = 0;
  last_stats_time = 0;
  last_messages_received = 0;
  last_bytes_received = 0;
  latency_stats = none;
  min_latency = 0;
  max_latency = 0;
  total_latency = 0;
}

-- The global variables `running`, `g_target_messages` and `g_stats`.
pub record Globals : Type 0 where
  pub running : Bool
  pub target_messages : ℕ
  pub stats : SubscriberStats

-- `allocated` says whether `calloc` returned memory, and `now` is the reading of the clock.
unfoldable pub init_subscriber_stats : Bool → Timespec → SubscriberStats → ℤ × SubscriberStats
init_subscriber_stats allocated now s = elim (create_performance_stats allocated) [
  | none ↦ (error_memory_allocation, record s { latency_stats = none })
  | some stats ↦ (
    error_success,
    record s {
      latency_stats = some stats;
      min_latency = u64_max;
      max_latency = 0;
      start_time = get_timestamp_ns now;
      last_stats_time = get_timestamp_ns now;
    },
  )
]

-- `destroy_performance_stats` has an empty body.
pub cleanup_subscriber_stats : SubscriberStats → SubscriberStats
cleanup_subscriber_stats s = elim s.latency_stats [
  | none ↦ s
  | some stats ↦ record s { latency_stats = none }
]

-- The section of `process_message_fragment` under the mutex.
pub account : ℕ → ℕ → SubscriberStats → SubscriberStats
account latency size s = record s {
  messages_received = add64 s.messages_received 1;
  bytes_received = add64 s.bytes_received size;
  fragments_received = add64 s.fragments_received 1;
  min_latency = if ltb latency s.min_latency then latency else s.min_latency;
  max_latency = if ltb s.max_latency latency then latency else s.max_latency;
  total_latency = add64 s.total_latency latency;
  latency_stats = record_latency s.latency_stats latency;
}

-- The test of the target after it.
pub check_target : ℕ → Globals → Globals
check_target receive_timestamp g =
    if leb g.target_messages g.stats.messages_received
    then record g { running = false; stats = record (g.stats) { end_time = receive_timestamp } }
    else g

-- `buffer` is the fragment, whose size is `length`, and `now` the reading of the clock. A read
-- outside the fragment is `none`.
unfoldable pub process_message_fragment : Endian → List ℕ → Timespec → Globals → Option Globals
unfolding account check_target
process_message_fragment host buffer now g =
    if ltb (length buffer) timestamp_size
    then some g
    else elim (parse_binary_message_timestamp host buffer) [
      | none ↦ none
      | some send_timestamp ↦
          (let receive_timestamp = get_timestamp_ns now in
            let latency = sub64 receive_timestamp send_timestamp in
            some (
              check_target receive_timestamp
                (record g { stats = account latency (length buffer) g.stats })))
    ]

-- A fragment and the reading of the clock in the call that handles it.
abbrev pub Fragment : Type 0
Fragment = List ℕ × Timespec

-- The calls that one poll makes.
unfoldable pub deliver : Endian → List Fragment → Globals → Option Globals
deliver host [] g = some g
deliver host ((buffer, now) ∷ fs) g = elim (process_message_fragment host buffer now g) [
  | none ↦ none
  | some g' ↦ deliver host fs g'
]
