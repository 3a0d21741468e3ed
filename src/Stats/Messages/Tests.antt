-- ===== src/Stats/Messages/Tests.antt =====
-- Interleaved calls of `record_message_latency` at concrete times.
use aeron_fast.Stats.Messages.Settle.{message_calls_return}
use aeron_fast.Stats.Messages.Alone.{Within, run_alone-record_message_latency}
use aeron_fast.Base.{
  ℕ, suc, ◌≡◌, ◌≤◌, ◌<◌, ◌^◌, refl, ap, Option, none, some, List, [], ◌∷◌, ◌++◌, arith, replicate,
  length, map, get_elem?, u64, set,
}
use aeron_fast.Stats.{count_bucket, record_message_latency}
use aeron_fast.Stats.Defs.{
  PerformanceStats, init_performance_stats, init_limits, detailed_record_count,
}
use aeron_fast.Stats.History.{create-Tracks, minimum, maximum}
use aeron_fast.Stats.Tally.{sum, tally}
use aeron_fast.Stats.Concurrent.Quiet.{held}
use aeron_fast.Stats.Messages.{
  here, next, call, run, Delivery, latency, Pc, exec, proceed, schedule, System, start, Reach,
}
use aeron_fast.Stats.Messages.Tasks.{AllIdle}
use aeron_fast.Stats.Messages.Settled.{new-IsInit, messages_figures, records_whole}
use aeron_fast.Stats.Messages.Overtaken.{overtaken}

abbrev used : PerformanceStats
used = create-Tracks.0

abbrev cleared_again : PerformanceStats
cleared_again = (new-IsInit used).0

cleared_made : (init_performance_stats (some used)).1 ≡ some cleared_again
cleared_made = (new-IsInit used).1

-- 700 nanoseconds, then 50.
abbrev slow : Delivery
slow = record { send_time = 100; receive_time = 800 }

abbrev fast : Delivery
fast = record { send_time = 200; receive_time = 250 }

overtaken_example :
    (s : System) × Reach (start 2 cleared_again) s
    × AllIdle s.threads
    × (s.drawn ≡ slow ∷ fast ∷ [])
    × (s.memory.counters.min_latency ≡ latency fast)
    × (s.memory.min_latency_message_index ≡ 1)
    × (s.memory.min_latency_send_time ≡ slow.send_time)
    × (s.memory.min_latency_receive_time ≡ slow.receive_time)
    × (s.memory.records.recorded_count ≡ 1)
overtaken_example = overtaken used cleared_again slow fast cleared_made (omega arith) (omega arith)

abbrev both_ended : System
both_ended = overtaken_example.0

few_calls : length both_ended.drawn < 2 ^ 64
few_calls = omega (arith, ap length overtaken_example.3)

messages_figures_example :
    let h = map latency both_ended.drawn in
    held both_ended.memory
    ≡ (u64 (length h), u64 (sum h), minimum h, maximum h, tally 0 (map suc init_limits) h)
messages_figures_example =
    messages_figures 2 used cleared_again cleared_made (overtaken_example.1) few_calls
      (overtaken_example.2)

records_whole_example :
    ((j : ℕ) (d : Delivery)
      → get_elem? both_ended.drawn j ≡ some d
      → j < detailed_record_count
      → (get_elem? both_ended.memory.records.send_times j ≡ some d.send_time)
        × (get_elem? both_ended.memory.records.receive_times j ≡ some d.receive_time)
        × (get_elem? both_ended.memory.records.latencies j ≡ some (latency d)))
    × (both_ended.memory.records.recorded_count ≤ detailed_record_count)
    × (both_ended.memory.records.recorded_count ≤ length both_ended.drawn)
records_whole_example =
    records_whole 2 used cleared_again cleared_made (overtaken_example.1) few_calls
      (overtaken_example.2)

run_alone-record_message_latency_example :
    (m' : PerformanceStats) × Within 16 (Pc.drawing slow) cleared_again Pc.idle m'
    × (record_message_latency (some cleared_again) 100 800 ≡ some m')
run_alone-record_message_latency_example = run_alone-record_message_latency slow cleared_again

-- The second thread makes its whole call while the first stands before the three stores that name
-- its message.
abbrev raced : Option PerformanceStats → Option (ℕ × ℕ × ℕ × ℕ × List Pc)
raced none = none
raced (some m) =
    let (m', threads) =
      schedule (replicate 6 0 ++ replicate 16 1 ++ replicate 10 0)
        (m, Pc.drawing slow ∷ Pc.drawing fast ∷ []) in
    some (
      m'.counters.message_count, m'.counters.min_latency, m'.min_latency_message_index,
      m'.records.recorded_count, threads,
    )

raced_lem :
    raced (init_performance_stats (some used)).1 ≡ some (2, 50, 1, 1, Pc.idle ∷ Pc.idle ∷ [])
unfolding exec proceed init_performance_stats count_bucket
raced_lem = refl

-- The first call has drawn its index, the second waits.
abbrev half_way : System
half_way = record {
  memory = (exec (Pc.drawing slow) cleared_again).1;
  threads =
      set
        (set (set (replicate 2 Pc.idle) 0 (Pc.drawing slow)) 0
          (exec (Pc.drawing slow) cleared_again).0)
        1 (Pc.drawing fast);
  drawn = slow ∷ [];
}

half_way_reached : Reach (start 2 cleared_again) half_way
half_way_reached =
    next (next (next here (call 0 slow refl)) (run 0 (Pc.drawing slow) refl)) (call 1 fast refl)

message_calls_return_example :
    (t : System) × Reach half_way t
    × AllIdle t.threads
    × (t.drawn ≡ slow ∷ fast ∷ [])
    × (let h = map latency (slow ∷ fast ∷ []) in
        held t.memory
        ≡ (u64 (length h), u64 (sum h), minimum h, maximum h, tally 0 (map suc init_limits) h))
unfolding exec
message_calls_return_example =
    message_calls_return 2 used cleared_again cleared_made half_way_reached (omega arith)
