-- ===== src/Subscriber/Tests.antt =====
-- Runs of the subscriber.
use aeron_fast.Rate.{per_second, mebibytes_per_second}
use aeron_fast.Subscriber.Threads.Join.{subscriber_join_returns, Run, stay, onward, CanMove}
use aeron_fast.Subscriber.Report.{print_realtime_stats, ReportLine}
use aeron_fast.Subscriber.Threads.{
  Shared, MainPc, StatsPc, Reach, start, here, next, look_on, leave, signal, look_off, wake_off,
}
use aeron_fast.Base.{ℕ, ◌+◌, ◌≤◌, ◌≡◌, refl, some, List, [], ◌∷◌, false, true, arith, ◌⊎◌}
use aeron_fast.Base.Int.{pos}
use aeron_fast.Clock.{get_timestamp_ns}
use aeron_fast.Message.{create_binary_message}
use aeron_fast.Message.Bytes.{Endian}
use aeron_fast.Program.Samples.{tick}
use aeron_fast.Subscriber.{
  Globals, initial_subscriber_stats, account, check_target, process_message_fragment,
}
use aeron_fast.Subscriber.Latency.{counted_latency, process_message_fragment-create}
use aeron_fast.Subscriber.Loop.{Poll, run_subscriber}
use aeron_fast.Subscriber.Loop.Ends.{arrived, Enough}
use aeron_fast.Subscriber.Loop.Result.{Result, run_subscriber-Result}

-- The bytes of the timestamp 1700000000000000000, and a byte of the pattern.
abbrev stamped : List ℕ
stamped = 23 ∷ 151 ∷ 156 ∷ 254 ∷ 54 ∷ 42 ∷ 0 ∷ 0 ∷ 0 ∷ []

-- Each poll hands over a message and a fragment that is too short.
abbrev polls : ℕ → Poll
polls n = record {
  signal = false;
  fragments = (stamped, tick (n + 5)) ∷ (1 ∷ 2 ∷ [], tick (n + 6)) ∷ [];
  result = pos 2;
}

latencies_heard : arrived Endian.little polls 0 2 ≡ 5 ∷ 6 ∷ []
unfolding get_timestamp_ns
latencies_heard = refl

abbrev idle : Globals
idle = record { running = true; target_messages = 3; stats = initial_subscriber_stats }

process_message_fragment-create_example :
    (message : List ℕ) × (create_binary_message Endian.big
        (0 ∷ 0 ∷ 0 ∷ 0 ∷ 0 ∷ 0 ∷ 0 ∷ 0 ∷ 0 ∷ [])
        9
        1700000000000000007
      ≡ some message)
    × (process_message_fragment Endian.little message (tick 5) idle
        ≡ some (
            check_target (get_timestamp_ns (tick 5)) (record idle {
              stats =
                  account
                    (counted_latency 1700000000000000007 (get_timestamp_ns (tick 5)))
                    9
                    idle.stats;
            })))
process_message_fragment-create_example =
    process_message_fragment-create Endian.big Endian.little
      (0 ∷ 0 ∷ 0 ∷ 0 ∷ 0 ∷ 0 ∷ 0 ∷ 0 ∷ 0 ∷ []) 9 1700000000000000007 (tick 5) idle (omega arith)
      refl (omega arith)

run_subscriber-Result_example :
    Result Endian.little polls 2 10
      (run_subscriber 3 Endian.little true 2 (tick 0) (tick 9) polls true initial_subscriber_stats)
run_subscriber-Result_example =
    run_subscriber-Result 2 Endian.little 2 10 (tick 0) (tick 9) polls (omega arith) (omega arith)
      (λ n. omega arith) (Enough.arrives (omega arith))

-- Each poll hands over a message that is five nanoseconds old.
abbrev steady : ℕ → Poll
steady n = record { signal = false; fragments = (stamped, tick 5) ∷ []; result = pos 1 }

-- A fragment is counted, a report falls into its call, and another fragment is counted behind it.
abbrev busy : Shared
busy = record {
  globals = record idle {
    stats =
        account 7 64
          (print_realtime_stats 9 (record idle { stats = account 5 32 idle.stats })).0.stats;
  };
  main_pc = MainPc.checking 8;
  stats_pc = StatsPc.head;
  sizes = 64 ∷ 32 ∷ [];
  reported = 32 ∷ [];
  reported_at = 9;
}

-- The report is on the second fragment alone, of 64 bytes in ten nanoseconds.
second_alone :
    (print_realtime_stats 19 busy.globals).1
    ≡ ReportLine.progress 2 3 96 (per_second 1 10) (mebibytes_per_second 64 10) ∷ []
unfolding print_realtime_stats account
second_alone = refl

-- The loop is left while the other thread sleeps.
abbrev waiting : Shared
waiting = record {
  globals = record idle { running = false; stats = record (idle.stats) { end_time = 5 } };
  main_pc = MainPc.joining;
  stats_pc = StatsPc.asleep;
  sizes = [];
  reported = [];
  reported_at = 0;
}

waiting-Reach : Reach (start idle) waiting
waiting-Reach = next (next here (look_on refl refl (omega arith))) (leave 5 refl)

-- It wakes up, a signal comes, and it ends its loop.
abbrev ended : Shared
ended = record waiting { stats_pc = StatsPc.finished }

ended-Run : Run waiting 2 ended
ended-Run = onward (onward (onward stay (wake_off refl refl)) signal) (look_off refl refl)

subscriber_join_returns_example :
    (2 ≤ 3)
    × (((ended.main_pc ≡ MainPc.reported) × (ended.stats_pc ≡ StatsPc.finished)) ⊎ CanMove ended)
subscriber_join_returns_example = subscriber_join_returns idle waiting-Reach refl ended-Run
