-- ===== src/Subscriber/Threads.antt =====
-- The threads of the subscriber and the signal handler, interleaved: `run_subscriber` with the
-- calls of `process_message_fragment`, and `stats_thread`, which prints once a second. A section
-- under the mutex is one step; the test of the target stands behind it and is another.
pub mod Intervals
pub mod Join
use aeron_fast.Base.{ℕ, Bool, true, false, List, [], ◌∷◌, ◌≡◌, ◌<◌, ◌≤◌, add64}
use aeron_fast.Program.Signals.{Signal, Dispositions, install}
use aeron_fast.Subscriber.{Globals, SubscriberStats, account, check_target}
use aeron_fast.Subscriber.Report.{print_realtime_stats}

-- Where `run_subscriber` stands: in its loop and outside a fragment, behind the mutex in the call
-- for a fragment that was received at a time, at `pthread_join`, or behind the final report.
pub data MainPc : Type 0 where
  polling joining reported : MainPc
  checking : ℕ → MainPc

-- Where `stats_thread` stands: at the test of the loop, in `sleep(1)`, before
-- `print_realtime_stats`, or at its end.
pub data StatsPc : Type 0 where
  head asleep printing finished : StatsPc

pub record Shared : Type 0 where
  pub globals : Globals
  pub main_pc : MainPc
  pub stats_pc : StatsPc
  -- The sizes of the fragments counted so far, the last one first.
  pub sizes : List ℕ
  -- Those counted before the last report of `stats_thread`, and its time. These three are for the
  -- proofs; no step reads them.
  pub reported : List ℕ
  pub reported_at : ℕ

abbrev pub signal_handler : Globals → Globals
signal_handler g = record g { running = false }

abbrev pub setup_signal_handlers : Dispositions → Dispositions
setup_signal_handlers table = install Signal.sigterm (install Signal.sigint table)

-- One step of a thread, or of the handler.
pub data Step (s : Shared) : Shared → Type 0 where
  signal : Step s (record s { globals = signal_handler s.globals })
  -- `polling_iterations++` and the call of the poll
  poll :
      s.main_pc ≡ MainPc.polling
      → Step s (record s {
        globals = record (s.globals) {
          stats = record (s.globals.stats) {
            polling_iterations = add64 s.globals.stats.polling_iterations 1;
          };
        };
      })
  -- the critical section for a fragment of a size, received at a time
  count :
      (latency size now : ℕ)
      → s.main_pc ≡ MainPc.polling
      → Step s (record s {
        globals = record (s.globals) { stats = account latency size s.globals.stats };
        main_pc = MainPc.checking now;
        sizes = size ∷ s.sizes;
      })
  -- the test of the target, and the return from the call
  check :
      (now : ℕ)
      → s.main_pc ≡ MainPc.checking now
      → Step s (record s { globals = check_target now s.globals; main_pc = MainPc.polling })
  -- the end of the loop, for any reason, with `end_time` set or as it was
  leave :
      (end : ℕ)
      → s.main_pc ≡ MainPc.polling
      → Step s (record s {
        globals = record (s.globals) {
          running = false;
          stats = record (s.globals.stats) { end_time = end };
        };
        main_pc = MainPc.joining;
      })
  -- `pthread_join` returns, and `print_final_stats` runs
  join :
      s.main_pc ≡ MainPc.joining
      → s.stats_pc ≡ StatsPc.finished
      → Step s (record s { main_pc = MainPc.reported })
  look_on :
      s.stats_pc ≡ StatsPc.head
      → s.globals.running ≡ true
      → s.globals.stats.messages_received < s.globals.target_messages
      → Step s (record s { stats_pc = StatsPc.asleep })
  look_off :
      s.stats_pc ≡ StatsPc.head
      → s.globals.running ≡ false
      → Step s (record s { stats_pc = StatsPc.finished })
  look_done :
      s.stats_pc ≡ StatsPc.head
      → s.globals.target_messages ≤ s.globals.stats.messages_received
      → Step s (record s { stats_pc = StatsPc.finished })
  wake_on :
      s.stats_pc ≡ StatsPc.asleep
      → s.globals.running ≡ true
      → Step s (record s { stats_pc = StatsPc.printing })
  wake_off :
      s.stats_pc ≡ StatsPc.asleep
      → s.globals.running ≡ false
      → Step s (record s { stats_pc = StatsPc.head })
  -- `print_realtime_stats`
  report :
      (now : ℕ)
      → s.stats_pc ≡ StatsPc.printing
      → Step s (record s {
        globals = (print_realtime_stats now s.globals).0;
        stats_pc = StatsPc.head;
        reported = s.sizes;
        reported_at = now;
      })

-- `pthread_create` has returned, and nothing has been received.
abbrev pub start : Globals → Shared
start g = record {
  globals = g;
  main_pc = MainPc.polling;
  stats_pc = StatsPc.head;
  sizes = [];
  reported = [];
  reported_at = g.stats.last_stats_time;
}

pub data Reach (s : Shared) : Shared → Type 0 where
  here : Reach s s
  next : {t u : Shared} → Reach s t → Step t u → Reach s u
