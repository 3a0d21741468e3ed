-- ===== src/Publisher/Threads.antt =====
-- The two threads of the publisher and the signal handler, interleaved: `run_publisher` with the
-- mutex-protected updates of `publish_message`, and `stats_thread`, which prints once a second. A
-- section under the mutex is one step.
pub mod Intervals
pub mod Join
use aeron_fast.Base.{ℕ, Bool, true, false, List, [], ◌∷◌, ◌≡◌}
use aeron_fast.Base.Int.{ℤ}
use aeron_fast.Program.Signals.{Signal, Dispositions, install}
use aeron_fast.Publisher.{PublisherStats, Line, publish_message, print_stats}
use aeron_fast.Publisher.Accounts.{Offers}

-- Where `run_publisher` stands: in its loop, at `pthread_join`, or behind the final report.
pub data MainPc : Type 0 where
  sending joining reported : MainPc

-- Where `stats_thread` stands: at the test of the loop, in `sleep(1)`, before `print_stats(false)`,
-- or at its end.
pub data StatsPc : Type 0 where
  head asleep printing finished : StatsPc

pub record Shared : Type 0 where
  pub running : Bool
  pub stats : PublisherStats
  pub main_pc : MainPc
  pub stats_pc : StatsPc
  -- The offers made so far, the last one first.
  pub offers : Offers
  -- Those made before the last report of `stats_thread`, and its time. These three are for the
  -- proofs; no step reads them.
  pub reported : Offers
  pub reported_at : ℕ

abbrev pub signal_handler : Shared → Shared
signal_handler s = record s { running = false }

abbrev pub setup_signal_handlers : Dispositions → Dispositions
setup_signal_handlers table = install Signal.sigterm (install Signal.sigint table)

-- One step of a thread, or of the handler. `size` is the size of the messages.
pub data Step (size : ℕ) (s : Shared) : Shared → Type 0 where
  signal : Step size s (signal_handler s)
  -- one call of `publish_message` with its critical section
  offer :
      (message : List ℕ) (r : ℤ)
      → s.main_pc ≡ MainPc.sending
      → Step size s (record s {
        stats = (publish_message r size s.stats).1;
        offers = (message, r) ∷ s.offers;
      })
  -- the end of the loop, for any reason
  leave :
      s.main_pc ≡ MainPc.sending
      → Step size s (record s { running = false; main_pc = MainPc.joining })
  -- `pthread_join` returns, and `print_stats(true)` runs
  join :
      (now : ℕ)
      → s.main_pc ≡ MainPc.joining
      → s.stats_pc ≡ StatsPc.finished
      → Step size s
          (record s { stats = (print_stats true now s.stats).0; main_pc = MainPc.reported })
  look_on :
      s.stats_pc ≡ StatsPc.head
      → s.running ≡ true
      → Step size s (record s { stats_pc = StatsPc.asleep })
  look_off :
      s.stats_pc ≡ StatsPc.head
      → s.running ≡ false
      → Step size s (record s { stats_pc = StatsPc.finished })
  wake_on :
      s.stats_pc ≡ StatsPc.asleep
      → s.running ≡ true
      → Step size s (record s { stats_pc = StatsPc.printing })
  wake_off :
      s.stats_pc ≡ StatsPc.asleep
      → s.running ≡ false
      → Step size s (record s { stats_pc = StatsPc.head })
  -- `print_stats(false)`
  report :
      (now : ℕ)
      → s.stats_pc ≡ StatsPc.printing
      → Step size s (record s {
        stats = (print_stats false now s.stats).0;
        stats_pc = StatsPc.head;
        reported = s.offers;
        reported_at = now;
      })

-- `pthread_create` has returned, and nothing has been sent.
abbrev pub start : PublisherStats → Shared
start stats = record {
  running = true;
  stats = stats;
  main_pc = MainPc.sending;
  stats_pc = StatsPc.head;
  offers = [];
  reported = [];
  reported_at = stats.last_stats_time;
}

pub data Reach (size : ℕ) (s : Shared) : Shared → Type 0 where
  here : Reach size s s
  next : {t u : Shared} → Reach size s t → Step size t u → Reach size s u
