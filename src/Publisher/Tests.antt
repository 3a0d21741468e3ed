-- ===== src/Publisher/Tests.antt =====
-- Runs of the publisher against concrete environments.
use aeron_fast.Publisher.Threads.Join.{Run, stay, onward, CanMove, join_returns}
use aeron_fast.Publisher.Accounts.{Offers}
use aeron_fast.Publisher.Offers.{
  Failure, failure, position, is_silent, publish_all, publish_all-length, number_of,
}
use aeron_fast.Base.{
  ℕ, zero, suc, ◌+◌, ◌≤◌, ◌≡◌, refl, true, false, some, List, [], ◌∷◌, arith, replicate, ◌⊎◌,
}
use aeron_fast.Base.Int.{ℤ, pos, negsuc}
use aeron_fast.Common.{error_success}
use aeron_fast.Clock.{Timespec, get_timestamp_ns}
use aeron_fast.Message.{create_binary_message}
use aeron_fast.Message.Bytes.{Endian}
use aeron_fast.Publisher.{
  Line, initial_stats, publish_message, print_stats, back_pressured, admin_action,
}
use aeron_fast.Publisher.Loop.{Turn, Stop, Sender, Finish, run_publisher, send_loop, round, prefill}
use aeron_fast.Publisher.Loop.Result.{Result, run_publisher-Result}
use aeron_fast.Publisher.Loop.Serious.{run_publisher-serious}
use aeron_fast.Publisher.Threads.{
  Reach, Shared, MainPc, StatsPc, start, here, next, offer, leave, look_off, join, signal,
}

abbrev tick : ℕ → Timespec
tick n = record { tv_sec = 1700000000; tv_nsec = n }

-- Back pressure in the first round, then acceptance.
abbrev turns : ℕ → Turn
turns zero = record { signal = false; now = tick 1; offer = back_pressured }
turns (suc i) = record { signal = false; now = tick (i + 2); offer = pos 96 }

abbrev memory : List ℕ
memory = replicate 10 7

-- The numbers of messages, offers and retries in the report of a finished run.
abbrev reported : Finish → List ℕ
reported
      (Finish.returns code (
        some (
          stop,
          s,
          Line.final_title
              ∷ Line.total_messages m
              ∷ Line.total_bytes b
              ∷ Line.errors e
              ∷ Line.back_pressure p
              ∷ lines,
        ))) =
    m ∷ b ∷ e ∷ p ∷ []
reported _ = []

three_sent :
    reported
      (run_publisher 6 Endian.little (some memory) 10 3 (tick 0) (tick 9) turns true initial_stats)
    ≡ 3 ∷ 30 ∷ 0 ∷ 1 ∷ []
unfolding run_publisher send_loop round prefill create_binary_message publish_message print_stats
    get_timestamp_ns
three_sent = refl

run_publisher-Result_example : Result 10 1 turns (
    run_publisher 2000002 Endian.little
      (some memory)
      10
      1
      (tick 0)
      (tick 9)
      turns
      true
      initial_stats)
run_publisher-Result_example =
    run_publisher-Result 2000002 Endian.little memory 10 1 (tick 0) (tick 9) turns refl
      (omega arith) (omega arith) (omega arith) (omega arith)

-- An administrative action, such as the rotation of the log.
abbrev rotating : ℕ → Turn
rotating i = record { signal = false; now = tick i; offer = admin_action }

run_publisher-serious_example :
    (code : ℤ) × (last : Sender) × (lines : List Line) × (run_publisher 1 Endian.big
        (some memory)
        10
        5
        (tick 0)
        (tick 9)
        rotating
        true
        initial_stats
      ≡ Finish.returns error_success (some (Stop.failed code, last, lines)))
    × (last.successful_sends ≡ 0)
    × (last.stats.messages_sent ≡ 0)
run_publisher-serious_example =
    run_publisher-serious 0 Endian.big memory 10 5 (tick 0) (tick 9) rotating refl (omega arith)
      (omega arith) (omega arith) refl refl refl

abbrev after_one : Shared
after_one = record {
  running = true;
  stats = (publish_message (pos 96) 10 initial_stats).1;
  main_pc = MainPc.sending;
  stats_pc = StatsPc.head;
  offers = ([], pos 96) ∷ [];
  reported = [];
  reported_at = 0;
}

one_offer : Reach 10 (start initial_stats) after_one
one_offer = next here (offer [] (pos 96) refl)

abbrev at_join : Shared
at_join = record after_one { running = false; main_pc = MainPc.joining }

waiting : Reach 10 (start initial_stats) at_join
waiting = next one_offer (leave refl)

abbrev at_end : Shared
at_end = record after_one {
  running = false;
  main_pc = MainPc.reported;
  stats_pc = StatsPc.finished;
  stats = (print_stats true 5 (publish_message (pos 96) 10 initial_stats).1).0;
}

over : Reach 10 (start initial_stats) at_end
over = next (next waiting (look_off refl refl)) (join 5 refl refl)

abbrev ended : Shared
ended = record at_join { stats_pc = StatsPc.finished }

ended-Run : Run 10 at_join 1 ended
ended-Run = onward (onward stay (look_off refl refl)) signal

join_returns_example :
    (1 ≤ 3)
    × (((ended.main_pc ≡ MainPc.reported) × (ended.stats_pc ≡ StatsPc.finished)) ⊎ CanMove 10 ended)
join_returns_example = join_returns 10 initial_stats waiting refl ended-Run

-- Back pressure, an acceptance, and an end of the stream that no counter shows.
abbrev three_results : List ℤ
three_results = back_pressured ∷ pos 96 ∷ negsuc 4 ∷ []

publish_all-length_example :
    let s = publish_all 10 three_results initial_stats in
    s.messages_sent + s.send_errors + s.back_pressure_events + number_of is_silent three_results ≡ 3
publish_all-length_example =
    publish_all-length 10 three_results
      (failure Failure.back_pressured, (position 95, (failure Failure.max_position_exceeded, tt)))
      (omega arith)
