-- ===== src/EndToEnd/Tests.antt =====
-- One message from the offer to the count.
use aeron_fast.Rate.{per_second, mebibytes_per_second}
use aeron_fast.Publisher.Accounts.{Offers, is_accepted, count}
use aeron_fast.Common.{error_success}
use aeron_fast.Base.{
  ℕ, zero, suc, ◌*◌, ◌≤◌, ◌≡◌, refl, true, false, some, List, [], ◌∷◌, ◌++◌, arith, length,
  replicate, ap, sym, ◌∙◌, ◌^◌, ◌<◌,
}
use aeron_fast.Base.Int.{pos, ltb_ℤ}
use aeron_fast.Clock.{Timespec, get_timestamp_ns}
use aeron_fast.Message.Bytes.{Endian}
use aeron_fast.Message.Order.{be_bytes}
use aeron_fast.Message.Layout.{ramp}
use aeron_fast.Message.{create_binary_message}
use aeron_fast.Publisher.{initial_stats, publish_message, print_stats, Line}
use aeron_fast.Publisher.Loop.{Finish}
use aeron_fast.Subscriber.{initial_subscriber_stats}
use aeron_fast.Subscriber.Loop.{Poll, run_subscriber}
use aeron_fast.Subscriber.Loop.Ends.{Enough}
use aeron_fast.EndToEnd.{handed_over, IsOrderly}
use aeron_fast.EndToEnd.Runs.{Agree, Complete, Carries, runs-Agree, runs-Complete}
use aeron_fast.Publisher.Loop.{Turn, Stop, Sender, send_loop, round, prefill, run_publisher}

abbrev tick : ℕ → Timespec
tick n = record { tv_sec = 1700000000; tv_nsec = n }

abbrev turns : ℕ → Turn
turns i = record { signal = false; now = tick 1; offer = pos 64 }

abbrev message : List ℕ
message = be_bytes 1700000000000000001 ++ ramp 0 2

abbrev last_sender : Sender
last_sender = record {
  running = false;
  successful_sends = 1;
  retry_count = 0;
  stats = record initial_stats {
    messages_sent = 1;
    bytes_sent = 10;
    start_time = 1700000000000000000;
    last_stats_time = 1700000000000000000;
  };
  buffer = message;
  offered = (message, pos 64) ∷ [];
}

abbrev sent : Finish
sent =
    run_publisher 2000002 Endian.little (some (replicate 10 0)) 10 1 (tick 0) (tick 9) turns true
      initial_stats

abbrev last_lines : List Line
last_lines =
    Line.final_title
    ∷ Line.total_messages 1
    ∷ Line.total_bytes 10
    ∷ Line.errors 0
    ∷ Line.back_pressure 0
    ∷ Line.elapsed 9 0
    ∷ Line.throughput (per_second 1 9)
    ∷ Line.bandwidth (mebibytes_per_second 10 9)
    ∷ []

one_sent : sent ≡ Finish.returns error_success (some (Stop.target, last_sender, last_lines))
unfolding run_publisher send_loop round prefill create_binary_message publish_message print_stats
    get_timestamp_ns
one_sent = refl

abbrev polls : ℕ → Poll
polls zero = record { signal = false; fragments = (message, tick 5) ∷ []; result = pos 1 }
polls (suc i) = record { signal = false; fragments = []; result = pos 0 }

polls-few : (n : ℕ) → length (polls n).fragments ≤ 10
polls-few zero = omega arith
polls-few (suc n) = omega arith

nothing_more : (i n : ℕ) → handed_over polls (suc i) n ≡ []
nothing_more i zero = refl
nothing_more i (suc n) = nothing_more (suc i) n

polls-IsOrderly : IsOrderly last_sender.offered polls
polls-IsOrderly zero = (message ∷ [], refl)
polls-IsOrderly (suc n) = ([], rw (nothing_more 0 n) refl)

polls-quiet : (n : ℕ) → (polls n).signal ≡ false
polls-quiet zero = refl
polls-quiet (suc n) = refl

polls_sound : (n : ℕ) → ltb_ℤ (polls n).result (pos 0) ≡ false
polls_sound zero = refl
polls_sound (suc n) = refl

-- What a finish says of the offers and of the end of the loop.
abbrev offered_of : Finish → Offers
offered_of (Finish.returns code (some (why, sender, lines))) = sender.offered
offered_of _ = []

abbrev why_of : Finish → Stop
why_of (Finish.returns code (some (why, sender, lines))) = why
why_of _ = Stop.tested

carried :
    (why : Stop) (sender : Sender) (lines : List Line)
    → sent ≡ Finish.returns error_success (some (why, sender, lines))
    → IsOrderly sender.offered polls × (count is_accepted sender.offered * 10 < 2 ^ 64)
carried why sender lines e =
    let same : last_sender.offered ≡ sender.offered = ap offered_of (sym one_sent ∙ e) in
    rw (sym same) ((polls-IsOrderly, omega arith))

sent-Carries : Carries 10 polls sent
sent-Carries = record { orderly = carried }

all_sent :
    (why : Stop) (sender : Sender) (lines : List Line)
    → sent ≡ Finish.returns error_success (some (why, sender, lines))
    → why ≡ Stop.target
all_sent why sender lines e = ap why_of (sym e ∙ one_sent)

runs-Agree_example :
    Agree 10 polls sent
      (run_subscriber 2 Endian.big true 1 (tick 0) (tick 9) polls true initial_subscriber_stats)
runs-Agree_example =
    runs-Agree 2000002 Endian.little (replicate 10 0) 10 1 (tick 0) (tick 9) turns refl
      (omega arith) (omega arith) (omega arith) 1 Endian.big 10 (tick 0) (tick 9) polls
      (omega arith) (omega arith) polls-few (Enough.arrives (omega arith)) sent-Carries

runs-Complete_example :
    Complete 10 1 polls sent
      (run_subscriber 2 Endian.big true 1 (tick 0) (tick 9) polls true initial_subscriber_stats)
runs-Complete_example =
    runs-Complete 2000002 Endian.little (replicate 10 0) 10 1 (tick 0) (tick 9) turns refl
      (omega arith) (omega arith) (omega arith) 1 Endian.big 10 (tick 0) (tick 9) polls
      (omega arith) (omega arith) polls-few (Enough.arrives (omega arith)) sent-Carries all_sent
      polls-quiet polls_sound
