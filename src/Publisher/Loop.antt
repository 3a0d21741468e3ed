-- ===== src/Publisher/Loop.antt =====
-- `run_publisher`: the buffer, the sending loop and the final report.
pub mod Trace
pub mod Ends
pub mod Result
pub mod Serious
use aeron_fast.Base.{
  ℕ, zero, suc, ◌-◌, ◌%◌, Bool, true, false, not, ◌&&◌, Option, none, some, List, [], ◌∷◌, ltb, leb,
  if◌then◌else◌, add64, u8,
}
use aeron_fast.Base.Int.{ℤ, pos, negsuc, ltb_ℤ, eqb_ℤ}
use aeron_fast.Common.{error_success, error_memory_allocation}
use aeron_fast.Clock.{Timespec, get_timestamp_ns}
use aeron_fast.Message.Bytes.{Endian}
use aeron_fast.Message.{store, create_binary_message}
use aeron_fast.Publisher.{PublisherStats, Line, publish_message, print_stats}

-- What the environment does in one round of the loop: whether a signal has come by the test of
-- `running`, the reading of the clock, and the result of the offer.
pub record Turn : Type 0 where
  pub signal : Bool
  pub now : Timespec
  pub offer : ℤ

-- Why the loop ended: `running` was false or enough had been sent, at its test; enough, after a
-- success; too many retries; or the result that it takes for a serious error.
pub data Stop : Type 0 where
  tested target retries : Stop
  failed : ℤ → Stop

pub record Sender : Type 0 where
  pub running : Bool
  pub successful_sends : ℕ
  pub retry_count : ℕ
  pub stats : PublisherStats
  pub buffer : List ℕ
  -- The messages handed to `aeron_publication_offer`, with its results, the last one first.
  pub offered : List (List ℕ × ℤ)

-- `fault` is a store outside the buffer.
pub data Run : Type 0 where
  ended : Stop → Sender → Run
  fault : Run
  out_of_fuel : Run

-- The `for` loop that fills the buffer before the first message, at index `i`.
unfoldable pub prefill : ℕ → ℕ → List ℕ → Option (List ℕ)
prefill zero i buffer = some buffer
prefill (suc left) i buffer = elim (store buffer i (u8 (i % 256))) [
  | none ↦ none
  | some buffer' ↦ prefill left (suc i) buffer'
]

-- `MAX_RETRIES`
abbrev pub max_retries : ℕ
max_retries = 1000000

-- One round after the test of the loop: the next state, or the end.
unfoldable pub round : Endian → ℕ → ℕ → ℕ → Turn → Sender → Option (Option Stop × Sender)
round host message_size messages_to_send retry_limit turn s =
    elim (create_binary_message host s.buffer message_size (get_timestamp_ns turn.now)) [
      | none ↦ none
      | some message ↦
          (let (result, stats) = publish_message turn.offer message_size s.stats in
            let s' = record s {
              stats = stats;
              buffer = message;
              offered = (message, turn.offer) ∷ s.offered;
            } in
            if ltb_ℤ (pos 0) result
            then (let sent = add64 s.successful_sends 1 in
                some (
                  if leb messages_to_send sent then some Stop.target else none,
                  record s' { successful_sends = sent; retry_count = 0 },
                ))
            else if eqb_ℤ result (negsuc 0)
            then (let retried = add64 s.retry_count 1 in
                some (
                  if ltb retry_limit retried then some Stop.retries else none,
                  record s' { retry_count = retried },
                ))
            else some (some (Stop.failed result), s'))
    ]

-- The `while` loop from round `i` on.
unfoldable pub send_loop : ℕ → Endian → ℕ → ℕ → ℕ → (ℕ → Turn) → ℕ → Sender → Run
send_loop zero host message_size messages_to_send retry_limit turns i s = Run.out_of_fuel
send_loop (suc fuel) host message_size messages_to_send retry_limit turns i s =
    let turn = turns i in
    let s₀ = record s { running = s.running && not turn.signal } in
    if not (s₀.running && ltb s₀.successful_sends messages_to_send)
    then Run.ended Stop.tested s₀
    else elim (round host message_size messages_to_send retry_limit turn s₀) [
      | none ↦ Run.fault
      | some (some stop, s') ↦ Run.ended stop s'
      | some (none, s') ↦
          send_loop fuel host message_size messages_to_send retry_limit turns (suc i) s'
    ]

-- The return of `run_publisher`: its code, the last state, the reason and the final report.
pub data Finish : Type 0 where
  returns : ℤ → Option (Stop × Sender × List Line) → Finish
  undefined : Finish
  unfinished : Finish

abbrev pub after_loop : Timespec → Run → Finish
after_loop end (Run.ended stop s) =
    let (stats, lines) = print_stats true (get_timestamp_ns end) s.stats in
    Finish.returns error_success (some (stop, record s { running = false; stats = stats }, lines))
after_loop end Run.fault = Finish.undefined
after_loop end Run.out_of_fuel = Finish.unfinished

-- The state at the head of the loop.
abbrev pub sender : Bool → ℕ → PublisherStats → List ℕ → Sender
sender running now stats buffer = record {
  running = running;
  successful_sends = 0;
  retry_count = 0;
  stats = record stats { start_time = now; last_stats_time = now };
  buffer = buffer;
  offered = [];
}

-- `memory` is what `malloc` returned, with whatever it holds. The thread of the reports works on
-- fields that this function does not read; `Publisher.Threads` has both together.
unfoldable pub run_publisher :
    ℕ
    → Endian
    → Option (List ℕ)
    → ℕ
    → ℕ
    → (start end : Timespec) (turns : ℕ → Turn) (running : Bool) (stats : PublisherStats) → Finish
run_publisher fuel host none message_size messages_to_send start end turns running stats =
    Finish.returns error_memory_allocation none
run_publisher fuel host (some memory) message_size messages_to_send start end turns running stats =
    elim (prefill (message_size - 8) 8 memory) [
      | none ↦ Finish.undefined
      | some buffer ↦ after_loop end (
          send_loop fuel host message_size messages_to_send max_retries turns 0
            (sender running (get_timestamp_ns start) stats buffer))
    ]
