-- ===== src/Publisher/Loop/Result.antt =====
-- What `run_publisher` returns.
use aeron_fast.Base.Word.{u8}
use aeron_fast.Base.{
  ℕ, zero, suc, ◌+◌, ◌-◌, ◌*◌, ◌≤◌, ◌<◌, ◌^◌, ◌≡◌, refl, List, some, arith, length, true, false,
  ◌∙◌, ap, ◌%◌,
}
use aeron_fast.Common.{error_success}
use aeron_fast.Clock.{Timespec, get_timestamp_ns}
use aeron_fast.Message.Bytes.{Endian}
use aeron_fast.Message.Layout.{store_total}
use aeron_fast.Publisher.{Line, initial_stats, print_stats}
use aeron_fast.Publisher.Accounts.{Books, is_accepted, count}
use aeron_fast.Publisher.Loop.{
  Turn, Stop, Sender, Run, Finish, max_retries, prefill, send_loop, sender, after_loop,
  run_publisher,
}
use aeron_fast.Publisher.Loop.Trace.{Inv, AllMessages}
use aeron_fast.Publisher.Loop.Ends.{Explains, send_loop-Explains}

-- The first loop stays inside the buffer.
pub prefill_total :
    (left i : ℕ) (buffer : List ℕ)
    → i + left ≤ length buffer
    → (buffer' : List ℕ) × (prefill left i buffer ≡ some buffer') × (length buffer' ≡ length buffer)
unfolding prefill
prefill_total zero i buffer h = (buffer, refl, refl)
prefill_total (suc left) i buffer h =
    let (b, e, same) = store_total buffer i (u8 (i % 256)) (omega arith) in
    let (b', e', same') = prefill_total left (suc i) b (omega arith) in
    (b', rw (e, prefill) e', same' ∙ same)

-- What `run_publisher` gives back: the end of the loop `s` for a reason `stop`, with the final
-- report.
pub record Result (size target : ℕ) (turns : ℕ → Turn) (finish : Finish) : Type 0 where
  pub stop : Stop
  pub last : Sender
  pub lines : List Line
  pub returned : finish ≡ Finish.returns error_success (some (stop, last, lines))
  pub books : Books size last.offered last.stats
  pub sent : last.successful_sends ≡ count is_accepted last.offered
  pub messages : AllMessages size last.offered
  pub reason : Explains turns target max_retries stop last
  pub stopped : last.running ≡ false

Explains-stopped :
    (turns : ℕ → Turn) (target limit : ℕ) (stop : Stop) (s : Sender)
    → Explains turns target limit stop s
    → Explains turns target limit stop (record s { running = false })
Explains-stopped turns target limit Stop.tested s h = h
Explains-stopped turns target limit Stop.target s h = h
Explains-stopped turns target limit Stop.retries s h = h
Explains-stopped turns target limit (Stop.failed code) s h = h

pub initial-Inv :
    (size now : ℕ) (buffer : List ℕ)
    → length buffer ≡ size
    → Inv size (sender true now initial_stats buffer)
initial-Inv size now buffer e = record { room = e; books = omega arith; sent = refl; messages = tt }

module _ (fuel : ℕ) (host : Endian) (memory : List ℕ) (size target : ℕ) (start end : Timespec)
    (turns : ℕ → Turn) (e : length memory ≡ size) (enough : 8 ≤ size) (fits : target < 2 ^ 64) where
  abbrev pub finish : Finish
  finish = run_publisher fuel host (some memory) size target start end turns true initial_stats

  abbrev pub looped : List ℕ → Run
  looped buffer =
      send_loop fuel host size target max_retries turns 0
        (sender true (get_timestamp_ns start) initial_stats buffer)

  -- After the first loop, the run is the sending loop and the final report.
  pub enters :
      (buffer : List ℕ)
      → prefill (size - 8) 8 memory ≡ some buffer
      → finish ≡ after_loop end (looped buffer)
  unfolding run_publisher
  enters buffer filled = rw (filled, run_publisher)

  finished :
      (stop : Stop) (s : Sender)
      → finish ≡ after_loop end (Run.ended stop s)
      → Inv size s
      → Explains turns target max_retries stop s
      → Result size target turns finish
  unfolding print_stats
  finished stop s returned inv why = record {
    stop = stop;
    last = record s { running = false };
    lines = (print_stats true (get_timestamp_ns end) s.stats).1;
    returned = returned;
    books = inv.books;
    sent = inv.sent;
    messages = inv.messages;
    reason = Explains-stopped turns target max_retries stop s why;
    stopped = refl;
  }

  -- Whatever the offers return, the clock reads and the signals do, `run_publisher` with a message
  -- size of at least 8, a buffer of that size and from 1 up to below 2 ^ 64 messages to send
  -- returns, after at most 1000001 rounds for each message to send and 1000001 more. It stores
  -- nothing outside the buffer, every message that it offered is a timestamp with the fill pattern,
  -- the counters are those of the offers modulo 2 ^ 64, and it stopped because all was sent, a
  -- signal came, more than a million offers in a row met back pressure, or the last offer had
  -- another result.
  pub run_publisher-Result :
      1 ≤ target → (target + 1) * suc max_retries ≤ fuel → Result size target turns finish
  run_publisher-Result some_target fuel_enough =
      let (buffer, filled, same) = prefill_total (size - 8) 8 memory (omega arith) in
      let (stop, s, ends, inv, why) =
        send_loop-Explains host size target max_retries turns enough fits (omega arith) fuel 0
          (sender true (get_timestamp_ns start) initial_stats buffer)
          (initial-Inv size (get_timestamp_ns start) buffer (same ∙ e)) refl some_target refl
          (omega arith) (omega arith) in
      finished stop s (enters buffer filled ∙ ap (after_loop end) ends) inv why
