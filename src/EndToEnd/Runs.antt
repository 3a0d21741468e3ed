-- ===== src/EndToEnd/Runs.antt =====
-- A whole run of `run_publisher` and one of `run_subscriber`, with the Aeron client in between.
use aeron_fast.Base.{ℕ, suc, ◌+◌, ◌*◌, ◌^◌, ◌≤◌, ◌<◌, ◌≡◌, List, [], some, true, false, length}
use aeron_fast.Base.Int.{pos, ltb_ℤ}
use aeron_fast.Common.{error_success}
use aeron_fast.Clock.{Timespec}
use aeron_fast.Message.Bytes.{Endian}
use aeron_fast.Publisher.{Line, initial_stats}
use aeron_fast.Publisher.Accounts.{is_accepted, count}
use aeron_fast.Publisher.Loop.{Turn, Sender, max_retries, run_publisher}
use aeron_fast.Publisher.Loop.{Stop as SendStop, Finish as SendFinish}
use aeron_fast.Publisher.Loop.Result.{Result as Sending, run_publisher-Result}
use aeron_fast.Subscriber.{Globals, initial_subscriber_stats}
use aeron_fast.Subscriber.Report.{print_final_stats}
use aeron_fast.Subscriber.Loop.{Poll, Stop, Finish, run_subscriber}
use aeron_fast.Subscriber.Loop.Ends.{Enough}
use aeron_fast.Subscriber.Loop.Result.{Result as Receiving, run_subscriber-Result}
use aeron_fast.Stats.Defs.{PerformanceStats}
use aeron_fast.Stats.History.{Tracks}
use aeron_fast.EndToEnd.Transits.{polled_transits}
use aeron_fast.EndToEnd.{IsOrderly}
use aeron_fast.EndToEnd.Counts.{counts_le, counts_eq, tracks_transits}

-- Both runs return, with reports of counters that agree so far.
pub record Agree (size : ℕ) (polls : ℕ → Poll) (sending : SendFinish) (receiving : Finish)
    : Type 0 where
  pub why : SendStop
  pub sender : Sender
  pub lines : List Line
  pub sent : sending ≡ SendFinish.returns error_success (some (why, sender, lines))
  pub why_received : Stop
  pub receiver : Globals
  pub released : Globals
  pub received :
      receiving
      ≡ Finish.returns error_success
          (some (why_received, receiver, print_final_stats receiver.stats, released))
  pub messages : receiver.stats.messages_received ≤ sender.stats.messages_sent
  pub bytes : receiver.stats.bytes_received ≤ sender.stats.bytes_sent
  pub whole : receiver.stats.bytes_received ≡ receiver.stats.messages_received * size
  pub polled : ℕ
  pub latency_stats : PerformanceStats
  pub present : receiver.stats.latency_stats ≡ some latency_stats
  pub latencies : Tracks (polled_transits polls 0 polled) latency_stats

-- They agree, and all of a number of messages has been sent and received.
pub record Complete (size target : ℕ) (polls : ℕ → Poll) (sending : SendFinish) (receiving : Finish)
    : Type 0 where
  pub agree : Agree size polls sending receiving
  pub all_sent : agree.sender.stats.messages_sent ≡ target
  pub all_received : agree.receiver.stats.messages_received ≡ target
  pub bytes_sent : agree.sender.stats.bytes_sent ≡ target * size
  pub bytes_received : agree.receiver.stats.bytes_received ≡ target * size

-- What the Aeron client makes of the offers of a run: it hands over the beginning of what it
-- accepted, in order, and has accepted fewer than 2 ^ 64 bytes.
pub record Carries (size : ℕ) (polls : ℕ → Poll) (sending : SendFinish) : Type 0 where
  pub orderly :
      (why : SendStop) (sender : Sender) (lines : List Line)
      → sending ≡ SendFinish.returns error_success (some (why, sender, lines))
      → IsOrderly sender.offered polls × (count is_accepted sender.offered * size < 2 ^ 64)

-- What two results have in common.
abbrev agreement :
    (size target limit : ℕ) (turns : ℕ → Turn) (sending : SendFinish) (reader : Endian)
    (polls : ℕ → Poll) (receiving : Finish)
    → 8 ≤ size
    → (p : Sending size target turns sending) (s : Receiving reader polls target limit receiving)
    → IsOrderly p.last.offered polls
    → count is_accepted p.last.offered * size < 2 ^ 64
    → Agree size polls sending receiving
agreement size target limit turns sending reader polls receiving enough p s orderly fits =
    let (messages, bytes, full) =
      counts_le size target limit turns sending reader polls receiving enough p s orderly fits in
    record {
      why = p.stop;
      sender = p.last;
      lines = p.lines;
      sent = p.returned;
      why_received = s.stop;
      receiver = s.last;
      released = s.released;
      received = s.returned;
      messages = messages;
      bytes = bytes;
      whole = full;
      polled = s.k;
      latency_stats = s.summary.latency_stats;
      present = s.summary.present;
      latencies =
          tracks_transits size target limit turns sending reader polls receiving enough p s orderly
            fits;
    }

module _ (fuel : ℕ) (writer : Endian) (memory : List ℕ) (size target : ℕ) (start end : Timespec)
    (turns : ℕ → Turn) (whole : length memory ≡ size) (enough : 8 ≤ size) (some_target : 1 ≤ target)
    (fuel_enough : (target + 1) * suc max_retries ≤ fuel) (fuel' : ℕ) (reader : Endian) (limit : ℕ)
    (start' end' : Timespec) (polls : ℕ → Poll) (room : target + limit ≤ 2 ^ 64)
    (below : target < 2 ^ 64) (few : (n : ℕ) → length (polls n).fragments ≤ limit)
    (arrive : Enough reader polls target fuel' 0 []) where
  abbrev pub sending : SendFinish
  sending = run_publisher fuel writer (some memory) size target start end turns true initial_stats

  abbrev pub receiving : Finish
  receiving =
      run_subscriber (suc fuel') reader true target start' end' polls true initial_subscriber_stats

  -- Whenever and for whatever reason the two loops end, both runs return, and the subscriber has
  -- counted no more messages than the publisher counted as sent, no more bytes, and each message
  -- with its whole size; its latency statistics are those of the times from the stamps in the
  -- messages to the readings of its own clock. Of the publisher this needs a message size of at
  -- least 8, a buffer of that size, from 1 up to below 2 ^ 64 messages to send and (messages + 1) *
  -- 1000001 rounds of fuel; of the subscriber a target, with the limit of a poll at most 2 ^ 64,
  -- that arrives, or a signal; and of the Aeron client that it has accepted fewer than 2 ^ 64 bytes
  -- and hands over the beginning of what it accepted, in order.
  pub runs-Agree : Carries size polls sending → Agree size polls sending receiving
  runs-Agree carries =
      let p =
        run_publisher-Result fuel writer memory size target start end turns whole enough below
          some_target fuel_enough in
      let s =
        run_subscriber-Result fuel' reader target limit start' end' polls some_target room few
          arrive in
      let (orderly, fits) = carries.orderly p.stop p.last p.lines p.returned in
      agreement size target limit turns sending reader polls receiving enough p s orderly fits

  -- Under the same conditions, if the publisher has sent all its messages, and the subscriber,
  -- which waits for as many, meets neither a signal nor a failed poll, both runs return, and both
  -- have counted just these messages, and their bytes.
  pub runs-Complete :
      Carries size polls sending
      → ((why : SendStop) (sender : Sender) (lines : List Line)
          → sending ≡ SendFinish.returns error_success (some (why, sender, lines))
          → why ≡ SendStop.target)
      → ((n : ℕ) → (polls n).signal ≡ false)
      → ((n : ℕ) → ltb_ℤ (polls n).result (pos 0) ≡ false)
      → Complete size target polls sending receiving
  runs-Complete carries all quiet sound =
      let p =
        run_publisher-Result fuel writer memory size target start end turns whole enough below
          some_target fuel_enough in
      let s =
        run_subscriber-Result fuel' reader target limit start' end' polls some_target room few
          arrive in
      let (orderly, fits) = carries.orderly p.stop p.last p.lines p.returned in
      let (received, sent, bytes_in, bytes_out) =
        counts_eq size target limit turns sending reader polls receiving enough p s orderly fits
          (all p.stop p.last p.lines p.returned) quiet sound in
      record {
        agree =
            agreement size target limit turns sending reader polls receiving enough p s orderly
              fits;
        all_sent = sent;
        all_received = received;
        bytes_sent = bytes_out;
        bytes_received = bytes_in;
      }
