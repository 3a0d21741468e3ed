-- ===== src/EndToEnd/Counts.antt =====
-- What the subscriber counts of a run of the publisher.
use aeron_fast.Base.{ℕ, ◌*◌, ◌^◌, ◌≤◌, ◌<◌, ◌≡◌, sym, ap, ◌∙◌, arith, length, length-append, false}
use native.Mathlib.Nat.{mul-le-mul_right, le-mul_of_pos_right}
use aeron_fast.Message.Bytes.{Endian}
use aeron_fast.Publisher.Accounts.{is_accepted, count}
use aeron_fast.Subscriber.Loop.Ends.{arrived, Why}
use aeron_fast.Base.Int.{pos, ltb_ℤ}
use aeron_fast.EndToEnd.{accepted_messages, handed_over, IsOrderly}
use aeron_fast.Stats.History.{Tracks}
use aeron_fast.EndToEnd.Transits.{polled_transits, arrived-transits}
use aeron_fast.EndToEnd.Lengths.{
  AllStamped, AllStamped-append_left, accepted_messages-AllStamped, length-accepted_messages,
  arrived_all,
}
use aeron_fast.Publisher.Loop.Result.{Result as Sending}
use aeron_fast.Subscriber.Loop.Result.{Result as Receiving}
use aeron_fast.Publisher.Loop.{Turn, Stop as SendStop, Finish as SendFinish}
use aeron_fast.Subscriber.Loop.{Poll, Finish, Stop}

module _ (size target limit : ℕ) (turns : ℕ → Turn) (sent : SendFinish) (host : Endian)
    (polls : ℕ → Poll) (finish : Finish) (enough : 8 ≤ size) (p : Sending size target turns sent)
    (s : Receiving host polls target limit finish) (orderly : IsOrderly p.last.offered polls)
    (fits : count is_accepted p.last.offered * size < 2 ^ 64) where
  -- How many messages were handed over up to the end of the subscriber's loop.
  abbrev received : ℕ
  received = length (handed_over polls 0 s.k)

  sizes : AllStamped size (accepted_messages p.last.offered)
  sizes = accepted_messages-AllStamped size p.last.offered p.messages

  received_sizes : AllStamped size (handed_over polls 0 s.k)
  received_sizes =
      let (rest, e) = orderly s.k in
      AllStamped-append_left size (handed_over polls 0 s.k) rest (rw e sizes)

  received_le : received ≤ count is_accepted p.last.offered
  received_le =
      let (rest, e) = orderly s.k in
      omega (
        arith,
        length-append (handed_over polls 0 s.k) rest,
        ap length e,
        length-accepted_messages p.last.offered,
      )

  positive : 0 < size
  positive = omega (arith, enough)

  fewer : count is_accepted p.last.offered < 2 ^ 64
  fewer = omega (arith, fits, le-mul_of_pos_right (count is_accepted p.last.offered) positive)

  received_fits : received * size < 2 ^ 64
  received_fits = omega (arith, fits, mul-le-mul_right size received_le)

  counted_messages : s.last.stats.messages_received ≡ received
  counted_messages =
      let (same, bytes) = arrived_all host size polls 0 s.k enough received_sizes in
      omega (arith, s.summary.messages, same, received_le, fewer)

  counted_bytes : s.last.stats.bytes_received ≡ received * size
  counted_bytes =
      let (same, bytes) = arrived_all host size polls 0 s.k enough received_sizes in
      omega (arith, s.summary.bytes, bytes, received_fits)

  -- Whenever and for whatever reason the two runs end, the subscriber has counted no more messages
  -- than the publisher counted as sent, each with its whole size, so also no more bytes.
  pub counts_le :
      (s.last.stats.messages_received ≤ p.last.stats.messages_sent)
      × (s.last.stats.bytes_received ≤ p.last.stats.bytes_sent)
      × (s.last.stats.bytes_received ≡ s.last.stats.messages_received * size)
  counts_le = (
    omega (arith, counted_messages, received_le, p.books.sent, fewer),
    omega (arith, counted_bytes, p.books.bytes, fits, mul-le-mul_right size received_le),
    counted_bytes ∙ ap (λ (c : ℕ). c * size) (sym counted_messages),
  )

  -- The latency statistics are those of the times that the messages took.
  pub tracks_transits : Tracks (polled_transits polls 0 s.k) s.summary.latency_stats
  tracks_transits =
      rw (arrived-transits host size polls 0 s.k enough received_sizes) at (s.summary.tracks)

  -- With no signal and no failed poll the subscriber stops because the target has arrived.
  all_reached :
      (stop : Stop)
      → Why polls target (length (arrived host polls 0 s.k)) s.k stop
      → ((n : ℕ) → (polls n).signal ≡ false)
      → ((n : ℕ) → ltb_ℤ (polls n).result (pos 0) ≡ false)
      → target ≤ length (arrived host polls 0 s.k)
  all_reached _ (Why.reached q) quiet sound = q
  all_reached _ (Why.signalled q) quiet sound = absurd (ground (arith, q, quiet s.k))
  all_reached _ (Why.broken last e same q) quiet sound =
      absurd (ground (arith, rw (sym same) at q, sound last))

  -- If the publisher has sent all its messages, and the subscriber, which waits for as many, meets
  -- neither a signal nor an error, both have counted just these messages and their bytes.
  pub counts_eq :
      p.stop ≡ SendStop.target
      → ((n : ℕ) → (polls n).signal ≡ false)
      → ((n : ℕ) → ltb_ℤ (polls n).result (pos 0) ≡ false)
      → (s.last.stats.messages_received ≡ target)
        × (p.last.stats.messages_sent ≡ target)
        × (s.last.stats.bytes_received ≡ target * size)
        × (p.last.stats.bytes_sent ≡ target * size)
  counts_eq all quiet sound =
      let reached = all_reached s.stop s.why quiet sound in
      let sent_all : p.last.successful_sends ≡ target = rw all at p.reason in
      let (same, bytes) = arrived_all host size polls 0 s.k enough received_sizes in
      let exactly : received ≡ target =
        omega (arith, received_le, p.sent, sent_all, same, reached) in
      (
        counted_messages ∙ exactly,
        omega (arith, p.books.sent, p.sent, sent_all, fewer),
        counted_bytes ∙ ap (λ (c : ℕ). c * size) exactly,
        omega (arith, p.books.bytes, fits) ∙ ap (λ (c : ℕ). c * size) (sym p.sent ∙ sent_all),
      )
