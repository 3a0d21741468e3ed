-- ===== src/Subscriber/Latency.antt =====
-- One message on its way from the publisher's buffer to the subscriber's counters.
use aeron_fast.Base.{
  ℕ, ◌-◌, ◌≤◌, ◌<◌, ◌^◌, ◌≡◌, refl, false, some, List, arith, length, ltb, leb, if◌then◌else◌,
  sub64, sym,
}
use aeron_fast.Clock.{Timespec, get_timestamp_ns, get_timestamp_ns_small}
use aeron_fast.Message.Bytes.{Endian}
use aeron_fast.Message.{create_binary_message, parse_binary_message_timestamp}
use aeron_fast.Message.Layout.{parse-create_binary_message}
use aeron_fast.Subscriber.{Globals, account, check_target, process_message_fragment}

-- The latency that is counted for a message sent at `sent` and handled at `received`, in
-- nanoseconds: the time between them, or 2 ^ 64 less it when the clock that is read last is behind.
abbrev pub counted_latency : ℕ → ℕ → ℕ
counted_latency sent received =
    if leb sent received then received - sent else 2 ^ 64 - (sent - received)

pub sub64-counted_latency :
    (sent received : ℕ)
    → sent < 2 ^ 64
    → received < 2 ^ 64
    → sub64 received sent ≡ counted_latency sent received
sub64-counted_latency sent received p q = ground arith

process-parse :
    (host : Endian) (message : List ℕ) (sent : ℕ) (now : Timespec) (g : Globals)
    → ltb (length message) 8 ≡ false
    → parse_binary_message_timestamp host message ≡ some sent
    → process_message_fragment host message now g
      ≡ some (
          check_target (get_timestamp_ns now) (record g {
            stats = account (sub64 (get_timestamp_ns now) sent) (length message) g.stats;
          }))
unfolding process_message_fragment
process-parse host message sent now g p e = rw (p, e) refl

-- A message that `create_binary_message` stamps, on a machine of either byte order, is counted by
-- `process_message_fragment` on a machine of either byte order with its whole size and with the
-- time from the stamp to the reading of the clock. If the reader's clock is behind the stamp, the
-- latency is not 0 but 2 ^ 64 less the difference.
pub process_message_fragment-create :
    (writer reader : Endian) (buffer : List ℕ) (size sent : ℕ) (now : Timespec) (g : Globals)
    → 8 ≤ size
    → length buffer ≡ size
    → sent < 2 ^ 64
    → (message : List ℕ) × (create_binary_message writer buffer size sent ≡ some message)
      × (process_message_fragment reader message now g
          ≡ some (
              check_target (get_timestamp_ns now) (record g {
                stats = account (counted_latency sent (get_timestamp_ns now)) size g.stats;
              })))
process_message_fragment-create writer reader buffer size sent now g enough whole small =
    let (message, created, same, parsed) =
      parse-create_binary_message writer reader buffer size sent enough (omega arith) small in
    let long : ltb (length message) 8 ≡ false = ground arith in
    let full : length message ≡ size = omega arith in
    (
      message,
      created,
      rw
          (
            sym full,
            sym (
                sub64-counted_latency sent (get_timestamp_ns now) small
                  (get_timestamp_ns_small now)),
          )
          (process-parse reader message sent now g long parsed),
    )
