-- ===== src/Publisher.antt =====
-- c-performance/src/binary_publisher.c: the counters, one offer and its handling, and the reports.
-- Publisher/Loop has the sending loop, Publisher/Threads the thread of the reports, Publisher/Main
-- the set-up and the release of what the program opens.
pub mod Accounts
pub mod Offers
pub mod Loop
pub mod Threads
pub mod Main
mod Tests
use aeron_fast.Base.{
  ℕ, ◌+◌, ◌/◌, ◌^◌, Bool, true, false, ◌||◌, List, [], ◌∷◌, ◌++◌, ltb, if◌then◌else◌, add64, sub64,
}
use aeron_fast.Base.Int.{ℤ, pos, negsuc, ltb_ℤ, eqb_ℤ}
use aeron_fast.Rate.{per_second, mebibytes_per_second}

-- `publisher_stats_t`
pub record PublisherStats : Type 0 where
  pub messages_sent : ℕ
  pub bytes_sent : ℕ
  pub send_errors : ℕ
  pub back_pressure_events : ℕ
  pub start_time : ℕ
  pub last_stats_time : ℕ
  pub last_messages_sent : ℕ
  pub last_bytes_sent : ℕ

-- `g_stats` at the start of the program.
abbrev pub initial_stats : PublisherStats
initial_stats = record {
  messages_sent = 0;
  bytes_sent = 0;
  send_errors = 0;
  back_pressure_events = 0;
  start_time = 0;
  last_stats_time = 0;
  last_messages_sent = 0;
  last_bytes_sent = 0;
}

-- The results of `aeron_publication_offer` that aeronc.h names.
abbrev pub not_connected : ℤ
not_connected = negsuc 0

abbrev pub back_pressured : ℤ
back_pressured = negsuc 1

abbrev pub admin_action : ℤ
admin_action = negsuc 2

abbrev pub closed : ℤ
closed = negsuc 3

abbrev pub max_position_exceeded : ℤ
max_position_exceeded = negsuc 4

abbrev pub publication_error : ℤ
publication_error = negsuc 5

-- What a report prints, a constructor for each `printf`.
pub data Line : Type 0 where
  final_title : Line
  total_messages : ℕ → Line
  total_bytes : ℕ → Line
  errors : ℕ → Line
  back_pressure : ℕ → Line
  elapsed : (nanoseconds seconds : ℕ) → Line
  throughput : ℕ → Line
  bandwidth : ℕ → Line
  progress : (messages bytes message_rate mebibyte_rate : ℕ) → Line

-- `print_stats(true)` at the time `current_time`.
pub final_lines : ℕ → PublisherStats → List Line
final_lines current_time s =
    let total_duration = sub64 current_time s.start_time in
    Line.final_title
    ∷ Line.total_messages s.messages_sent
    ∷ Line.total_bytes s.bytes_sent
    ∷ Line.errors s.send_errors
    ∷ Line.back_pressure s.back_pressure_events
    ∷ Line.elapsed total_duration (total_duration / 10 ^ 9)
    ∷ (if ltb 0 total_duration
        then Line.throughput (per_second s.messages_sent total_duration)
          ∷ Line.bandwidth (mebibytes_per_second s.bytes_sent total_duration)
          ∷ []
        else [])

-- `print_stats(false)` at the time `current_time`.
pub interval_lines : ℕ → PublisherStats → List Line
interval_lines current_time s =
    let interval_time = sub64 current_time s.last_stats_time in
    let interval_messages = sub64 s.messages_sent s.last_messages_sent in
    let interval_bytes = sub64 s.bytes_sent s.last_bytes_sent in
    if ltb 0 interval_time
    then Line.progress s.messages_sent s.bytes_sent (per_second interval_messages interval_time)
        (mebibytes_per_second interval_bytes interval_time)
      ∷ []
    else []

-- The whole of `print_stats`, which runs under the mutex.
unfoldable pub print_stats : Bool → ℕ → PublisherStats → PublisherStats × List Line
unfolding final_lines interval_lines
print_stats true current_time s = (s, final_lines current_time s)
print_stats false current_time s = (
  record s {
    last_stats_time = current_time;
    last_messages_sent = s.messages_sent;
    last_bytes_sent = s.bytes_sent;
  },
  interval_lines current_time s,
)

-- The pause of a microsecond has no effect on the state.
pub offer_failed_handler : PublisherStats → PublisherStats
offer_failed_handler s = record s { back_pressure_events = add64 s.back_pressure_events 1 }

-- `result` is what `aeron_publication_offer` returned for the message.
unfoldable pub publish_message : ℤ → ℕ → PublisherStats → ℤ × PublisherStats
unfolding offer_failed_handler
publish_message result message_size s =
    if ltb_ℤ (pos 0) result
    then (
      result,
      record s {
        messages_sent = add64 s.messages_sent 1;
        bytes_sent = add64 s.bytes_sent message_size;
      },
    )
    else if eqb_ℤ result back_pressured
    then (negsuc 0, offer_failed_handler s)
    else if eqb_ℤ result not_connected || eqb_ℤ result admin_action || eqb_ℤ result closed
    then (negsuc 1, record s { send_errors = add64 s.send_errors 1 })
    else (result, s)
