-- ===== src/Program.antt =====
-- What the two `main` functions have in common: c-performance/src/binary_publisher.c and
-- binary_subscriber.c differ in the option parser, in what they add to the Aeron client (a
-- publication or a subscription, here a stream), and in what they run.
pub mod Wait
pub mod Closing
pub mod Exits
pub mod Parsed
pub mod Adding
pub mod Client
pub mod Signals
pub mod Samples
pub mod Requests
mod Tests
use aeron_fast.Base.{
  ℕ, zero, suc, ◌+◌, Bool, true, false, not, Option, none, some, List, [], ◌∷◌, ◌++◌, ltb,
  if◌then◌else◌,
}
use aeron_fast.Base.Int.{ℤ, pos, ltb_ℤ, eqb_ℤ}
use aeron_fast.Common.{Config, error_success, error_timeout}
use aeron_fast.Config.Settings.Channel.{is_ipc}

-- What the program opens and closes, and the call of its main loop.
pub data Resource : Type 0 where
  context client stream : Resource

pub data Event : Type 0 where
  opened : Resource → Event
  closed : Resource → Event
  ran : Event

-- A call of `aeron_async_add_publication_poll` or of the one for subscriptions: its result, whether
-- the pointer is set after it, and whether `running` is false at the test that follows a result of
-- 0.
pub record AddPoll : Type 0 where
  pub result : ℤ
  pub stream_set : Bool
  pub interrupted : Bool

pub data Ready : Type 0 where
  done : Bool → Ready
  interrupted : Ready
  out_of_fuel : Ready

-- The loop that waits for the publication or subscription, from call `i` on.
unfoldable pub await_ready : ℕ → (ℕ → AddPoll) → ℕ → Ready
await_ready zero polls i = Ready.out_of_fuel
await_ready (suc fuel) polls i =
    let rest = await_ready fuel polls (suc i) in
    if eqb_ℤ (polls i).result (pos 0)
    then (if (polls i).interrupted then Ready.interrupted else rest)
    else Ready.done (polls i).stream_set

-- The loop of `wait_for_connection` from its test `i` on, with the readings of `time` after the
-- tests. The loop has an end of its own only by them; `none` is out of fuel.
unfoldable pub wait_loop : ℕ → ℕ → ℕ → (ℕ → Bool) → (ℕ → ℕ) → ℕ → Option ℤ
wait_loop zero timeout_seconds start_time is_connected time i = none
wait_loop (suc fuel) timeout_seconds start_time is_connected time i =
    let rest = wait_loop fuel timeout_seconds start_time is_connected time (suc i) in
    if not (is_connected i)
    then (if ltb (start_time + timeout_seconds) (time i) then some error_timeout else rest)
    else some error_success

-- What the calls of the Aeron client return.
pub record Environment : Type 0 where
  pub context_init : ℤ
  pub context_set_dir : ℤ
  pub aeron_init : ℤ
  pub aeron_start : ℤ
  pub add_stream : ℤ
  pub add_polls : ℕ → AddPoll
  pub start_time : ℕ
  pub is_connected : ℕ → Bool
  pub time : ℕ → ℕ

abbrev pub wait_for_connection : ℕ → ℕ → Environment → Option ℤ
wait_for_connection fuel timeout_seconds env =
    wait_loop fuel timeout_seconds env.start_time env.is_connected env.time 0

-- The return of `main` and what it opened, ran and closed.
pub data Exit : Type 0 where
  exits : ℤ → List Event → Exit
  unfinished : Exit

-- The end of `main`, from the call of the main loop. `result` is what that returns, `none` if it
-- does not.
abbrev pub run_and_close : Option ℤ → List Event → Exit
run_and_close none events = Exit.unfinished
run_and_close (some result) events =
    Exit.exits (if eqb_ℤ result error_success then pos 0 else pos 1) (
      events
      ++ Event.ran
        ∷ Event.closed Resource.stream
        ∷ Event.closed Resource.client
        ∷ Event.closed Resource.context
        ∷ [])

abbrev pub context_closed : List Event
context_closed = Event.opened Resource.context ∷ Event.closed Resource.context ∷ []

abbrev pub client_open : List Event
client_open = Event.opened Resource.context ∷ Event.opened Resource.client ∷ []

abbrev pub client_closed : List Event
client_closed = client_open ++ Event.closed Resource.client ∷ Event.closed Resource.context ∷ []

abbrev pub stream_open : List Event
stream_open = client_open ++ Event.opened Resource.stream ∷ []

-- From the ready stream on. Over IPC there is no wait; a timeout only prints a warning.
abbrev pub from_stream : ℕ → Bool → Environment → Option ℤ → Exit
from_stream fuel ipc env result =
    if ipc then run_and_close result stream_open else elim (wait_for_connection fuel 30 env) [
      | none ↦ Exit.unfinished
      | some code ↦ run_and_close result stream_open
    ]

-- From the end of the wait for the stream on.
abbrev pub from_ready : ℕ → Bool → Environment → Option ℤ → Ready → Exit
from_ready fuel ipc env result (Ready.done true) = from_stream fuel ipc env result
from_ready fuel ipc env result (Ready.done false) = Exit.exits (pos 1) client_closed
from_ready fuel ipc env result Ready.interrupted = Exit.exits (pos 1) client_closed
from_ready fuel ipc env result Ready.out_of_fuel = Exit.unfinished

-- `main` after the options.
unfoldable pub main_after_options : ℕ → Bool → Environment → Option ℤ → Exit
main_after_options fuel ipc env result =
    if ltb_ℤ env.context_init (pos 0)
    then Exit.exits (pos 1) []
    else if ltb_ℤ env.context_set_dir (pos 0)
    then Exit.exits (pos 1) context_closed
    else if ltb_ℤ env.aeron_init (pos 0)
    then Exit.exits (pos 1) context_closed
    else if ltb_ℤ env.aeron_start (pos 0)
    then Exit.exits (pos 1) client_closed
    else if ltb_ℤ env.add_stream (pos 0)
    then Exit.exits (pos 1) client_closed
    else from_ready fuel ipc env result (await_ready fuel env.add_polls 0)

-- `main`, with the result of the option parser. 1 is that the help text was shown.
abbrev pub main_with : ℤ → Exit → Exit
main_with parse_result rest =
    if not (eqb_ℤ parse_result error_success)
    then (if eqb_ℤ parse_result (pos 1) then Exit.exits (pos 0) [] else Exit.exits (pos 1) [])
    else rest

-- `main` with the result of the option parser, which sets the configuration behind its pointer.
-- `run` is the main loop.
abbrev pub main_parsed : ℕ → Environment → (Config → Option ℤ) → ℤ × Option Config → Exit
main_parsed fuel aeron run (code, none) = Exit.unfinished
main_parsed fuel aeron run (code, some config) =
    main_with code (main_after_options fuel (is_ipc config.transport_type) aeron (run config))
