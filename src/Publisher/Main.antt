-- ===== src/Publisher/Main.antt =====
-- `main` of the publisher: the options, the set-up, the run and the release.
pub mod Exits
mod Tests
use aeron_fast.Base.{ℕ, Option, none, some, List, true}
use aeron_fast.Base.Int.{ℤ}
use aeron_fast.Common.{Config}
use aeron_fast.Clock.{Timespec}
use aeron_fast.Message.Bytes.{Endian}
use aeron_fast.Config.Settings.Channel.{is_ipc}
use aeron_fast.Config.Parse.{parse_publisher_args}
use aeron_fast.Program.{Exit, Environment, main_parsed}
use aeron_fast.Publisher.{initial_stats}
use aeron_fast.Publisher.Loop.{Turn, Finish, run_publisher}

-- What the environment gives to the whole program: the arguments after the name, AERON_DIR, the
-- bytes that are in `config` before it is set, the machine's byte order, `malloc`, the clock at the
-- start and the end of the run, and the rounds of the loop. A signal before the first round is one
-- in it.
pub record World : Type 0 where
  pub args : List (List ℕ)
  pub aeron_dir : Option (List ℕ)
  pub config_memory : Config
  pub host : Endian
  pub malloc : ℕ → Option (List ℕ)
  pub start : Timespec
  pub end : Timespec
  pub turns : ℕ → Turn
  pub aeron : Environment

-- The code that `run_publisher` returns, if it returns.
abbrev pub code_of : Finish → Option ℤ
code_of (Finish.returns code at_end) = some code
code_of Finish.undefined = none
code_of Finish.unfinished = none

abbrev pub run_with : ℕ → World → Config → Option ℤ
run_with fuel world config = code_of (
    run_publisher fuel world.host (world.malloc config.message_size) config.message_size
      config.message_count world.start world.end world.turns true initial_stats)

unfoldable pub main : ℕ → World → Exit
main fuel world =
    main_parsed fuel world.aeron (run_with fuel world)
      (parse_publisher_args world.aeron_dir world.args (some world.config_memory))
