-- ===== src/Subscriber/Main/Exits.antt =====
-- Every run of the subscriber that the outside lets end.
use aeron_fast.Subscriber.Loop.Ends.{Enough}
use aeron_fast.Stats.Defs.{create_performance_stats}
use aeron_fast.Subscriber.{init_subscriber_stats}
use aeron_fast.Base.{ℕ, ◌^◌, ◌≤◌, ◌≡◌, refl, some, length, inl, inr, ap, suc, Bool-cases, ◌+◌, []}
use aeron_fast.Base.Int.{ℤ, eqb_ℤ}
use aeron_fast.Common.{Config, error_success, error_memory_allocation}
use aeron_fast.Config.Parse.{parse_subscriber_args, help_shown}
use aeron_fast.Config.Settings.Validity.{IsValid}
use aeron_fast.Program.Parsed.{main_parsed-Leaves}
use aeron_fast.Config.Parse.Parser.{subscriber_parser}
use aeron_fast.Program.Exits.{Answers, Leaves}
use aeron_fast.Subscriber.Loop.{run_subscriber}
use aeron_fast.Subscriber.Loop.Result.{run_subscriber-Result}
use aeron_fast.Subscriber.Main.{World, code_of, run_with, main}

-- The polls hand over at most `limit` fragments each, and within `fuel` of them the messages that
-- the command line asks for, unless a signal comes.
pub record Delivers (fuel limit : ℕ) (world : World) : Type 0 where
  pub few : (n : ℕ) → length (world.polls n).fragments ≤ limit
  pub many :
      (result : ℤ) (config : Config)
      → parse_subscriber_args world.aeron_dir world.args (some world.config_memory)
        ≡ (result, some config)
      → result ≡ error_success
      → (config.target_message_count + limit ≤ 2 ^ 64)
        × Enough world.host world.polls config.target_message_count fuel 0 []

module _ (fuel limit : ℕ) (world : World) (delivers : Delivers fuel limit world) where
  run_returns :
      (config : Config)
      → IsValid config
      → config.target_message_count + limit ≤ 2 ^ 64
      → Enough world.host world.polls config.target_message_count fuel 0 []
      → (code : ℤ) × (run_with (suc fuel) world config ≡ some code)
  unfolding run_subscriber init_subscriber_stats create_performance_stats
  run_returns config v room enough = elim (Bool-cases world.allocated) [
    | inr e ↦ (error_memory_allocation, rw e refl)
    | inl e ↦
        (let r =
            run_subscriber-Result fuel world.host config.target_message_count limit world.start
              world.end world.polls v.target room delivers.few enough in
          (error_success, rw e (ap code_of r.returned)))
  ]

  -- Whatever the command line and the signals are: with an Aeron client that settles the
  -- subscription and the wait for a connection within the fuel, and that hands over the messages
  -- asked for unless a signal comes, at most `limit` in a poll and with the target at most 2 ^ 64
  -- together, `main` of the subscriber exits. It has then closed all that it opened, the newest
  -- first, and the code is 0 exactly when the help was shown or `run_subscriber` returned
  -- ERROR_SUCCESS.
  pub subscriber_main-Leaves :
      Answers (suc fuel) world.aeron
      → (result : ℤ) × (config : Config) × (parse_subscriber_args world.aeron_dir world.args
            (some world.config_memory)
          ≡ (result, some config))
        × Leaves
            (eqb_ℤ result help_shown)
            (run_with (suc fuel) world config)
            (main (suc fuel) world)
  unfolding main
  subscriber_main-Leaves a =
      main_parsed-Leaves subscriber_parser (suc fuel) world.aeron (run_with (suc fuel) world)
        world.aeron_dir world.args world.config_memory a
        (λ result config parsed e p v.
          let (room, enough) = delivers.many result config parsed e in
          run_returns config v room enough)
