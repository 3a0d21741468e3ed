-- ===== src/Subscriber/Main/Tests.antt =====
-- A run of the whole subscriber.
use aeron_fast.Subscriber.Loop.Ends.{Enough}
use aeron_fast.Base.{ℕ, ◌≡◌, sym, ap, ◌∙◌, Option, some, none, List, [], ◌∷◌, false, true, arith}
use aeron_fast.Base.Int.{ℤ, pos, eqb_ℤ}
use aeron_fast.Common.{Config, codes}
use aeron_fast.Message.Bytes.{Endian}
use aeron_fast.Config.Number.Decimal.{decimal}
use aeron_fast.Config.Settings.{set_default_config, load_config_from_env}
use aeron_fast.Config.Parse.{parse_subscriber_args, help_shown}
use aeron_fast.Config.Parse.Count.{count_option_decimal}
use aeron_fast.Program.Samples.{quick, quick-Answers, stale, tick}
use aeron_fast.Program.Exits.{Leaves}
use aeron_fast.Subscriber.Loop.{Poll}
use aeron_fast.Subscriber.Main.{World, main, run_with}
use aeron_fast.Subscriber.Main.Exits.{Delivers, subscriber_main-Leaves}

abbrev one_each : ℕ → Poll
one_each n = record {
  signal = false;
  fragments = (23 ∷ 151 ∷ 156 ∷ 254 ∷ 54 ∷ 42 ∷ 0 ∷ 0 ∷ [], tick n) ∷ [];
  result = pos 1;
}

abbrev count_two : List (List ℕ)
count_two = codes "-c" ∷ decimal 19 2 ∷ []

abbrev two_wanted : World
two_wanted = record {
  args = count_two;
  aeron_dir = none;
  config_memory = stale;
  host = Endian.little;
  allocated = true;
  start = tick 0;
  end = tick 9;
  polls = one_each;
  aeron = quick;
}

abbrev target_of : ℤ × Option Config → ℕ
target_of (result, none) = 0
target_of (result, some config) = config.target_message_count

two_is_target :
    (result : ℤ) (config : Config)
    → parse_subscriber_args none count_two (some stale) ≡ (result, some config)
    → config.target_message_count ≡ 2
unfolding set_default_config load_config_from_env
two_is_target result config e =
    ap target_of (sym e ∙ (count_option_decimal none stale 2 (omega arith) (omega arith)).1)

two_wanted-Delivers : Delivers 2 10 two_wanted
two_wanted-Delivers = record {
  few = λ n. omega arith;
  many = λ result config e ok. (
    omega (arith, two_is_target result config e),
    Enough.arrives (omega (arith, two_is_target result config e)),
  );
}

subscriber_main-Leaves_example :
    (result : ℤ) × (config : Config) × (parse_subscriber_args none count_two (some stale)
      ≡ (result, some config))
    × Leaves (eqb_ℤ result help_shown) (run_with 3 two_wanted config) (main 3 two_wanted)
subscriber_main-Leaves_example =
    subscriber_main-Leaves 2 10 two_wanted two_wanted-Delivers (quick-Answers 3 (omega arith))
