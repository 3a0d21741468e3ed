-- ===== src/Config/Parse/Parser.antt =====
-- What c-performance/include/config_parser.h offers to a program: a parser of its command line,
-- with what the program relies on.
use aeron_fast.Base.{ℕ, Option, some, List, ◌≡◌}
use aeron_fast.Base.Int.{ℤ}
use aeron_fast.Common.{Config}
use aeron_fast.Config.Parse.{parse_publisher_args, parse_subscriber_args}
use aeron_fast.Config.Parse.Valid.{
  Outcome, IsPublisher, IsSubscriber, parse_publisher_args-Outcome, parse_subscriber_args-Outcome,
}

-- The arguments of `parse` are AERON_DIR, the command line and the structure behind the pointer.
-- `IsParsed` is what a parsed configuration has besides being valid.
pub record OptionParser : Type 1 where
  pub parse : Option (List ℕ) → List (List ℕ) → Option Config → ℤ × Option Config
  pub IsParsed : Config → Type 0
  pub outcome :
      (env : Option (List ℕ)) (args : List (List ℕ)) (memory : Config)
      → (result : ℤ) × (config : Config) × (parse env args (some memory) ≡ (result, some config))
        × Outcome IsParsed result config

abbrev pub publisher_parser : OptionParser
publisher_parser = record {
  parse = parse_publisher_args;
  IsParsed = IsPublisher;
  outcome = parse_publisher_args-Outcome;
}

abbrev pub subscriber_parser : OptionParser
subscriber_parser = record {
  parse = parse_subscriber_args;
  IsParsed = IsSubscriber;
  outcome = parse_subscriber_args-Outcome;
}
