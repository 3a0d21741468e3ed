-- ===== src/Program/Parsed.antt =====
-- `main` of a program with any option parser and any main loop that returns on what it parses.
use aeron_fast.Base.{ℕ, ◌≡◌, refl, Option, some, List}
use aeron_fast.Base.Int.{ℤ, eqb_ℤ}
use aeron_fast.Common.{Config, error_success}
use aeron_fast.Config.Parse.{help_shown}
use aeron_fast.Config.Parse.Parser.{OptionParser}
use aeron_fast.Config.Parse.Valid.{Outcome}
use aeron_fast.Config.Settings.Channel.{is_ipc}
use aeron_fast.Config.Settings.Validity.{IsValid}
use aeron_fast.Program.{Environment, main_parsed}
use aeron_fast.Program.Closing.{main_with-IsClean}
use aeron_fast.Program.Exits.{Answers, IsExit, options_exit, Leaves, exit-Leaves, main_with_ends}

module _ (parser : OptionParser) (fuel : ℕ) (aeron : Environment) (run : Config → Option ℤ)
    (env : Option (List ℕ)) (args : List (List ℕ)) (memory : Config)
    (answers : Answers fuel aeron) where
  -- The main loop returns on every configuration that the parser accepts.
  abbrev pub Returns : Type 0
  Returns =
      (result : ℤ) (config : Config)
      → parser.parse env args (some memory) ≡ (result, some config)
      → result ≡ error_success
      → parser.IsParsed config
      → IsValid config
      → (code : ℤ) × (run config ≡ some code)

  exits :
      Returns
      → (result : ℤ) (config : Config) → parser.parse env args (some memory) ≡ (result, some config)
      → Outcome parser.IsParsed result config
      → IsExit (main_parsed fuel aeron run (result, some config))
  exits returns result config parsed (Outcome.parsed e p v) =
      let (code, returned) = returns result config parsed e p v in
      rw (e, returned) (options_exit fuel (is_ipc config.transport_type) aeron code answers)
  exits returns result config parsed (Outcome.shown e) = main_with_ends result _ (rw e refl)
  exits returns result config parsed (Outcome.refused e) = main_with_ends result _ (rw e refl)

  pub main_parsed-Leaves :
      Returns
      → (result : ℤ) × (config : Config) × (parser.parse env args (some memory)
          ≡ (result, some config))
        × Leaves
            (eqb_ℤ result help_shown)
            (run config)
            (main_parsed fuel aeron run (parser.parse env args (some memory)))
  main_parsed-Leaves returns =
      let (result, config, e, outcome) = parser.outcome env args memory in
      (
        result,
        config,
        e,
        rw e (
            exit-Leaves (eqb_ℤ result help_shown) (run config) _
              (exits returns result config e outcome)
              (main_with-IsClean result fuel (is_ipc config.transport_type) aeron (run config))),
      )
