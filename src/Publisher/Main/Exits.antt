-- ===== src/Publisher/Main/Exits.antt =====
-- Every run of the publisher that the outside lets end.
use aeron_fast.Base.{
  ℕ, ◌*◌, ◌^◌, ◌≤◌, ◌≡◌, refl, Option, some, arith, length, List, Option-cases, inl, inr, ap,
}
use aeron_fast.Base.Int.{ℤ, eqb_ℤ}
use aeron_fast.Common.{Config, error_success, error_memory_allocation}
use aeron_fast.Config.Parse.{parse_publisher_args, help_shown}
use aeron_fast.Config.Parse.Valid.{IsPublisher}
use aeron_fast.Config.Settings.Validity.{IsValid}
use aeron_fast.Program.Parsed.{main_parsed-Leaves}
use aeron_fast.Config.Parse.Parser.{publisher_parser}
use aeron_fast.Program.Exits.{Answers, Leaves}
use aeron_fast.Publisher.Loop.{run_publisher}
use aeron_fast.Publisher.Loop.Result.{run_publisher-Result}
use aeron_fast.Publisher.Main.{World, code_of, run_with, main}

-- `malloc` gives as many bytes as it is asked for, if it gives any.
abbrev pub IsAllocator : (ℕ → Option (List ℕ)) → Type 0
IsAllocator malloc = (size : ℕ) (memory : List ℕ) → malloc size ≡ some memory → length memory ≡ size

module _ (fuel : ℕ) (world : World) (allocator : IsAllocator world.malloc)
    (enough : 2 ^ 64 * 1000001 ≤ fuel) where
  run_returns :
      (config : Config)
      → IsPublisher config
      → IsValid config
      → (code : ℤ) × (run_with fuel world config ≡ some code)
  unfolding run_publisher
  run_returns config p v = elim (Option-cases (world.malloc config.message_size)) [
    | inl e ↦ (error_memory_allocation, rw e refl)
    | inr (memory, e) ↦
        (let r =
            run_publisher-Result fuel world.host memory config.message_size config.message_count
              world.start world.end world.turns (allocator config.message_size memory e) v.size
              (p.0.count) v.count (omega (arith, p.0.count)) in
          (error_success, rw e (ap code_of r.returned)))
  ]

  -- Whatever the command line, the environment, the offers and the signals are: with an Aeron
  -- client that settles the publication and the wait for a connection within the fuel, a fuel of at
  -- least 2 ^ 64 * 1000001, and a `malloc` that gives the size asked for or nothing, `main` of the
  -- publisher exits. It has then closed all that it opened, the newest first, and the code is 0
  -- exactly when the help was shown or `run_publisher` returned ERROR_SUCCESS.
  pub publisher_main-Leaves :
      Answers fuel world.aeron
      → (result : ℤ) × (config : Config) × (parse_publisher_args world.aeron_dir world.args
            (some world.config_memory)
          ≡ (result, some config))
        × Leaves (eqb_ℤ result help_shown) (run_with fuel world config) (main fuel world)
  unfolding main
  publisher_main-Leaves a =
      main_parsed-Leaves publisher_parser fuel world.aeron (run_with fuel world) world.aeron_dir
        world.args world.config_memory a (λ result config parsed e p v. run_returns config p v)
