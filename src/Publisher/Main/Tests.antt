-- ===== src/Publisher/Main/Tests.antt =====
-- A run of the whole publisher.
use aeron_fast.Base.{
  ℕ, ◌*◌, ◌^◌, ◌≡◌, sym, ap, ◌∙◌, Option, some, none, List, [], ◌∷◌, false, arith, replicate,
  length, length-replicate,
}
use aeron_fast.Base.Int.{ℤ, pos, eqb_ℤ}
use aeron_fast.Common.{Config, codes}
use aeron_fast.Message.Bytes.{Endian}
use aeron_fast.Config.Parse.{parse_publisher_args, help_shown}
use aeron_fast.Program.Samples.{quick, quick-Answers, stale, tick}
use aeron_fast.Program.Exits.{Leaves}
use aeron_fast.Publisher.Loop.{Turn}
use aeron_fast.Publisher.Main.{World, main, run_with}
use aeron_fast.Publisher.Main.Exits.{IsAllocator, publisher_main-Leaves}

abbrev accepting : ℕ → Turn
accepting n = record { signal = false; now = tick n; offer = pos 96 }

abbrev generous : ℕ → Option (List ℕ)
generous size = some (replicate size 7)

generous-IsAllocator : IsAllocator generous
generous-IsAllocator size memory e =
    ap (λ (o : Option (List ℕ)). elim o [ none ↦ 0 | some m ↦ length m ]) (sym e)
    ∙ length-replicate size 7

-- Two messages of 64 bytes.
abbrev two_messages : World
two_messages = record {
  args = codes "-s" ∷ codes "64" ∷ codes "-c" ∷ codes "2" ∷ [];
  aeron_dir = none;
  config_memory = stale;
  host = Endian.little;
  malloc = generous;
  start = tick 0;
  end = tick 9;
  turns = accepting;
  aeron = quick;
}

publisher_main-Leaves_example :
    (result : ℤ) × (config : Config) × (parse_publisher_args none
        (codes "-s" ∷ codes "64" ∷ codes "-c" ∷ codes "2" ∷ [])
        (some stale)
      ≡ (result, some config))
    × Leaves
        (eqb_ℤ result help_shown)
        (run_with (2 ^ 64 * 1000001) two_messages config)
        (main (2 ^ 64 * 1000001) two_messages)
publisher_main-Leaves_example =
    publisher_main-Leaves (2 ^ 64 * 1000001) two_messages generous-IsAllocator (omega arith)
      (quick-Answers (2 ^ 64 * 1000001) (omega arith))
