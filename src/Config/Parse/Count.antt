-- ===== src/Config/Parse/Count.antt =====
-- The count option of both programs, from decimal digits to the stored number.
use aeron_fast.Base.{
  ℕ, ◌^◌, ◌≤◌, ◌<◌, ◌≡◌, refl, Option, none, some, List, [], ◌∷◌, arith, ◌==◌, if◌then◌else◌, false,
}
use aeron_fast.Common.{Config, codes, error_success, error_invalid_param}
use aeron_fast.Config.Number.{atoll, to_u64}
use aeron_fast.Config.Number.Decimal.{decimal, atoll-decimal}
use aeron_fast.Config.Getopt.{getopt_long}
use aeron_fast.Config.Settings.{set_default_config, load_config_from_env, validate_config}
use aeron_fast.Config.Parse.{parse_publisher_args, parse_subscriber_args}
use aeron_fast.Config.Parse.Options.{defaults}

-- `config` with another number of messages to send, and to receive.
abbrev pub with_count : ℕ → Option Config → Option Config
with_count n none = none
with_count n (some config) = some (record config { message_count = n })

abbrev pub with_target : ℕ → Option Config → Option Config
with_target n none = none
with_target n (some config) = some (record config { target_message_count = n })

publisher_count_code :
    (env : Option (List ℕ)) (memory : Config) (text : List ℕ)
    → parse_publisher_args env (codes "-c" ∷ text ∷ []) (some memory) ≡ (
      if to_u64 (atoll text) == 0 then error_invalid_param else error_success,
      with_count (to_u64 (atoll text)) (defaults env memory),
    )
unfolding parse_publisher_args getopt_long set_default_config load_config_from_env validate_config
publisher_count_code none memory text = ground arith
publisher_count_code (some dir) memory text = ground arith

subscriber_count_code :
    (env : Option (List ℕ)) (memory : Config) (text : List ℕ)
    → parse_subscriber_args env (codes "-c" ∷ text ∷ []) (some memory) ≡ (
      if to_u64 (atoll text) == 0 then error_invalid_param else error_success,
      with_target (to_u64 (atoll text)) (defaults env memory),
    )
unfolding parse_subscriber_args getopt_long set_default_config load_config_from_env validate_config
subscriber_count_code none memory text = ground arith
subscriber_count_code (some dir) memory text = ground arith

stored_count : (n : ℕ) → n < 2 ^ 63 → to_u64 (atoll (decimal 19 n)) ≡ n
stored_count n h = rw (atoll-decimal n h) (omega arith)

-- A count from 1 up to below 2 ^ 63, written in decimal after `-c`, is the number of messages that
-- the publisher sends, and that the subscriber waits for; nothing else changes.
pub count_option_decimal :
    (env : Option (List ℕ)) (memory : Config) (n : ℕ)
    → 1 ≤ n
    → n < 2 ^ 63
    → (parse_publisher_args env (codes "-c" ∷ decimal 19 n ∷ []) (some memory)
        ≡ (error_success, with_count n (defaults env memory)))
      × (parse_subscriber_args env (codes "-c" ∷ decimal 19 n ∷ []) (some memory)
          ≡ (error_success, with_target n (defaults env memory)))
count_option_decimal env memory n positive small =
    let stored = stored_count n small in
    let positive_test : (n == 0) ≡ false = ground arith in
    (
      rw (publisher_count_code env memory (decimal 19 n), stored, positive_test) refl,
      rw (subscriber_count_code env memory (decimal 19 n), stored, positive_test) refl,
    )
