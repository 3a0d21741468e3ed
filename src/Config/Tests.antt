-- ===== src/Config/Tests.antt =====
-- Command lines as the programs read them.
use aeron_fast.Config.Parse.Count.{with_count, with_target, count_option_decimal}
use aeron_fast.Config.Number.Decimal.{decimal}
use aeron_fast.Config.Settings.Validity.{IsValid, validate_config_iff}
use aeron_fast.Config.Settings.{set_default_config, load_config_from_env, validate_config}
use aeron_fast.Config.Parse.Valid.{Outcome, IsPublisher, parse_publisher_args-Outcome}
use aeron_fast.Config.Parse.Options.{
  IsOperand, defaults, with_size, size_option_lem, publisher_single_dash, with_endpoint,
}
use aeron_fast.Base.{◌≡◌, refl, [], ◌∷◌, ◌↔◌, ◌⊎◌, arith, List, none, some, ℕ}
use aeron_fast.Base.Int.{pos, negsuc, ◌≤ℤ◌, ℤ}
use aeron_fast.Common.{codes, error_success, error_invalid_param, Config, ipc}
use aeron_fast.Config.Number.{atoi, atoll, read_digits, to_u64}
use aeron_fast.Config.Getopt.{Opt, getopt_long}
use aeron_fast.Config.Parse.{
  publisher_grammar, parse_publisher_args, parse_subscriber_args, parse_loop, publisher_case,
  parse_transport,
}

numbers :
    (atoi (codes " -42x") ≡ negsuc 41)
    × (atoi (codes "4294967295") ≡ negsuc 0)
    × (atoll (codes "99999999999999999999") ≡ pos 9223372036854775807)
unfolding atoi read_digits
numbers = (refl, refl, refl)

options :
    getopt_long publisher_grammar (
      codes "-s64"
      ∷ codes "operand"
      ∷ codes "--tran"
      ∷ codes "IPC"
      ∷ codes "--ip=10.0.0.1"
      ∷ codes "-c"
      ∷ codes "5"
      ∷ codes "--"
      ∷ codes "-h"
      ∷ [])
    ≡ Opt.option b's' (codes "64")
      ∷ Opt.option b't' (codes "IPC")
      ∷ Opt.option b'i' (codes "10.0.0.1")
      ∷ Opt.option b'c' (codes "5")
      ∷ []
unfolding getopt_long
options = refl

-- The memory that `main` passes, whatever it holds.
abbrev memory : Config
memory = record {
  transport_type = ipc;
  channel = [];
  custom_endpoint = codes "old";
  aeron_dir = [];
  stream_id = 0;
  message_size = 3;
  message_count = 0;
  target_message_count = 0;
  fragment_limit = 0;
}

abbrev address : List ℕ
address = codes "192.168.0.106"

address-IsOperand : IsOperand address
address-IsOperand = omega arith

parse_ipc :
    (parse_publisher_args none (codes "-t" ∷ codes "IPC" ∷ codes "-c10" ∷ []) (some memory)).0
    ≡ error_success
unfolding parse_publisher_args getopt_long set_default_config load_config_from_env parse_loop
    publisher_case parse_transport validate_config atoll read_digits
parse_ipc = refl

validate_config_iff_example :
    ((validate_config (some memory) ≡ error_success) ↔ IsValid memory)
    × ((validate_config (some memory) ≡ error_success)
        ⊎ (validate_config (some memory) ≡ error_invalid_param))
validate_config_iff_example = validate_config_iff memory

parse_publisher_args-Outcome_example :
    (result : ℤ) × (config : Config) × (parse_publisher_args none
        (codes "-t" ∷ codes "IPC" ∷ [])
        (some memory)
      ≡ (result, some config))
    × Outcome IsPublisher result config
parse_publisher_args-Outcome_example =
    parse_publisher_args-Outcome none (codes "-t" ∷ codes "IPC" ∷ []) memory

size_option_lem_example :
    (result : ℤ) × (parse_publisher_args none (codes "-s" ∷ codes "-1" ∷ []) (some memory)
      ≡ (result, with_size (to_u64 (atoi (codes "-1"))) (defaults none memory)))
    × ((result ≡ error_success) ↔ ((pos 8 ≤ℤ atoi (codes "-1")) ⊎ (atoi (codes "-1") ≤ℤ negsuc 0)))
size_option_lem_example = size_option_lem none memory (codes "-1")

count_option_decimal_example :
    (parse_publisher_args none (codes "-c" ∷ decimal 19 50000000 ∷ []) (some memory)
      ≡ (error_success, with_count 50000000 (defaults none memory)))
    × (parse_subscriber_args none (codes "-c" ∷ decimal 19 50000000 ∷ []) (some memory)
        ≡ (error_success, with_target 50000000 (defaults none memory)))
count_option_decimal_example = count_option_decimal none memory 50000000 (omega arith) (omega arith)

publisher_single_dash_example :
    parse_publisher_args none (codes "-bind" ∷ address ∷ []) (some memory)
    ≡ (error_success, with_endpoint (codes "ind") (defaults none memory))
publisher_single_dash_example = publisher_single_dash none memory address address-IsOperand
