-- ===== src/Config/Parse.antt =====
-- `parse_publisher_args` and `parse_subscriber_args`. What they print is left out; the result is
-- the code that they return with the configuration behind the pointer.
pub mod Valid
pub mod Options
pub mod Count
pub mod Parser
use aeron_fast.Base.{
  ℕ, Bool, true, false, ◌||◌, Option, none, some, List, [], ◌∷◌, ◌==◌, if◌then◌else◌,
}
use aeron_fast.Base.Int.{ℤ, pos}
use aeron_fast.Common.{
  Config, TransportType, udp, ipc, network_udp, codes, endpoint_capacity, error_invalid_param,
}
use aeron_fast.Config.Number.{atoi, atoll, to_u64}
use aeron_fast.Config.Getopt.{Opt, LongOption, Grammar, text_eq, getopt_long}
use aeron_fast.Config.Settings.{
  copy_string, set_default_config, load_config_from_env, validate_config,
}

abbrev required_argument : Bool
required_argument = true

abbrev no_argument : Bool
no_argument = false

abbrev long : List ℕ → Bool → ℕ → LongOption
long name required letter = record { name = name; required = required; letter = letter }

abbrev pub publisher_grammar : Grammar
publisher_grammar = record {
  short_options = codes "s:c:t:b:l:e:i:h";
  long_options =
      long (codes "size") required_argument b's'
      ∷ long (codes "count") required_argument b'c'
      ∷ long (codes "transport") required_argument b't'
      ∷ long (codes "bind") required_argument b'b'
      ∷ long (codes "listen") required_argument b'l'
      ∷ long (codes "endpoint") required_argument b'e'
      ∷ long (codes "ip") required_argument b'i'
      ∷ long (codes "help") no_argument b'h'
      ∷ [];
}

abbrev pub subscriber_grammar : Grammar
subscriber_grammar = record {
  short_options = codes "c:t:o:e:i:h";
  long_options =
      long (codes "count") required_argument b'c'
      ∷ long (codes "transport") required_argument b't'
      ∷ long (codes "connect") required_argument b'o'
      ∷ long (codes "endpoint") required_argument b'e'
      ∷ long (codes "ip") required_argument b'i'
      ∷ long (codes "help") no_argument b'h'
      ∷ [];
}

-- How a case of the `switch` ends: `break`, or `return`.
pub data Case : Type 0 where
  next : Config → Case
  leave : ℤ → Case

-- The code for "help was shown".
abbrev pub help_shown : ℤ
help_shown = pos 1

-- The comparisons of case 't'.
unfoldable pub parse_transport : List ℕ → Option TransportType
unfolding text_eq
parse_transport s =
    if text_eq s (codes "UDP") || text_eq s (codes "udp")
    then some udp
    else if text_eq s (codes "IPC") || text_eq s (codes "ipc")
    then some ipc
    else if text_eq s (codes "NETWORK_UDP") || text_eq s (codes "network_udp")
    then some network_udp
    else none

abbrev set_transport : Option TransportType → Config → Case
set_transport none config = leave error_invalid_param
set_transport (some t) config = next (record config { transport_type = t })

abbrev set_endpoint : List ℕ → Config → Case
set_endpoint optarg config =
    next (record config { custom_endpoint = copy_string endpoint_capacity optarg })

-- The `switch` of the publisher.
unfoldable pub publisher_case : Opt → Config → Case
publisher_case (Opt.option letter optarg) config =
    if letter == b's'
    then next (record config { message_size = to_u64 (atoi optarg) })
    else if letter == b'c'
    then next (record config { message_count = to_u64 (atoll optarg) })
    else if letter == b't'
    then set_transport (parse_transport optarg) config
    else if letter == b'b' || letter == b'l' || letter == b'e' || letter == b'i'
    then set_endpoint optarg config
    else leave error_invalid_param
publisher_case (Opt.flag letter) config =
    if letter == b'h' then leave help_shown else leave error_invalid_param
publisher_case Opt.unknown config = leave error_invalid_param

-- The `switch` of the subscriber.
unfoldable pub subscriber_case : Opt → Config → Case
subscriber_case (Opt.option letter optarg) config =
    if letter == b'c'
    then next (record config { target_message_count = to_u64 (atoll optarg) })
    else if letter == b't'
    then set_transport (parse_transport optarg) config
    else if letter == b'o' || letter == b'e' || letter == b'i'
    then set_endpoint optarg config
    else leave error_invalid_param
subscriber_case (Opt.flag letter) config =
    if letter == b'h' then leave help_shown else leave error_invalid_param
subscriber_case Opt.unknown config = leave error_invalid_param

-- The `while` loop over the options, and the validation behind it.
unfoldable pub parse_loop : (Opt → Config → Case) → List Opt → Config → ℤ × Config
parse_loop switch [] config = (validate_config (some config), config)
parse_loop switch (o ∷ os) config = elim (switch o config) [
  | next config' ↦ parse_loop switch os config'
  | leave result ↦ (result, config)
]

-- `env` is AERON_DIR, `args` the arguments behind the program's name. A null pointer is `none`.
parse_args :
    Grammar
    → (Opt → Config → Case)
    → Option (List ℕ)
    → List (List ℕ)
    → Option Config
    → ℤ × Option Config
unfolding parse_loop set_default_config load_config_from_env
parse_args grammar switch env args config =
    elim (load_config_from_env env (set_default_config config)) [
      | none ↦ (error_invalid_param, none)
      | some start ↦
          (let (result, config') = parse_loop switch (getopt_long grammar args) start in
            (result, some config'))
    ]

unfoldable pub parse_publisher_args :
    Option (List ℕ) → List (List ℕ) → Option Config → ℤ × Option Config
unfolding parse_args publisher_case
parse_publisher_args = parse_args publisher_grammar publisher_case

unfoldable pub parse_subscriber_args :
    Option (List ℕ) → List (List ℕ) → Option Config → ℤ × Option Config
unfolding parse_args subscriber_case
parse_subscriber_args = parse_args subscriber_grammar subscriber_case
