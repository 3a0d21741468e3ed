-- ===== src/Config/Usage.antt =====
-- `print_publisher_usage`, `print_subscriber_usage` and `print_config_summary`. Fixed explanations
-- are left out; what a line says of the program is an argument of its constructor.
use aeron_fast.Base.{ℕ, Bool, true, false, Option, none, some, List, [], ◌∷◌}
use aeron_fast.Common.{
  Config, codes, default_message_size, default_message_count, default_target_message_count,
}
use aeron_fast.Config.Settings.{transport_type_to_string, get_effective_channel}

-- An option as a line of the list gives it, with the default that is printed.
pub record UsageOption : Type 0 where
  pub letter : ℕ
  pub name : List ℕ
  pub takes_argument : Bool
  pub default : Option ℕ

pub data UsageLine : Type 0 where
  usage : List ℕ → UsageLine
  option : UsageOption → UsageLine
  transport : List ℕ → UsageLine
  -- the program's name and the arguments behind it
  example : List ℕ → List (List ℕ) → UsageLine

abbrev listed : ℕ → List ℕ → Bool → Option ℕ → UsageLine
listed letter name takes_argument default =
    UsageLine.option
      (record { letter = letter; name = name; takes_argument = takes_argument; default = default })

abbrev pub print_publisher_usage : List ℕ → List UsageLine
print_publisher_usage program_name =
    UsageLine.usage program_name
    ∷ listed b's' (codes "size") true (some default_message_size)
    ∷ listed b'c' (codes "count") true (some default_message_count)
    ∷ listed b't' (codes "transport") true none
    ∷ listed b'b' (codes "bind") true none
    ∷ listed b'l' (codes "listen") true none
    ∷ listed b'e' (codes "endpoint") true none
    ∷ listed b'i' (codes "ip") true none
    ∷ listed b'h' (codes "help") false none
    ∷ UsageLine.transport (codes "UDP")
    ∷ UsageLine.transport (codes "IPC")
    ∷ UsageLine.transport (codes "NETWORK_UDP")
    ∷ UsageLine.example program_name []
    ∷ UsageLine.example program_name (codes "-t" ∷ codes "IPC" ∷ [])
    ∷ UsageLine.example program_name
        (codes "-bind" ∷ codes "0.0.0.0" ∷ codes "-c" ∷ codes "10000000" ∷ [])
    ∷ []

abbrev pub print_subscriber_usage : List ℕ → List UsageLine
print_subscriber_usage program_name =
    UsageLine.usage program_name
    ∷ listed b'c' (codes "count") true (some default_target_message_count)
    ∷ listed b't' (codes "transport") true none
    ∷ listed b'o' (codes "connect") true none
    ∷ listed b'e' (codes "endpoint") true none
    ∷ listed b'i' (codes "ip") true none
    ∷ listed b'h' (codes "help") false none
    ∷ UsageLine.transport (codes "UDP")
    ∷ UsageLine.transport (codes "IPC")
    ∷ UsageLine.transport (codes "NETWORK_UDP")
    ∷ UsageLine.example program_name []
    ∷ UsageLine.example program_name (codes "-t" ∷ codes "IPC" ∷ [])
    ∷ UsageLine.example program_name (codes "-c" ∷ codes "50000000" ∷ [])
    ∷ UsageLine.example program_name (codes "-connect" ∷ codes "192.168.0.106" ∷ [])
    ∷ []

-- The lines of the summary: the transport, the channel, the stream and the size of the messages.
pub record ConfigSummary : Type 0 where
  pub transport : List ℕ
  pub channel : Option (List ℕ)
  pub stream_id : ℕ
  pub message_size : ℕ

-- A null pointer prints nothing.
unfoldable pub print_config_summary : Option Config → Option ConfigSummary
print_config_summary none = none
print_config_summary (some config) = some (record {
  transport = transport_type_to_string config.transport_type;
  channel = get_effective_channel (some config) true 512;
  stream_id = config.stream_id;
  message_size = config.message_size;
})
