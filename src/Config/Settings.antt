-- ===== src/Config/Settings.antt =====
-- The operations on one configuration.
pub mod Channel
pub mod Validity
use aeron_fast.Base.{
  ℕ, ◌-◌, Bool, true, false, ◌&&◌, ◌||◌, Option, none, some, List, [], ◌∷◌, ◌++◌, ltb, ◌==◌,
  if◌then◌else◌, take,
}
use aeron_fast.Base.Int.{ℤ}
use aeron_fast.Common.{
  Config, TransportType, udp, ipc, network_udp, codes, channel_capacity, endpoint_capacity,
  aeron_dir_capacity, default_channel, default_stream_id, default_message_size,
  default_message_count, default_target_message_count, default_fragment_limit, error_success,
  error_invalid_param,
}
use aeron_fast.Message.{min_message_size}

-- `strncpy(dst, src, capacity - 1); dst[capacity - 1] = 0`, as the C string that is then in `dst`.
abbrev pub copy_string : ℕ → List ℕ → List ℕ
copy_string capacity src = take (capacity - 1) src

-- `s[0] == 0` for a C string.
abbrev pub is_empty : List ℕ → Bool
is_empty [] = true
is_empty (c ∷ s) = false

-- Every field is set, so the contents before do not matter. A null pointer is `none`.
unfoldable pub set_default_config : Option Config → Option Config
set_default_config none = none
set_default_config (some config) = some (record {
  transport_type = udp;
  channel = copy_string channel_capacity default_channel;
  custom_endpoint = [];
  aeron_dir = [];
  stream_id = default_stream_id;
  message_size = default_message_size;
  message_count = default_message_count;
  target_message_count = default_target_message_count;
  fragment_limit = default_fragment_limit;
})

abbrev pub default_aeron_dir : List ℕ
default_aeron_dir = codes "/dev/shm/aeron"

-- `env` is the value of AERON_DIR, if it is set.
unfoldable pub load_config_from_env : Option (List ℕ) → Option Config → Option Config
load_config_from_env env none = none
load_config_from_env none (some config) =
    some (record config { aeron_dir = copy_string aeron_dir_capacity default_aeron_dir })
load_config_from_env (some aeron_dir) (some config) =
    some (record config { aeron_dir = copy_string aeron_dir_capacity aeron_dir })

-- A value of `transport_type_t` is one of the three, so the `default` case is not reached.
unfoldable pub transport_type_to_string : TransportType → List ℕ
transport_type_to_string udp = codes "UDP"
transport_type_to_string ipc = codes "IPC"
transport_type_to_string network_udp = codes "NETWORK_UDP"

-- `snprintf(buffer, size, ...)` of a text, as the C string that is then in `buffer`.
abbrev pub print_into : ℕ → List ℕ → List ℕ
print_into size text = take (size - 1) text

abbrev pub endpoint_channel : List ℕ → List ℕ
endpoint_channel endpoint = codes "aeron:udp?endpoint=" ++ (endpoint ++ codes ":20121")

-- The text that `get_effective_channel` formats.
unfoldable pub channel_text : TransportType → List ℕ → List ℕ
channel_text udp endpoint =
    if is_empty endpoint
    then codes "aeron:udp?endpoint=localhost:20121"
    else endpoint_channel endpoint
channel_text ipc endpoint = codes "aeron:ipc?term-length=1048576"
channel_text network_udp endpoint =
    if is_empty endpoint
    then codes "aeron:udp?endpoint=localhost:20121"
    else endpoint_channel endpoint

-- `has_buffer` says that the pointer to the buffer is not null. `none` is a null result.
unfoldable pub get_effective_channel : Option Config → Bool → ℕ → Option (List ℕ)
unfolding channel_text
get_effective_channel none has_buffer buffer_size = none
get_effective_channel (some config) false buffer_size = none
get_effective_channel (some config) true buffer_size =
    if buffer_size == 0
    then none
    else some (print_into buffer_size (channel_text config.transport_type config.custom_endpoint))

abbrev is_network_udp : TransportType → Bool
is_network_udp udp = false
is_network_udp ipc = false
is_network_udp network_udp = true

unfoldable pub validate_config : Option Config → ℤ
validate_config none = error_invalid_param
validate_config (some config) =
    if ltb config.message_size min_message_size
    then error_invalid_param
    else if config.message_count == 0 || config.target_message_count == 0
    then error_invalid_param
    else if is_network_udp config.transport_type && is_empty config.custom_endpoint
    then error_invalid_param
    else error_success
