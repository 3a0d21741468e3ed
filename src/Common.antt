-- ===== src/Common.antt =====
-- c-performance/include/common_types.h: the constants, the configuration and the error codes that
-- the components share.
use Prim.Native.Char.{code}
use Prim.Native.String.{String}
use aeron_fast.Base.{ℕ, List, [], ◌∷◌}
use aeron_fast.Base.Int.{ℤ, pos, negsuc}

-- The bytes of an ASCII text. A C string is the bytes before its terminating zero.
abbrev pub codes : String → List ℕ
codes String.[] = []
codes (String.◌∷◌ c s) = code c ∷ codes s

-- `error_code_t`
abbrev pub error_success : ℤ
error_success = pos 0

abbrev pub error_invalid_param : ℤ
error_invalid_param = negsuc 0

-- also `ERROR_MEMORY_ALLOC`
abbrev pub error_memory_allocation : ℤ
error_memory_allocation = negsuc 1

abbrev pub error_timeout : ℤ
error_timeout = negsuc 2

abbrev pub error_network : ℤ
error_network = negsuc 3

abbrev pub error_file_io : ℤ
error_file_io = negsuc 4

-- `CACHE_LINE_SIZE` and `BUFFER_ALIGNMENT`, in bytes
abbrev pub cache_line_size : ℕ
cache_line_size = 64

abbrev pub buffer_alignment : ℕ
buffer_alignment = 16

-- `transport_type_t`
pub data TransportType : Type 0 where
  udp ipc network_udp : TransportType

-- `config_t`. The arrays of characters are C strings, without their terminating zero; an `int32_t`
-- or an `int` that is never negative is a number.
pub record Config : Type 0 where
  pub transport_type : TransportType
  pub channel : List ℕ
  pub custom_endpoint : List ℕ
  pub aeron_dir : List ℕ
  pub stream_id : ℕ
  pub message_size : ℕ
  pub message_count : ℕ
  pub target_message_count : ℕ
  pub fragment_limit : ℕ

-- The sizes of the arrays `channel`, `custom_endpoint` and `aeron_dir`.
abbrev pub channel_capacity : ℕ
channel_capacity = 256

abbrev pub endpoint_capacity : ℕ
endpoint_capacity = 64

abbrev pub aeron_dir_capacity : ℕ
aeron_dir_capacity = 256

abbrev pub default_channel : List ℕ
default_channel = codes "aeron:udp?endpoint=localhost:20121"

abbrev pub default_stream_id : ℕ
default_stream_id = 1001

abbrev pub default_message_size : ℕ
default_message_size = 1024

abbrev pub default_message_count : ℕ
default_message_count = 1000000

abbrev pub default_target_message_count : ℕ
default_target_message_count = 20000000

abbrev pub default_fragment_limit : ℕ
default_fragment_limit = 10
