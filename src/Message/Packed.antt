-- ===== src/Message/Packed.antt =====
-- `binary_message_t` of c-performance/include/binary_message.h: the packed structure that the
-- message of `create_binary_message` is.
use aeron_fast.Base.{
  ℕ, ◌-◌, ◌≤◌, ◌≡◌, sym, ap, ◌∙◌, Option, none, some, List, ◌++◌, arith, length, take, drop, ltb,
  if◌then◌else◌,
}
use mathlib.Core.List.{append_assoc}
use mathlib.Core.Option
use aeron_fast.Message.Bytes.{Endian, object_bytes, of_object_bytes, htobe64, be64toh}
use aeron_fast.Message.Order.{be_bytes, object_bytes-htobe64}
use aeron_fast.Message.Layout.{ramp, create_binary_message_layout}
use aeron_fast.Message.{create_binary_message, parse_binary_message_timestamp}

-- `binary_message_t`. `data` is its flexible array.
pub record BinaryMessage : Type 0 where
  pub timestamp_be : ℕ
  pub data_bytes : List ℕ

-- The bytes of the structure: packed, so nothing lies between its members.
abbrev pub bytes_of : Endian → BinaryMessage → List ℕ
bytes_of host m = object_bytes host m.timestamp_be ++ m.data_bytes

-- The structure that a pointer to a buffer points to, if the buffer is large enough for it.
abbrev pub view : Endian → List ℕ → Option BinaryMessage
view host buffer =
    if ltb (length buffer) 8
    then none
    else some
        (record { timestamp_be = of_object_bytes host (take 8 buffer); data_bytes = drop 8 buffer })

-- The structure of a message of a size: the timestamp in network order and the fill pattern.
abbrev pub message_of : Endian → ℕ → ℕ → BinaryMessage
message_of host size timestamp = record {
  timestamp_be = htobe64 host timestamp;
  data_bytes = ramp 0 (size - 8);
}

-- `create_binary_message` writes the bytes of that structure, and no others.
pub create_binary_message-bytes_of :
    (host : Endian) (buffer : List ℕ) (size timestamp : ℕ)
    → 8 ≤ size
    → size ≤ length buffer
    → create_binary_message host buffer size timestamp
      ≡ some (bytes_of host (message_of host size timestamp) ++ drop size buffer)
create_binary_message-bytes_of host buffer size timestamp h fits =
    create_binary_message_layout host buffer size timestamp h fits
    ∙ ap some (
        rw (object_bytes-htobe64 host timestamp)
          (sym (append_assoc (be_bytes timestamp) (ramp 0 (size - 8)) (drop size buffer))))

-- The reader takes the timestamp from the structure that it views.
pub parse-view :
    (host : Endian) (buffer : List ℕ)
    → parse_binary_message_timestamp host buffer
      ≡ Option.map (λ (m : BinaryMessage). be64toh host m.timestamp_be) (view host buffer)
unfolding parse_binary_message_timestamp
parse-view host buffer = ground arith
