-- ===== src/Message.antt =====
-- c-performance/src/binary_message.c and include/binary_message.h: the message of the test, an
-- eight-byte timestamp in network order and a fill pattern.
pub mod Bytes
pub mod Order
pub mod Layout
pub mod Packed
mod Tests
use aeron_fast.Base.{
  ℕ, zero, suc, ◌+◌, ◌-◌, ◌%◌, Bool, ◌&&◌, true, false, Option, none, some, List, [], ◌∷◌, ltb, leb,
  if◌then◌else◌, length, get_elem?, set, take, u8,
}
use Bytes.{Endian, object_bytes, of_object_bytes, htobe64, be64toh}

-- `TIMESTAMP_SIZE` and `MIN_MESSAGE_SIZE`
abbrev pub timestamp_size : ℕ
timestamp_size = 8

abbrev pub min_message_size : ℕ
min_message_size = timestamp_size

-- `buffer[i] = v`. A store outside the object is undefined in C: `none`.
pub store : List ℕ → ℕ → ℕ → Option (List ℕ)
store buffer i v = if ltb i (length buffer) then some (set buffer i v) else none

-- `memcpy(buffer + i, bytes, n)` for the bytes of a whole object.
pub copy_bytes : List ℕ → ℕ → List ℕ → Option (List ℕ)
copy_bytes buffer i [] = some buffer
copy_bytes buffer i (b ∷ bs) = elim (store buffer i b) [
  | none ↦ none
  | some buffer' ↦ copy_bytes buffer' (suc i) bs
]

-- The `for` loop of `create_binary_message` at index `i`, with `left` rounds to go.
pub fill : ℕ → ℕ → List ℕ → Option (List ℕ)
fill zero i buffer = some buffer
fill (suc left) i buffer = elim (store buffer i (u8 ((i - 8) % 256))) [
  | none ↦ none
  | some buffer' ↦ fill left (suc i) buffer'
]

-- `buffer` is the whole object that the pointer points to; `size` is what the caller says of it.
unfoldable pub create_binary_message : Endian → List ℕ → ℕ → ℕ → Option (List ℕ)
unfolding copy_bytes fill store
create_binary_message host buffer size timestamp =
    if ltb size min_message_size
    then some buffer
    else elim (copy_bytes buffer 0 (object_bytes host (htobe64 host timestamp))) [
      | none ↦ none
      | some buffer' ↦ fill (size - 8) 8 buffer'
    ]

-- `none` is a read past the end of the object.
unfoldable pub parse_binary_message_timestamp : Endian → List ℕ → Option ℕ
parse_binary_message_timestamp host buffer =
    if ltb (length buffer) 8
    then none
    else some (be64toh host (of_object_bytes host (take 8 buffer)))

-- A null pointer is `none`.
unfoldable pub validate_binary_message : Option (List ℕ) → ℕ → Bool
validate_binary_message none size = false
validate_binary_message (some buffer) size = leb min_message_size size
