-- ===== src/Message/Tests.antt =====
-- Messages built and read at concrete inputs.
use aeron_fast.Base.{ℕ, ◌≡◌, refl, none, some, List, [], ◌∷◌, ◌++◌, arith, length, replicate, drop}
use aeron_fast.Message.Bytes.{Endian}
use aeron_fast.Message.Order.{be_bytes}
use aeron_fast.Message.Layout.{ramp, create_binary_message_layout, parse-create_binary_message}
use aeron_fast.Message.{create_binary_message, parse_binary_message_timestamp}

abbrev blank : List ℕ
blank = replicate 12 7

created :
    create_binary_message Endian.little blank 11 0x0102_0304_0506_0708
    ≡ some (1 ∷ 2 ∷ 3 ∷ 4 ∷ 5 ∷ 6 ∷ 7 ∷ 8 ∷ 0 ∷ 1 ∷ 2 ∷ 7 ∷ [])
unfolding create_binary_message
created = refl

-- A size larger than the object writes outside it.
overrun : create_binary_message Endian.big blank 13 1 ≡ none
unfolding create_binary_message
overrun = refl

create_binary_message_layout_example :
    create_binary_message Endian.big blank 11 259
    ≡ some (be_bytes 259 ++ (ramp 0 3 ++ drop 11 blank))
create_binary_message_layout_example =
    create_binary_message_layout Endian.big blank 11 259 (omega arith) (omega arith)

parse-create_binary_message_example :
    (message : List ℕ) × (create_binary_message Endian.little blank 12 1700000000123456789
      ≡ some message)
    × (length message ≡ 12)
    × (parse_binary_message_timestamp Endian.big message ≡ some 1700000000123456789)
parse-create_binary_message_example =
    parse-create_binary_message Endian.little Endian.big blank 12 1700000000123456789 (omega arith)
      (omega arith) (omega arith)
