-- ===== src/Message/Layout.antt =====
-- What `create_binary_message` leaves in the buffer, and what the reader gets back.
use mathlib.Core.List.{append_assoc}
use aeron_fast.Base.{
  ℕ, zero, suc, ◌+◌, ◌-◌, ◌%◌, ◌^◌, ◌≤◌, ◌<◌, ◌≡◌, ◌≢◌, ◌↔◌, refl, ap, ◌∙◌, none, some, true, List,
  [], ◌∷◌, ◌++◌, arith, length, drop, set-append, length-append, lt→ltb, le→ltb_false, drop-drop,
  length-drop, set, length-set,
}
use aeron_fast.Message.Bytes.{Endian}
use aeron_fast.Message.Order.{be_bytes, object_bytes-htobe64, be64toh-be_bytes}
use aeron_fast.Message.{
  store, copy_bytes, fill, create_binary_message, parse_binary_message_timestamp,
  validate_binary_message,
}

-- The fill pattern from its `i`th byte on: 0, 1, …, 255, 0, 1, ….
abbrev pub ramp : ℕ → ℕ → List ℕ
ramp i zero = []
ramp i (suc n) = (i % 256) ∷ ramp (suc i) n

store-append :
    (pre : List ℕ) (y v : ℕ) (ys : List ℕ)
    → store (pre ++ y ∷ ys) (length pre) v ≡ some (pre ++ v ∷ ys)
unfolding store
store-append pre y v ys =
    rw (lt→ltb (length pre) (length (pre ++ y ∷ ys)) (omega (arith, length-append pre (y ∷ ys))))
      (ap some (set-append pre y v ys))

-- A store inside the object succeeds and keeps its length.
pub store_total :
    (buffer : List ℕ) (i v : ℕ)
    → i < length buffer
    → (buffer' : List ℕ) × (store buffer i v ≡ some buffer') × (length buffer' ≡ length buffer)
unfolding store
store_total buffer i v h = (set buffer i v, rw (lt→ltb _ _ h), length-set buffer i v)

snoc-append : (pre : List ℕ) (v : ℕ) (ys : List ℕ) → (pre ++ v ∷ []) ++ ys ≡ pre ++ v ∷ ys
snoc-append pre v ys = append_assoc pre (v ∷ []) ys

length-snoc : (pre : List ℕ) (v : ℕ) → length (pre ++ v ∷ []) ≡ suc (length pre)
length-snoc pre v = omega (arith, length-append pre (v ∷ []))

copy_bytes-append :
    (pre buffer bs : List ℕ)
    → length bs ≤ length buffer
    → copy_bytes (pre ++ buffer) (length pre) bs ≡ some (pre ++ (bs ++ drop (length bs) buffer))
unfolding copy_bytes
copy_bytes-append pre buffer [] h = refl
copy_bytes-append pre [] (b ∷ bs) h = absurd (omega arith)
copy_bytes-append pre (y ∷ ys) (b ∷ bs) h =
    let ih = copy_bytes-append (pre ++ b ∷ []) ys bs (omega arith) in
    let step = rw (length-snoc pre b, snoc-append pre b ys, snoc-append) at ih in
    rw (copy_bytes, store-append pre y b ys) step

fill-append :
    (n k : ℕ) (pre buffer : List ℕ)
    → length pre ≡ k + 8
    → n ≤ length buffer
    → fill n (length pre) (pre ++ buffer) ≡ some (pre ++ (ramp k n ++ drop n buffer))
unfolding fill
fill-append zero k pre buffer e h = refl
fill-append (suc n) k pre [] e h = absurd (omega arith)
fill-append (suc n) k pre (y ∷ ys) e h =
    let v : ℕ = k % 256 in
    let ih =
      fill-append n (suc k) (pre ++ v ∷ []) ys (omega (arith, length-snoc pre v)) (omega arith) in
    let step = rw (length-snoc pre v, snoc-append pre v ys, snoc-append) at ih in
    let same : (length pre - 8) % 256 % 2 ^ 8 ≡ v = omega arith in
    rw (fill, same, store-append pre y v ys) step

-- With room for the message, `create_binary_message` stays inside the buffer. It writes the
-- timestamp in big-endian order, the pattern from 0 up, and leaves what lies past `size` alone.
-- So the result does not depend on the byte order of the machine, nor on what the first `size`
-- bytes held before.
pub create_binary_message_layout :
    (host : Endian) (buffer : List ℕ) (size timestamp : ℕ)
    → 8 ≤ size
    → size ≤ length buffer
    → create_binary_message host buffer size timestamp
      ≡ some (be_bytes timestamp ++ (ramp 0 (size - 8) ++ drop size buffer))
unfolding create_binary_message
create_binary_message_layout host buffer size timestamp h fits =
    let rest : drop (size - 8) (drop 8 buffer) ≡ drop size buffer =
      drop-drop 8 (size - 8) buffer ∙ ap (λ (k : ℕ). drop k buffer) (omega arith) in
    let filled =
      fill-append (size - 8) 0 (be_bytes timestamp) (drop 8 buffer) refl
        (omega (arith, length-drop 8 buffer)) in
    rw
      (
        le→ltb_false _ _ h,
        object_bytes-htobe64 host timestamp,
        copy_bytes-append [] buffer (be_bytes timestamp) (omega arith),
      )
      (rw rest at filled)

-- A size below the minimum changes nothing.
pub create_binary_message_small :
    (host : Endian) (buffer : List ℕ) (size timestamp : ℕ)
    → size < 8
    → create_binary_message host buffer size timestamp ≡ some buffer
unfolding create_binary_message
create_binary_message_small host buffer size timestamp h = rw (lt→ltb _ _ h)

pub parse_be_bytes :
    (host : Endian) (x : ℕ) (rest : List ℕ)
    → x < 2 ^ 64
    → parse_binary_message_timestamp host (be_bytes x ++ rest) ≡ some x
unfolding parse_binary_message_timestamp
parse_be_bytes host x rest h =
    rw (le→ltb_false 8 (length (be_bytes x ++ rest)) (omega arith))
      (ap some (be64toh-be_bytes host x h))

pub length-ramp : (k n : ℕ) → length (ramp k n) ≡ n
length-ramp k zero = refl
length-ramp k (suc n) = ap suc (length-ramp (suc k) n)

-- A message that one machine creates in a buffer with room for it gives its timestamp back to a
-- reader on a machine of either byte order.
pub parse-create_binary_message :
    (writer reader : Endian) (buffer : List ℕ) (size timestamp : ℕ)
    → 8 ≤ size
    → size ≤ length buffer
    → timestamp < 2 ^ 64
    → (message : List ℕ) × (create_binary_message writer buffer size timestamp ≡ some message)
      × (length message ≡ length buffer)
      × (parse_binary_message_timestamp reader message ≡ some timestamp)
parse-create_binary_message writer reader buffer size timestamp h fits small = (
  be_bytes timestamp ++ (ramp 0 (size - 8) ++ drop size buffer),
  create_binary_message_layout writer buffer size timestamp h fits,
  omega (
    arith,
    length-append (ramp 0 (size - 8)) (drop size buffer),
    length-ramp 0 (size - 8),
    length-drop size buffer,
  ),
  parse_be_bytes reader timestamp _ small,
)

-- A buffer that `validate_binary_message` accepts, with the size of its object, has a timestamp to
-- read; one that it refuses has none.
pub validate_binary_message_iff :
    (host : Endian) (buffer : List ℕ)
    → (validate_binary_message (some buffer) (length buffer) ≡ true)
      ↔ (parse_binary_message_timestamp host buffer ≢ none)
unfolding validate_binary_message parse_binary_message_timestamp
validate_binary_message_iff host buffer = ground arith
