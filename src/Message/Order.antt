-- ===== src/Message/Order.antt =====
-- The byte-order conversions cancel: what is stored is the big-endian form on every machine.
use aeron_fast.Base.{ℕ, ◌/◌, ◌%◌, ◌^◌, ◌<◌, ◌≡◌, List, [], ◌∷◌, reverse, arith}
use aeron_fast.Message.Bytes.{
  Endian, le_bytes, of_le_bytes, object_bytes, of_object_bytes, bswap64, htobe64, be64toh,
}

-- The eight bytes of `x`, highest first: what a big-endian stream holds.
abbrev pub be_bytes : ℕ → List ℕ
be_bytes x =
    (x / 2 ^ 56 % 256)
    ∷ (x / 2 ^ 48 % 256)
    ∷ (x / 2 ^ 40 % 256)
    ∷ (x / 2 ^ 32 % 256)
    ∷ (x / 2 ^ 24 % 256)
    ∷ (x / 2 ^ 16 % 256)
    ∷ (x / 2 ^ 8 % 256)
    ∷ (x % 256)
    ∷ []

-- The number whose big-endian form is a list of bytes.
abbrev pub of_be_bytes : List ℕ → ℕ
of_be_bytes bs = of_le_bytes (reverse bs)

pub reverse-le_bytes : (x : ℕ) → reverse (le_bytes 8 x) ≡ be_bytes x
reverse-le_bytes x = ground arith

pub be_bytes-bswap64 : (x : ℕ) → le_bytes 8 (bswap64 x) ≡ be_bytes x
be_bytes-bswap64 x = ground arith

-- On a machine of either order, a stored `htobe64 x` is the big-endian form of `x`.
pub object_bytes-htobe64 : (host : Endian) (x : ℕ) → object_bytes host (htobe64 host x) ≡ be_bytes x
object_bytes-htobe64 Endian.little x = be_bytes-bswap64 x
object_bytes-htobe64 Endian.big x = reverse-le_bytes x

pub be64toh-be_bytes :
    (host : Endian) (x : ℕ) → x < 2 ^ 64 → be64toh host (of_object_bytes host (be_bytes x)) ≡ x
be64toh-be_bytes Endian.little x h = ground arith
be64toh-be_bytes Endian.big x h = ground arith
