-- ===== src/Message/Bytes.antt =====
-- How an unsigned integer lies in memory, and the conversions of <endian.h>.
use aeron_fast.Base.{ℕ, zero, suc, ◌+◌, ◌*◌, ◌/◌, ◌%◌, List, [], ◌∷◌, reverse}

-- The byte order of the machine.
pub data Endian : Type 0 where
  little big : Endian

-- The lowest `k` bytes of `x`, lowest first.
abbrev pub le_bytes : ℕ → ℕ → List ℕ
le_bytes zero x = []
le_bytes (suc k) x = (x % 256) ∷ le_bytes k (x / 256)

abbrev pub of_le_bytes : List ℕ → ℕ
of_le_bytes [] = 0
of_le_bytes (b ∷ bs) = b + 256 * of_le_bytes bs

-- The eight bytes of a `uint64_t` object.
abbrev pub object_bytes : Endian → ℕ → List ℕ
object_bytes Endian.little x = le_bytes 8 x
object_bytes Endian.big x = reverse (le_bytes 8 x)

-- The `uint64_t` that eight bytes make.
abbrev pub of_object_bytes : Endian → List ℕ → ℕ
of_object_bytes Endian.little bs = of_le_bytes bs
of_object_bytes Endian.big bs = of_le_bytes (reverse bs)

abbrev pub bswap64 : ℕ → ℕ
bswap64 x = of_le_bytes (reverse (le_bytes 8 x))

-- `htobe64` and `be64toh` are the same conversion.
abbrev pub htobe64 : Endian → ℕ → ℕ
htobe64 Endian.little x = bswap64 x
htobe64 Endian.big x = x

abbrev pub be64toh : Endian → ℕ → ℕ
be64toh Endian.little x = bswap64 x
be64toh Endian.big x = x
