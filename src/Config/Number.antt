-- ===== src/Config/Number.antt =====
-- `atoi` and `atoll` of the C library as the option parser uses them, and the casts of their
-- results. Out of range, `atoll` stops at the ends of `long long`, and `atoi` keeps the low half of
-- such a value, as glibc does on a 64-bit machine.
pub mod Decimal
use aeron_fast.Base.{
  ℕ, ◌+◌, ◌-◌, ◌*◌, ◌%◌, ◌^◌, Bool, true, false, ◌&&◌, ◌||◌, List, [], ◌∷◌, ltb, leb, ◌==◌,
  if◌then◌else◌,
}
use aeron_fast.Base.Int.{ℤ, pos, negsuc}

abbrev pub is_digit : ℕ → Bool
is_digit c = leb b'0' c && leb c b'9'

-- `isspace` in the C locale
abbrev pub is_space : ℕ → Bool
is_space c = c == b' ' || (leb 9 c && leb c 13)

pub skip_spaces : List ℕ → List ℕ
skip_spaces [] = []
skip_spaces (c ∷ s) = if is_space c then skip_spaces s else c ∷ s

-- The number that the leading digits of a text make, after those of `acc`.
unfoldable pub read_digits : ℕ → List ℕ → ℕ
read_digits acc [] = acc
read_digits acc (c ∷ s) = if is_digit c then read_digits (acc * 10 + (c - b'0')) s else acc

-- The integer -n.
abbrev pub negate : ℕ → ℤ
negate n = if n == 0 then pos 0 else negsuc (n - 1)

-- `strtoll` after the sign: the digits, cut off at the ends of the type.
abbrev pub saturate : Bool → ℕ → ℤ
saturate negative n =
    if negative
    then negate (if ltb (2 ^ 63) n then 2 ^ 63 else n)
    else pos (if leb (2 ^ 63) n then 2 ^ 63 - 1 else n)

unfoldable pub read_signed : List ℕ → ℤ
read_signed [] = pos 0
read_signed (c ∷ s) =
    if c == b'-'
    then saturate true (read_digits 0 s)
    else if c == b'+'
    then saturate false (read_digits 0 s)
    else saturate false (read_digits 0 (c ∷ s))

unfoldable pub atoll : List ℕ → ℤ
unfolding read_signed skip_spaces
atoll s = read_signed (skip_spaces s)

-- The casts to `uint64_t` (and `size_t`), and to `int`.
abbrev pub to_u64 : ℤ → ℕ
to_u64 (pos n) = n % 2 ^ 64
to_u64 (negsuc n) = 2 ^ 64 - 1 - n % 2 ^ 64

abbrev pub to_int32 : ℤ → ℤ
to_int32 z = let w = to_u64 z % 2 ^ 32 in if ltb w (2 ^ 31) then pos w else negsuc (2 ^ 32 - 1 - w)

unfoldable pub atoi : List ℕ → ℤ
unfolding atoll
atoi s = to_int32 (atoll s)
