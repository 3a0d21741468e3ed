-- ===== src/Base/Word.antt =====
-- Unsigned machine words as native numbers, with the wrap-around of C written out.
use Prim.Native.Nat.{ℕ, ◌+◌, ◌-◌, ◌*◌, ◌%◌, ◌^◌, ◌<◌}

abbrev pub u64_mod : ℕ
u64_mod = 2 ^ 64

abbrev pub u64_max : ℕ
u64_max = 2 ^ 64 - 1

abbrev pub u8 : ℕ → ℕ
u8 n = n % 2 ^ 8

abbrev pub u64 : ℕ → ℕ
u64 n = n % 2 ^ 64

-- `uint64_t` a + b, a - b and a * b. `-` on ℕ stops at 0, so the modulus is added first.
abbrev pub add64 : ℕ → ℕ → ℕ
add64 a b = (a + b) % 2 ^ 64

abbrev pub sub64 : ℕ → ℕ → ℕ
sub64 a b = (a + 2 ^ 64 - b) % 2 ^ 64

abbrev pub mul64 : ℕ → ℕ → ℕ
mul64 a b = a * b % 2 ^ 64

abbrev pub IsU64 : ℕ → Type 0
IsU64 n = n < 2 ^ 64
