-- ===== src/Rate/Exact.antt =====
-- When the printed rates are the true ones.
use native.Mathlib.Nat.{div-add-mod', le-div_iff_mul-le}
use aeron_fast.Base.{ℕ, ◌+◌, ◌*◌, ◌/◌, ◌%◌, ◌^◌, ◌≤◌, ◌<◌, ◌≡◌, ap, arith}
use aeron_fast.Rate.{per_second, mebibytes_per_second}

-- The true rates, of unbounded numbers.
abbrev pub true_rate : ℕ → ℕ → ℕ
true_rate n duration = n * 10 ^ 9 / duration

abbrev pub true_mebibyte_rate : ℕ → ℕ → ℕ
true_mebibyte_rate bytes duration = bytes * 10 ^ 9 / duration / (1024 * 1024)

-- Both are right while the product stays below 2 ^ 64: up to 18446744073 messages, or bytes.
pub rates_exact :
    (n duration : ℕ)
    → n ≤ 18446744073
    → (per_second n duration ≡ true_rate n duration)
      × (mebibytes_per_second n duration ≡ true_mebibyte_rate n duration)
unfolding per_second mebibytes_per_second
rates_exact n duration h =
    let same : n * 10 ^ 9 % 2 ^ 64 ≡ n * 10 ^ 9 = omega arith in
    (ap (λ (m : ℕ). m / duration) same, ap (λ (m : ℕ). m / duration / (1024 * 1024)) same)

-- From 18446744074 bytes on, for any duration up to 2 ^ 44 nanoseconds (nearly five hours), the
-- printed bandwidth is below the true one. The default run of the subscriber, with 20000000
-- messages of 1024 bytes, is in this range.
pub mebibytes_per_second-lt :
    (bytes duration : ℕ)
    → 18446744074 ≤ bytes
    → 0 < duration
    → duration ≤ 2 ^ 44
    → mebibytes_per_second bytes duration < true_mebibyte_rate bytes duration
unfolding mebibytes_per_second
mebibytes_per_second-lt bytes duration large positive short =
    let product : ℕ = bytes * 10 ^ 9 in
    let wrapped : ℕ = product % 2 ^ 64 in
    let q : ℕ = wrapped / duration in
    let apart : wrapped + 2 ^ 64 ≤ product = omega arith in
    let below : q * duration ≤ wrapped = omega (arith, div-add-mod' wrapped duration) in
    let steps : (q + 1048576) * duration ≤ product = omega arith in
    let quotients : q + 1048576 ≤ product / duration = (le-div_iff_mul-le positive).1 steps in
    omega arith
