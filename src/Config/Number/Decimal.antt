-- ===== src/Config/Number/Decimal.antt =====
-- Numbers read back from their decimal form.
use mathlib.Core.Path.{subst}
use native.Mathlib.Nat.{pow-suc}
use aeron_fast.Base.{
  ℕ, zero, suc, ◌+◌, ◌-◌, ◌*◌, ◌/◌, ◌%◌, ◌^◌, ◌<◌, ◌≡◌, refl, true, List, [], ◌∷◌, ◌++◌, arith, ltb,
  if◌then◌else◌, lt→ltb, Bool-cases, inl, inr, ◌∙◌,
}
use aeron_fast.Base.Int.{pos}
use aeron_fast.Config.Number.{is_digit, read_digits, atoll}

-- The decimal digits of `n`, at most `fuel` of them, highest first.
pub decimal : ℕ → ℕ → List ℕ
decimal zero n = []
decimal (suc fuel) n =
    let more = decimal fuel (n / 10) in
    if ltb n 10 then (n + b'0') ∷ [] else more ++ (n % 10 + b'0') ∷ []

abbrev AllDigits : List ℕ → Type 0
AllDigits [] = Unit {0}
AllDigits (c ∷ s) = (is_digit c ≡ true) × AllDigits s

read_digits-snoc :
    (acc : ℕ) (s : List ℕ) (d : ℕ)
    → AllDigits s
    → d < 10
    → read_digits acc (s ++ (d + b'0') ∷ []) ≡ read_digits acc s * 10 + d
unfolding read_digits
read_digits-snoc acc [] d h lt = ground arith
read_digits-snoc acc (c ∷ s) d h lt =
    ground (arith, read_digits-snoc (acc * 10 + (c - b'0')) s d h.1 lt)

AllDigits-snoc : (s : List ℕ) (d : ℕ) → AllDigits s → d < 10 → AllDigits (s ++ (d + b'0') ∷ [])
AllDigits-snoc [] d h lt = ground arith
AllDigits-snoc (c ∷ s) d h lt = ground (arith, AllDigits-snoc s d h.1 lt)

-- Digits are digits, and there is at least one.
abbrev IsDecimal : List ℕ → ℕ → Type 0
IsDecimal s n = AllDigits s × (read_digits 0 s ≡ n) × (c : ℕ) × (t : List ℕ) × (s ≡ c ∷ t)

decimal-IsDecimal : (fuel n : ℕ) → n < 10 ^ suc fuel → IsDecimal (decimal (suc fuel) n) n
unfolding decimal read_digits
decimal-IsDecimal zero n h =
    let small : n < 10 = omega arith in
    rw (lt→ltb n 10 small) (ground arith, ground arith, n + b'0', [], refl)
decimal-IsDecimal (suc f) n h = elim (Bool-cases (ltb n 10)) [
  | inl small ↦ rw small (ground arith, ground arith, n + b'0', [], refl)
  | inr large ↦
      let below : n / 10 < 10 ^ suc f = omega (arith, pow-suc 10 (suc f)) in
      let (digits, reads, c, t, e) = decimal-IsDecimal f (n / 10) below in
      rw large (
        AllDigits-snoc _ (n % 10) digits (omega arith),
        read_digits-snoc 0 _ (n % 10) digits (omega arith) ∙ omega (arith, reads),
        c,
        t ++ (n % 10 + b'0') ∷ [],
        rw e,
      )
]

atoll-digits :
    (c : ℕ) (t : List ℕ) (n : ℕ)
    → is_digit c ≡ true
    → read_digits 0 (c ∷ t) ≡ n
    → n < 2 ^ 63
    → atoll (c ∷ t) ≡ pos n
unfolding atoll
atoll-digits c t n d reads h = ground arith

-- `atoll` reads back every number below 2 ^ 63 from its decimal digits, of which there are at most
-- 19.
pub atoll-decimal : (n : ℕ) → n < 2 ^ 63 → atoll (decimal 19 n) ≡ pos n
atoll-decimal n h =
    let (digits, reads, c, t, e) = decimal-IsDecimal 18 n (omega arith) in
    let (first, rest) = subst AllDigits e digits in
    rw e (atoll-digits c t n first (rw e at reads) h)
