-- ===== src/Program/Wait.antt =====
-- When the wait for a connection ends.
use aeron_fast.Base.{
  ℕ, zero, suc, ◌+◌, ◌≤◌, ◌<◌, ◌≡◌, refl, sym, ◌⊎◌, inl, inr, true, false, Bool, some, arith, ltb,
  Bool-cases,
}
use aeron_fast.Base.Int.{ℤ}
use aeron_fast.Common.{error_success, error_timeout}
use aeron_fast.Program.{wait_loop}

-- In test `n` there was a connection, or the time was over.
abbrev pub Over : ℕ → ℕ → (ℕ → Bool) → (ℕ → ℕ) → ℕ → Type 0
Over timeout start is_connected time n = (is_connected n ≡ true) ⊎ (start + timeout < time n)

-- In no test from `i` up to before `n` was there a connection, nor was the time over.
abbrev pub Waited : ℕ → ℕ → (ℕ → Bool) → (ℕ → ℕ) → ℕ → ℕ → Type 0
Waited timeout start is_connected time i n =
    (k : ℕ) → i ≤ k → k < n → (is_connected k ≡ false) × (time k ≤ start + timeout)

-- What a wait returns, with the test `n` that ended it.
pub data WaitEnd (timeout start : ℕ) (is_connected : ℕ → Bool) (time : ℕ → ℕ) (i : ℕ)
    : ℤ → Type 0 where
  connected :
      (n : ℕ)
      → is_connected n ≡ true
      → Waited timeout start is_connected time i n
      → WaitEnd timeout start is_connected time i error_success
  timed_out :
      (n : ℕ)
      → is_connected n ≡ false
      → start + timeout < time n
      → Waited timeout start is_connected time i n
      → WaitEnd timeout start is_connected time i error_timeout

pub eq_or_later : (i k : ℕ) → i ≤ k → (i ≡ k) ⊎ (suc i ≤ k)
eq_or_later i k p = omega arith

not-Over :
    (timeout start : ℕ) (is_connected : ℕ → Bool) (time : ℕ → ℕ) (i : ℕ)
    → is_connected i ≡ false
    → time i ≤ start + timeout
    → Over timeout start is_connected time i
    → ⊥
not-Over timeout start is_connected time i c t o = ground arith

next_one :
    (timeout start : ℕ) (is_connected : ℕ → Bool) (time : ℕ → ℕ) (i n : ℕ)
    → Over timeout start is_connected time n
    → is_connected i ≡ false
    → time i ≤ start + timeout
    → i ≤ n
    → suc i ≤ n
next_one timeout start is_connected time i n o c t p = elim (eq_or_later i n p) [
  | inl e ↦ absurd (not-Over timeout start is_connected time i c t (rw (sym e) at o))
  | inr later ↦ later
]

module _ (timeout start : ℕ) (is_connected : ℕ → Bool) (time : ℕ → ℕ) where
  earlier :
      (i n : ℕ)
      → is_connected i ≡ false
      → time i ≤ start + timeout
      → Waited timeout start is_connected time (suc i) n
      → Waited timeout start is_connected time i n
  earlier i n c t w k p q = elim (eq_or_later i k p) [
    | inl e ↦ rw (sym e) ((c, t))
    | inr later ↦ w k later q
  ]

  later_end :
      (i : ℕ) (code : ℤ)
      → is_connected i ≡ false
      → time i ≤ start + timeout
      → WaitEnd timeout start is_connected time (suc i) code
      → WaitEnd timeout start is_connected time i code
  later_end i _ c t (WaitEnd.connected n e w) = WaitEnd.connected n e (earlier i n c t w)
  later_end i _ c t (WaitEnd.timed_out n e o w) = WaitEnd.timed_out n e o (earlier i n c t w)

  wait_loop-WaitEnd :
      (fuel i n : ℕ)
      → Over timeout start is_connected time n
      → i ≤ n
      → n < i + fuel
      → (code : ℤ) × (wait_loop fuel timeout start is_connected time i ≡ some code)
        × WaitEnd timeout start is_connected time i code
  unfolding wait_loop
  wait_loop-WaitEnd zero i n o p q = absurd (omega arith)
  wait_loop-WaitEnd (suc fuel) i n o p q = elim (Bool-cases (is_connected i)) [
    | inl c ↦ (error_success, rw c refl, WaitEnd.connected i c (λ k a b. absurd (omega arith)))
    | inr c ↦ elim (Bool-cases (ltb (start + timeout) (time i))) [
      | inl t ↦ (
        error_timeout,
        rw (c, t) refl,
        WaitEnd.timed_out i c (ground arith) (λ k a b. absurd (omega arith)),
      )
      | inr t ↦
          (let (code, e, w) =
              wait_loop-WaitEnd fuel (suc i) n o
                (next_one timeout start is_connected time i n o c (ground arith) p) (omega arith) in
            (code, rw (c, t) e, later_end i code c (ground arith) w))
    ]
  ]

-- If in one of the first `fuel` tests there is a connection, or the time is over, the wait ends at
-- the first such test. It returns ERROR_SUCCESS exactly when that test finds a connection, also if
-- the time is over by then, and otherwise ERROR_TIMEOUT.
pub wait_for_connection-WaitEnd :
    (fuel timeout start : ℕ) (is_connected : ℕ → Bool) (time : ℕ → ℕ) (n : ℕ)
    → n < fuel
    → Over timeout start is_connected time n
    → (code : ℤ) × (wait_loop fuel timeout start is_connected time 0 ≡ some code)
      × WaitEnd timeout start is_connected time 0 code
wait_for_connection-WaitEnd fuel timeout start is_connected time n p o =
    wait_loop-WaitEnd timeout start is_connected time fuel 0 n o (omega arith) (omega arith)
