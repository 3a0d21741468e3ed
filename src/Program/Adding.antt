-- ===== src/Program/Adding.antt =====
-- `aeron_async_add_publication_poll` as c-performance/aeron-lib/include/aeron/aeronc.h documents
-- it, and the loop of `main` that waits by it.
use aeron_fast.Base.{
  ℕ, zero, suc, ◌+◌, ◌≤◌, ◌<◌, ◌≡◌, refl, ap, Bool, true, false, arith, if◌then◌else◌,
}
use aeron_fast.Base.Int.{pos, negsuc, eqb_ℤ}
use aeron_fast.Program.{AddPoll, Ready, await_ready}

-- 0 is not complete, 1 is completed, with the pointer set, and -1 an error.
pub data Documented : AddPoll → Type 0 where
  pending : (b : Bool) → Documented (record { result = pos 0; stream_set = false; interrupted = b })
  completed :
      (b : Bool) → Documented (record { result = pos 1; stream_set = true; interrupted = b })
  failed :
      (b : Bool) → Documented (record { result = negsuc 0; stream_set = false; interrupted = b })

-- Why the wait ended with a stream, or without one, in one of the calls from `i` on.
pub data Outcome (polls : ℕ → AddPoll) (i fuel : ℕ) : Ready → Type 0 where
  added :
      (n : ℕ)
      → i ≤ n
      → n < i + fuel
      → (polls n).result ≡ pos 1
      → Outcome polls i fuel (Ready.done true)
  refused :
      (n : ℕ)
      → i ≤ n
      → n < i + fuel
      → (polls n).result ≡ negsuc 0
      → Outcome polls i fuel (Ready.done false)
  stopped :
      (n : ℕ)
      → i ≤ n
      → n < i + fuel
      → (polls n).interrupted ≡ true
      → Outcome polls i fuel Ready.interrupted
  exhausted : Outcome polls i fuel Ready.out_of_fuel

later :
    (polls : ℕ → AddPoll) (i fuel : ℕ) (r : Ready)
    → Outcome polls (suc i) fuel r
    → Outcome polls i (suc fuel) r
later polls i fuel _ (Outcome.added n p q e) = Outcome.added n (omega arith) (omega arith) e
later polls i fuel _ (Outcome.refused n p q e) = Outcome.refused n (omega arith) (omega arith) e
later polls i fuel _ (Outcome.stopped n p q e) = Outcome.stopped n (omega arith) (omega arith) e
later polls i fuel _ Outcome.exhausted = Outcome.exhausted

one_call :
    (polls : ℕ → AddPoll) (i fuel : ℕ) (poll : AddPoll) (rest : Ready)
    → polls i ≡ poll
    → Documented poll
    → Outcome polls (suc i) fuel rest
    → Outcome polls i (suc fuel) (
        if eqb_ℤ poll.result (pos 0)
        then (if poll.interrupted then Ready.interrupted else rest)
        else Ready.done poll.stream_set)
one_call polls i fuel _ rest e (Documented.pending true) o =
    Outcome.stopped i (omega arith) (omega arith) (ap (λ (p : AddPoll). p.interrupted) e)
one_call polls i fuel _ rest e (Documented.pending false) o = later polls i fuel rest o
one_call polls i fuel _ rest e (Documented.completed b) o =
    Outcome.added i (omega arith) (omega arith) (ap (λ (p : AddPoll). p.result) e)
one_call polls i fuel _ rest e (Documented.failed b) o =
    Outcome.refused i (omega arith) (omega arith) (ap (λ (p : AddPoll). p.result) e)

-- With a client that keeps to its documentation, the wait ends with a stream only after a call that
-- completed, without one only after a call that failed, and otherwise because of a signal.
pub await_ready-Outcome :
    (polls : ℕ → AddPoll)
    → ((n : ℕ) → Documented (polls n))
    → (fuel i : ℕ) → Outcome polls i fuel (await_ready fuel polls i)
unfolding await_ready
await_ready-Outcome polls documented zero i = Outcome.exhausted
await_ready-Outcome polls documented (suc fuel) i =
    one_call polls i fuel (polls i) (await_ready fuel polls (suc i)) refl (documented i)
      (await_ready-Outcome polls documented fuel (suc i))
