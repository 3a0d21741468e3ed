-- ===== src/Program/Exits.antt =====
-- When `main` gets to its end.
use aeron_fast.Common.{error_success}
use aeron_fast.Base.{
  ℕ, zero, suc, ◌+◌, ◌≤◌, ◌<◌, ◌≡◌, sym, ◌⊎◌, inl, inr, true, false, Bool, some, arith, Bool-cases,
  List, [], ◌↔◌, Option, refl,
}
use aeron_fast.Base.Int.{ℤ, pos, eqb_ℤ}
use aeron_fast.Program.{
  Exit, AddPoll, Ready, Environment, await_ready, from_ready, from_stream, main_after_options,
  main_with, Event,
}
use aeron_fast.Program.Wait.{Over, wait_for_connection-WaitEnd, eq_or_later}
use aeron_fast.Program.Closing.{options_by, IsClean, open_after, has_run}

-- Call `n` of the poll for the stream ends the wait for it.
abbrev pub Settled : (ℕ → AddPoll) → ℕ → Type 0
Settled polls n = (eqb_ℤ (polls n).result (pos 0) ≡ false) ⊎ ((polls n).interrupted ≡ true)

abbrev pub IsExit : Exit → Type 0
IsExit Exit.unfinished = ⊥
IsExit (Exit.exits code events) = Unit {0}

-- The stream is there, or is given up, and so is the connection, within `fuel` rounds.
pub record Answers (fuel : ℕ) (env : Environment) : Type 0 where
  pub poll : ℕ
  pub poll_in_time : poll < fuel
  pub settled : Settled env.add_polls poll
  pub look : ℕ
  pub look_in_time : look < fuel
  pub over : Over 30 env.start_time env.is_connected env.time look

abbrev HasEnded : Ready → Type 0
HasEnded Ready.out_of_fuel = ⊥
HasEnded _ = Unit {0}

unsettled :
    (polls : ℕ → AddPoll) (i : ℕ)
    → eqb_ℤ (polls i).result (pos 0) ≡ true
    → (polls i).interrupted ≡ false
    → Settled polls i
    → ⊥
unsettled polls i p q (inl s) = ground (arith, p, s)
unsettled polls i p q (inr s) = ground (arith, q, s)

Settled-later :
    (polls : ℕ → AddPoll) (i n : ℕ)
    → Settled polls n
    → eqb_ℤ (polls i).result (pos 0) ≡ true
    → (polls i).interrupted ≡ false
    → i ≤ n
    → suc i ≤ n
Settled-later polls i n s p q le = elim (eq_or_later i n le) [
  | inl e ↦ absurd (unsettled polls i p q (rw (sym e) at s))
  | inr later ↦ later
]

await_ready_ends :
    (polls : ℕ → AddPoll) (n fuel i : ℕ)
    → Settled polls n
    → i ≤ n
    → n < i + fuel
    → HasEnded (await_ready fuel polls i)
unfolding await_ready
await_ready_ends polls n zero i s p q = absurd (omega arith)
await_ready_ends polls n (suc fuel) i s p q = elim (Bool-cases (eqb_ℤ (polls i).result (pos 0))) [
  | inl a ↦ elim (Bool-cases (polls i).interrupted) [
    | inl b ↦ rw (a, b) tt
    | inr b ↦
        rw (a, b)
          (await_ready_ends polls n fuel (suc i) s (Settled-later polls i n s a b p) (omega arith))
  ]
  | inr a ↦ rw a tt
]

from_stream_exits :
    (fuel : ℕ) (ipc : Bool) (env : Environment) (code : ℤ)
    → Answers fuel env
    → IsExit (from_stream fuel ipc env (some code))
from_stream_exits fuel true env code a = tt
from_stream_exits fuel false env code a =
    let (c, e, w) =
      wait_for_connection-WaitEnd fuel 30 env.start_time env.is_connected env.time a.look
        a.look_in_time a.over in
    rw e tt

from_ready_exits :
    (fuel : ℕ) (ipc : Bool) (env : Environment) (code : ℤ) (ready : Ready)
    → Answers fuel env
    → HasEnded ready
    → IsExit (from_ready fuel ipc env (some code) ready)
from_ready_exits fuel ipc env code (Ready.done true) a h = from_stream_exits fuel ipc env code a
from_ready_exits fuel ipc env code (Ready.done false) a h = tt
from_ready_exits fuel ipc env code Ready.interrupted a h = tt
from_ready_exits fuel ipc env code Ready.out_of_fuel a h = absurd h

-- With an Aeron client that answers, and a main loop that returns, the rest of `main` exits.
pub options_exit :
    (fuel : ℕ) (ipc : Bool) (env : Environment) (code : ℤ)
    → Answers fuel env
    → IsExit (main_after_options fuel ipc env (some code))
options_exit fuel ipc env code a = options_by IsExit fuel ipc env (some code) tt tt tt (
    from_ready_exits fuel ipc env code (await_ready fuel env.add_polls 0) a (
      await_ready_ends env.add_polls a.poll fuel 0 a.settled (omega arith)
        (omega (arith, a.poll_in_time))))

-- An exit of `main` that leaves nothing open, with what its code means.
pub record Leaves (help : Bool) (result : Option ℤ) (exit : Exit) : Type 0 where
  pub code : ℤ
  pub events : List Event
  pub exited : exit ≡ Exit.exits code events
  pub released : open_after [] events ≡ some []
  pub meaning :
      (code ≡ pos 0) ↔ ((help ≡ true) ⊎ ((has_run events ≡ true) × (result ≡ some error_success)))

pub exit-Leaves :
    (help : Bool) (result : Option ℤ) (exit : Exit)
    → IsExit exit
    → IsClean help result exit
    → Leaves help result exit
exit-Leaves help result Exit.unfinished e clean = absurd e
exit-Leaves help result (Exit.exits code events) e clean = record {
  code = code;
  events = events;
  exited = refl;
  released = clean.0;
  meaning = clean.1;
}

-- `main` exits in the same way whatever it would go on to, if the options end it.
pub main_with_ends :
    (parse_result : ℤ) (rest : Exit)
    → eqb_ℤ parse_result error_success ≡ false
    → IsExit (main_with parse_result rest)
main_with_ends parse_result rest p = elim (Bool-cases (eqb_ℤ parse_result (pos 1))) [
  | inl q ↦ rw (p, q) tt
  | inr q ↦ rw (p, q) tt
]
