-- ===== src/Program/Client.antt =====
-- The calls of `main` that set the Aeron client up, as
-- c-performance/aeron-lib/include/aeron/aeronc.h documents their results.
use aeron_fast.Base.{ℕ, ◌≡◌, refl, ◌↔◌, Bool, true, false, some, List, arith, if◌then◌else◌}
use aeron_fast.Base.Int.{ℤ, pos, negsuc, ltb_ℤ}
use aeron_fast.Program.{
  Event, Exit, Ready, Environment, await_ready, from_stream, from_ready, main_after_options,
}
use aeron_fast.Program.Closing.{has_run}
use aeron_fast.Program.Exits.{Answers}
use aeron_fast.Program.Wait.{wait_for_connection-WaitEnd}
use aeron_fast.Program.Adding.{Documented}

-- 0 for success and -1 for error.
pub data IsStatus : ℤ → Type 0 where
  success : IsStatus (pos 0)
  error : IsStatus (negsuc 0)

-- What the header says of the five calls, and of those that wait for the stream.
pub record IsClient (env : Environment) : Type 0 where
  pub context_init : IsStatus env.context_init
  pub context_set_dir : IsStatus env.context_set_dir
  pub aeron_init : IsStatus env.aeron_init
  pub aeron_start : IsStatus env.aeron_start
  pub add_stream : IsStatus env.add_stream
  pub add_polls : (n : ℕ) → Documented (env.add_polls n)

-- All five have succeeded.
pub record HasOpened (env : Environment) : Type 0 where
  pub context_init : env.context_init ≡ pos 0
  pub context_set_dir : env.context_set_dir ≡ pos 0
  pub aeron_init : env.aeron_init ≡ pos 0
  pub aeron_start : env.aeron_start ≡ pos 0
  pub add_stream : env.add_stream ≡ pos 0

-- `main` has called its main loop.
pub data Runs : Exit → Type 0 where
  ran : {code : ℤ} (events : List Event) → has_run events ≡ true → Runs (Exit.exits code events)

ran_past :
    {a : ℤ} {stop rest : Exit}
    → IsStatus a
    → (Runs stop → ⊥)
    → Runs (if ltb_ℤ a (pos 0) then stop else rest)
    → (a ≡ pos 0) × Runs rest
ran_past success quiet run = (refl, run)
ran_past error quiet run = absurd (quiet run)

goes_on :
    {a : ℤ} (stop : Exit) {rest : Exit}
    → a ≡ pos 0
    → Runs rest
    → Runs (if ltb_ℤ a (pos 0) then stop else rest)
goes_on stop e run = rw e run

quiet :
    {code : ℤ} {events : List Event} → has_run events ≡ false → Runs (Exit.exits code events) → ⊥
quiet p (ran _ q) = ground arith

not_unfinished : {e : Exit} → e ≡ Exit.unfinished → Runs e → ⊥
not_unfinished p (ran _ _) = cc

from_stream-Runs :
    (fuel : ℕ) (ipc : Bool) (env : Environment) (r : ℤ)
    → Answers fuel env
    → Runs (from_stream fuel ipc env (some r))
from_stream-Runs fuel true env r a = ran _ refl
from_stream-Runs fuel false env r a =
    let (c, e, w) =
      wait_for_connection-WaitEnd fuel 30 env.start_time env.is_connected env.time a.look
        a.look_in_time a.over in
    rw e (ran _ refl)

from_ready-Runs :
    (fuel : ℕ) (ipc : Bool) (env : Environment) (r : ℤ) (ready : Ready)
    → Answers fuel env
    → Runs (from_ready fuel ipc env (some r) ready) ↔ (ready ≡ Ready.done true)
from_ready-Runs fuel ipc env r (Ready.done true) a =
    ((λ _. refl), (λ _. from_stream-Runs fuel ipc env r a))
from_ready-Runs fuel ipc env r (Ready.done false) a = ((λ run. absurd (quiet refl run)), (λ e. cc))
from_ready-Runs fuel ipc env r Ready.interrupted a = ((λ run. absurd (quiet refl run)), (λ e. cc))
from_ready-Runs fuel ipc env r Ready.out_of_fuel a =
    ((λ run. absurd (not_unfinished refl run)), (λ e. cc))

-- With an Aeron client that keeps to its documentation, and that settles the stream and the wait
-- for a connection within the fuel: `main` calls its main loop exactly when all five calls that set
-- the client up succeed and the wait for the stream ends with one.
pub main_after_options-Runs :
    (fuel : ℕ) (ipc : Bool) (env : Environment) (r : ℤ)
    → IsClient env
    → Answers fuel env
    → Runs (main_after_options fuel ipc env (some r))
      ↔ (HasOpened env × (await_ready fuel env.add_polls 0 ≡ Ready.done true))
unfolding main_after_options
main_after_options-Runs fuel ipc env r client answers =
    let ready = from_ready-Runs fuel ipc env r (await_ready fuel env.add_polls 0) answers in
    (
      (λ run₀.
          let (a, run₁) = ran_past client.context_init (quiet refl) run₀ in
          let (b, run₂) = ran_past client.context_set_dir (quiet refl) run₁ in
          let (c, run₃) = ran_past client.aeron_init (quiet refl) run₂ in
          let (d, run₄) = ran_past client.aeron_start (quiet refl) run₃ in
          let (e, run₅) = ran_past client.add_stream (quiet refl) run₄ in
          (
            record {
              context_init = a;
              context_set_dir = b;
              aeron_init = c;
              aeron_start = d;
              add_stream = e;
            },
            ready.0 run₅,
          )),
      (λ (opened, added). goes_on _ opened.context_init (
          goes_on _ opened.context_set_dir (
            goes_on _ opened.aeron_init
              (goes_on _ opened.aeron_start (goes_on _ opened.add_stream (ready.1 added)))))),
    )
