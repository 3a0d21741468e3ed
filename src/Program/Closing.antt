-- ===== src/Program/Closing.antt =====
-- Every resource that is opened is closed.
use aeron_fast.Base.{
  ℕ, ◌≡◌, refl, ◌⊎◌, inl, inr, true, false, Bool, Option, none, some, List, [], ◌∷◌, arith,
  if◌then◌else◌, Bool-cases, ◌↔◌,
}
use aeron_fast.Base.Int.{ℤ, pos, ltb_ℤ, eqb_ℤ, negsuc}
use aeron_fast.Common.{error_success}
use aeron_fast.Program.{
  Resource, Event, Exit, Environment, main_after_options, main_with, from_stream, run_and_close,
  Ready, await_ready, stream_open, client_closed, from_ready, wait_loop, context_closed,
}

abbrev pub same_resource : Resource → Resource → Bool
same_resource Resource.context Resource.context = true
same_resource Resource.client Resource.client = true
same_resource Resource.stream Resource.stream = true
same_resource _ _ = false

-- What is open after some events, the newest first; `none` if something is closed that is not the
-- newest open resource, or the main loop runs without an open stream.
abbrev pub open_after : List Resource → List Event → Option (List Resource)
open_after stack [] = some stack
open_after stack (Event.opened r ∷ events) = open_after (r ∷ stack) events
open_after [] (Event.closed r ∷ events) = none
open_after (o ∷ stack) (Event.closed r ∷ events) =
    let rest = open_after stack events in if same_resource o r then rest else none
open_after (Resource.stream ∷ stack) (Event.ran ∷ events) =
    open_after (Resource.stream ∷ stack) events
open_after _ (Event.ran ∷ events) = none

abbrev pub has_run : List Event → Bool
has_run [] = false
has_run (Event.ran ∷ events) = true
has_run (_ ∷ events) = has_run events

-- If `main` returns: nothing is left open, and the code is 0 exactly when the help was shown or
-- the main loop ran and returned ERROR_SUCCESS.
abbrev pub IsClean : Bool → Option ℤ → Exit → Type 0
IsClean help result Exit.unfinished = Unit {0}
IsClean help result (Exit.exits code events) =
    (open_after [] events ≡ some [])
    × ((code ≡ pos 0) ↔ ((help ≡ true) ⊎ ((has_run events ≡ true) × (result ≡ some error_success))))

-- An early return with 1.
refused-IsClean :
    (result : Option ℤ) (events : List Event)
    → open_after [] events ≡ some []
    → has_run events ≡ false
    → IsClean false result (Exit.exits (pos 1) events)
refused-IsClean result events balanced quiet = (balanced, ground arith)

run_code :
    (r : ℤ)
    → ((if eqb_ℤ r error_success then pos 0 else pos 1) ≡ pos 0)
      ↔ ((false ≡ true) ⊎ ((true ≡ true) × (some r ≡ some error_success)))
run_code (pos n) = ground arith
run_code (negsuc n) = ground arith

run_and_close-IsClean :
    (result : Option ℤ) → IsClean false result (run_and_close result stream_open)
run_and_close-IsClean none = tt
run_and_close-IsClean (some r) = (refl, run_code r)

from_stream-IsClean :
    (fuel : ℕ) (ipc : Bool) (env : Environment) (result : Option ℤ)
    → IsClean false result (from_stream fuel ipc env result)
from_stream-IsClean fuel true env result = run_and_close-IsClean result
from_stream-IsClean fuel false env result =
    elim (wait_loop fuel 30 env.start_time env.is_connected env.time 0)
      as (λ w.
        IsClean false result
          (elim w [ none ↦ Exit.unfinished | some code ↦ run_and_close result stream_open ])) [
            | none ↦ tt
            | some code ↦ run_and_close-IsClean result
          ]

from_ready-IsClean :
    (fuel : ℕ) (ipc : Bool) (env : Environment) (result : Option ℤ) (ready : Ready)
    → IsClean false result (from_ready fuel ipc env result ready)
from_ready-IsClean fuel ipc env result (Ready.done true) = from_stream-IsClean fuel ipc env result
from_ready-IsClean fuel ipc env result (Ready.done false) =
    refused-IsClean result client_closed refl refl
from_ready-IsClean fuel ipc env result Ready.interrupted =
    refused-IsClean result client_closed refl refl
from_ready-IsClean fuel ipc env result Ready.out_of_fuel = tt

await_ready-IsClean :
    (fuel : ℕ) (ipc : Bool) (env : Environment) (result : Option ℤ)
    → IsClean false result (from_ready fuel ipc env result (await_ready fuel env.add_polls 0))
await_ready-IsClean fuel ipc env result =
    from_ready-IsClean fuel ipc env result (await_ready fuel env.add_polls 0)

-- The five ways that `main` goes after the options.
pub options_by {ℓ} :
    (P : Exit → Type ℓ) (fuel : ℕ) (ipc : Bool) (env : Environment) (result : Option ℤ)
    → P (Exit.exits (pos 1) [])
    → P (Exit.exits (pos 1) context_closed)
    → P (Exit.exits (pos 1) client_closed)
    → P (from_ready fuel ipc env result (await_ready fuel env.add_polls 0))
    → P (main_after_options fuel ipc env result)
unfolding main_after_options
options_by P fuel ipc env result a b c d = elim (Bool-cases (ltb_ℤ env.context_init (pos 0))) [
  | inl p ↦ rw p a
  | inr p ↦ elim (Bool-cases (ltb_ℤ env.context_set_dir (pos 0))) [
    | inl q ↦ rw (p, q) b
    | inr q ↦ elim (Bool-cases (ltb_ℤ env.aeron_init (pos 0))) [
      | inl r ↦ rw (p, q, r) b
      | inr r ↦ elim (Bool-cases (ltb_ℤ env.aeron_start (pos 0))) [
        | inl u ↦ rw (p, q, r, u) c
        | inr u ↦ elim (Bool-cases (ltb_ℤ env.add_stream (pos 0))) [
          | inl v ↦ rw (p, q, r, u, v) c
          | inr v ↦ rw (p, q, r, u, v) d
        ]
      ]
    ]
  ]
]

main_after_options-IsClean :
    (fuel : ℕ) (ipc : Bool) (env : Environment) (result : Option ℤ)
    → IsClean false result (main_after_options fuel ipc env result)
main_after_options-IsClean fuel ipc env result =
    options_by (IsClean false result) fuel ipc env result (refused-IsClean result [] refl refl)
      (refused-IsClean result context_closed refl refl)
      (refused-IsClean result client_closed refl refl) (await_ready-IsClean fuel ipc env result)

not_both : (r : ℤ) → eqb_ℤ r error_success ≡ true → eqb_ℤ r (pos 1) ≡ true → ⊥
not_both r p q = ground arith

-- Whatever the Aeron client returns at each step: if `main` exits, it has closed what it had
-- opened, the newest first, has called its main loop only with an open stream, and the code is 0
-- exactly when it has shown the help or the main loop has returned ERROR_SUCCESS.
pub main_with-IsClean :
    (parse_result : ℤ) (fuel : ℕ) (ipc : Bool) (env : Environment) (result : Option ℤ)
    → IsClean
        (eqb_ℤ parse_result (pos 1))
        result
        (main_with parse_result (main_after_options fuel ipc env result))
main_with-IsClean parse_result fuel ipc env result =
    elim (Bool-cases (eqb_ℤ parse_result error_success)) [
      | inl p ↦ elim (Bool-cases (eqb_ℤ parse_result (pos 1))) [
        | inl q ↦ absurd (not_both parse_result p q)
        | inr q ↦ rw (p, q) (main_after_options-IsClean fuel ipc env result)
      ]
      | inr p ↦ elim (Bool-cases (eqb_ℤ parse_result (pos 1))) [
        | inl q ↦ rw (p, q) (refl, ground arith)
        | inr q ↦ rw (p, q) (refused-IsClean result [] refl refl)
      ]
    ]
