-- ===== src/Program/Signals.antt =====
-- The signal handlers: what `signal` keeps for each signal, and what a signal then does.
use aeron_fast.Base.{
  ℕ, ◌≡◌, refl, ◌↔◌, ◌⊎◌, inl, inr, Bool, true, false, Option, none, some, arith, ◌==◌,
  if◌then◌else◌,
}

pub data Signal : Type 0 where
  sigint sigterm : Signal
  other : ℕ → Signal

pub data Disposition : Type 0 where
  default_action handled : Disposition

abbrev pub Dispositions : Type 0
Dispositions = Signal → Disposition

abbrev pub same_signal : Signal → Signal → Bool
same_signal Signal.sigint Signal.sigint = true
same_signal Signal.sigterm Signal.sigterm = true
same_signal (Signal.other m) (Signal.other n) = m == n
same_signal _ _ = false

-- `signal(which, signal_handler)`
abbrev pub install : Signal → Dispositions → Dispositions
install which table s = if same_signal which s then Disposition.handled else table s

-- What a signal does to a state: a handled one runs the handler. `none` is the end of the process,
-- as the default for the signals that a user sends.
abbrev pub raise {ℓ} : {S : Type ℓ} → (S → S) → Dispositions → Signal → S → Option S
raise handler table which s = elim (table which) [
  | Disposition.default_action ↦ none
  | Disposition.handled ↦ some (handler s)
]

no_other :
    {n : ℕ} {P : Type 0} (table' : Dispositions)
    → (P → table' (Signal.other n) ≡ Disposition.handled)
    → (Signal.other n ≡ Signal.sigint) ⊎ (Signal.other n ≡ Signal.sigterm) ⊎ P
    → table' (Signal.other n) ≡ Disposition.handled
no_other table' f (inl e) = ground arith
no_other table' f (inr (inl e)) = ground arith
no_other table' f (inr (inr e)) = f e

-- After both calls of `signal` exactly SIGINT, SIGTERM and what was handled before runs the
-- handler.
pub install-install_handled :
    (table : Dispositions) (which : Signal)
    → (install Signal.sigterm (install Signal.sigint table) which ≡ Disposition.handled)
      ↔ ((which ≡ Signal.sigint) ⊎ (which ≡ Signal.sigterm) ⊎ (table which ≡ Disposition.handled))
install-install_handled table Signal.sigint = ((λ e. inl refl), (λ e. refl))
install-install_handled table Signal.sigterm = ((λ e. inr (inl refl)), (λ e. refl))
install-install_handled table (Signal.other n) =
    ((λ e. inr (inr e)), no_other (install Signal.sigterm (install Signal.sigint table)) (λ e. e))
