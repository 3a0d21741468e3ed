-- ===== src/Publisher/Loop/Ends.antt =====
-- The sending loop ends, whatever the environment does, and why.
use aeron_fast.Base.{
  ℕ, zero, suc, ◌+◌, ◌-◌, ◌*◌, ◌≤◌, ◌<◌, ◌^◌, ◌≡◌, refl, ap, ◌∙◌, Bool, true, false, Option, none,
  some, arith, ◌⊎◌, inl, inr, Bool-cases, lt→ltb, ◌&&◌, not,
}
use aeron_fast.Message.Bytes.{Endian}
use aeron_fast.Publisher.Loop.{Turn, Stop, Sender, Run, round, send_loop}
use aeron_fast.Publisher.Loop.Trace.{Inv, IsSerious, streak, round-Inv}

-- How the loop has ended, by the reason that it gives. A signal came, with fewer messages sent than
-- asked for; all were sent; the last `limit + 1` offers were back-pressured; or the last offer had
-- another result.
abbrev pub Explains : (ℕ → Turn) → ℕ → ℕ → Stop → Sender → Type 0
Explains turns target limit Stop.tested s =
    ((i : ℕ) × ((turns i).signal ≡ true)) × (s.successful_sends < target)
Explains turns target limit Stop.target s = s.successful_sends ≡ target
Explains turns target limit Stop.retries s = streak s.offered ≡ suc limit
Explains turns target limit (Stop.failed code) s = IsSerious s.offered

-- The rounds that are left at most: `limit + 1` for each message, less the retries so far.
abbrev pub rounds_left : ℕ → ℕ → Sender → ℕ
rounds_left target limit s = (target - s.successful_sends) * suc limit + (limit - s.retry_count)

fewer_rounds :
    (target limit a b r q fuel : ℕ)
    → a < target
    → r ≤ limit
    → q ≤ limit
    → (b ≡ suc a) ⊎ ((b ≡ a) × (q ≡ suc r))
    → (target - a) * suc limit + (limit - r) < suc fuel
    → (target - b) * suc limit + (limit - q) < fuel
fewer_rounds target limit a b r q fuel below p p' (inl e) h =
    let one : target - a ≡ suc (target - b) = omega arith in
    omega (arith, ap (λ (t : ℕ). t * suc limit) one)
fewer_rounds target limit a b r q fuel below p p' (inr (e, f)) h =
    omega (arith, ap (λ (t : ℕ). (target - t) * suc limit) e)

signalled : (a b : Bool) → a ≡ true → a && not b ≡ false → b ≡ true
signalled a b h e = ground arith

pub same-Inv :
    {size : ℕ} {s : Sender} → Inv size s → (b : Bool) → Inv size (record s { running = b })
same-Inv inv b = record {
  room = inv.room;
  books = inv.books;
  sent = inv.sent;
  messages = inv.messages;
}

module _ (host : Endian) (size target limit : ℕ) (turns : ℕ → Turn) (enough : 8 ≤ size)
    (target_fits : target < 2 ^ 64) (limit_fits : limit < 2 ^ 63) where
  module _ (fuel i : ℕ) (s s' : Sender) (on : s.running && not (turns i).signal ≡ true)
      (below : s.successful_sends < target) where
    abbrev pub this_round : Option (Option Stop × Sender)
    this_round = round host size target limit (turns i) (record s { running = true })

    send_loop-next :
        this_round ≡ some (none, s')
        → send_loop (suc fuel) host size target limit turns i s
          ≡ send_loop fuel host size target limit turns (suc i) s'
    unfolding send_loop
    send_loop-next e = rw (on, lt→ltb _ _ below, e, send_loop) refl

    pub send_loop-stop :
        (stop : Stop)
        → this_round ≡ some (some stop, s')
        → send_loop (suc fuel) host size target limit turns i s ≡ Run.ended stop s'
    unfolding send_loop
    send_loop-stop stop e = rw (on, lt→ltb _ _ below, e, send_loop) refl

  -- At any round, with fuel for the rounds that are left, the loop ends with its counters in order
  -- and for the reason that it gives.
  pub send_loop-Explains :
      (fuel i : ℕ) (s : Sender)
      → Inv size s
      → s.running ≡ true
      → s.successful_sends < target
      → s.retry_count ≡ streak s.offered
      → s.retry_count ≤ limit
      → rounds_left target limit s < fuel
      → (stop : Stop) × (s' : Sender) × (send_loop fuel host size target limit turns i s
          ≡ Run.ended stop s')
        × Inv size s'
        × Explains turns target limit stop s'
  unfolding send_loop
  send_loop-Explains zero i s inv running below retried patient h = absurd (omega arith)
  send_loop-Explains (suc fuel) i s inv running below retried patient h =
      elim (Bool-cases (s.running && not (turns i).signal)) [
        | inl on ↦
            let (o, s', e, inv', ends) =
              round-Inv host size target limit (turns i) (record s { running = true }) enough
                target_fits limit_fits (same-Inv inv true) below retried patient in
            elim ends [
              | inl (goes_on, more, streak', patient', running', further) ↦
                  let fewer =
                    fewer_rounds target limit s.successful_sends s'.successful_sends s.retry_count
                      s'.retry_count fuel below patient patient' further h in
                  let (stop, t, runs, inv'', why) =
                    send_loop-Explains fuel (suc i) s' inv' running' more streak' patient' fewer in
                  (
                    stop,
                    t,
                    send_loop-next fuel i s s' on below (rw goes_on at e) ∙ runs,
                    inv'',
                    why,
                  )
              | inr (inl (stops, sent)) ↦ (
                Stop.target,
                s',
                send_loop-stop fuel i s s' on below Stop.target (rw stops at e),
                inv',
                sent,
              )
              | inr (inr (inl (stops, tired))) ↦ (
                Stop.retries,
                s',
                send_loop-stop fuel i s s' on below Stop.retries (rw stops at e),
                inv',
                tired,
              )
              | inr (inr (inr (code, stops, last))) ↦ (
                Stop.failed code,
                s',
                send_loop-stop fuel i s s' on below (Stop.failed code) (rw stops at e),
                inv',
                last,
              )
            ]
        | inr off ↦ (
          Stop.tested,
          record s { running = false },
          rw (off, send_loop),
          same-Inv inv false,
          ((i, signalled s.running (turns i).signal running off), below),
        )
      ]
