-- ===== src/Subscriber/Loop/Ends.antt =====
-- What the receiving loop is given, why it may end, and what one round computes.
use aeron_fast.Base.{
  ℕ, zero, suc, ◌+◌, ◌≤◌, ◌<◌, ◌≡◌, refl, Bool, true, false, not, ◌&&◌, some, List, [], ◌∷◌, ◌++◌,
  arith, length, ltb, u64, add64,
}
use aeron_fast.Base.Int.{ℤ, pos, ltb_ℤ}
use aeron_fast.Message.Bytes.{Endian}
use aeron_fast.Subscriber.{Globals, Fragment, deliver}
use aeron_fast.Subscriber.Heard.{heard, heard_bytes, Summary}
use aeron_fast.Subscriber.Delivered.{Alive}
use aeron_fast.Subscriber.Loop.{Poll, Stop, Run, receive_loop}

-- The latencies, and the bytes, of what `k` polls from the `i`th on hand over.
abbrev pub arrived : Endian → (ℕ → Poll) → ℕ → ℕ → List ℕ
arrived host polls i zero = []
arrived host polls i (suc k) = heard host (polls i).fragments ++ arrived host polls (suc i) k

abbrev pub arrived_bytes : (ℕ → Poll) → ℕ → ℕ → ℕ
arrived_bytes polls i zero = 0
arrived_bytes polls i (suc k) = heard_bytes (polls i).fragments + arrived_bytes polls (suc i) k

-- Why a loop with a target may end after `received` messages in the `n`th round: the target is
-- reached, a signal has come, or the poll before returned an error.
pub data Why (polls : ℕ → Poll) (target received n : ℕ) : Stop → Type 0 where
  reached : target ≤ received → Why polls target received n Stop.tested
  signalled : (polls n).signal ≡ true → Why polls target received n Stop.tested
  broken :
      (last : ℕ) {r : ℤ}
      → n ≡ suc last
      → (polls last).result ≡ r
      → ltb_ℤ r (pos 0) ≡ true
      → Why polls target received n (Stop.failed r)

-- The state after the test of the loop, and the one that the poll starts from.
abbrev pub at_test : Poll → Globals → Globals
at_test poll g = record g { running = g.running && not poll.signal }

abbrev pub at_poll : Poll → Globals → Globals
at_poll poll g = record (at_test poll g) {
  stats = record (g.stats) { polling_iterations = add64 g.stats.polling_iterations 1 };
}

abbrev pub test : Poll → Globals → Bool
test poll g = (g.running && not poll.signal) && ltb g.stats.messages_received g.target_messages

module _ (host : Endian) (polls : ℕ → Poll) where
  pub loop_stop :
      (fuel i : ℕ) (g : Globals)
      → test (polls i) g ≡ false
      → receive_loop (suc fuel) host polls i g ≡ Run.ended Stop.tested (at_test (polls i) g)
  unfolding receive_loop
  loop_stop fuel i g p = rw p refl

  pub loop_fail :
      (fuel i : ℕ) (g g₂ : Globals)
      → test (polls i) g ≡ true
      → deliver host (polls i).fragments (at_poll (polls i) g) ≡ some g₂
      → ltb_ℤ (polls i).result (pos 0) ≡ true
      → receive_loop (suc fuel) host polls i g ≡ Run.ended (Stop.failed (polls i).result) g₂
  unfolding receive_loop
  loop_fail fuel i g g₂ p e q = rw (p, e, q) refl

  pub loop_next :
      (fuel i : ℕ) (g g₂ : Globals)
      → test (polls i) g ≡ true
      → deliver host (polls i).fragments (at_poll (polls i) g) ≡ some g₂
      → ltb_ℤ (polls i).result (pos 0) ≡ false
      → receive_loop (suc fuel) host polls i g ≡ receive_loop fuel host polls (suc i) g₂
  unfolding receive_loop
  loop_next fuel i g g₂ p e q = rw (p, e, q) refl

pub length-heard : (host : Endian) (fs : List Fragment) → length (heard host fs) ≤ length fs
length-heard host [] = omega arith
length-heard host ((buffer, now) ∷ fs) = ground (arith, length-heard host fs)

-- What holds at the head of the loop after `p` polls.
pub record Head (target limit : ℕ) (h : List ℕ) (b p : ℕ) (g : Globals) : Type 0 where
  pub summary : Summary h b g.stats
  pub alive : Alive g
  pub same_target : g.target_messages ≡ target
  pub below : length h < target + limit
  pub polled : g.stats.polling_iterations ≡ u64 p

-- What ends the loop in round `i + fuel` at the latest, after the history `h`: the target arrives,
-- or a signal comes.
pub data Enough (host : Endian) (polls : ℕ → Poll) (target fuel i : ℕ) (h : List ℕ) : Type 0 where
  arrives :
      target ≤ length h + length (arrived host polls i fuel) → Enough host polls target fuel i h
  stopped :
      (n : ℕ) → i ≤ n → n ≤ i + fuel → (polls n).signal ≡ true → Enough host polls target fuel i h
