-- ===== src/Subscriber/Loop/Contract.antt =====
-- `aeron_subscription_poll` as c-performance/aeron-lib/include/aeron/aeronc.h documents it, and
-- what the receiving loop does with a client that keeps to it.
use aeron_fast.Base.{ℕ, ◌≤◌, ◌≡◌, sym, ◌∙◌, ◌⊎◌, inl, inr, arith, length}
use aeron_fast.Base.Int.{ℤ, pos, negsuc}
use aeron_fast.Subscriber.Loop.{Poll, Stop}
use aeron_fast.Subscriber.Loop.Ends.{Why, broken}

-- A poll hands over at most the limit, and returns the number of fragments, or -1.
pub record IsPoll (limit : ℕ) (poll : Poll) : Type 0 where
  pub few : length poll.fragments ≤ limit
  pub returned : (poll.result ≡ pos (length poll.fragments)) ⊎ (poll.result ≡ negsuc 0)

module _ (limit : ℕ) (polls : ℕ → Poll) (contract : (n : ℕ) → IsPoll limit (polls n)) where
  -- The only result of a poll that ends the loop is -1.
  pub broken_by :
      {target received n : ℕ} {r : ℤ} → Why polls target received n (Stop.failed r) → r ≡ negsuc 0
  broken_by {r = r} (broken last e same p) = elim ((contract last).returned) [
    | inl q ↦ absurd (ground (arith, q, same, p))
    | inr q ↦ sym same ∙ q
  ]
