-- ===== src/Publisher/Accounts.antt =====
-- The counters as a summary of the results of the offers, and what `publish_message` returns.
use aeron_fast.Base.{
  ℕ, ◌+◌, ◌*◌, ◌≡◌, ◌↔◌, Bool, ◌||◌, List, [], ◌∷◌, arith, if◌then◌else◌, u64, zero, suc, refl,
  true, false,
}
use aeron_fast.Base.Int.{ℤ, pos, negsuc, ◌≤ℤ◌, ltb_ℤ, eqb_ℤ}
use aeron_fast.Publisher.{
  PublisherStats, not_connected, back_pressured, admin_action, closed, publish_message,
}

-- A message and the result of its offer; of several the last one comes first.
abbrev pub Offers : Type 0
Offers = List (List ℕ × ℤ)

abbrev pub is_accepted : ℤ → Bool
is_accepted r = ltb_ℤ (pos 0) r

abbrev pub is_pressured : ℤ → Bool
is_pressured r = eqb_ℤ r back_pressured

-- The three results that the program counts as errors.
abbrev pub is_error : ℤ → Bool
is_error r = eqb_ℤ r not_connected || eqb_ℤ r admin_action || eqb_ℤ r closed

-- How many offers have a result of a kind.
abbrev pub count : (ℤ → Bool) → Offers → ℕ
count p [] = 0
count p ((message, r) ∷ offers) = (if p r then 1 else 0) + count p offers

-- The counters after some offers of messages of one size, modulo 2 ^ 64.
pub record Books (message_size : ℕ) (offers : Offers) (s : PublisherStats) : Type 0 where
  pub sent : s.messages_sent ≡ u64 (count is_accepted offers)
  pub bytes : s.bytes_sent ≡ u64 (count is_accepted offers * message_size)
  pub pressure : s.back_pressure_events ≡ u64 (count is_pressured offers)
  pub errors : s.send_errors ≡ u64 (count is_error offers)

-- One offer keeps the counters a summary of the results.
pub publish_message-Books :
    (message_size : ℕ) (offers : Offers) (s : PublisherStats) (message : List ℕ) (r : ℤ)
    → Books message_size offers s
    → Books message_size ((message, r) ∷ offers) (publish_message r message_size s).1
unfolding publish_message
publish_message-Books message_size offers s message (pos r) b = ground arith
publish_message-Books message_size offers s message (negsuc r) b = ground arith

-- The loop goes on to the next message after exactly the accepted offers, and tries again after
-- exactly the back-pressured ones: the codes -1 and -2 that `publish_message` returns are not mixed
-- up with the results -1 (not connected) and -2 (back pressure) of the offer.
pub publish_message-code :
    (r : ℤ) (message_size : ℕ) (s : PublisherStats)
    → let code = (publish_message r message_size s).0 in
      ((pos 1 ≤ℤ code) ↔ (pos 1 ≤ℤ r)) × ((code ≡ negsuc 0) ↔ (r ≡ back_pressured))
unfolding publish_message
publish_message-code (pos r) message_size s = ground arith
publish_message-code (negsuc r) message_size s = ground arith

-- The three ways that the loop takes an offer, with the tests that it makes of the code.
pub data Verdict (r code : ℤ) : Type 0 where
  accepted :
      is_accepted r ≡ true → is_pressured r ≡ false → ltb_ℤ (pos 0) code ≡ true → Verdict r code
  pressured :
      is_accepted r ≡ false
      → is_pressured r ≡ true
      → ltb_ℤ (pos 0) code ≡ false
      → eqb_ℤ code (negsuc 0) ≡ true
      → Verdict r code
  serious :
      is_accepted r ≡ false
      → is_pressured r ≡ false
      → ltb_ℤ (pos 0) code ≡ false
      → eqb_ℤ code (negsuc 0) ≡ false
      → Verdict r code

pub publish_message-Verdict :
    (r : ℤ) (message_size : ℕ) (s : PublisherStats) → Verdict r (publish_message r message_size s).0
unfolding publish_message
publish_message-Verdict (pos zero) message_size s = serious refl refl (ground arith) (ground arith)
publish_message-Verdict (pos (suc r)) message_size s =
    accepted (ground arith) (ground arith) (ground arith)
publish_message-Verdict (negsuc zero) message_size s = serious refl refl refl refl
publish_message-Verdict (negsuc (suc zero)) message_size s = pressured refl refl refl refl
publish_message-Verdict (negsuc (suc (suc r))) message_size s =
    serious (ground arith) (ground arith) (ground arith) (ground arith)
