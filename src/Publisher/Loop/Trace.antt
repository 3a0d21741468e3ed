-- ===== src/Publisher/Loop/Trace.antt =====
-- The invariant of the sending loop, and what one round does.
use mathlib.Core.List.{append-nil}
use aeron_fast.Base.{
  ℕ, suc, ◌-◌, ◌≤◌, ◌<◌, ◌^◌, ◌≡◌, ◌≢◌, refl, ap, ◌∙◌, false, Option, none, some, List, [], ◌∷◌,
  ◌++◌, arith, length, if◌then◌else◌, drop_all, ◌⊎◌, leb, ltb, add64, inr,
}
use aeron_fast.Base.Int.{ℤ}
use aeron_fast.Clock.{get_timestamp_ns, get_timestamp_ns_small}
use aeron_fast.Message.Bytes.{Endian}
use aeron_fast.Message.Order.{be_bytes}
use aeron_fast.Message.Layout.{ramp, create_binary_message_layout, length-ramp}
use aeron_fast.Message.{create_binary_message}
use aeron_fast.Publisher.{publish_message, back_pressured}
use aeron_fast.Publisher.Accounts.{
  Offers, count, is_accepted, is_pressured, Books, publish_message-Books, accepted, pressured,
  serious, publish_message-Verdict,
}
use aeron_fast.Publisher.Loop.{Turn, Stop, Sender, round}

-- A message of `size` bytes with some 64-bit timestamp.
abbrev pub IsMessage : ℕ → List ℕ → Type 0
IsMessage size m =
    (timestamp : ℕ) × (timestamp < 2 ^ 64) × (m ≡ be_bytes timestamp ++ ramp 0 (size - 8))

abbrev pub AllMessages : ℕ → Offers → Type 0
AllMessages size [] = Unit {0}
AllMessages size ((m, r) ∷ offers) = IsMessage size m × AllMessages size offers

-- How many of the last offers in a row were back-pressured.
abbrev pub streak : Offers → ℕ
streak [] = 0
streak ((m, r) ∷ offers) = if is_pressured r then suc (streak offers) else 0

-- What holds at the head of the loop, and where it ends.
pub record Inv (size : ℕ) (s : Sender) : Type 0 where
  pub room : length s.buffer ≡ size
  pub books : Books size s.offered s.stats
  pub sent : s.successful_sends ≡ count is_accepted s.offered
  pub messages : AllMessages size s.offered

pub length-be_bytes-ramp :
    (timestamp size : ℕ) → 8 ≤ size → length (be_bytes timestamp ++ ramp 0 (size - 8)) ≡ size
length-be_bytes-ramp timestamp size h = omega (arith, length-ramp 0 (size - 8))

created :
    (host : Endian) (buffer : List ℕ) (size timestamp : ℕ)
    → 8 ≤ size
    → length buffer ≡ size
    → create_binary_message host buffer size timestamp
      ≡ some (be_bytes timestamp ++ ramp 0 (size - 8))
created host buffer size timestamp h e =
    create_binary_message_layout host buffer size timestamp h (omega arith)
    ∙ ap (λ rest. some (be_bytes timestamp ++ (ramp 0 (size - 8) ++ rest)))
        (drop_all size buffer (omega arith))
    ∙ ap (λ rest. some (be_bytes timestamp ++ rest)) (append-nil (ramp 0 (size - 8)))

not_pressured : {r : ℤ} → is_pressured r ≡ false → r ≢ back_pressured
not_pressured p e = ground arith

-- The last offer was neither accepted nor back-pressured.
abbrev pub IsSerious : Offers → Type 0
IsSerious [] = ⊥
IsSerious ((m, r) ∷ offers) = (is_accepted r ≡ false) × (r ≢ back_pressured)

-- What a round leaves, by the result of its offer.
abbrev pub RoundEnds : ℕ → ℕ → Sender → Option Stop → Sender → Type 0
RoundEnds target limit before o s =
    ((o ≡ none)
      × (s.successful_sends < target)
      × (s.retry_count ≡ streak s.offered)
      × (s.retry_count ≤ limit)
      × (s.running ≡ before.running)
      × ((s.successful_sends ≡ suc before.successful_sends)
          ⊎ ((s.successful_sends ≡ before.successful_sends)
              × (s.retry_count ≡ suc before.retry_count))))
    ⊎ ((o ≡ some Stop.target) × (s.successful_sends ≡ target))
    ⊎ ((o ≡ some Stop.retries) × (streak s.offered ≡ suc limit))
    ⊎ ((code : ℤ) × (o ≡ some (Stop.failed code)) × IsSerious s.offered)

module _ (host : Endian) (size target limit : ℕ) (turn : Turn) (s : Sender) (enough : 8 ≤ size)
    (target_fits : target < 2 ^ 64) (limit_fits : limit < 2 ^ 63) (inv : Inv size s)
    (unfinished : s.successful_sends < target) (retried : s.retry_count ≡ streak s.offered)
    (patient : s.retry_count ≤ limit) where
  abbrev pub message : List ℕ
  message = be_bytes (get_timestamp_ns turn.now) ++ ramp 0 (size - 8)

  abbrev pub after_offer : Sender
  after_offer = record s {
    stats = (publish_message turn.offer size s.stats).1;
    buffer = message;
    offered = (message, turn.offer) ∷ s.offered;
  }

  abbrev made : create_binary_message host s.buffer size (get_timestamp_ns turn.now) ≡ some message
  made = created host s.buffer size (get_timestamp_ns turn.now) enough inv.room

  -- The invariant after the offer, with the counts of the loop.
  after_offer-Inv :
      (sends retries : ℕ)
      → sends ≡ count is_accepted after_offer.offered
      → Inv size (record after_offer { successful_sends = sends; retry_count = retries })
  after_offer-Inv sends retries e = record {
    room = length-be_bytes-ramp (get_timestamp_ns turn.now) size enough;
    books = publish_message-Books size s.offered s.stats message turn.offer inv.books;
    sent = e;
    messages = ((get_timestamp_ns turn.now, get_timestamp_ns_small turn.now, refl), inv.messages);
  }

  pub round-Inv :
      (o : Option Stop) × (s' : Sender) × (round host size target limit turn s ≡ some (o, s'))
      × Inv size s'
      × RoundEnds target limit s o s'
  unfolding round
  round-Inv = elim (publish_message-Verdict turn.offer size s.stats) [
    | accepted a p test ↦ (
      if leb target (add64 s.successful_sends 1) then some Stop.target else none,
      record after_offer { successful_sends = add64 s.successful_sends 1; retry_count = 0 },
      rw (made, test, round),
      after_offer-Inv (add64 s.successful_sends 1) 0 (rw a (omega (arith, inv.sent))),
      ground arith,
    )
    | pressured a p test again ↦ (
      if ltb limit (add64 s.retry_count 1) then some Stop.retries else none,
      record after_offer { retry_count = add64 s.retry_count 1 },
      rw (made, test, again, round),
      after_offer-Inv s.successful_sends (add64 s.retry_count 1) (rw a (omega (arith, inv.sent))),
      ground arith,
    )
    | serious a p test again ↦ (
      some (Stop.failed (publish_message turn.offer size s.stats).0),
      after_offer,
      rw (made, test, again, round),
      after_offer-Inv s.successful_sends s.retry_count (rw a (omega (arith, inv.sent))),
      inr (inr (inr ((publish_message turn.offer size s.stats).0, refl, (a, not_pressured p)))),
    )
  ]

  -- A result that is neither an acceptance nor back pressure ends the loop.
  pub round-serious :
      is_accepted turn.offer ≡ false
      → is_pressured turn.offer ≡ false
      → round host size target limit turn s
        ≡ some (some (Stop.failed (publish_message turn.offer size s.stats).0), after_offer)
  unfolding round
  round-serious a p = elim (publish_message-Verdict turn.offer size s.stats) [
    | accepted a' p' test ↦ cc
    | pressured a' p' test again ↦ cc
    | serious a' p' test again ↦ rw (made, test, again, round)
  ]
