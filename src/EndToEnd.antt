-- ===== src/EndToEnd.antt =====
-- The publisher and the subscriber together: c-performance/src/binary_publisher.c sends what
-- c-performance/src/binary_subscriber.c counts. What lies between them is the Aeron client, of
-- which only this is asked: what the polls hand over is, in order and message by message, the
-- beginning of what the offers accepted.
pub mod Lengths
pub mod Transits
pub mod Counts
pub mod Runs
pub mod Fragments
mod Tests
use aeron_fast.Base.{
  ℕ, zero, suc, ◌+◌, ◌-◌, ◌*◌, ◌/◌, ◌%◌, ◌^◌, ◌≤◌, ◌<◌, min, max, ◌≡◌, refl, sym, ap, ap₂, ◌∙◌, ◌≢◌,
  ◌↔◌, ◌⊎◌, inl, inr, Bool, true, false, not, ◌&&◌, ◌||◌, Option, none, some, List, [], ◌∷◌, ◌++◌,
  map, reverse, arith, length, get_elem?, set, get_or, take, drop, replicate, length-append,
  length-set, ltb, leb, ◌==◌, if◌then◌else◌, u64, u64_max, add64, sub64, IsU64, lt→ltb,
  le→ltb_false, Bool-cases, Option-cases,
}
use aeron_fast.Publisher.Accounts.{Offers, is_accepted}
use aeron_fast.Subscriber.{Fragment}
use aeron_fast.Subscriber.Loop.{Poll}

-- The messages that Aeron accepted, oldest first.
abbrev pub accepted_messages : Offers → List (List ℕ)
accepted_messages [] = []
accepted_messages ((m, r) ∷ offers) =
    if is_accepted r then accepted_messages offers ++ m ∷ [] else accepted_messages offers

-- The bytes of the fragments of a poll, without the readings of the clock.
abbrev pub buffers : List Fragment → List (List ℕ)
buffers [] = []
buffers ((buffer, now) ∷ fs) = buffer ∷ buffers fs

-- What `n` polls from the `i`th on hand over.
abbrev pub handed_over : (ℕ → Poll) → ℕ → ℕ → List (List ℕ)
handed_over polls i zero = []
handed_over polls i (suc n) = buffers (polls i).fragments ++ handed_over polls (suc i) n

-- The client loses, repeats and reorders nothing, and splits no message. After any number of polls
-- a part of the accepted messages may still be on its way.
abbrev pub IsOrderly : Offers → (ℕ → Poll) → Type 0
IsOrderly offers polls =
    (n : ℕ) → (rest : List (List ℕ)) × (handed_over polls 0 n ++ rest ≡ accepted_messages offers)
