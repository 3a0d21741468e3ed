-- ===== src/Subscriber/Loop/Supply.antt =====
-- What is still to come while the receiving loop runs.
use aeron_fast.Base.{
  ℕ, suc, ◌+◌, ◌≤◌, ◌<◌, ◌^◌, ◌≡◌, ◌⊎◌, inl, inr, Bool, true, not, ◌&&◌, List, ◌++◌, arith,
  length-append, ltb,
}
use aeron_fast.Message.Bytes.{Endian}
use aeron_fast.Subscriber.{Globals}
use aeron_fast.Subscriber.Heard.{heard}
use aeron_fast.Subscriber.Loop.{Poll}
use aeron_fast.Subscriber.Loop.Ends.{arrived, test, Head, Enough}

pub test_passed :
    (running signal : Bool) (messages target : ℕ)
    → ((running && not signal) && ltb messages target) ≡ true
    → ((running && not signal) ≡ true) × (messages < target)
test_passed running signal messages target t = ground arith

not_signalled :
    (running signal : Bool) (messages target : ℕ)
    → ((running && not signal) && ltb messages target) ≡ true
    → signal ≡ true
    → ⊥
not_signalled running signal messages target t s = ground arith

same_or_later : (i n : ℕ) → i ≤ n → (i ≡ n) ⊎ (suc i ≤ n)
same_or_later i n p = omega arith

module _ (host : Endian) (polls : ℕ → Poll) (target : ℕ) where
  -- A loop that goes on has a poll to come.
  pub Enough-none :
      (limit i : ℕ) (h : List ℕ) (b p : ℕ) (g : Globals)
      → target + limit ≤ 2 ^ 64
      → Head target limit h b p g
      → test (polls i) g ≡ true
      → Enough host polls target 0 i h
      → ⊥
  Enough-none limit i h b p g room head t (Enough.arrives enough) = omega (
    arith,
    (test_passed g.running (polls i).signal g.stats.messages_received g.target_messages t).1,
    head.summary.messages,
    head.same_target,
    head.below,
    enough,
  )
  Enough-none limit i h b p g room head t (Enough.stopped n from to s) =
      let here : i ≡ n = omega arith in
      not_signalled g.running (polls i).signal g.stats.messages_received g.target_messages t
        (rw here s)

  -- One poll leaves enough for the rest.
  pub Enough-next :
      (fuel i : ℕ) (h : List ℕ) (g : Globals)
      → test (polls i) g ≡ true
      → Enough host polls target (suc fuel) i h
      → Enough host polls target fuel (suc i) (h ++ heard host (polls i).fragments)
  Enough-next fuel i h g t (Enough.arrives enough) = Enough.arrives (
      omega (
        arith,
        enough,
        length-append h (heard host (polls i).fragments),
        length-append (heard host (polls i).fragments) (arrived host polls (suc i) fuel),
      ))
  Enough-next fuel i h g t (Enough.stopped n from to s) = elim (same_or_later i n from) [
    | inl here ↦ absurd (
        not_signalled g.running (polls i).signal g.stats.messages_received g.target_messages t
          (rw here s))
    | inr later ↦ Enough.stopped n later (omega arith) s
  ]
