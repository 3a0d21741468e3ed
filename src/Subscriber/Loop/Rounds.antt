-- ===== src/Subscriber/Loop/Rounds.antt =====
-- The rounds of the receiving loop, from any of them to the end.
use native.Mathlib.Nat.{add-zero, add_assoc}
use mathlib.Core.List.{append_assoc, append-nil}
use aeron_fast.Base.{
  ℕ, suc, ◌+◌, ◌≤◌, ◌<◌, ◌^◌, ◌≡◌, ◌∙◌, ◌⊎◌, inl, inr, Bool, true, false, not, ◌&&◌, some, List,
  ◌++◌, arith, length, length-append, ltb, u64, Bool-cases, refl, zero,
}
use aeron_fast.Message.Bytes.{Endian}
use aeron_fast.Subscriber.{Globals, deliver}
use aeron_fast.Subscriber.Heard.{heard, heard_bytes, Summary, other_fields-Summary}
use aeron_fast.Subscriber.Delivered.{deliver-Takes}
use aeron_fast.Subscriber.Loop.{Poll, Stop, Run, receive_loop, ltb_ℤ, pos}
use aeron_fast.Subscriber.Loop.Supply.{test_passed, Enough-none, Enough-next}
use aeron_fast.Subscriber.Loop.Ends.{
  arrived, arrived_bytes, Why, at_poll, test, length-heard, Head, loop_stop, loop_fail, loop_next,
  at_test, Enough,
}

-- The loop from round `i` on, entered after `p` polls with the history `h`, ends after `k` more
-- polls in `last`.
pub record End (host : Endian) (polls : ℕ → Poll) (target limit i : ℕ) (h : List ℕ) (b p : ℕ)
    (run : Run) : Type 0 where
  pub k : ℕ
  pub stop : Stop
  pub last : Globals
  pub ends : run ≡ Run.ended stop last
  pub summary : Summary (h ++ arrived host polls i k) (b + arrived_bytes polls i k) last.stats
  pub below : length (h ++ arrived host polls i k) < target + limit
  pub polled : last.stats.polling_iterations ≡ u64 (p + k)
  pub why : Why polls target (length (h ++ arrived host polls i k)) (i + k) stop

test_ended :
    (running signal : Bool) (messages target : ℕ)
    → signal ≡ false
    → (running ≡ true) ⊎ (target ≤ messages)
    → ((running && not signal) && ltb messages target) ≡ false
    → target ≤ messages
test_ended running signal messages target s a t = ground arith

module _ (host : Endian) (polls : ℕ → Poll) (target limit : ℕ) (room : target + limit ≤ 2 ^ 64)
    (few : (n : ℕ) → length (polls n).fragments ≤ limit) where
  Head-Why :
      (fuel i : ℕ) (h : List ℕ) (b p : ℕ) (g : Globals)
      → Head target limit h b p g
      → test (polls i) g ≡ false
      → Why polls target (length h) i Stop.tested
  Head-Why fuel i h b p g head t = elim (Bool-cases (polls i).signal) [
    | inl s ↦ Why.signalled s
    | inr s ↦ Why.reached (
        omega (
          arith,
          test_ended g.running (polls i).signal g.stats.messages_received g.target_messages s
              head.alive t,
          head.summary.messages,
          head.same_target,
          head.below,
        ))
  ]

  -- One poll.
  deliver-Head :
      (i : ℕ) (h : List ℕ) (b p : ℕ) (g : Globals)
      → Head target limit h b p g
      → test (polls i) g ≡ true
      → (g₂ : Globals) × (deliver host (polls i).fragments (at_poll (polls i) g) ≡ some g₂)
        × Head target limit
            (h ++ heard host (polls i).fragments)
            (b + heard_bytes (polls i).fragments)
            (suc p)
            g₂
  deliver-Head i h b p g head t =
      let start : Summary h b (at_poll (polls i) g).stats =
        other_fields-Summary h b _ _ g.stats head.summary in
      let (running, before) =
        test_passed g.running (polls i).signal g.stats.messages_received g.target_messages t in
      let small : length h < target =
        omega (arith, before, head.summary.messages, head.same_target, head.below) in
      let new = length-heard host (polls i).fragments in
      let (g₂, e, takes) = deliver-Takes host (polls i).fragments h b (at_poll (polls i) g) start in
      (
        g₂,
        e,
        record {
          summary = takes.summary;
          alive = takes.alive (inl running) (omega (arith, few i));
          same_target = takes.same_target ∙ head.same_target;
          below = omega (arith, length-append h (heard host (polls i).fragments), few i);
          polled = takes.same_polls ∙ omega (arith, head.polled);
        },
      )

  loop_stop-End :
      (fuel i : ℕ) (h : List ℕ) (b p : ℕ) (g : Globals)
      → Head target limit h b p g
      → test (polls i) g ≡ false
      → End host polls target limit i h b p (receive_loop (suc fuel) host polls i g)
  loop_stop-End fuel i h b p g head t = record {
    k = 0;
    stop = Stop.tested;
    last = at_test (polls i) g;
    ends = loop_stop host polls fuel i g t;
    summary = rw (append-nil h, add-zero b) head.summary;
    below = rw (append-nil h) head.below;
    polled = rw (add-zero p) head.polled;
    why = rw (append-nil h, add-zero i) (Head-Why fuel i h b p g head t);
  }

  loop_fail-End :
      (i : ℕ) (h : List ℕ) (b p : ℕ) (g₂ : Globals) (run : Run)
      → run ≡ Run.ended (Stop.failed (polls i).result) g₂
      → ltb_ℤ (polls i).result (pos 0) ≡ true
      → Head target limit
          (h ++ heard host (polls i).fragments)
          (b + heard_bytes (polls i).fragments)
          (suc p)
          g₂
      → End host polls target limit i h b p run
  loop_fail-End i h b p g₂ run e negative head = record {
    k = 1;
    stop = Stop.failed (polls i).result;
    last = g₂;
    ends = e;
    summary =
        rw (append-nil (heard host (polls i).fragments), add-zero (heard_bytes (polls i).fragments))
          head.summary;
    below = rw (append-nil (heard host (polls i).fragments)) head.below;
    polled = omega (arith, head.polled);
    why = Why.broken i (omega arith) refl negative;
  }

  loop_next-End :
      (i : ℕ) (h : List ℕ) (b p : ℕ) (run : Run)
      → End host polls target limit
          (suc i)
          (h ++ heard host (polls i).fragments)
          (b + heard_bytes (polls i).fragments)
          (suc p)
          run
      → End host polls target limit i h b p run
  loop_next-End i h b p run e =
      let assoc =
        append_assoc h (heard host (polls i).fragments) (arrived host polls (suc i) e.k) in
      let index : i + suc e.k ≡ suc i + e.k = omega arith in
      record {
        k = suc e.k;
        stop = e.stop;
        last = e.last;
        ends = e.ends;
        summary =
            rw
              (
                assoc,
                add_assoc b (heard_bytes (polls i).fragments) (arrived_bytes polls (suc i) e.k),
              )
              at e.summary;
        below = rw assoc at e.below;
        polled = omega (arith, e.polled);
        why = rw index (rw assoc at e.why);
      }

  -- Enough messages within `fuel` polls, or a signal, end the loop.
  pub loop_ends :
      (fuel i : ℕ) (h : List ℕ) (b p : ℕ) (g : Globals)
      → Head target limit h b p g
      → Enough host polls target fuel i h
      → End host polls target limit i h b p (receive_loop (suc fuel) host polls i g)
  loop_ends zero i h b p g head enough = elim (Bool-cases (test (polls i) g)) [
    | inr t ↦ loop_stop-End zero i h b p g head t
    | inl t ↦ absurd (Enough-none host polls target limit i h b p g room head t enough)
  ]
  loop_ends (suc fuel) i h b p g head enough = elim (Bool-cases (test (polls i) g)) [
    | inr t ↦ loop_stop-End (suc fuel) i h b p g head t
    | inl t ↦
        (let (g₂, e, head₂) = deliver-Head i h b p g head t in
          elim (Bool-cases (ltb_ℤ (polls i).result (pos 0))) [
            | inl q ↦
                loop_fail-End i h b p g₂ _ (loop_fail host polls (suc fuel) i g g₂ t e q) q head₂
            | inr q ↦ loop_next-End i h b p _ (
                rw (loop_next host polls (suc fuel) i g g₂ t e q) (
                  loop_ends fuel (suc i) _ _ (suc p) g₂ head₂
                    (Enough-next host polls target fuel i h g t enough)))
          ])
  ]
