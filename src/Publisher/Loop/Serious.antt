-- ===== src/Publisher/Loop/Serious.antt =====
-- What the loop makes of a result that is neither an acceptance nor back pressure. Among these is
-- AERON_PUBLICATION_ADMIN_ACTION, of which aeronc.h says that the offer should be retried, and
-- AERON_PUBLICATION_NOT_CONNECTED, which it calls intermittent.
use aeron_fast.Base.{
  ℕ, suc, ◌-◌, ◌≤◌, ◌<◌, ◌^◌, ◌≡◌, refl, ◌∙◌, ap, true, false, List, some, arith, length,
}
use aeron_fast.Base.Int.{ℤ}
use aeron_fast.Common.{error_success}
use aeron_fast.Clock.{Timespec, get_timestamp_ns}
use aeron_fast.Message.Bytes.{Endian}
use aeron_fast.Publisher.{Line, initial_stats, publish_message, print_stats, PublisherStats}
use aeron_fast.Publisher.Accounts.{is_accepted, is_pressured}
use aeron_fast.Publisher.Loop.{
  Turn, Stop, Sender, Run, Finish, max_retries, send_loop, sender, run_publisher, after_loop,
}
use aeron_fast.Publisher.Loop.Trace.{Inv, streak, round-serious}
use aeron_fast.Publisher.Loop.Ends.{send_loop-stop, same-Inv}
use aeron_fast.Publisher.Loop.Result.{prefill_total, initial-Inv, enters}

-- `publish_message` counts no message for such a result.
publish_message_unsent :
    (r : ℤ) (size : ℕ) (s : PublisherStats)
    → is_accepted r ≡ false
    → (publish_message r size s).1.messages_sent ≡ s.messages_sent
unfolding publish_message
publish_message_unsent r size s a = ground arith

module _ (host : Endian) (size target limit : ℕ) (turns : ℕ → Turn) (enough : 8 ≤ size)
    (target_fits : target < 2 ^ 64) (limit_fits : limit < 2 ^ 63) where
  -- In any round of a loop that is still to send, such a result ends the loop: it is not retried,
  -- and nothing after it is sent.
  pub send_loop-serious :
      (fuel i : ℕ) (s : Sender)
      → Inv size s
      → s.running ≡ true
      → s.successful_sends < target
      → s.retry_count ≡ streak s.offered
      → s.retry_count ≤ limit
      → (turns i).signal ≡ false
      → is_accepted (turns i).offer ≡ false
      → is_pressured (turns i).offer ≡ false
      → (s' : Sender) × (send_loop (suc fuel) host size target limit turns i s
          ≡ Run.ended (Stop.failed (publish_message (turns i).offer size s.stats).0) s')
        × (s'.successful_sends ≡ s.successful_sends)
        × (s'.stats ≡ (publish_message (turns i).offer size s.stats).1)
  send_loop-serious fuel i s inv running below retried patient quiet a p = (
    _,
    send_loop-stop host size target limit turns enough target_fits limit_fits fuel i s _
        (rw (running, quiet) refl) below _
        (round-serious host size target limit (turns i) (record s { running = true }) enough
          target_fits limit_fits (same-Inv inv true) below retried patient a p),
    refl,
    refl,
  )

-- If the first offer of a run meets such a result, the run sends nothing more and counts no
-- message, and its code is ERROR_SUCCESS. So `main` exits with 0, also after the warning that it
-- goes on sending with no subscriber connected.
pub run_publisher-serious :
    (fuel : ℕ) (host : Endian) (memory : List ℕ) (size target : ℕ) (start end : Timespec)
    (turns : ℕ → Turn)
    → length memory ≡ size
    → 8 ≤ size
    → 1 ≤ target
    → target < 2 ^ 64
    → (turns 0).signal ≡ false
    → is_accepted (turns 0).offer ≡ false
    → is_pressured (turns 0).offer ≡ false
    → (code : ℤ) × (last : Sender) × (lines : List Line) × (run_publisher
          (suc fuel)
          host
          (some memory)
          size
          target
          start
          end
          turns
          true
          initial_stats
        ≡ Finish.returns error_success (some (Stop.failed code, last, lines)))
      × (last.successful_sends ≡ 0)
      × (last.stats.messages_sent ≡ 0)
unfolding print_stats
run_publisher-serious fuel host memory size target start end turns e enough some_target fits quiet a
      p =
    let (buffer, filled, same) = prefill_total (size - 8) 8 memory (omega arith) in
    let s = sender true (get_timestamp_ns start) initial_stats buffer in
    let (s', ends, sent, stats) =
      send_loop-serious host size target max_retries turns enough fits (omega arith) fuel 0 s
        (initial-Inv size (get_timestamp_ns start) buffer (same ∙ e)) refl some_target refl
        (omega arith) quiet a p in
    (
      (publish_message (turns 0).offer size s.stats).0,
      record s' { running = false },
      (print_stats true (get_timestamp_ns end) s'.stats).1,
      enters (suc fuel) host memory size target start end turns e enough fits buffer filled
          ∙ ap (after_loop end) ends,
      sent,
      ap (λ (t : PublisherStats). t.messages_sent) stats
          ∙ publish_message_unsent (turns 0).offer size s.stats a,
    )
