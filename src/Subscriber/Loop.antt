-- ===== src/Subscriber/Loop.antt =====
-- `run_subscriber`: the receiving loop and the final report.
pub mod Ends
pub mod Contract
pub mod Supply
pub mod Rounds
pub mod Result
use aeron_fast.Base.{
  ℕ, zero, suc, Bool, true, false, not, ◌&&◌, Option, none, some, List, [], ◌∷◌, ltb, ◌==◌,
  if◌then◌else◌, add64,
}
use aeron_fast.Base.Int.{ℤ, pos, ltb_ℤ, eqb_ℤ}
use aeron_fast.Common.{error_success, error_memory_allocation}
use aeron_fast.Clock.{Timespec, get_timestamp_ns}
use aeron_fast.Message.Bytes.{Endian}
use aeron_fast.Subscriber.{
  SubscriberStats, Globals, Fragment, deliver, init_subscriber_stats, cleanup_subscriber_stats,
}
use aeron_fast.Subscriber.Report.{ReportLine, print_final_stats}

-- What the environment does in one round of the loop: whether a signal has come by the test of
-- `running`, the fragments that `aeron_subscription_poll` hands over, and what it returns.
pub record Poll : Type 0 where
  pub signal : Bool
  pub fragments : List Fragment
  pub result : ℤ

-- Why the loop ended: at its test, or because of the result of a poll.
pub data Stop : Type 0 where
  tested : Stop
  failed : ℤ → Stop

-- `fault` is a read outside a fragment.
pub data Run : Type 0 where
  ended : Stop → Globals → Run
  fault : Run
  out_of_fuel : Run

-- The `while` loop from round `i` on. The pause after an empty poll has no effect on the state.
unfoldable pub receive_loop : ℕ → Endian → (ℕ → Poll) → ℕ → Globals → Run
receive_loop zero host polls i g = Run.out_of_fuel
receive_loop (suc fuel) host polls i g =
    let poll = polls i in
    let g₀ = record g { running = g.running && not poll.signal } in
    let g₁ = record g₀ {
      stats = record (g₀.stats) { polling_iterations = add64 g₀.stats.polling_iterations 1 };
    } in
    if not (g₀.running && ltb g₀.stats.messages_received g₀.target_messages)
    then Run.ended Stop.tested g₀
    else elim (deliver host poll.fragments g₁) [
      | none ↦ Run.fault
      | some g₂ ↦
          if ltb_ℤ poll.result (pos 0)
          then Run.ended (Stop.failed poll.result) g₂
          else receive_loop fuel host polls (suc i) g₂
    ]

-- The return of `run_subscriber`: its code, the state at the final report, why the loop ended, the
-- report, and the state after the release of the statistics.
pub data Finish : Type 0 where
  returns : ℤ → Option (Stop × Globals × List ReportLine × Globals) → Finish
  undefined : Finish
  unfinished : Finish

-- From the end of the loop to the report, at the time `end`.
abbrev pub at_report : Timespec → Globals → Globals
at_report end g = record g {
  running = false;
  stats = record (g.stats) {
    end_time = if g.stats.end_time == 0 then get_timestamp_ns end else g.stats.end_time;
  };
}

-- From the end of the loop to the return.
abbrev pub after_loop : Timespec → Run → Finish
after_loop end (Run.ended stop g) =
    let g₁ = at_report end g in
    Finish.returns error_success (
      some (
        stop,
        g₁,
        print_final_stats g₁.stats,
        record g₁ { stats = cleanup_subscriber_stats g₁.stats },
      ))
after_loop end Run.fault = Finish.undefined
after_loop end Run.out_of_fuel = Finish.unfinished

-- `allocated` is whether the statistics could be allocated, `running` and `stats` are the globals
-- before the call, and `target` is the configured number of messages.
unfoldable pub run_subscriber :
    ℕ
    → Endian
    → (allocated : Bool) (target : ℕ) (start end : Timespec) (polls : ℕ → Poll) (running : Bool)
      (stats : SubscriberStats)
    → Finish
run_subscriber fuel host allocated target start end polls running stats =
    let (code, initial) = init_subscriber_stats allocated start stats in
    let looped =
      receive_loop fuel host polls 0
        (record { running = running; target_messages = target; stats = initial }) in
    if not (eqb_ℤ code error_success)
    then Finish.returns error_memory_allocation none
    else after_loop end looped
