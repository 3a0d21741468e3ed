-- ===== src/Subscriber/Threads/Intervals.antt =====
-- The differences that `print_realtime_stats` takes.
use aeron_fast.Rate.{per_second, mebibytes_per_second}
use aeron_fast.Base.{ℕ, ◌≡◌, List, [], ◌∷◌, ◌++◌, length, u64, ltb, if◌then◌else◌}
use aeron_fast.Stats.Tally.{sum}
use aeron_fast.Subscriber.{SubscriberStats}
use aeron_fast.Subscriber.Report.{ReportLine}
use aeron_fast.Subscriber.Threads.{Shared}

-- The counters are those of all fragments, and the marks are those of the fragments before the
-- last report, `reported`, and its time; `new` are the fragments behind it.
pub record IsTimely (sizes reported : List ℕ) (time : ℕ) (s : SubscriberStats) : Type 0 where
  pub new : List ℕ
  pub split : sizes ≡ new ++ reported
  pub messages : s.messages_received ≡ u64 (length sizes)
  pub bytes : s.bytes_received ≡ u64 (sum sizes)
  pub marked_messages : s.last_messages_received ≡ u64 (length reported)
  pub marked_bytes : s.last_bytes_received ≡ u64 (sum reported)
  pub marked_time : s.last_stats_time ≡ time

-- What holds of a state of the threads.
abbrev Timely : Shared → Type 0
Timely s = IsTimely s.sizes s.reported s.reported_at s.globals.stats

-- What a report prints of `n` messages of `b` bytes, `new` and `new_bytes` of them since the one
-- before it, `elapsed` nanoseconds ago.
abbrev pub progress_of : ℕ → ℕ → ℕ → ℕ → ℕ → ℕ → List ReportLine
progress_of target n b new new_bytes elapsed =
    if ltb 0 elapsed
    then ReportLine.progress n target b (per_second new elapsed)
        (mebibytes_per_second new_bytes elapsed)
      ∷ []
    else []
