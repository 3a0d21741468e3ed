-- ===== src/Publisher/Threads/Intervals.antt =====
-- The interval reports never count backwards.
use aeron_fast.Rate.{per_second, mebibytes_per_second}
use aeron_fast.Base.{ℕ, ◌*◌, ◌≡◌, List, [], ◌∷◌, u64, ◌++◌, ltb, if◌then◌else◌}
use aeron_fast.Publisher.{PublisherStats, Line}
use aeron_fast.Publisher.Accounts.{Offers, Books, count, is_accepted}
use aeron_fast.Publisher.Threads.{Shared}

-- The counters are those of all offers, and the marks are those of the offers before the last
-- report, `reported`, and its time; `since` are the offers behind it.
pub record IsTimely (size : ℕ) (offers reported : Offers) (time : ℕ) (s : PublisherStats)
    : Type 0 where
  pub books : Books size offers s
  pub since : Offers
  pub split : offers ≡ since ++ reported
  pub marked_messages : s.last_messages_sent ≡ u64 (count is_accepted reported)
  pub marked_bytes : s.last_bytes_sent ≡ u64 (count is_accepted reported * size)
  pub marked_time : s.last_stats_time ≡ time

-- What holds of a state of the threads.
abbrev Timely : ℕ → Shared → Type 0
Timely size s = IsTimely size s.offers s.reported s.reported_at s.stats

-- What a report prints of `n` messages, `new` of them since the one before it, `elapsed`
-- nanoseconds ago.
abbrev pub progress_of : ℕ → ℕ → ℕ → ℕ → List Line
progress_of size n new elapsed =
    if ltb 0 elapsed
    then Line.progress n (n * size) (per_second new elapsed)
        (mebibytes_per_second (new * size) elapsed)
      ∷ []
    else []
