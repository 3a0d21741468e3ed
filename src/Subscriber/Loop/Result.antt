-- ===== src/Subscriber/Loop/Result.antt =====
-- What a run of the subscriber gives back.
use native.Mathlib.Nat.{zero-add}
use native.Mathlib.Omega.{arith}
use aeron_fast.Base.{
  ℕ, suc, ◌+◌, ◌≤◌, ◌<◌, ◌^◌, ◌≡◌, refl, inl, true, false, none, some, [], arith, length, u64,
  u64_max,
}
use aeron_fast.Common.{error_success}
use aeron_fast.Clock.{Timespec, get_timestamp_ns}
use aeron_fast.Message.Bytes.{Endian}
use aeron_fast.Stats.Defs.{create_performance_stats, PerformanceStats}
use aeron_fast.Stats.History.{create-Tracks, Tracks}
use aeron_fast.Subscriber.{
  Globals, SubscriberStats, initial_subscriber_stats, init_subscriber_stats,
  cleanup_subscriber_stats,
}
use aeron_fast.Subscriber.Heard.{Summary, other_fields-Summary}
use aeron_fast.Subscriber.Report.{print_final_stats}
use aeron_fast.Subscriber.Loop.{Poll, Stop, Run, Finish, after_loop, run_subscriber, at_report}
use aeron_fast.Subscriber.Loop.Ends.{arrived, arrived_bytes, Why, Head, Enough}
use aeron_fast.Subscriber.Loop.Rounds.{End, loop_ends}

-- The return of `run_subscriber` after `k` polls: the report is that of the state `last`, whose
-- counters are those of what has arrived.
pub record Result (host : Endian) (polls : ℕ → Poll) (target limit : ℕ) (finish : Finish)
    : Type 0 where
  pub k : ℕ
  pub stop : Stop
  pub last : Globals
  pub released : Globals
  pub returned :
      finish
      ≡ Finish.returns error_success (some (stop, last, print_final_stats last.stats, released))
  pub summary : Summary (arrived host polls 0 k) (arrived_bytes polls 0 k) last.stats
  pub below : length (arrived host polls 0 k) < target + limit
  pub polled : last.stats.polling_iterations ≡ u64 k
  pub why : Why polls target (length (arrived host polls 0 k)) k stop
  pub stopped : last.running ≡ false
  pub freed : released.stats.latency_stats ≡ none

-- The counters that `init_subscriber_stats` sets up.
abbrev pub initialised : PerformanceStats → Timespec → SubscriberStats
initialised ps now = record initial_subscriber_stats {
  latency_stats = some ps;
  min_latency = u64_max;
  start_time = get_timestamp_ns now;
  last_stats_time = get_timestamp_ns now;
}

init_subscriber_stats_lem :
    (ps : PerformanceStats) (now : Timespec)
    → create_performance_stats true ≡ some ps
    → init_subscriber_stats true now initial_subscriber_stats ≡ (error_success, initialised ps now)
unfolding init_subscriber_stats
init_subscriber_stats_lem ps now made = rw (made, init_subscriber_stats) refl

pub initialised-Summary :
    (ps : PerformanceStats) (now : Timespec) → Tracks [] ps → Summary [] 0 (initialised ps now)
initialised-Summary ps now t = record {
  messages = refl;
  fragments = refl;
  bytes = refl;
  lowest = refl;
  highest = refl;
  total = refl;
  latency_stats = ps;
  present = refl;
  tracks = t;
}

cleanup_none : (s : SubscriberStats) → (cleanup_subscriber_stats s).latency_stats ≡ none
unfolding cleanup_subscriber_stats
cleanup_none s = ground arith

after_loop-Result :
    (host : Endian) (polls : ℕ → Poll) (target limit : ℕ) (end : Timespec) (run : Run)
    → End host polls target limit 0 [] 0 0 run
    → Result host polls target limit (after_loop end run)
after_loop-Result host polls target limit end run e = record {
  k = e.k;
  stop = e.stop;
  last = at_report end e.last;
  released = record (at_report end e.last) {
    stats = cleanup_subscriber_stats (at_report end e.last).stats;
  };
  returned = rw (e.ends) refl;
  summary =
      other_fields-Summary (arrived host polls 0 e.k) (arrived_bytes polls 0 e.k)
        e.last.stats.polling_iterations _ e.last.stats
        (rw (zero-add (arrived_bytes polls 0 e.k)) at e.summary);
  below = e.below;
  polled = rw (zero-add e.k) at e.polled;
  why = rw (zero-add e.k) at e.why;
  stopped = refl;
  freed = cleanup_none _;
}

-- However the messages that the polls hand over look and are spread, at most `limit` fragments in a
-- poll, and for a target of at least 1 that with `limit` does not exceed 2 ^ 64: `run_subscriber`,
-- with statistics allocated, reads nothing outside the fragments and returns, as soon as the target
-- has arrived or a signal has come, within one round more than the polls before that. Its counters,
-- its extremes and its latency statistics are those of all fragments of eight bytes or more that
-- arrived, and it counts less than `limit` past the target. It ended because the target was
-- reached, a signal came, or a poll failed.
pub run_subscriber-Result :
    (fuel : ℕ) (host : Endian) (target limit : ℕ) (start end : Timespec) (polls : ℕ → Poll)
    → 1 ≤ target
    → target + limit ≤ 2 ^ 64
    → ((n : ℕ) → length (polls n).fragments ≤ limit)
    → Enough host polls target fuel 0 []
    → Result host polls target limit
        (run_subscriber (suc fuel) host true target start end polls true initial_subscriber_stats)
unfolding run_subscriber
run_subscriber-Result fuel host target limit start end polls positive room few enough =
    let (ps, made, t) = create-Tracks in
    let g : Globals = record {
      running = true;
      target_messages = target;
      stats = initialised ps start;
    } in
    let head : Head target limit [] 0 0 g = record {
      summary = initialised-Summary ps start t;
      alive = inl refl;
      same_target = refl;
      below = omega arith;
      polled = refl;
    } in
    rw (init_subscriber_stats_lem ps start made) (
      after_loop-Result host polls target limit end _
        (loop_ends host polls target limit room few fuel 0 [] 0 0 g head enough))
