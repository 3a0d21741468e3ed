-- ===== src/Subscriber/Threads/Join.antt =====
-- The end of the subscriber's reports: what `pthread_join` waits for, and that it returns.
use aeron_fast.Base.{◌+◌, ◌≤◌, ◌⊎◌, inl, inr, arith, ℕ, ◌≡◌, refl, ◌∙◌, false}
use aeron_fast.Subscriber.{Globals}
use aeron_fast.Subscriber.Report.{print_realtime_stats}
use aeron_fast.Subscriber.Threads.{
  MainPc, StatsPc, Shared, Step, Reach, start, here, next, signal, count, check, leave, join,
  look_on, look_off, look_done, wake_on, wake_off, report, poll,
}

-- Past its loop `run_subscriber` has cleared `running`, and past the join the other thread has
-- ended.
pub record IsOrdered (s : Shared) : Type 0 where
  pub cleared : s.main_pc ≡ MainPc.joining → s.globals.running ≡ false
  pub over : s.main_pc ≡ MainPc.reported → s.stats_pc ≡ StatsPc.finished

-- While `run_subscriber` is in its loop, nothing is asked of the other thread.
looping_polling : (s : Shared) → s.main_pc ≡ MainPc.polling → IsOrdered s
looping_polling s e = record { cleared = λ g. cc; over = λ g. cc }

looping_checking : (s : Shared) (now : ℕ) → s.main_pc ≡ MainPc.checking now → IsOrdered s
looping_checking s now e = record { cleared = λ g. cc; over = λ g. cc }

print_realtime_stats_running :
    (now : ℕ) (g : Globals) → (print_realtime_stats now g).0.running ≡ g.running
unfolding print_realtime_stats
print_realtime_stats_running now g = refl

Step-IsOrdered : {s t : Shared} → Step s t → IsOrdered s → IsOrdered t
Step-IsOrdered signal h = record { cleared = λ e. refl; over = h.over }
Step-IsOrdered (poll e) h = looping_polling _ e
Step-IsOrdered (count latency size now e) h = looping_checking _ now refl
Step-IsOrdered (check now e) h = looping_polling _ refl
Step-IsOrdered (leave end e) h = record { cleared = λ _. refl; over = λ f. cc }
Step-IsOrdered (join e f) h = record { cleared = λ g. cc; over = λ _. f }
Step-IsOrdered (look_on e f g) h = record { cleared = h.cleared; over = λ k. cc (h.over k) }
Step-IsOrdered (look_off e f) h = record { cleared = h.cleared; over = λ g. refl }
Step-IsOrdered (look_done e f) h = record { cleared = h.cleared; over = λ g. refl }
Step-IsOrdered (wake_on e f) h = record { cleared = h.cleared; over = λ g. cc (h.over g) }
Step-IsOrdered (wake_off e f) h = record { cleared = h.cleared; over = λ g. cc (h.over g) }
Step-IsOrdered {s} (report now e) h = record {
  cleared = λ g. print_realtime_stats_running now s.globals ∙ h.cleared g;
  over = λ g. cc (h.over g);
}

Reach-IsOrdered : {s t : Shared} → IsOrdered s → Reach s t → IsOrdered t
Reach-IsOrdered h here = h
Reach-IsOrdered h (next r st) = Step-IsOrdered st (Reach-IsOrdered h r)

still :
    {s t : Shared}
    → Step s t
    → s.main_pc ≡ MainPc.reported
    → s.stats_pc ≡ StatsPc.finished
    → (t.globals.stats ≡ s.globals.stats)
      × (t.stats_pc ≡ StatsPc.finished)
      × (t.main_pc ≡ MainPc.reported)
still signal e f = (refl, f, e)
still (poll g) e f = cc
still (count latency size now g) e f = cc
still (check now g) e f = cc
still (leave end g) e f = cc
still (join g h) e f = cc
still (look_on g h k) e f = cc
still (look_off g h) e f = cc
still (look_done g h) e f = cc
still (wake_on g h) e f = cc
still (wake_off g h) e f = cc
still (report now g) e f = cc

-- After the final report of the subscriber no thread prints or changes the counters, in any state
-- that the threads can reach.
pub subscriber_report_is_last :
    (g : Globals) {s t : Shared}
    → Reach (start g) s
    → s.main_pc ≡ MainPc.reported
    → Step s t
    → (t.globals.stats ≡ s.globals.stats)
      × (t.stats_pc ≡ StatsPc.finished)
      × (t.main_pc ≡ MainPc.reported)
subscriber_report_is_last g r e st =
    still st e ((Reach-IsOrdered (looping_polling (start g) refl) r).over e)

-- How many steps of the two threads a step is: a signal is none.
abbrev pub moves : {s t : Shared} → Step s t → ℕ
moves signal = 0
moves (poll e) = 1
moves (count latency size now e) = 1
moves (check now e) = 1
moves (leave end e) = 1
moves (join e f) = 1
moves (look_on e f g) = 1
moves (look_off e f) = 1
moves (look_done e f) = 1
moves (wake_on e f) = 1
moves (wake_off e f) = 1
moves (report now e) = 1

-- Any further run from a state, with the number of steps of the two threads in it.
pub data Run (s : Shared) : ℕ → Shared → Type 0 where
  stay : Run s 0 s
  onward : {k : ℕ} {t u : Shared} → Run s k t → (st : Step t u) → Run s (k + moves st) u

-- How far `pthread_join` is from its return, by the place of `stats_thread`.
abbrev distance : StatsPc → ℕ
distance StatsPc.finished = 1
distance StatsPc.head = 2
distance StatsPc.asleep = 3
distance StatsPc.printing = 3

-- After `k` steps of the threads from the join on.
data IsAwaited (k : ℕ) (s : Shared) : Type 0 where
  awaited :
      s.main_pc ≡ MainPc.joining
      → s.globals.running ≡ false
      → k + distance s.stats_pc ≤ 3
      → IsAwaited k s
  over : s.main_pc ≡ MainPc.reported → s.stats_pc ≡ StatsPc.finished → k ≤ 3 → IsAwaited k s

Step-IsAwaited : {s t : Shared} (k : ℕ) (st : Step s t) → IsAwaited k s → IsAwaited (k + moves st) t
Step-IsAwaited k signal (awaited e off d) = awaited e refl (omega arith)
Step-IsAwaited k signal (over e f d) = over e f (omega arith)
Step-IsAwaited k (poll g) (awaited e off d) = cc
Step-IsAwaited k (poll g) (over e f d) = cc
Step-IsAwaited k (count latency size now g) (awaited e off d) = cc
Step-IsAwaited k (count latency size now g) (over e f d) = cc
Step-IsAwaited k (check now g) (awaited e off d) = cc
Step-IsAwaited k (check now g) (over e f d) = cc
Step-IsAwaited k (leave end g) (awaited e off d) = cc
Step-IsAwaited k (leave end g) (over e f d) = cc
Step-IsAwaited k (join g h) (awaited e off d) = over refl h (ground (arith, d))
Step-IsAwaited k (join g h) (over e f d) = cc
Step-IsAwaited k (look_on g h l) (awaited e off d) = cc
Step-IsAwaited k (look_on g h l) (over e f d) = cc
Step-IsAwaited k (look_off g h) (awaited e off d) = awaited e h (ground (arith, d))
Step-IsAwaited k (look_off g h) (over e f d) = cc
Step-IsAwaited k (look_done g h) (awaited e off d) = awaited e off (ground (arith, d))
Step-IsAwaited k (look_done g h) (over e f d) = cc
Step-IsAwaited k (wake_on g h) (awaited e off d) = cc
Step-IsAwaited k (wake_on g h) (over e f d) = cc
Step-IsAwaited k (wake_off g h) (awaited e off d) = awaited e h (ground (arith, d))
Step-IsAwaited k (wake_off g h) (over e f d) = cc
Step-IsAwaited {s} k (report now g) (awaited e off d) =
    awaited e (print_realtime_stats_running now s.globals ∙ off) (ground (arith, d))
Step-IsAwaited k (report now g) (over e f d) = cc

Run-IsAwaited : {s t : Shared} {k : ℕ} → IsAwaited 0 s → Run s k t → IsAwaited k t
Run-IsAwaited h stay = h
Run-IsAwaited h (onward r st) = Step-IsAwaited _ st (Run-IsAwaited h r)

-- A step of a thread that is possible.
abbrev pub CanMove : Shared → Type 0
CanMove t = (u : Shared) × (st : Step t u) × (moves st ≡ 1)

can_move :
    (t : Shared)
    → t.main_pc ≡ MainPc.joining
    → t.globals.running ≡ false
    → (pc : StatsPc) → t.stats_pc ≡ pc
    → CanMove t
can_move t e off StatsPc.finished f = (_, join e f, refl)
can_move t e off StatsPc.head f = (_, look_off f off, refl)
can_move t e off StatsPc.asleep f = (_, wake_off f off, refl)
can_move t e off StatsPc.printing f = (_, report 0 f, refl)

IsAwaited-result :
    {k : ℕ} {t : Shared}
    → IsAwaited k t
    → (k ≤ 3) × (((t.main_pc ≡ MainPc.reported) × (t.stats_pc ≡ StatsPc.finished)) ⊎ CanMove t)
IsAwaited-result {t = t} (awaited e off d) = (omega arith, inr (can_move t e off t.stats_pc refl))
IsAwaited-result (over e f d) = (d, inl (e, f))

waits : (s : Shared) → s.main_pc ≡ MainPc.joining → s.globals.running ≡ false → IsAwaited 0 s
waits s e off = awaited e off (ground arith)

-- From every state that the threads can reach in which `run_subscriber` waits at `pthread_join`,
-- and however the run goes on, signals included: the two threads take at most three more steps, and
-- where neither can take one, `stats_thread` has ended and the final report is printed.
pub subscriber_join_returns :
    (g : Globals) {s t : Shared} {k : ℕ}
    → Reach (start g) s
    → s.main_pc ≡ MainPc.joining
    → Run s k t
    → (k ≤ 3) × (((t.main_pc ≡ MainPc.reported) × (t.stats_pc ≡ StatsPc.finished)) ⊎ CanMove t)
subscriber_join_returns g {s} r e more = IsAwaited-result (
    Run-IsAwaited (waits s e ((Reach-IsOrdered (looping_polling (start g) refl) r).cleared e)) more)
