-- ===== src/Publisher/Threads/Join.antt =====
-- The end of the reports: what `pthread_join` waits for, and that it returns.
use aeron_fast.Base.{◌+◌, ◌≤◌, ◌⊎◌, inl, inr, arith, ℕ, ◌≡◌, refl, false}
use aeron_fast.Publisher.{PublisherStats}
use aeron_fast.Publisher.Threads.{
  MainPc, StatsPc, Shared, Step, signal, offer, leave, join, look_on, look_off, wake_on, wake_off,
  report, start, Reach, here, next,
}

-- Past its loop `run_publisher` has cleared `running`, and past the join the other thread has
-- ended.
pub record IsOrdered (s : Shared) : Type 0 where
  pub cleared : s.main_pc ≡ MainPc.joining → s.running ≡ false
  pub over : s.main_pc ≡ MainPc.reported → s.stats_pc ≡ StatsPc.finished

Step-IsOrdered : {size : ℕ} {s t : Shared} → Step size s t → IsOrdered s → IsOrdered t
Step-IsOrdered signal h = record { cleared = λ e. refl; over = h.over }
Step-IsOrdered (offer message r e) h = record { cleared = h.cleared; over = h.over }
Step-IsOrdered (leave e) h = record { cleared = λ _. refl; over = λ f. cc }
Step-IsOrdered (join now e f) h = record { cleared = λ g. cc; over = λ _. f }
Step-IsOrdered (look_on e f) h = record { cleared = h.cleared; over = λ g. cc (h.over g) }
Step-IsOrdered (look_off e f) h = record { cleared = h.cleared; over = λ g. refl }
Step-IsOrdered (wake_on e f) h = record { cleared = h.cleared; over = λ g. cc (h.over g) }
Step-IsOrdered (wake_off e f) h = record { cleared = h.cleared; over = λ g. cc (h.over g) }
Step-IsOrdered (report now e) h = record { cleared = h.cleared; over = λ g. cc (h.over g) }

Reach-IsOrdered : {size : ℕ} {s t : Shared} → IsOrdered s → Reach size s t → IsOrdered t
Reach-IsOrdered h here = h
Reach-IsOrdered h (next r st) = Step-IsOrdered st (Reach-IsOrdered h r)

start-IsOrdered : (stats : PublisherStats) → IsOrdered (start stats)
start-IsOrdered stats = record { cleared = λ e. cc; over = λ e. cc }

still :
    {size : ℕ} {s t : Shared}
    → Step size s t
    → s.main_pc ≡ MainPc.reported
    → s.stats_pc ≡ StatsPc.finished
    → (t.stats ≡ s.stats) × (t.stats_pc ≡ StatsPc.finished) × (t.main_pc ≡ MainPc.reported)
still signal e f = (refl, f, e)
still (offer message r g) e f = cc
still (leave g) e f = cc
still (join now g h) e f = cc
still (look_on g h) e f = cc
still (look_off g h) e f = cc
still (wake_on g h) e f = cc
still (wake_off g h) e f = cc
still (report now g) e f = cc

-- After the final report no thread prints: nothing that `stats_thread` does is possible any more,
-- in any state that the threads can reach.
pub final_report_is_last :
    (size : ℕ) (stats : PublisherStats) {s t : Shared}
    → Reach size (start stats) s
    → s.main_pc ≡ MainPc.reported
    → Step size s t
    → (t.stats ≡ s.stats) × (t.stats_pc ≡ StatsPc.finished) × (t.main_pc ≡ MainPc.reported)
final_report_is_last size stats r e st =
    still st e ((Reach-IsOrdered (start-IsOrdered stats) r).over e)

-- How many steps of the two threads a step is: a signal is none.
abbrev pub moves : {size : ℕ} {s t : Shared} → Step size s t → ℕ
moves signal = 0
moves (offer message r e) = 1
moves (leave e) = 1
moves (join now e f) = 1
moves (look_on e f) = 1
moves (look_off e f) = 1
moves (wake_on e f) = 1
moves (wake_off e f) = 1
moves (report now e) = 1

-- Any further run from a state, with the number of steps of the two threads in it.
pub data Run (size : ℕ) (s : Shared) : ℕ → Shared → Type 0 where
  stay : Run size s 0 s
  onward :
      {k : ℕ} {t u : Shared} → Run size s k t → (st : Step size t u) → Run size s (k + moves st) u

-- How far `pthread_join` is from its return, by the place of `stats_thread`.
abbrev distance : StatsPc → ℕ
distance StatsPc.finished = 1
distance StatsPc.head = 2
distance StatsPc.asleep = 3
distance StatsPc.printing = 3

-- After `k` steps of the threads from the join on.
data IsAwaited (k : ℕ) (s : Shared) : Type 0 where
  awaited :
      s.main_pc ≡ MainPc.joining → s.running ≡ false → k + distance s.stats_pc ≤ 3 → IsAwaited k s
  over : s.main_pc ≡ MainPc.reported → s.stats_pc ≡ StatsPc.finished → k ≤ 3 → IsAwaited k s

Step-IsAwaited :
    {size : ℕ} {s t : Shared} (k : ℕ) (st : Step size s t)
    → IsAwaited k s
    → IsAwaited (k + moves st) t
Step-IsAwaited k signal (awaited e off d) = awaited e refl (omega arith)
Step-IsAwaited k signal (over e f d) = over e f (omega arith)
Step-IsAwaited k (offer message r g) (awaited e off d) = cc
Step-IsAwaited k (offer message r g) (over e f d) = cc
Step-IsAwaited k (leave g) (awaited e off d) = cc
Step-IsAwaited k (leave g) (over e f d) = cc
Step-IsAwaited k (join now g h) (awaited e off d) = over refl h (ground (arith, d))
Step-IsAwaited k (join now g h) (over e f d) = cc
Step-IsAwaited k (look_on g h) (awaited e off d) = cc
Step-IsAwaited k (look_on g h) (over e f d) = cc
Step-IsAwaited k (look_off g h) (awaited e off d) = awaited e h (ground (arith, d))
Step-IsAwaited k (look_off g h) (over e f d) = cc
Step-IsAwaited k (wake_on g h) (awaited e off d) = cc
Step-IsAwaited k (wake_on g h) (over e f d) = cc
Step-IsAwaited k (wake_off g h) (awaited e off d) = awaited e h (ground (arith, d))
Step-IsAwaited k (wake_off g h) (over e f d) = cc
Step-IsAwaited k (report now g) (awaited e off d) = awaited e off (ground (arith, d))
Step-IsAwaited k (report now g) (over e f d) = cc

Run-IsAwaited : {size : ℕ} {s t : Shared} {k : ℕ} → IsAwaited 0 s → Run size s k t → IsAwaited k t
Run-IsAwaited h stay = h
Run-IsAwaited h (onward r st) = Step-IsAwaited _ st (Run-IsAwaited h r)

-- A step of a thread that is possible.
abbrev pub CanMove : ℕ → Shared → Type 0
CanMove size t = (u : Shared) × (st : Step size t u) × (moves st ≡ 1)

can_move :
    (size : ℕ) (t : Shared)
    → t.main_pc ≡ MainPc.joining
    → t.running ≡ false
    → (pc : StatsPc) → t.stats_pc ≡ pc
    → CanMove size t
can_move size t e off StatsPc.finished f = (_, join 0 e f, refl)
can_move size t e off StatsPc.head f = (_, look_off f off, refl)
can_move size t e off StatsPc.asleep f = (_, wake_off f off, refl)
can_move size t e off StatsPc.printing f = (_, report 0 f, refl)

IsAwaited-result :
    (size : ℕ) {k : ℕ} {t : Shared}
    → IsAwaited k t
    → (k ≤ 3) × (((t.main_pc ≡ MainPc.reported) × (t.stats_pc ≡ StatsPc.finished)) ⊎ CanMove size t)
IsAwaited-result size {t = t} (awaited e off d) =
    (omega arith, inr (can_move size t e off t.stats_pc refl))
IsAwaited-result size (over e f d) = (d, inl (e, f))

waits : (s : Shared) → s.main_pc ≡ MainPc.joining → s.running ≡ false → IsAwaited 0 s
waits s e off = awaited e off (ground arith)

-- From every state that the threads of the publisher can reach in which `run_publisher` waits at
-- `pthread_join`, and however the run goes on, signals included: the two threads take at most three
-- more steps, and where neither can take one, `stats_thread` has ended and the final report is
-- printed.
pub join_returns :
    (size : ℕ) (stats : PublisherStats) {s t : Shared} {k : ℕ}
    → Reach size (start stats) s
    → s.main_pc ≡ MainPc.joining
    → Run size s k t
    → (k ≤ 3) × (((t.main_pc ≡ MainPc.reported) × (t.stats_pc ≡ StatsPc.finished)) ⊎ CanMove size t)
join_returns size stats {s} r e more =
    IsAwaited-result size
      (Run-IsAwaited (waits s e ((Reach-IsOrdered (start-IsOrdered stats) r).cleared e)) more)
