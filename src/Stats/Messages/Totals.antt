-- ===== src/Stats/Messages/Totals.antt =====
-- The sum of the latencies when several threads add to it.
use aeron_fast.Base.{
  ℕ, ◌+◌, ◌^◌, ◌%◌, ◌≡◌, refl, ap, List, [], ◌∷◌, ◌++◌, arith, map, weigh, weigh-set, weigh-snoc,
  weigh-replicate, IsU64,
}
use aeron_fast.Stats.Defs.{PerformanceStats}
use aeron_fast.Stats.History.{sum-snoc}
use aeron_fast.Stats.Tally.{sum}
use aeron_fast.Stats.Messages.{
  Delivery, latency, Place, Pc, proceed, exec, System, drawn_after, call, run, start, Reach, here,
  next,
}
use aeron_fast.Stats.Messages.Tasks.{owed}

abbrev pub of_latency : (ℕ → ℕ) → ℕ → Delivery → ℕ
of_latency w i d = w (latency d)

map-snoc :
    (drawn : List Delivery) (d : Delivery)
    → map latency (drawn ++ d ∷ []) ≡ map latency drawn ++ latency d ∷ []
map-snoc [] d = refl
map-snoc (x ∷ drawn) d = ap (λ (l : List ℕ). latency x ∷ l) (map-snoc drawn d)

-- What a thread has not yet added to the sum.
abbrev unadded : Pc → ℕ
unadded pc = owed 2 (of_latency (λ x. x)) pc

proceed_total :
    (p : Place) (d : Delivery) (i : ℕ) (m : PerformanceStats)
    → ((proceed p d i m).1.counters.total_latency + unadded (proceed p d i m).0) % 2 ^ 64
      ≡ (m.counters.total_latency + unadded (Pc.inside p d i)) % 2 ^ 64
unfolding proceed
proceed_total Place.totalling d i m = omega arith
proceed_total p d i m = ground arith

abbrev pub drawing_now : (ℕ → ℕ) → Pc → ℕ
drawing_now w (Pc.drawing d) = w (latency d)
drawing_now w pc = 0

exec_total :
    (pc : Pc) (m : PerformanceStats)
    → ((exec pc m).1.counters.total_latency + unadded (exec pc m).0) % 2 ^ 64
      ≡ (m.counters.total_latency + unadded pc + drawing_now (λ x. x) pc) % 2 ^ 64
unfolding exec
exec_total Pc.idle m = omega arith
exec_total (Pc.drawing d) m = omega arith
exec_total (Pc.inside p d i) m = omega (arith, proceed_total p d i m)

pub weigh-drawn_after :
    (w : ℕ → ℕ) (pc : Pc) (drawn : List Delivery)
    → weigh w (map latency (drawn_after pc drawn)) ≡ weigh w (map latency drawn) + drawing_now w pc
weigh-drawn_after w Pc.idle drawn = omega arith
weigh-drawn_after w (Pc.drawing d) drawn =
    rw (map-snoc drawn d) (weigh-snoc w (map latency drawn) (latency d))
weigh-drawn_after w (Pc.inside p d i) drawn = omega arith

sum-drawn_after :
    (pc : Pc) (drawn : List Delivery)
    → sum (map latency (drawn_after pc drawn)) ≡ sum (map latency drawn) + drawing_now (λ x. x) pc
sum-drawn_after Pc.idle drawn = omega arith
sum-drawn_after (Pc.drawing d) drawn =
    rw (map-snoc drawn d) (sum-snoc (map latency drawn) (latency d))
sum-drawn_after (Pc.inside p d i) drawn = omega arith

-- At every moment the sum and what the threads have still to add are the sum over the calls that
-- have drawn an index, modulo 2 ^ 64.
pub Reach_total :
    (n : ℕ) (memory : PerformanceStats) {s : System}
    → memory.counters.total_latency ≡ 0
    → Reach (start n memory) s
    → (s.memory.counters.total_latency + weigh (owed 2 (of_latency (λ x. x))) s.threads) % 2 ^ 64
      ≡ sum (map latency s.drawn) % 2 ^ 64
Reach_total n memory none_yet here = omega (arith, weigh-replicate unadded n Pc.idle refl)
Reach_total n memory none_yet (next {t} r (call i d e)) =
    omega (
      arith,
      Reach_total n memory none_yet r,
      weigh-set unadded t.threads i Pc.idle (Pc.drawing d) e,
    )
Reach_total n memory none_yet (next {t} r (run i pc e)) = omega (
  arith,
  Reach_total n memory none_yet r,
  exec_total pc t.memory,
  sum-drawn_after pc t.drawn,
  weigh-set unadded t.threads i pc (exec pc t.memory).0 e,
)

proceed_total_small :
    (p : Place) (d : Delivery) (i : ℕ) (m : PerformanceStats)
    → IsU64 m.counters.total_latency
    → IsU64 (proceed p d i m).1.counters.total_latency
unfolding proceed
proceed_total_small Place.totalling d i m h = omega arith
proceed_total_small p d i m h = ground arith

exec_total_small :
    (pc : Pc) (m : PerformanceStats)
    → IsU64 m.counters.total_latency
    → IsU64 (exec pc m).1.counters.total_latency
unfolding exec
exec_total_small Pc.idle m h = h
exec_total_small (Pc.drawing d) m h = h
exec_total_small (Pc.inside p d i) m h = proceed_total_small p d i m h

pub Reach_total_small :
    (n : ℕ) (memory : PerformanceStats) {s : System}
    → IsU64 memory.counters.total_latency
    → Reach (start n memory) s
    → IsU64 s.memory.counters.total_latency
Reach_total_small n memory small here = small
Reach_total_small n memory small (next r (call i d e)) = Reach_total_small n memory small r
Reach_total_small n memory small (next {t} r (run i pc e)) =
    exec_total_small pc t.memory (Reach_total_small n memory small r)
