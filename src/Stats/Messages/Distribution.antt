-- ===== src/Stats/Messages/Distribution.antt =====
-- The distribution of the latencies when several threads count them.
use aeron_fast.Stats.Messages.Totals.{of_latency, drawing_now, weigh-drawn_after}
use aeron_fast.Base.{
  ℕ, suc, ◌+◌, ◌/◌, ◌≤◌, ◌<◌, ◌≡◌, refl, ◌∙◌, inl, inr, some, List, [], ◌∷◌, ◌++◌, arith, map,
  get_elem?, set, leb, ◌==◌, if◌then◌else◌, Bool-cases, weigh, weigh-set, weigh-snoc,
  weigh-replicate,
}
use aeron_fast.Stats.Defs.{PerformanceStats, init_limits}
use aeron_fast.Stats.{count_bucket}
use aeron_fast.Stats.Tally.{tally, IsAscending, count_bucket-tally, count_bucket-leb}
use aeron_fast.Stats.Messages.{
  Delivery, latency, Place, Pc, proceed, exec, System, drawn_after, call, run, start, Reach, here,
  next,
}
use aeron_fast.Stats.Messages.Indices.{rank, Next, ended, onward, proceed-Next}
use aeron_fast.Stats.Messages.Tasks.{owed}

-- What is left to do of the distribution.
abbrev uncounted : (ℕ → ℕ) → Pc → ℕ
uncounted w pc = owed 9 (of_latency w) pc

-- `<=` on whole microseconds is `<` on the next limit.
abbrev pub ranges : List ℕ
ranges = map suc init_limits

ranges-IsAscending : IsAscending 0 ranges
ranges-IsAscending = omega arith

pub record IsCounted (s : System) : Type 0 where
  pub counted : List ℕ
  pub limits : s.memory.latency_bucket_limits ≡ init_limits
  pub buckets : s.memory.latency_buckets ≡ tally 0 ranges counted
  pub balanced :
      (w : ℕ → ℕ)
      → weigh w (map latency s.drawn) ≡ weigh w counted + weigh (owed 9 (of_latency w)) s.threads

rank_le : (p : Place) → rank p ≤ 9
rank_le (Place.lowering c) = omega arith
rank_le p = omega arith

-- A call is counted by its last operation.
Next-uncounted :
    (w : ℕ → ℕ) (p : Place) (d : Delivery) (i : ℕ) {pc : Pc}
    → Next p d i pc
    → rank p < 9
    → uncounted w pc ≡ uncounted w (Pc.inside p d i)
Next-uncounted w p d i (ended e) lt = absurd (omega arith)
Next-uncounted w p d i (onward p' le up) lt = ground (arith, rank_le p, rank_le p')

last_uncounted :
    (w : ℕ → ℕ) (p : Place) (d : Delivery) (i : ℕ) (m : PerformanceStats)
    → rank p ≡ 9
    → uncounted w (proceed p d i m).0 ≡ 0
unfolding proceed
last_uncounted w Place.bucketing d i m e = refl
last_uncounted w p d i m e = absurd (omega arith)

proceed_buckets :
    (p : Place) (d : Delivery) (i : ℕ) (m : PerformanceStats)
    → ((proceed p d i m).1.latency_bucket_limits ≡ m.latency_bucket_limits)
      × ((proceed p d i m).1.latency_buckets ≡ (
          if rank p == 9
          then count_bucket leb (latency d / 1000) m.latency_bucket_limits m.latency_buckets
          else m.latency_buckets))
unfolding proceed
proceed_buckets Place.bucketing d i m = (refl, refl)
proceed_buckets p d i m = ground arith

pub bucket_lem :
    (h : List ℕ) (l : ℕ)
    → count_bucket leb (l / 1000) init_limits (tally 0 ranges h) ≡ tally 0 ranges (h ++ l ∷ [])
bucket_lem h l =
    count_bucket-leb (l / 1000) init_limits (tally 0 ranges h)
    ∙ count_bucket-tally 0 ranges h l ranges-IsAscending (omega arith)

module _ (s : System) (i : ℕ) (pc : Pc) (e : get_elem? s.threads i ≡ some pc)
    (h : IsCounted s) where
  abbrev after_run : System
  after_run = record s {
    memory = (exec pc s.memory).1;
    threads = set s.threads i (exec pc s.memory).0;
    drawn = drawn_after pc s.drawn;
  }

  -- An operation that counts no latency, and one that does.
  uncounted_run :
      (exec pc s.memory).1.latency_bucket_limits ≡ s.memory.latency_bucket_limits
      → (exec pc s.memory).1.latency_buckets ≡ s.memory.latency_buckets
      → ((w : ℕ → ℕ) → uncounted w (exec pc s.memory).0 ≡ uncounted w pc + drawing_now w pc)
      → IsCounted after_run
  uncounted_run same_limits same_buckets moves = record {
    counted = h.counted;
    limits = same_limits ∙ h.limits;
    buckets = same_buckets ∙ h.buckets;
    balanced = λ w. omega (
      arith,
      h.balanced w,
      weigh-drawn_after w pc s.drawn,
      moves w,
      weigh-set (uncounted w) s.threads i pc (exec pc s.memory).0 e,
    );
  }

  IsCounted-run :
      (l : ℕ)
      → (exec pc s.memory).1.latency_bucket_limits ≡ s.memory.latency_bucket_limits
      → (exec pc s.memory).1.latency_buckets
        ≡ count_bucket leb (l / 1000) s.memory.latency_bucket_limits s.memory.latency_buckets
      → ((w : ℕ → ℕ) → uncounted w (exec pc s.memory).0 + w l ≡ uncounted w pc + drawing_now w pc)
      → IsCounted after_run
  IsCounted-run l same_limits new_buckets moves = record {
    counted = h.counted ++ l ∷ [];
    limits = same_limits ∙ h.limits;
    buckets = new_buckets ∙ rw (h.limits, h.buckets) (bucket_lem h.counted l);
    balanced = λ w. omega (
      arith,
      h.balanced w,
      weigh-drawn_after w pc s.drawn,
      moves w,
      weigh-snoc w h.counted l,
      weigh-set (uncounted w) s.threads i pc (exec pc s.memory).0 e,
    );
  }

run-IsCounted :
    (s : System) (i : ℕ) (pc : Pc)
    → get_elem? s.threads i ≡ some pc
    → IsCounted s
    → IsCounted (record s {
      memory = (exec pc s.memory).1;
      threads = set s.threads i (exec pc s.memory).0;
      drawn = drawn_after pc s.drawn;
    })
unfolding exec
run-IsCounted s i Pc.idle e h = uncounted_run s i Pc.idle e h refl refl (λ w. omega arith)
run-IsCounted s i (Pc.drawing d) e h =
    uncounted_run s i (Pc.drawing d) e h refl refl (λ w. omega arith)
run-IsCounted s i (Pc.inside p d n) e h =
    let (limits, buckets) = proceed_buckets p d n s.memory in
    elim (Bool-cases (rank p == 9)) [
      | inr early ↦ uncounted_run s i (Pc.inside p d n) e h limits (rw early at buckets) (λ w.
          omega (
            arith,
            Next-uncounted w p d n (proceed-Next p d n s.memory) (ground (arith, rank_le p)),
          ))
      | inl last ↦
          IsCounted-run s i (Pc.inside p d n) e h (latency d) limits (rw last at buckets)
            (λ w. ground (arith, last_uncounted w p d n s.memory (ground arith), rank_le p))
    ]

pub Reach-IsCounted :
    (n : ℕ) (memory : PerformanceStats) {s : System}
    → memory.latency_bucket_limits ≡ init_limits
    → memory.latency_buckets ≡ tally 0 ranges []
    → Reach (start n memory) s
    → IsCounted s
Reach-IsCounted n memory limits empty here = record {
  counted = [];
  limits = limits;
  buckets = empty;
  balanced = λ w. omega (arith, weigh-replicate (uncounted w) n Pc.idle refl);
}
Reach-IsCounted n memory limits empty (next {t} r (call i d e)) =
    let h = Reach-IsCounted n memory limits empty r in
    record {
      counted = h.counted;
      limits = h.limits;
      buckets = h.buckets;
      balanced = λ w.
          omega (arith, h.balanced w, weigh-set (uncounted w) t.threads i Pc.idle (Pc.drawing d) e);
    }
Reach-IsCounted n memory limits empty (next {t} r (run i pc e)) =
    run-IsCounted t i pc e (Reach-IsCounted n memory limits empty r)
