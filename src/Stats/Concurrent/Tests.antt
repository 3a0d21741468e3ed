-- ===== src/Stats/Concurrent/Tests.antt =====
-- Interleaved calls at concrete latencies.
use aeron_fast.Stats.Concurrent.Recorded.{SubBag, recorded-SubBag}
use aeron_fast.Base.{
  ℕ, ◌≡◌, refl, true, Option, none, some, List, [], ◌∷◌, ◌++◌, arith, replicate, ◌≤◌, take, length,
}
use mathlib.Core.Quot
use aeron_fast.Stats.{record_latency, count_bucket}
use aeron_fast.Stats.Defs.{PerformanceStats, create_performance_stats}
use aeron_fast.Stats.Bag.{figures}
use aeron_fast.Stats.History.{create-Tracks}
use aeron_fast.Stats.Concurrent.{
  Pc, exec, run_alone, schedule, System, call, start, Reach, here, next,
}
use aeron_fast.Stats.Concurrent.Quiet.{held, held-figures}
use aeron_fast.Stats.Concurrent.Alone.{run_alone-record_latency}
use aeron_fast.Stats.Concurrent.Settle.{AllIdle, AllIdle-IsQuiet, Reach-append, calls_return}

abbrev fresh : PerformanceStats
fresh = create-Tracks.0

fresh_made : create_performance_stats true ≡ some fresh
fresh_made = create-Tracks.1

-- Two threads in calls for 700 and 2500 nanoseconds.
abbrev both_called : System
both_called = record {
  memory = fresh;
  threads = Pc.counting 700 ∷ Pc.counting 2500 ∷ [];
  started = 700 ∷ 2500 ∷ [];
  passed = λ k. [];
}

two_calls : Reach (start 2 fresh) both_called
two_calls = next (next here (call 0 700 refl (omega arith))) (call 1 2500 refl (omega arith))

calls_return_example :
    (t : System) × Reach both_called t
    × AllIdle t.threads
    × (held t.memory ≡ figures (Quot.mk (700 ∷ 2500 ∷ [])))
calls_return_example = calls_return 2 fresh fresh_made two_calls

abbrev at_rest : System
at_rest = (calls_return 2 fresh fresh_made two_calls).0

held-figures_example : held at_rest.memory ≡ figures (Quot.mk at_rest.started)
held-figures_example =
    held-figures 2 fresh fresh_made
      (Reach-append two_calls (calls_return 2 fresh fresh_made two_calls).1)
      (AllIdle-IsQuiet at_rest.threads (calls_return 2 fresh fresh_made two_calls).2)

run_alone-record_latency_example :
    (m' : PerformanceStats) × (run_alone 10 (Pc.counting 700) fresh ≡ (Pc.idle, m'))
    × (record_latency (some fresh) 700 ≡ some m')
run_alone-record_latency_example = run_alone-record_latency 700 fresh

recorded-SubBag_example :
    let r = at_rest.memory.records in
    (r.recorded_count ≤ 1000)
    × (length (take r.recorded_count r.latencies) ≡ r.recorded_count)
    × SubBag (take r.recorded_count r.latencies) at_rest.started
recorded-SubBag_example =
    recorded-SubBag 2 fresh fresh_made
      (Reach-append two_calls (calls_return 2 fresh fresh_made two_calls).1)
      ((calls_return 2 fresh fresh_made two_calls).2)

-- Both threads load the number of records before either of them raises it, and the one that comes
-- second stores nothing: one of the two latencies is not among the records.
abbrev records_raced : Option PerformanceStats → Option (ℕ × ℕ × List Pc)
records_raced none = none
records_raced (some m) =
    let (m', threads) =
      schedule (replicate 8 0 ++ replicate 8 1 ++ 0 ∷ 1 ∷ 0 ∷ 1 ∷ [])
        (m, Pc.counting 700 ∷ Pc.counting 2500 ∷ []) in
    some (m'.counters.message_count, m'.records.recorded_count, threads)

record_lost : records_raced (create_performance_stats true) ≡ some (2, 1, Pc.idle ∷ Pc.idle ∷ [])
unfolding exec create_performance_stats count_bucket
record_lost = refl
