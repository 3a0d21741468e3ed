-- ===== src/Stats/Messages/Returns.antt =====
-- Every call of `record_message_latency` ends: a thread that goes on alone is done within eighteen
-- operations, wherever it stands.
use aeron_fast.Base.{
  ℕ, zero, suc, ◌≤◌, ◌<◌, ◌≡◌, refl, inl, inr, arith, ◌==◌, Bool-cases, if◌then◌else◌,
}
use aeron_fast.Stats.Defs.{PerformanceStats}
use aeron_fast.Stats.Messages.{Delivery, Place, Pc, proceed, exec, run_alone, recording}

-- At most how many operations a call has before it while the other threads stand still. A loop that
-- has loaded another value than there now is takes a round more.
abbrev pub remaining_at : Place → PerformanceStats → ℕ
remaining_at Place.dating_first m = 17
remaining_at Place.dating_last m = 16
remaining_at Place.totalling m = 15
remaining_at Place.loading_min m = 14
remaining_at (Place.lowering c) m = if m.counters.min_latency == c then 12 else 13
remaining_at Place.naming_index m = 11
remaining_at Place.naming_send m = 10
remaining_at Place.naming_receive m = 9
remaining_at Place.loading_max m = 8
remaining_at (Place.raising c) m = if m.counters.max_latency == c then 6 else 7
remaining_at Place.storing_send m = 5
remaining_at Place.storing_receive m = 4
remaining_at Place.storing_latency m = 3
remaining_at Place.storing_count m = 2
remaining_at Place.bucketing m = 1

abbrev pub remaining : Pc → PerformanceStats → ℕ
remaining Pc.idle m = 0
remaining (Pc.drawing d) m = 18
remaining (Pc.inside p d i) m = remaining_at p m

remaining_at-recording : (i : ℕ) (m : PerformanceStats) → remaining_at (recording i) m ≤ 5
remaining_at-recording i m = ground arith

remaining-proceed :
    (p : Place) (d : Delivery) (i : ℕ) (m : PerformanceStats)
    → remaining (proceed p d i m).0 (proceed p d i m).1 < remaining_at p m
unfolding proceed
remaining-proceed (Place.lowering c) d i m = ground arith
remaining-proceed (Place.raising c) d i m = ground (arith, remaining_at-recording i m)
remaining-proceed p d i m = ground arith

remaining-exec :
    (pc : Pc) (m : PerformanceStats)
    → 0 < remaining pc m
    → remaining (exec pc m).0 (exec pc m).1 < remaining pc m
unfolding exec
remaining-exec Pc.idle m some_left = absurd (omega arith)
remaining-exec (Pc.drawing d) m some_left = omega arith
remaining-exec (Pc.inside p d i) m some_left = remaining-proceed p d i m

remaining_none : (pc : Pc) (m : PerformanceStats) → remaining pc m ≡ 0 → pc ≡ Pc.idle
remaining_none Pc.idle m e = refl
remaining_none (Pc.drawing d) m e = absurd (omega arith)
remaining_none (Pc.inside p d i) m e = absurd (ground arith)

exec-idle : (m : PerformanceStats) → exec Pc.idle m ≡ (Pc.idle, m)
unfolding exec
exec-idle m = refl

enough_alone :
    (k : ℕ) (pc : Pc) (m : PerformanceStats) → remaining pc m ≤ k → (run_alone k pc m).0 ≡ Pc.idle
enough_alone zero pc m p = remaining_none pc m (omega arith)
enough_alone (suc k) pc m p =
    enough_alone k (exec pc m).0 (exec pc m).1 (elim (Bool-cases (remaining pc m == 0)) [
      | inl q ↦ (let e = remaining_none pc m (ground arith) in rw (e, exec-idle) (omega arith))
      | inr q ↦ omega (arith, remaining-exec pc m (ground arith))
    ])

remaining_le : (pc : Pc) (m : PerformanceStats) → remaining pc m ≤ 18
remaining_le Pc.idle m = omega arith
remaining_le (Pc.drawing d) m = omega arith
remaining_le (Pc.inside p d i) m = ground arith

-- A thread that goes on alone, from any place of a call and with any memory, is at the end of the
-- call after eighteen operations.
pub run_alone_returns : (pc : Pc) (m : PerformanceStats) → (run_alone 18 pc m).0 ≡ Pc.idle
run_alone_returns pc m = enough_alone 18 pc m (remaining_le pc m)
