-- ===== src/Stats/Messages/Alone.antt =====
-- One thread while the others stand still: its call does what `record_message_latency` does.
use native.Mathlib.Nat.{zero-add, suc-add}
use aeron_fast.Base.{
  ℕ, zero, suc, ◌+◌, ◌≤◌, ◌≡◌, refl, sym, ap, ◌∙◌, inl, inr, Bool, some, arith, ltb, leb, ◌==◌,
  Bool-cases, ◌/◌, if◌then◌else◌, add64, lt→ltb, ◌<◌,
}
use aeron_fast.Stats.Defs.{PerformanceStats, detailed_record_count}
use aeron_fast.Stats.{
  count_bucket, record_message_latency, write_record, lower_min, raise_max, lower_min_self,
  raise_max_self, count_message, update_extremes,
}
use aeron_fast.Stats.Concurrent.Alone.{same_number}
use aeron_fast.Stats.Messages.{Delivery, latency, Place, Pc, exec, proceed, run_alone, recording}

-- At most `k` operations lead from one state of a thread and the memory to another.
pub record Within (k : ℕ) (pc : Pc) (m : PerformanceStats) (pc' : Pc) (m' : PerformanceStats)
    : Type 0 where
  pub operations : ℕ
  pub few : operations ≤ k
  pub ran : run_alone operations pc m ≡ (pc', m')

run_alone-add :
    (a b : ℕ) (pc : Pc) (m : PerformanceStats)
    → run_alone (a + b) pc m ≡ run_alone b (run_alone a pc m).0 (run_alone a pc m).1
run_alone-add zero b pc m = rw zero-add refl
run_alone-add (suc a) b pc m = rw suc-add (run_alone-add a b (exec pc m).0 (exec pc m).1)

then-Within :
    (k l : ℕ) {pc pc' pc'' : Pc} {m m' m'' : PerformanceStats}
    → Within k pc m pc' m'
    → Within l pc' m' pc'' m''
    → Within (k + l) pc m pc'' m''
then-Within k l {pc} {m = m} x y = record {
  operations = x.operations + y.operations;
  few = omega (arith, x.few, y.few);
  ran = run_alone-add x.operations y.operations pc m ∙ rw x.ran y.ran;
}

module _ (d : Delivery) (i : ℕ) where
  -- The memory after the parts of a call that has drawn `i`.
  abbrev pub dated : PerformanceStats → PerformanceStats
  dated m = record m {
    counters = record (m.counters) { total_latency = add64 m.counters.total_latency (latency d) };
    first_message_time = if i == 0 then d.receive_time else m.first_message_time;
    last_message_time = d.receive_time;
  }

  -- What the loop for the minimum leaves: the value, and whether this call stored it.
  abbrev pub lowered_by : ℕ × Bool → PerformanceStats → PerformanceStats
  lowered_by (value, stored) m = record m {
    counters = record (m.counters) { min_latency = value };
    min_latency_message_index = if stored then add64 i 1 else m.min_latency_message_index;
    min_latency_send_time = if stored then d.send_time else m.min_latency_send_time;
    min_latency_receive_time = if stored then d.receive_time else m.min_latency_receive_time;
  }

  abbrev pub lowered : PerformanceStats → PerformanceStats
  lowered m = lowered_by (lower_min 1 m.counters.min_latency m.counters.min_latency (latency d)) m

  abbrev pub raised : PerformanceStats → PerformanceStats
  raised m = record m {
    counters = record (m.counters) {
      max_latency = raise_max 1 m.counters.max_latency m.counters.max_latency (latency d);
    };
  }

  abbrev pub recorded : PerformanceStats → PerformanceStats
  recorded m = record m {
    records = write_record i d.send_time d.receive_time (latency d) m.records;
    latency_buckets = count_bucket leb (latency d / 1000) m.latency_bucket_limits m.latency_buckets;
  }

  -- The three stores that describe a new minimum.
  abbrev pub named : PerformanceStats → PerformanceStats
  named m = record m {
    min_latency_message_index = add64 i 1;
    min_latency_send_time = d.send_time;
    min_latency_receive_time = d.receive_time;
  }

  -- The whole call.
  abbrev pub finished : PerformanceStats → PerformanceStats
  finished m = recorded (raised (lowered (dated m)))

  pub dating_alone :
      (m : PerformanceStats)
      → Within 4
          (Pc.inside Place.dating_first d i)
          m
          (Pc.inside (Place.lowering m.counters.min_latency) d i)
          (dated m)
  unfolding exec proceed
  dating_alone m = record { operations = 4; few = omega arith; ran = refl }

  pub exchanging_alone :
      (m : PerformanceStats)
      → latency d < m.counters.min_latency
      → Within 1
          (Pc.inside (Place.lowering m.counters.min_latency) d i)
          m
          (Pc.inside Place.naming_index d i)
          (record m { counters = record (m.counters) { min_latency = latency d } })
  unfolding exec proceed
  exchanging_alone m p = record {
    operations = 1;
    few = omega arith;
    ran = rw (lt→ltb _ _ p, same_number) refl;
  }

  pub naming_alone :
      (m : PerformanceStats)
      → Within 3 (Pc.inside Place.naming_index d i) m (Pc.inside Place.loading_max d i) (named m)
  unfolding exec proceed
  naming_alone m = record { operations = 3; few = omega arith; ran = refl }

  lowering_alone :
      (m : PerformanceStats)
      → Within 4
          (Pc.inside (Place.lowering m.counters.min_latency) d i)
          m
          (Pc.inside Place.loading_max d i)
          (lowered m)
  unfolding exec proceed
  lowering_alone m =
      let kept = lower_min_self 0 m.counters.min_latency (latency d) in
      elim (Bool-cases (ltb (latency d) m.counters.min_latency)) [
        | inl p ↦ record {
          operations = 4;
          few = omega arith;
          ran =
              rw (p, same_number) refl
              ∙ ap (λ k. (Pc.inside Place.loading_max d i, lowered_by k m)) (sym (rw p at kept));
        }
        | inr p ↦ record {
          operations = 1;
          few = omega arith;
          ran =
              rw p refl
              ∙ ap (λ k. (Pc.inside Place.loading_max d i, lowered_by k m)) (sym (rw p at kept));
        }
      ]

  raising_alone :
      (m : PerformanceStats)
      → Within 2 (Pc.inside Place.loading_max d i) m (Pc.inside (recording i) d i) (raised m)
  unfolding exec proceed
  raising_alone m = elim (Bool-cases (ltb m.counters.max_latency (latency d))) [
    | inl p ↦ record {
      operations = 2;
      few = omega arith;
      ran = rw (raise_max_self, p, same_number) refl;
    }
    | inr p ↦ record { operations = 2; few = omega arith; ran = rw (raise_max_self, p) refl }
  ]

  recording_alone :
      (m : PerformanceStats) → Within 5 (Pc.inside (recording i) d i) m Pc.idle (recorded m)
  unfolding exec proceed write_record
  recording_alone m = elim (Bool-cases (ltb i detailed_record_count)) [
    | inl p ↦ record { operations = 5; few = omega arith; ran = rw p refl }
    | inr p ↦ record { operations = 1; few = omega arith; ran = rw p refl }
  ]

  -- From the loop for the maximum on.
  pub ending_alone :
      (m : PerformanceStats)
      → Within 7 (Pc.inside Place.loading_max d i) m Pc.idle (recorded (raised m))
  ending_alone m = then-Within 2 5 (raising_alone m) (recording_alone (raised m))

  pub inside_alone :
      (m : PerformanceStats) → Within 15 (Pc.inside Place.dating_first d i) m Pc.idle (finished m)
  inside_alone m =
      then-Within 4 11 (dating_alone m)
        (then-Within 4 7 (lowering_alone (dated m)) (ending_alone (lowered (dated m))))

-- The memory after the addition to the message count.
abbrev pub drawn_one : PerformanceStats → PerformanceStats
drawn_one m = record m {
  counters = record (m.counters) { message_count = add64 m.counters.message_count 1 };
}

drawing_alone :
    (d : Delivery) (m : PerformanceStats)
    → Within 1
        (Pc.drawing d)
        m
        (Pc.inside Place.dating_first d m.counters.message_count)
        (drawn_one m)
unfolding exec
drawing_alone d m = record { operations = 1; few = omega arith; ran = refl }

-- At most sixteen operations of a thread that no other comes between are one
-- `record_message_latency`, for any times and any statistics.
pub run_alone-record_message_latency :
    (d : Delivery) (m : PerformanceStats)
    → (m' : PerformanceStats) × Within 16 (Pc.drawing d) m Pc.idle m'
      × (record_message_latency (some m) d.send_time d.receive_time ≡ some m')
unfolding record_message_latency update_extremes count_message write_record
run_alone-record_message_latency d m =
    let i = m.counters.message_count in
    (
      finished d i (drawn_one m),
      then-Within 1 15 (drawing_alone d m) (inside_alone d i (drawn_one m)),
      refl,
    )
