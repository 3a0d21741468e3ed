-- ===== src/Stats/Messages/Bounds.antt =====
-- The stores of the records stay inside the arrays, and the number of records below both limits.
use aeron_fast.Base.{
  ℕ, ◌≤◌, ◌<◌, ◌≡◌, inl, inr, Bool, true, false, List, arith, length, ltb, if◌then◌else◌, IsU64,
  Bool-cases, All, All-get_elem?, All-set, All-replicate, lt-get_elem?,
}
use aeron_fast.Stats.Defs.{PerformanceStats, detailed_record_count}
use aeron_fast.Stats.{compare_exchange}
use aeron_fast.Stats.Messages.{
  Delivery, latency, Place, Pc, proceed, exec, recording, System, drawn_after, call, run, start,
  Reach, here, next,
}
use aeron_fast.Stats.Messages.Indices.{IsDrawn, Reach-IsIndexed, Step-small, drawn_after_le}

-- A call that is about to store a part of its record, or the number of records, has an index with
-- room.
abbrev IsRoomy : ℕ → Place → Type 0
IsRoomy i Place.storing_send = i < detailed_record_count
IsRoomy i Place.storing_receive = i < detailed_record_count
IsRoomy i Place.storing_latency = i < detailed_record_count
IsRoomy i Place.storing_count = i < detailed_record_count
IsRoomy i p = Unit {0}

abbrev pub StoresInside : Pc → Type 0
StoresInside (Pc.inside p d i) = IsRoomy i p
StoresInside pc = Unit {0}

recording-IsRoomy : (i : ℕ) → IsRoomy i (recording i)
recording-IsRoomy i = elim (Bool-cases (ltb i detailed_record_count)) [
  | inl p ↦ rw p (ground arith)
  | inr p ↦ rw p tt
]

loop-IsRoomy :
    (i : ℕ) (success : Bool) (out again : Place)
    → IsRoomy i out
    → IsRoomy i again
    → IsRoomy i (if success then out else again)
loop-IsRoomy i true out again p q = p
loop-IsRoomy i false out again p q = q

proceed-StoresInside :
    (p : Place) (d : Delivery) (i : ℕ) (m : PerformanceStats)
    → IsRoomy i p
    → StoresInside (proceed p d i m).0
unfolding proceed
proceed-StoresInside Place.dating_first d i m h = tt
proceed-StoresInside Place.dating_last d i m h = tt
proceed-StoresInside Place.totalling d i m h = tt
proceed-StoresInside Place.loading_min d i m h = tt
proceed-StoresInside (Place.lowering c) d i m h =
    let x = compare_exchange m.counters.min_latency c (latency d) in
    elim (Bool-cases (ltb (latency d) c)) [
      | inl p ↦ rw p (loop-IsRoomy i x.success Place.naming_index (Place.lowering x.expected) tt tt)
      | inr p ↦ rw p tt
    ]
proceed-StoresInside Place.naming_index d i m h = tt
proceed-StoresInside Place.naming_send d i m h = tt
proceed-StoresInside Place.naming_receive d i m h = tt
proceed-StoresInside Place.loading_max d i m h = tt
proceed-StoresInside (Place.raising c) d i m h =
    let x = compare_exchange m.counters.max_latency c (latency d) in
    elim (Bool-cases (ltb c (latency d))) [
      | inl p ↦ rw p (
          loop-IsRoomy i x.success (recording i) (Place.raising x.expected) (recording-IsRoomy i)
            tt)
      | inr p ↦ rw p (recording-IsRoomy i)
    ]
proceed-StoresInside Place.storing_send d i m h = h
proceed-StoresInside Place.storing_receive d i m h = h
proceed-StoresInside Place.storing_latency d i m h = h
proceed-StoresInside Place.storing_count d i m h = tt
proceed-StoresInside Place.bucketing d i m h = tt

exec-StoresInside : (pc : Pc) (m : PerformanceStats) → StoresInside pc → StoresInside (exec pc m).0
unfolding exec
exec-StoresInside Pc.idle m h = tt
exec-StoresInside (Pc.drawing d) m h = tt
exec-StoresInside (Pc.inside p d i) m h = proceed-StoresInside p d i m h

-- At every moment, whatever the order, no thread is about to write past the end of an array.
pub Reach-StoresInside :
    (n : ℕ) (memory : PerformanceStats) {s : System}
    → Reach (start n memory) s
    → All StoresInside s.threads
Reach-StoresInside n memory here = All-replicate StoresInside n Pc.idle tt
Reach-StoresInside n memory (next {t} r (call i d e)) =
    All-set StoresInside t.threads i (Pc.drawing d) tt (Reach-StoresInside n memory r)
Reach-StoresInside n memory (next {t} r (run i pc e)) =
    let before = Reach-StoresInside n memory r in
    All-set StoresInside t.threads i (exec pc t.memory).0
      (exec-StoresInside pc t.memory (All-get_elem? StoresInside t.threads i pc e before)) before

-- The number of records is that of the start, or an index with room and its draw.
abbrev IsBounded : List Delivery → PerformanceStats → Type 0
IsBounded drawn m =
    (m.records.recorded_count ≤ detailed_record_count) × (m.records.recorded_count ≤ length drawn)

proceed-IsBounded :
    (p : Place) (d : Delivery) (i : ℕ) (m : PerformanceStats) (drawn : List Delivery)
    → IsRoomy i p
    → i < length drawn
    → IsBounded drawn m
    → IsBounded drawn (proceed p d i m).1
unfolding proceed
proceed-IsBounded Place.storing_count d i m drawn room small h = (omega arith, omega arith)
proceed-IsBounded p d i m drawn room small h = ground arith

exec-IsBounded :
    (pc : Pc) (m : PerformanceStats) (drawn : List Delivery)
    → StoresInside pc
    → IsDrawn drawn pc
    → IsBounded drawn m
    → IsBounded (drawn_after pc drawn) (exec pc m).1
unfolding exec
exec-IsBounded Pc.idle m drawn room own h = h
exec-IsBounded (Pc.drawing d) m drawn room own h =
    (h.0, omega (arith, drawn_after_le (Pc.drawing d) drawn))
exec-IsBounded (Pc.inside p d i) m drawn room own h =
    proceed-IsBounded p d i m drawn room (lt-get_elem? drawn i d own) h

-- At every moment there are no more records than slots, and no more than calls that have drawn.
pub Reach-IsBounded :
    (n : ℕ) (memory : PerformanceStats) {s : System}
    → memory.counters.message_count ≡ 0
    → memory.records.recorded_count ≡ 0
    → Reach (start n memory) s
    → IsU64 (length s.drawn)
    → (s.memory.records.recorded_count ≤ detailed_record_count)
      × (s.memory.records.recorded_count ≤ length s.drawn)
Reach-IsBounded n memory zeroed none_yet here small = (omega arith, omega arith)
Reach-IsBounded n memory zeroed none_yet (next {t} r (call i d e)) small =
    Reach-IsBounded n memory zeroed none_yet r small
Reach-IsBounded n memory zeroed none_yet (next {t} r (run i pc e)) small =
    let few = Step-small {s = t} (run i pc e) small in
    exec-IsBounded pc t.memory t.drawn
      (All-get_elem? StoresInside t.threads i pc e (Reach-StoresInside n memory r))
      (All-get_elem? (IsDrawn t.drawn) t.threads i pc e
        (Reach-IsIndexed n memory zeroed r few).indices)
      (Reach-IsBounded n memory zeroed none_yet r few)
