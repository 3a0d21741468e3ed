-- ===== src/Stats/Concurrent/Recorded.antt =====
-- What the records hold when all calls have ended.
use aeron_fast.Base.{
  ℕ, zero, suc, ◌≤◌, ◌<◌, ◌≡◌, refl, sym, ap, ◌∙◌, inl, inr, true, some, List, [], ◌∷◌, arith,
  length, get_elem?, set, take, replicate, none-get_elem?, weigh-snoc, weigh, take-eq,
}
use mathlib.Core.Option.{some-injective}
use aeron_fast.Stats.Defs.{
  PerformanceStats, DetailedRecords, detailed_record_count, create_performance_stats,
}
use aeron_fast.Stats.History.{Tracks, create-Tracks, first_latencies}
use aeron_fast.Stats.Concurrent.{Pc, exec, System, Step, call, run, start, Reach, here, next}
use aeron_fast.Stats.Concurrent.Quiet.{recorded_le}
use aeron_fast.Stats.Concurrent.Settle.{AllIdle}
use aeron_fast.Stats.Concurrent.Slots.{unplaced, OnRecords, exec-OnRecords}
use aeron_fast.Stats.Concurrent.Records.{
  HasSlots, not_storing, apart-HasSlots, takes-HasSlots, fills-HasSlots,
}

unplaced-idle : (n : ℕ) (w : ℕ → ℕ) → unplaced w (replicate n Pc.idle) ≡ 0
unplaced-idle zero w = refl
unplaced-idle (suc n) w = omega (arith, unplaced-idle n w)

idle_only : (n i : ℕ) (pc : Pc) → get_elem? (replicate n Pc.idle) i ≡ some pc → pc ≡ Pc.idle
idle_only zero i pc e = absurd (none-get_elem? e)
idle_only (suc n) zero pc e = sym (some-injective _ _ e)
idle_only (suc n) (suc i) pc e = idle_only n i pc e

length-first_latencies : (n : ℕ) (h : List ℕ) → length (first_latencies n h) ≡ n
unfolding first_latencies
length-first_latencies zero h = refl
length-first_latencies (suc n) [] = ap suc (length-first_latencies n [])
length-first_latencies (suc n) (l ∷ h) = ap suc (length-first_latencies n h)

start-HasSlots : (n : ℕ) (memory : PerformanceStats) → Tracks [] memory → HasSlots (start n memory)
start-HasSlots n memory t = record {
  slots = [];
  taken = t.recorded;
  room = ap length t.latencies ∙ length-first_latencies detailed_record_count [];
  from_calls = λ w. omega (arith, unplaced-idle n w);
  owners = λ i l slot e. absurd (not_storing refl (sym (idle_only n i (Pc.storing l slot) e)));
  stored = λ k p. absurd (omega (arith, p));
}

run-HasSlots :
    (s : System) (i : ℕ) (pc pc' : Pc) (m : PerformanceStats) (passed : ℕ → List ℕ)
    → get_elem? s.threads i ≡ some pc
    → s.memory.records.recorded_count ≤ detailed_record_count
    → (records : DetailedRecords) → m.records ≡ records
    → OnRecords s.memory.records pc pc' records
    → HasSlots s
    → HasSlots
        (record { memory = m; threads = set s.threads i pc'; started = s.started; passed = passed })
run-HasSlots s i pc pc' m passed e bound _ same (OnRecords.apart a b fewer) h =
    apart-HasSlots s _ i pc pc' e refl same a b (λ w. omega (arith, fewer w)) h
run-HasSlots s i _ _ m passed e bound _ same (OnRecords.takes l c loaded) h =
    takes-HasSlots s _ i l c e refl loaded same refl h
run-HasSlots s i _ _ m passed e bound _ same (OnRecords.fills l slot) h =
    fills-HasSlots s _ i l slot e refl same refl bound h

Step-HasSlots :
    {s t : System}
    → Step s t
    → s.memory.records.recorded_count ≤ detailed_record_count
    → HasSlots s
    → HasSlots t
Step-HasSlots {s} (call i l e small) bound h =
    apart-HasSlots s _ i Pc.idle (Pc.counting l) e refl refl refl refl
      (λ w. omega (arith, weigh-snoc w s.started l)) h
Step-HasSlots {s} (run i pc e) bound h =
    run-HasSlots s i pc (exec pc s.memory).0 (exec pc s.memory).1 _ e bound _ refl
      (exec-OnRecords pc s.memory) h

Reach-HasSlots :
    (n : ℕ) (memory : PerformanceStats) {s : System}
    → create_performance_stats true ≡ some memory
    → Reach (start n memory) s
    → HasSlots s
Reach-HasSlots n memory made here =
    let (m, e, t) = create-Tracks in
    start-HasSlots n memory (rw (some-injective _ _ (sym e ∙ made)) at t)
Reach-HasSlots n memory made (next r st) =
    Step-HasSlots st (recorded_le n memory made r) (Reach-HasSlots n memory made r)

-- Some of the items of a list, each at most as often as it is there.
abbrev pub SubBag : List ℕ → List ℕ → Type 0
SubBag xs ys = (w : ℕ → ℕ) → weigh w xs ≤ weigh w ys

idle_thread :
    (pcs : List Pc) (i : ℕ) (pc : Pc) → AllIdle pcs → get_elem? pcs i ≡ some pc → pc ≡ Pc.idle
idle_thread [] i pc h e = absurd (none-get_elem? e)
idle_thread (x ∷ pcs) zero pc h e = sym (some-injective _ _ e) ∙ h.0
idle_thread (x ∷ pcs) (suc i) pc h e = idle_thread pcs i pc h.1 e

-- In every state that the threads can reach from new statistics, in any order of their atomic
-- operations, in which all calls have ended: the records are at most a thousand, and the latencies
-- in the slots that are counted are those of as many different calls. No slot was missed, or filled
-- by two threads.
pub recorded-SubBag :
    (n : ℕ) (memory : PerformanceStats) {s : System}
    → create_performance_stats true ≡ some memory
    → Reach (start n memory) s
    → AllIdle s.threads
    → let r = s.memory.records in
      (r.recorded_count ≤ detailed_record_count)
      × (length (take r.recorded_count r.latencies) ≡ r.recorded_count)
      × SubBag (take r.recorded_count r.latencies) s.started
recorded-SubBag n memory {s} made r idle =
    let h = Reach-HasSlots n memory made r in
    let bound = recorded_le n memory made r in
    let there : (k : ℕ)
        → k < length h.slots
        → get_elem? s.memory.records.latencies k ≡ get_elem? h.slots k =
      λ k p. elim (h.stored k p) [
        | inl g ↦ g
        | inr (i, l, g) ↦
            absurd (not_storing refl (sym (idle_thread s.threads i (Pc.storing l k) idle g)))
      ] in
    let same : take s.memory.records.recorded_count s.memory.records.latencies ≡ h.slots =
      ap (λ (c : ℕ). take c s.memory.records.latencies) h.taken
      ∙ take-eq s.memory.records.latencies h.slots (omega (arith, h.room, h.taken, bound)) there in
    (bound, ap length same ∙ sym h.taken, λ w. omega (arith, ap (weigh w) same, h.from_calls w))
