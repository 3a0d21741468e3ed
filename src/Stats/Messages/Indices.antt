-- ===== src/Stats/Messages/Indices.antt =====
-- The addition to the message count gives every call an index of its own.
use aeron_fast.Stats.{compare_exchange, detailed_record_count}
use aeron_fast.Base.{
  ℕ, ◌≤◌, ◌≡◌, refl, ◌∙◌, inl, inr, some, List, [], ◌∷◌, ◌++◌, arith, length, get_elem?, set,
  length-append, ltb, if◌then◌else◌, IsU64, Bool-cases, All, All-set, All-map, All-replicate,
  All-get_elem?, lt-get_elem?, get_elem?-append, get_elem?-append_left, Bool, true, false, suc, ◌⊎◌,
  ◌<◌,
}
use aeron_fast.Stats.Defs.{PerformanceStats}
use aeron_fast.Stats.Messages.{
  Delivery, Place, Pc, proceed, exec, recording, System, drawn_after, Step, call, run, start, Reach,
  here, next, latency,
}

-- How far a call with an index is: the updates it has behind it.
abbrev pub rank : Place → ℕ
rank Place.dating_first = 0
rank Place.dating_last = 1
rank Place.totalling = 2
rank Place.loading_min = 3
rank (Place.lowering c) = 3
rank Place.naming_index = 4
rank Place.naming_send = 4
rank Place.naming_receive = 4
rank Place.loading_max = 4
rank (Place.raising c) = 4
rank Place.storing_send = 5
rank Place.storing_receive = 6
rank Place.storing_latency = 7
rank Place.storing_count = 8
rank Place.bucketing = 9

-- An operation of a call ends it after the last update, or leaves it with its arguments and its
-- index, no earlier than it was and at most one update further; but a call with no room for its
-- record goes from the loop for the maximum to the buckets.
pub data Next (p : Place) (d : Delivery) (i : ℕ) : Pc → Type 0 where
  ended : rank p ≡ 9 → Next p d i Pc.idle
  onward :
      (p' : Place)
      → rank p ≤ rank p'
      → (rank p' ≤ suc (rank p)) ⊎ ((rank p ≡ 4) × (detailed_record_count ≤ i))
      → Next p d i (Pc.inside p' d i)

recording-rank :
    (i : ℕ) → (4 ≤ rank (recording i)) × ((rank (recording i) ≤ 5) ⊎ (detailed_record_count ≤ i))
recording-rank i = elim (Bool-cases (ltb i detailed_record_count)) [
  | inl p ↦ rw p (omega arith, inl (omega arith))
  | inr p ↦ rw p (omega arith, inr (ground arith))
]

Next-of_loop :
    (p : Place) (success : Bool) (out again : Place) (d : Delivery) (i : ℕ)
    → rank p ≡ rank again
    → rank p ≤ rank out
    → (rank out ≤ suc (rank p)) ⊎ ((rank p ≡ 4) × (detailed_record_count ≤ i))
    → Next p d i (Pc.inside (if success then out else again) d i)
Next-of_loop p true out again d i e le up = onward out le up
Next-of_loop p false out again d i e le up = onward again (omega arith) (inl (omega arith))

recording_up :
    (i : ℕ) (c : ℕ)
    → (rank (recording i) ≤ 5) ⊎ (detailed_record_count ≤ i)
    → (rank (recording i) ≤ 5) ⊎ ((rank (Place.raising c) ≡ 4) × (detailed_record_count ≤ i))
recording_up i c (inl p) = inl p
recording_up i c (inr p) = inr (refl, p)

pub proceed-Next :
    (p : Place) (d : Delivery) (i : ℕ) (m : PerformanceStats) → Next p d i (proceed p d i m).0
unfolding proceed
proceed-Next Place.dating_first d i m = onward _ (omega arith) (inl (omega arith))
proceed-Next Place.dating_last d i m = onward _ (omega arith) (inl (omega arith))
proceed-Next Place.totalling d i m = onward _ (omega arith) (inl (omega arith))
proceed-Next Place.loading_min d i m = onward _ (omega arith) (inl (omega arith))
proceed-Next (Place.lowering c) d i m =
    let x = compare_exchange m.counters.min_latency c (latency d) in
    elim (Bool-cases (ltb (latency d) c)) [
      | inr p ↦ rw p (onward _ (omega arith) (inl (omega arith)))
      | inl p ↦ rw p (
          Next-of_loop (Place.lowering c) x.success Place.naming_index (Place.lowering x.expected) d
            i refl (omega arith) (inl (omega arith)))
    ]
proceed-Next Place.naming_index d i m = onward _ (omega arith) (inl (omega arith))
proceed-Next Place.naming_send d i m = onward _ (omega arith) (inl (omega arith))
proceed-Next Place.naming_receive d i m = onward _ (omega arith) (inl (omega arith))
proceed-Next Place.loading_max d i m = onward _ (omega arith) (inl (omega arith))
proceed-Next (Place.raising c) d i m =
    let x = compare_exchange m.counters.max_latency c (latency d) in
    let (low, high) = recording-rank i in
    elim (Bool-cases (ltb c (latency d))) [
      | inr p ↦ rw p (onward (recording i) low (recording_up i c high))
      | inl p ↦ rw p (
          Next-of_loop (Place.raising c) x.success (recording i) (Place.raising x.expected) d i refl
            low (recording_up i c high))
    ]
proceed-Next Place.storing_send d i m = onward _ (omega arith) (inl (omega arith))
proceed-Next Place.storing_receive d i m = onward _ (omega arith) (inl (omega arith))
proceed-Next Place.storing_latency d i m = onward _ (omega arith) (inl (omega arith))
proceed-Next Place.storing_count d i m = onward _ (omega arith) (inl (omega arith))
proceed-Next Place.bucketing d i m = ended refl

-- The next place of a call that does not end.
pub Next-place :
    (p : Place) (d : Delivery) (i : ℕ) {pc : Pc}
    → Next p d i pc
    → rank p < 9
    → (p' : Place) × (pc ≡ Pc.inside p' d i)
      × ((rank p' ≤ suc (rank p)) ⊎ ((rank p ≡ 4) × (detailed_record_count ≤ i)))
Next-place p d i (ended e) lt = absurd (omega arith)
Next-place p d i (onward p' le up) lt = (p', refl, up)

-- A call stands in the list of draws at its index.
abbrev pub IsDrawn : List Delivery → Pc → Type 0
IsDrawn drawn (Pc.inside p d i) = get_elem? drawn i ≡ some d
IsDrawn drawn pc = Unit {0}

IsDrawn-append :
    (drawn more : List Delivery) (pc : Pc) → IsDrawn drawn pc → IsDrawn (drawn ++ more) pc
IsDrawn-append drawn more Pc.idle h = tt
IsDrawn-append drawn more (Pc.drawing d) h = tt
IsDrawn-append drawn more (Pc.inside p d i) h =
    get_elem?-append_left drawn more i (lt-get_elem? drawn i d h) ∙ h

Next-IsDrawn :
    (drawn : List Delivery) {p : Place} {d : Delivery} {i : ℕ} {pc : Pc}
    → Next p d i pc
    → get_elem? drawn i ≡ some d
    → IsDrawn drawn pc
Next-IsDrawn drawn (ended e) h = tt
Next-IsDrawn drawn (onward p' le up) h = h

-- What holds at every moment before the counter wraps.
pub record IsIndexed (s : System) : Type 0 where
  pub count : s.memory.counters.message_count ≡ length s.drawn
  pub indices : All (IsDrawn s.drawn) s.threads

proceed_count :
    (p : Place) (d : Delivery) (i : ℕ) (m : PerformanceStats)
    → (proceed p d i m).1.counters.message_count ≡ m.counters.message_count
unfolding proceed
proceed_count Place.dating_first d i m = refl
proceed_count p d i m = ground arith

pub run-IsIndexed :
    (s : System) (i : ℕ) (pc : Pc)
    → get_elem? s.threads i ≡ some pc
    → IsU64 (length (drawn_after pc s.drawn))
    → IsIndexed s
    → IsIndexed (record s {
      memory = (exec pc s.memory).1;
      threads = set s.threads i (exec pc s.memory).0;
      drawn = drawn_after pc s.drawn;
    })
unfolding exec
run-IsIndexed s i Pc.idle e small h = record {
  count = h.count;
  indices = All-set (IsDrawn s.drawn) s.threads i Pc.idle tt h.indices;
}
run-IsIndexed s i (Pc.drawing d) e small h =
    let more = length-append s.drawn (d ∷ []) in
    record {
      count = omega (arith, more, h.count);
      indices =
          All-set (IsDrawn (s.drawn ++ d ∷ [])) s.threads i
            (Pc.inside Place.dating_first d s.memory.counters.message_count)
            (rw h.count (get_elem?-append s.drawn d []))
            (All-map (IsDrawn s.drawn) (IsDrawn (s.drawn ++ d ∷ [])) s.threads
              (IsDrawn-append s.drawn (d ∷ [])) h.indices);
    }
run-IsIndexed s i (Pc.inside p d n) e small h = record {
  count = proceed_count p d n s.memory ∙ h.count;
  indices =
      All-set (IsDrawn s.drawn) s.threads i (proceed p d n s.memory).0
        (Next-IsDrawn s.drawn (proceed-Next p d n s.memory)
          (All-get_elem? (IsDrawn s.drawn) s.threads i (Pc.inside p d n) e h.indices))
        h.indices;
}

pub Step-IsIndexed : {s t : System} → Step s t → IsU64 (length t.drawn) → IsIndexed s → IsIndexed t
Step-IsIndexed {s} (call i d e) small h = record {
  count = h.count;
  indices = All-set (IsDrawn s.drawn) s.threads i (Pc.drawing d) tt h.indices;
}
Step-IsIndexed {s} (run i pc e) small h = run-IsIndexed s i pc e small h

pub drawn_after_le :
    (pc : Pc) (drawn : List Delivery) → length drawn ≤ length (drawn_after pc drawn)
drawn_after_le Pc.idle drawn = omega arith
drawn_after_le (Pc.drawing d) drawn = omega (arith, length-append drawn (d ∷ []))
drawn_after_le (Pc.inside p d i) drawn = omega arith

-- A counter that has not wrapped had not wrapped before.
pub Step-small : {s t : System} → Step s t → IsU64 (length t.drawn) → IsU64 (length s.drawn)
Step-small (call i d e) small = small
Step-small {s} (run i pc e) small = omega (arith, drawn_after_le pc s.drawn)

pub Reach-IsIndexed :
    (n : ℕ) (memory : PerformanceStats) {s : System}
    → memory.counters.message_count ≡ 0
    → Reach (start n memory) s
    → IsU64 (length s.drawn)
    → IsIndexed s
Reach-IsIndexed n memory zeroed here small = record {
  count = zeroed;
  indices = All-replicate (IsDrawn []) n Pc.idle tt;
}
Reach-IsIndexed n memory zeroed (next r st) small =
    Step-IsIndexed st small (Reach-IsIndexed n memory zeroed r (Step-small st small))
