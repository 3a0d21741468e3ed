-- ===== src/Stats/Concurrent/Records.antt =====
-- The records that calls of `record_latency` keep when several threads make them at once.
use aeron_fast.Base.{
  ℕ, ◌+◌, ◌≤◌, ◌<◌, ◌≡◌, refl, sym, ap, ◌∙◌, ◌≢◌, ◌⊎◌, inl, inr, false, some, List, [], ◌∷◌, ◌++◌,
  arith, length, get_elem?, set, length-append, length-set, ◌==◌, Bool-cases, weigh, weigh-snoc,
  lt-get_elem?, weigh-set, get_elem?-set_cases, get_elem?-set_keeps, get_elem?-append_left,
  get_elem?-set_same, get_elem?-set_other,
}
use mathlib.Core.Bool.{true≢false}
use aeron_fast.Base.{get_elem?-append}
use aeron_fast.Stats.Defs.{DetailedRecords, detailed_record_count}
use aeron_fast.Stats.Concurrent.{Pc, System}
use aeron_fast.Stats.Concurrent.Slots.{unplaced_of, unplaced, is_storing}

-- The latencies of the slots taken so far, each still to be stored by the thread that took it, or
-- there.
pub record HasSlots (s : System) : Type 0 where
  pub slots : List ℕ
  pub taken : s.memory.records.recorded_count ≡ length slots
  pub room : length s.memory.records.latencies ≡ detailed_record_count
  pub from_calls : (w : ℕ → ℕ) → weigh w slots + unplaced w s.threads ≤ weigh w s.started
  pub owners :
      (i l slot : ℕ)
      → get_elem? s.threads i ≡ some (Pc.storing l slot)
      → get_elem? slots slot ≡ some l
  pub stored :
      (k : ℕ)
      → k < length slots
      → (get_elem? s.memory.records.latencies k ≡ get_elem? slots k)
        ⊎ ((i : ℕ) × (l : ℕ) × (get_elem? s.threads i ≡ some (Pc.storing l k)))

pub not_storing : {pc : Pc} {l slot : ℕ} → is_storing pc ≡ false → pc ≡ Pc.storing l slot → ⊥
not_storing p e = true≢false (sym (ap is_storing e) ∙ p)

storing_slot : {l l' slot slot' : ℕ} → Pc.storing l slot ≡ Pc.storing l' slot' → slot ≡ slot'
storing_slot e = cc e

storing_latency : {l l' slot slot' : ℕ} → Pc.storing l slot ≡ Pc.storing l' slot' → l ≡ l'
storing_latency e = cc e

le_or_same : (k n : ℕ) → k < n + 1 → (k < n) ⊎ (k ≡ n)
le_or_same k n p = omega arith

same_or_other : (m n : ℕ) → (m ≡ n) ⊎ (m ≢ n)
same_or_other m n = elim (Bool-cases (m == n)) [
  | inl p ↦ inl (ground (arith, p))
  | inr p ↦ inr (λ e. ground (arith, p, e))
]

-- A thread that was not storing does something that is not storing either, the records stay, and
-- the calls are the same or one more.
pub apart-HasSlots :
    (s t : System) (i : ℕ) (pc pc' : Pc)
    → get_elem? s.threads i ≡ some pc
    → t.threads ≡ set s.threads i pc'
    → t.memory.records ≡ s.memory.records
    → is_storing pc ≡ false
    → is_storing pc' ≡ false
    → ((w : ℕ → ℕ) → weigh w s.started + unplaced_of w pc' ≤ weigh w t.started + unplaced_of w pc)
    → HasSlots s
    → HasSlots t
apart-HasSlots s t i pc pc' e threads records a b fewer h = record {
  slots = h.slots;
  taken = rw records (h.taken);
  room = rw records (h.room);
  from_calls = λ w.
      rw threads
        (omega (arith, h.from_calls w, fewer w, weigh-set (unplaced_of w) s.threads i pc pc' e));
  owners = λ j l slot f.
      elim (get_elem?-set_cases s.threads i j pc' (Pc.storing l slot) (rw threads at f)) [
        | inl g ↦ absurd (not_storing b g)
        | inr g ↦ h.owners j l slot g
      ];
  stored = λ k p. elim (h.stored k p) [
    | inl g ↦ inl (ap (λ (r : DetailedRecords). get_elem? r.latencies k) records ∙ g)
    | inr (j, l, g) ↦ elim (get_elem?-set_keeps s.threads i j pc' (Pc.storing l k) pc g e) [
      | inl kept ↦ inr (j, l, rw threads kept)
      | inr same ↦ absurd (not_storing a same)
    ]
  ];
}

-- A thread takes the next slot.
pub takes-HasSlots :
    (s t : System) (i l c : ℕ)
    → get_elem? s.threads i ≡ some (Pc.appending l c)
    → t.threads ≡ set s.threads i (Pc.storing l c)
    → s.memory.records.recorded_count ≡ c
    → t.memory.records ≡ record (s.memory.records) { recorded_count = c + 1 }
    → t.started ≡ s.started
    → HasSlots s
    → HasSlots t
takes-HasSlots s t i l c e threads loaded records started h =
    let slots : List ℕ = h.slots ++ l ∷ [] in
    let longer : length slots ≡ length h.slots + 1 = length-append h.slots (l ∷ []) in
    let next : c ≡ length h.slots = sym loaded ∙ h.taken in
    record {
      slots = slots;
      taken = rw records (omega (arith, longer, next));
      room = rw records (h.room);
      from_calls = λ w.
          rw (threads, started)
            (omega (
              arith,
              h.from_calls w,
              weigh-snoc w h.slots l,
              weigh-set (unplaced_of w) s.threads i (Pc.appending l c) (Pc.storing l c) e,
            ));
      owners = λ j l' slot f.
          elim (get_elem?-set_cases s.threads i j (Pc.storing l c) (Pc.storing l' slot)
            (rw threads at f)) [
              | inl g ↦
                  ap (get_elem? slots) (sym (storing_slot g) ∙ next)
                  ∙ get_elem?-append h.slots l []
                  ∙ ap some (storing_latency g)
              | inr g ↦
                  (let old = h.owners j l' slot g in
                    get_elem?-append_left h.slots (l ∷ []) slot (lt-get_elem? h.slots slot l' old)
                    ∙ old)
            ];
      stored = λ k p. elim (le_or_same k (length h.slots) (omega (arith, p, longer))) [
        | inl earlier ↦ elim (h.stored k earlier) [
          | inl g ↦ inl (
              ap (λ (r : DetailedRecords). get_elem? r.latencies k) records
              ∙ g
              ∙ sym (get_elem?-append_left h.slots (l ∷ []) k earlier))
          | inr (j, l', g) ↦
              elim (get_elem?-set_keeps s.threads i j (Pc.storing l c) (Pc.storing l' k)
                (Pc.appending l c) g e) [
                  | inl kept ↦ inr (j, l', rw threads kept)
                  | inr same ↦ absurd (not_storing refl same)
                ]
        ]
        | inr last ↦ inr (
          i,
          l,
          rw (threads, last, sym next)
              (get_elem?-set_same s.threads i (Pc.storing l c)
                (lt-get_elem? s.threads i (Pc.appending l c) e)),
        )
      ];
    }

-- A thread fills the slot that it has taken.
pub fills-HasSlots :
    (s t : System) (i l slot : ℕ)
    → get_elem? s.threads i ≡ some (Pc.storing l slot)
    → t.threads ≡ set s.threads i Pc.idle
    → t.memory.records
      ≡ record (s.memory.records) { latencies = set s.memory.records.latencies slot l }
    → t.started ≡ s.started
    → s.memory.records.recorded_count ≤ detailed_record_count
    → HasSlots s
    → HasSlots t
fills-HasSlots s t i l slot e threads records started bound h =
    let own : get_elem? h.slots slot ≡ some l = h.owners i l slot e in
    let inside : slot < length s.memory.records.latencies =
      omega (arith, h.room, h.taken, bound, lt-get_elem? h.slots slot l own) in
    record {
      slots = h.slots;
      taken = rw records (h.taken);
      room = rw records (length-set s.memory.records.latencies slot l ∙ h.room);
      from_calls = λ w.
          rw (threads, started)
            (omega (
              arith,
              h.from_calls w,
              weigh-set (unplaced_of w) s.threads i (Pc.storing l slot) Pc.idle e,
            ));
      owners = λ j l' slot' f.
          elim (get_elem?-set_cases s.threads i j Pc.idle (Pc.storing l' slot') (rw threads at f)) [
            | inl g ↦ absurd (not_storing refl g)
            | inr g ↦ h.owners j l' slot' g
          ];
      stored = λ k p. elim (same_or_other slot k) [
        | inl same ↦ inl (
            ap (λ (r : DetailedRecords). get_elem? r.latencies k) records
            ∙ rw (sym same) (get_elem?-set_same s.memory.records.latencies slot l inside ∙ sym own))
        | inr other ↦ elim (h.stored k p) [
          | inl g ↦ inl (
              ap (λ (r : DetailedRecords). get_elem? r.latencies k) records
              ∙ get_elem?-set_other s.memory.records.latencies slot k l other
              ∙ g)
          | inr (j, l', g) ↦
              elim (get_elem?-set_keeps s.threads i j Pc.idle (Pc.storing l' k) (Pc.storing l slot)
                g e) [
                  | inl kept ↦ inr (j, l', rw threads kept)
                  | inr taken ↦ absurd (other (storing_slot taken))
                ]
        ]
      ];
    }
