-- ===== src/Stats/Concurrent/Slots.antt =====
-- What one operation does to the records, and what a thread still has to give to them.
use aeron_fast.Base.{
  ℕ, ◌+◌, ◌≤◌, ◌≡◌, refl, inl, inr, Bool, true, false, List, arith, set, ltb, ◌==◌, Bool-cases,
  weigh,
}
use aeron_fast.Stats.Defs.{PerformanceStats, DetailedRecords, detailed_record_count}
use aeron_fast.Stats.Concurrent.{Pc, exec, latency}
use aeron_fast.Stats.Concurrent.Returns.{Round, left, lost, raising-Round, lowering-Round}

-- What a thread has not yet given to the records, or given up, in some weight of the latencies.
abbrev pub unplaced_of : (ℕ → ℕ) → Pc → ℕ
unplaced_of w Pc.idle = 0
unplaced_of w (Pc.storing l slot) = 0
unplaced_of w pc = w (latency pc)

abbrev pub unplaced : (ℕ → ℕ) → List Pc → ℕ
unplaced w pcs = weigh (unplaced_of w) pcs

abbrev pub is_storing : Pc → Bool
is_storing (Pc.storing l slot) = true
is_storing _ = false

-- The three ways that an operation treats the records: it leaves them alone, takes a slot, or fills
-- the slot that it has taken.
pub data OnRecords (records : DetailedRecords) : Pc → Pc → DetailedRecords → Type 0 where
  apart :
      {pc pc' : Pc}
      → is_storing pc ≡ false
      → is_storing pc' ≡ false
      → ((w : ℕ → ℕ) → unplaced_of w pc' ≤ unplaced_of w pc)
      → OnRecords records pc pc' records
  takes :
      (l c : ℕ)
      → records.recorded_count ≡ c
      → OnRecords records
          (Pc.appending l c)
          (Pc.storing l c)
          (record records { recorded_count = c + 1 })
  fills :
      (l slot : ℕ)
      → OnRecords records
          (Pc.storing l slot)
          Pc.idle
          (record records { latencies = set records.latencies slot l })

appending-OnRecords :
    (l c : ℕ) (m : PerformanceStats)
    → OnRecords m.records
        (Pc.appending l c)
        (exec (Pc.appending l c) m).0
        (exec (Pc.appending l c) m).1.records
unfolding exec
appending-OnRecords l c m = elim (Bool-cases (ltb c detailed_record_count)) [
  | inr p ↦ rw p (apart refl refl (λ w. omega arith))
  | inl p ↦ elim (Bool-cases (m.records.recorded_count == c)) [
    | inl q ↦ rw (p, q) (takes l c (ground arith))
    | inr q ↦ rw (p, q) (apart refl refl (λ w. omega arith))
  ]
]

-- A loop of a call for `l` stays in the call, and away from the records.
looping-OnRecords :
    (l : ℕ) (pc next again : Pc) (m m₀ : PerformanceStats) (s : Pc × PerformanceStats)
    → Round next again m₀ s
    → s.1.records ≡ m.records
    → is_storing pc ≡ false
    → is_storing next ≡ false
    → is_storing again ≡ false
    → ((w : ℕ → ℕ) → unplaced_of w pc ≡ w l)
    → ((w : ℕ → ℕ) → unplaced_of w next ≡ w l)
    → ((w : ℕ → ℕ) → unplaced_of w again ≡ w l)
    → OnRecords m.records pc s.0 s.1.records
looping-OnRecords l pc next again m m₀ _ (left m') same a b c x y z =
    rw same (apart a b (λ w. omega (arith, x w, y w)))
looping-OnRecords l pc next again m m₀ _ lost same a b c x y z =
    rw same (apart a c (λ w. omega (arith, x w, z w)))

raising_records : (l c : ℕ) (m : PerformanceStats) → (exec (Pc.raising l c) m).1.records ≡ m.records
unfolding exec
raising_records l c m = elim (Bool-cases (ltb c l)) [ inl p ↦ rw p refl | inr p ↦ rw p refl ]

lowering_records :
    (l c : ℕ) (m : PerformanceStats) → (exec (Pc.lowering l c) m).1.records ≡ m.records
unfolding exec
lowering_records l c m = elim (Bool-cases (ltb l c)) [ inl p ↦ rw p refl | inr p ↦ rw p refl ]

pub exec-OnRecords :
    (pc : Pc) (m : PerformanceStats) → OnRecords m.records pc (exec pc m).0 (exec pc m).1.records
unfolding exec
exec-OnRecords Pc.idle m = apart refl refl (λ w. omega arith)
exec-OnRecords (Pc.counting l) m = apart refl refl (λ w. omega arith)
exec-OnRecords (Pc.totalling l) m = apart refl refl (λ w. omega arith)
exec-OnRecords (Pc.loading_min l) m = apart refl refl (λ w. omega arith)
exec-OnRecords (Pc.lowering l c) m =
    looping-OnRecords l (Pc.lowering l c) _ _ m _ (exec (Pc.lowering l c) m) (lowering-Round l c m)
      (lowering_records l c m) refl refl refl (λ w. refl) (λ w. refl) (λ w. refl)
exec-OnRecords (Pc.loading_max l) m = apart refl refl (λ w. omega arith)
exec-OnRecords (Pc.raising l c) m =
    looping-OnRecords l (Pc.raising l c) _ _ m _ (exec (Pc.raising l c) m) (raising-Round l c m)
      (raising_records l c m) refl refl refl (λ w. refl) (λ w. refl) (λ w. refl)
exec-OnRecords (Pc.bucketing l) m = apart refl refl (λ w. omega arith)
exec-OnRecords (Pc.loading_count l) m = apart refl refl (λ w. omega arith)
exec-OnRecords (Pc.appending l c) m = appending-OnRecords l c m
exec-OnRecords (Pc.storing l slot) m = fills l slot
