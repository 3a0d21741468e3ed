-- ===== src/Stats/Messages/Tasks.antt =====
-- An update that every call does once: for each call that has drawn an index it is done, or the
-- call is on its way to it.
use mathlib.Core.Path.{subst}
use mathlib.Core.Option.{some-injective}
use aeron_fast.Base.{
  ℕ, zero, suc, ◌≤◌, ◌<◌, ◌≡◌, refl, sym, ap, ◌∙◌, ◌⊎◌, inl, inr, some, List, [], ◌∷◌, ◌++◌, arith,
  length, get_elem?, set, leb, ◌==◌, if◌then◌else◌, IsU64, Bool-cases, All, All-get_elem?, weigh,
  weigh-set, none-get_elem?,
}
use aeron_fast.Stats.Defs.{PerformanceStats}
use aeron_fast.Stats.Messages.{
  Delivery, Place, Pc, proceed, exec, System, drawn_after, Step, call, run, start, Reach, here,
  next,
}
use aeron_fast.Stats.Messages.Indices.{rank, IsDrawn, IsIndexed, Reach-IsIndexed, Step-small}

-- What a call that is not past update `k` owes, in a weight of its index and its arguments.
abbrev pub owed : ℕ → (ℕ → Delivery → ℕ) → Pc → ℕ
owed k w Pc.idle = 0
owed k w (Pc.drawing d) = 0
owed k w (Pc.inside p d i) = if leb (rank p) k then w i d else 0

abbrev pub only : ℕ → ℕ → Delivery → ℕ
only j i d = if i == j then 1 else 0

-- A call is before update `k` with the index `j`.
abbrev pub IsAwaited : ℕ → ℕ → List Pc → Type 0
IsAwaited k j pcs = 1 ≤ weigh (owed k (only j)) pcs

-- What is drawn after an addition: an earlier call, or the new one at the end.
pub drawn_cases :
    (drawn : List Delivery) (d : Delivery) (j : ℕ) (x : Delivery)
    → get_elem? (drawn ++ d ∷ []) j ≡ some x
    → (get_elem? drawn j ≡ some x) ⊎ ((j ≡ length drawn) × (d ≡ x))
drawn_cases [] d zero x e = inr (refl, some-injective _ _ e)
drawn_cases [] d (suc j) x e = inl e
drawn_cases (y ∷ drawn) d zero x e = inl e
drawn_cases (y ∷ drawn) d (suc j) x e = elim (drawn_cases drawn d j x e) [
  | inl old ↦ inl old
  | inr new ↦ inr (ap suc (new.0), new.1)
]

-- No call is under way.
abbrev pub AllIdle : List Pc → Type 0
AllIdle pcs = All (λ pc. pc ≡ Pc.idle) pcs

pub weigh_idle :
    (k : ℕ) (w : ℕ → Delivery → ℕ) (pcs : List Pc) → AllIdle pcs → weigh (owed k w) pcs ≡ 0
weigh_idle k w [] h = refl
weigh_idle k w (pc ∷ pcs) h =
    let none_owed : owed k w pc ≡ 0 = ap (owed k w) h.0 in
    omega (arith, none_owed, weigh_idle k w pcs h.1)

-- No thread leaves its place before update `k` with the index `j`.
IsAwaited-set :
    (k j : ℕ) (pcs : List Pc) (i : ℕ) (pc pc' : Pc)
    → get_elem? pcs i ≡ some pc
    → owed k (only j) pc ≤ owed k (only j) pc'
    → IsAwaited k j pcs
    → IsAwaited k j (set pcs i pc')
IsAwaited-set k j pcs i pc pc' e le h = omega (arith, weigh-set (owed k (only j)) pcs i pc pc' e)

-- A call that has just drawn `j`.
IsAwaited-drawn :
    (k j : ℕ) (pcs : List Pc) (i : ℕ) (pc : Pc) (d : Delivery)
    → get_elem? pcs i ≡ some pc
    → owed k (only j) pc ≡ 0
    → IsAwaited k j (set pcs i (Pc.inside Place.dating_first d j))
IsAwaited-drawn k j pcs i pc d e none_owed =
    let one : owed k (only j) (Pc.inside Place.dating_first d j) ≡ 1 = ground arith in
    omega (arith, weigh-set (owed k (only j)) pcs i pc (Pc.inside Place.dating_first d j) e)

-- A call at `p` does not pass update `k`, or does it, by its next operation.
pub data Does (k : ℕ) (Done : PerformanceStats → ℕ → Delivery → Type 0) (p : Place) (d : Delivery)
    (i : ℕ) (m : PerformanceStats) : Type 0 where
  before : {p' : Place} → (proceed p d i m).0 ≡ Pc.inside p' d i → rank p' ≤ k → Does k Done p d i m
  past : k < rank p → Does k Done p d i m
  now : Done (proceed p d i m).1 i d → Does k Done p d i m

module _ (k : ℕ) (Done : PerformanceStats → ℕ → Delivery → Type 0) where
  -- Update `k` of each call that has drawn an index.
  abbrev pub Task : System → Type 0
  Task s =
      (j : ℕ) (d : Delivery)
      → get_elem? s.drawn j ≡ some d
      → Done s.memory j d ⊎ IsAwaited k j s.threads

  -- What an operation has to keep, and what it has to do.
  pub record Serves (s : System) : Type 0 where
    pub keeps :
        (i : ℕ) (pc : Pc)
        → get_elem? s.threads i ≡ some pc
        → (j : ℕ) (d : Delivery) → get_elem? s.drawn j ≡ some d
        → Done s.memory j d
        → Done (exec pc s.memory).1 j d
    pub does :
        (i : ℕ) (p : Place) (d : Delivery) (n : ℕ)
        → get_elem? s.threads i ≡ some (Pc.inside p d n)
        → Does k Done p d n s.memory

  kept_or_IsAwaited :
      (s : System) (i : ℕ) (pc pc' : Pc) (j : ℕ) (d : Delivery)
      → Serves s
      → get_elem? s.threads i ≡ some pc
      → get_elem? s.drawn j ≡ some d
      → owed k (only j) pc ≤ owed k (only j) pc'
      → Done s.memory j d ⊎ IsAwaited k j s.threads
      → Done (exec pc s.memory).1 j d ⊎ IsAwaited k j (set s.threads i pc')
  kept_or_IsAwaited s i pc pc' j d v e f le (inl h) = inl (v.keeps i pc e j d f h)
  kept_or_IsAwaited s i pc pc' j d v e f le (inr h) =
      inr (IsAwaited-set k j s.threads i pc pc' e le h)

  run_drawing :
      (s : System) (i : ℕ) (x : Delivery)
      → get_elem? s.threads i ≡ some (Pc.drawing x)
      → IsIndexed s
      → Serves s
      → Task s
      → (j : ℕ) (d : Delivery) → get_elem? (s.drawn ++ x ∷ []) j ≡ some d
      → Done (exec (Pc.drawing x) s.memory).1 j d
        ⊎ IsAwaited k j
            (set s.threads i (Pc.inside Place.dating_first x s.memory.counters.message_count))
  run_drawing s i x e h v task j d f = elim (drawn_cases s.drawn x j d f) [
    | inl old ↦
        kept_or_IsAwaited s i (Pc.drawing x)
          (Pc.inside Place.dating_first x s.memory.counters.message_count) j d v e old (omega arith)
          (task j d old)
    | inr (last, same) ↦
        inr (rw (h.count ∙ sym last) (IsAwaited-drawn k j s.threads i (Pc.drawing x) x e refl))
  ]

  run_inside :
      (s : System) (i : ℕ) (p : Place) (x : Delivery) (n : ℕ)
      → get_elem? s.threads i ≡ some (Pc.inside p x n)
      → get_elem? s.drawn n ≡ some x
      → Serves s
      → Task s
      → Does k Done p x n s.memory
      → (j : ℕ) (d : Delivery) → get_elem? s.drawn j ≡ some d
      → Done (exec (Pc.inside p x n) s.memory).1 j d
        ⊎ IsAwaited k j (set s.threads i (proceed p x n s.memory).0)
  unfolding exec
  run_inside s i p x n e own v task (before {p'} to le) j d f =
      let same : owed k (only j) (Pc.inside p x n) ≤ owed k (only j) (Pc.inside p' x n) =
        ground arith in
      kept_or_IsAwaited s i (Pc.inside p x n) (proceed p x n s.memory).0 j d v e f (rw to same)
        (task j d f)
  run_inside s i p x n e own v task (past lt) j d f =
      let none_owed : owed k (only j) (Pc.inside p x n) ≡ 0 = ground arith in
      kept_or_IsAwaited s i (Pc.inside p x n) (proceed p x n s.memory).0 j d v e f
        (omega (arith, none_owed)) (task j d f)
  run_inside s i p x n e own v task (now done) j d f = elim (Bool-cases (n == j)) [
    | inl q ↦
        let here_too : n ≡ j = ground arith in
        let same : x ≡ d = some-injective _ _ (sym own ∙ ap (get_elem? s.drawn) here_too ∙ f) in
        let m : PerformanceStats = (proceed p x n s.memory).1 in
        inl (subst (Done m j) same (subst (λ (y : ℕ). Done m y x) here_too done))
    | inr q ↦
        let none_owed : owed k (only j) (Pc.inside p x n) ≡ 0 = ground arith in
        kept_or_IsAwaited s i (Pc.inside p x n) (proceed p x n s.memory).0 j d v e f
          (omega (arith, none_owed)) (task j d f)
  ]

  run-Task :
      (s : System) (i : ℕ) (pc : Pc)
      → get_elem? s.threads i ≡ some pc
      → IsIndexed s
      → Serves s
      → Task s
      → (j : ℕ) (d : Delivery) → get_elem? (drawn_after pc s.drawn) j ≡ some d
      → Done (exec pc s.memory).1 j d ⊎ IsAwaited k j (set s.threads i (exec pc s.memory).0)
  unfolding exec
  run-Task s i Pc.idle e h v task j d f =
      kept_or_IsAwaited s i Pc.idle Pc.idle j d v e f (omega arith) (task j d f)
  run-Task s i (Pc.drawing x) e h v task j d f = run_drawing s i x e h v task j d f
  run-Task s i (Pc.inside p x n) e h v task j d f =
      run_inside s i p x n e
        (All-get_elem? (IsDrawn s.drawn) s.threads i (Pc.inside p x n) e h.indices) v task
        (v.does i p x n e) j d f

  Step-Task : {s t : System} → Step s t → IsIndexed s → Serves s → Task s → Task t
  Step-Task {s} (call i x e) h v task j d f = elim (task j d f) [
    | inl done ↦ inl done
    | inr waits ↦ inr (IsAwaited-set k j s.threads i Pc.idle (Pc.drawing x) e (omega arith) waits)
  ]
  Step-Task {s} (run i pc e) h v task j d f = run-Task s i pc e h v task j d f

  -- From states in which every operation keeps and does its part, each call that has drawn an index
  -- is past the update or on its way to it.
  pub Reach-Task :
      (n : ℕ) (memory : PerformanceStats) {s : System}
      → memory.counters.message_count ≡ 0
      → ((t : System) → Reach (start n memory) t → IsU64 (length t.drawn) → Serves t)
      → Reach (start n memory) s
      → IsU64 (length s.drawn)
      → Task s
  Reach-Task n memory zeroed serves here small = λ j d f. absurd (none-get_elem? f)
  Reach-Task n memory zeroed serves (next {t} r st) small =
      let before = Step-small st small in
      Step-Task st (Reach-IsIndexed n memory zeroed r before) (serves t r before)
        (Reach-Task n memory zeroed serves r before)

  -- Without a call under way the update is done for all.
  pub Task_idle :
      (s : System)
      → AllIdle s.threads
      → Task s
      → (j : ℕ) (d : Delivery) → get_elem? s.drawn j ≡ some d
      → Done s.memory j d
  Task_idle s idle task j d f = elim (task j d f) [
    | inl done ↦ done
    | inr waits ↦ absurd (omega (arith, weigh_idle k (only j) s.threads idle))
  ]
