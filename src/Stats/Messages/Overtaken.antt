-- ===== src/Stats/Messages/Overtaken.antt =====
-- A call that is overtaken between its exchange and the stores that belong to it.
use mathlib.Core.Path.{subst}
use aeron_fast.Base.{
  ℕ, zero, suc, ◌<◌, ◌≡◌, refl, sym, ap, Bool, some, List, [], ◌∷◌, arith, u64_max, get_elem?, set,
  lt→ltb, lt-get_elem?, get_elem?-set_same, set-set, set_self,
}
use aeron_fast.Stats.Defs.{PerformanceStats, init_performance_stats}
use aeron_fast.Stats.{write_record, lower_min_self}
use aeron_fast.Stats.Messages.{
  Delivery, latency, Place, Pc, exec, run_alone, System, call, run, start, Reach, here, next,
  drawn_after,
}
use aeron_fast.Stats.Messages.Indices.{Next, ended, onward, proceed-Next}
use aeron_fast.Stats.Messages.Tasks.{AllIdle}
use aeron_fast.Stats.Messages.Alone.{
  Within, dated, named, raised, recorded, finished, drawn_one, dating_alone, exchanging_alone,
  naming_alone, ending_alone, inside_alone,
}
use aeron_fast.Stats.Messages.Settled.{made-IsInit}

-- The thread has no addition to the message count before it.
data HasDrawn : Pc → Type 0 where
  rests : HasDrawn Pc.idle
  works : (p : Place) (d : Delivery) (i : ℕ) → HasDrawn (Pc.inside p d i)

Next-HasDrawn : {p : Place} {d : Delivery} {i : ℕ} {pc : Pc} → Next p d i pc → HasDrawn pc
Next-HasDrawn (ended e) = rests
Next-HasDrawn {d = d} {i = i} (onward p' le up) = works p' d i

exec-HasDrawn : {pc : Pc} (m : PerformanceStats) → HasDrawn pc → HasDrawn (exec pc m).0
unfolding exec
exec-HasDrawn m rests = rests
exec-HasDrawn m (works p d i) = Next-HasDrawn (proceed-Next p d i m)

same_drawn : {pc : Pc} (drawn : List Delivery) → HasDrawn pc → drawn_after pc drawn ≡ drawn
same_drawn drawn rests = refl
same_drawn drawn (works p d i) = refl

Reach-append : {s t u : System} → Reach s t → Reach t u → Reach s u
Reach-append r here = r
Reach-append r (next q st) = next (Reach-append r q) st

-- What a thread does alone, it can do among the others.
run_alone-Reach :
    (n : ℕ) (s : System) (i : ℕ) {pc : Pc}
    → get_elem? s.threads i ≡ some pc
    → HasDrawn pc
    → Reach s (record s {
      memory = (run_alone n pc s.memory).1;
      threads = set s.threads i (run_alone n pc s.memory).0;
    })
run_alone-Reach zero s i {pc} e h =
    subst (λ ts. Reach s (record s { threads = ts })) (sym (set_self s.threads i pc e)) here
run_alone-Reach (suc n) s i {pc} e h =
    let (pc', m') = exec pc s.memory in
    let s' : System = record s { memory = m'; threads = set s.threads i pc' } in
    let first : Reach s s' =
      subst (λ drawn. Reach s (record s' { drawn = drawn })) (same_drawn s.drawn h)
        (next here (run i pc e)) in
    let rest =
      run_alone-Reach n s' i (get_elem?-set_same s.threads i pc' (lt-get_elem? s.threads i pc e))
        (exec-HasDrawn s.memory h) in
    Reach-append first (
      subst (λ ts. Reach s' (record s' { memory = (run_alone n pc' m').1; threads = ts }))
        (set-set s.threads i pc' (run_alone n pc' m').0) rest)

Within-Reach :
    (s : System) (i k : ℕ) {pc pc' : Pc} {m' : PerformanceStats}
    → get_elem? s.threads i ≡ some pc
    → HasDrawn pc
    → Within k pc s.memory pc' m'
    → Reach s (record s { memory = m'; threads = set s.threads i pc' })
Within-Reach s i k e h w =
    subst
      (λ (x : Pc × PerformanceStats).
        Reach s (record s { memory = x.1; threads = set s.threads i x.0 }))
      w.ran (run_alone-Reach w.operations s i e h)

-- Two threads, of which the first is overtaken: it has stored its latency as the minimum, and not
-- yet said whose latency it is, when the second makes a whole call with a lower one.
module _ (memory : PerformanceStats) (d e : Delivery) where
  abbrev state : PerformanceStats → Pc → Pc → List Delivery → System
  state m pc pc' drawn = record { memory = m; threads = pc ∷ pc' ∷ []; drawn = drawn }

  abbrev first : ℕ
  first = memory.counters.message_count

  abbrev lowering_first : PerformanceStats
  lowering_first = dated d first (drawn_one memory)

  abbrev before_naming : PerformanceStats
  before_naming = record lowering_first {
    counters = record (lowering_first.counters) { min_latency = latency d };
  }

  abbrev waiting : System
  waiting = state before_naming (Pc.inside Place.naming_index d first) (Pc.drawing e) (d ∷ [])

  abbrev second : ℕ
  second = before_naming.counters.message_count

  abbrev overtaken_by : PerformanceStats
  overtaken_by = finished e second (drawn_one before_naming)

  abbrev at_the_end : PerformanceStats
  at_the_end = recorded d first (raised d first (named d first overtaken_by))

  to_waiting : latency d < memory.counters.min_latency → Reach (start 2 memory) waiting
  unfolding exec
  to_waiting lower =
      let called : Reach (start 2 memory) (state memory (Pc.drawing d) (Pc.drawing e) []) =
        next (next here (call 0 d refl)) (call 1 e refl) in
      let s₁ =
        state (drawn_one memory) (Pc.inside Place.dating_first d first) (Pc.drawing e) (d ∷ []) in
      let drawn : Reach (start 2 memory) s₁ = next called (run 0 (Pc.drawing d) refl) in
      let s₂ =
        state lowering_first (Pc.inside (Place.lowering memory.counters.min_latency) d first)
          (Pc.drawing e) (d ∷ []) in
      let dating : Reach s₁ s₂ =
        Within-Reach s₁ 0 4 refl (works Place.dating_first d first)
          (dating_alone d first (drawn_one memory)) in
      let exchanging : Reach s₂ waiting =
        Within-Reach s₂ 0 1 refl (works (Place.lowering memory.counters.min_latency) d first)
          (exchanging_alone d first lowering_first lower) in
      Reach-append drawn (Reach-append dating exchanging)

  from_waiting : Reach waiting (state at_the_end Pc.idle Pc.idle (d ∷ e ∷ []))
  unfolding exec
  from_waiting =
      let s₁ =
        state (drawn_one before_naming) (Pc.inside Place.naming_index d first)
          (Pc.inside Place.dating_first e second) (d ∷ e ∷ []) in
      let drawn : Reach waiting s₁ = next here (run 1 (Pc.drawing e) refl) in
      let s₂ = state overtaken_by (Pc.inside Place.naming_index d first) Pc.idle (d ∷ e ∷ []) in
      let overtaking : Reach s₁ s₂ =
        Within-Reach s₁ 1 15 refl (works Place.dating_first e second)
          (inside_alone e second (drawn_one before_naming)) in
      let s₃ =
        state (named d first overtaken_by) (Pc.inside Place.loading_max d first) Pc.idle
          (d ∷ e ∷ []) in
      let naming : Reach s₂ s₃ =
        Within-Reach s₂ 0 3 refl (works Place.naming_index d first)
          (naming_alone d first overtaken_by) in
      let ending : Reach s₃ (state at_the_end Pc.idle Pc.idle (d ∷ e ∷ [])) =
        Within-Reach s₃ 0 7 refl (works Place.loading_max d first)
          (ending_alone d first (named d first overtaken_by)) in
      Reach-append drawn (Reach-append overtaking (Reach-append naming ending))

  lowest_lem : latency e < latency d → at_the_end.counters.min_latency ≡ latency e
  lowest_lem lower =
      let kept = lower_min_self 0 (latency d) (latency e) in
      ap (λ (k : ℕ × Bool). k.0) (rw (lt→ltb _ _ lower) at kept)

  recorded_lem : memory.counters.message_count ≡ 0 → at_the_end.records.recorded_count ≡ 1
  unfolding write_record
  recorded_lem zeroed = rw zeroed refl

-- From new statistics, two threads in `record_message_latency` can reach a state in which both
-- calls have ended, and the minimum is the latency of the second, but the message that is named as
-- the fastest, by its number and with both times, is the first, which is slower; and a single
-- record is counted, although there are two: for any two latencies of which the second is lower,
-- and the first below the value that the minimum starts from.
pub overtaken :
    (old memory : PerformanceStats) (d e : Delivery)
    → (init_performance_stats (some old)).1 ≡ some memory
    → latency e < latency d
    → latency d < u64_max
    → (s : System) × Reach (start 2 memory) s
      × AllIdle s.threads
      × (s.drawn ≡ d ∷ e ∷ [])
      × (s.memory.counters.min_latency ≡ latency e)
      × (s.memory.min_latency_message_index ≡ 1)
      × (s.memory.min_latency_send_time ≡ d.send_time)
      × (s.memory.min_latency_receive_time ≡ d.receive_time)
      × (s.memory.records.recorded_count ≡ 1)
overtaken old memory d e made lower low =
    let h = made-IsInit old memory made in
    (
      state memory d e (at_the_end memory d e) Pc.idle Pc.idle (d ∷ e ∷ []),
      Reach-append (to_waiting memory d e (omega (arith, h.top))) (from_waiting memory d e),
      (refl, (refl, tt)),
      refl,
      lowest_lem memory d e lower,
      omega (arith, h.zeroed),
      refl,
      refl,
      recorded_lem memory d e h.zeroed,
    )
