-- ===== src/Stats/Concurrent/Stages.antt =====
-- Every call is, for each of the five updates, either past it or still to do it.
use aeron_fast.Base.{
  ℕ, ◌+◌, ◌≤◌, ◌<◌, ◌≡◌, refl, ap, ◌⊎◌, inl, inr, ◌&&◌, List, [], ◌∷◌, ◌++◌, arith, ltb, leb,
  if◌then◌else◌, weigh, weigh-snoc, weigh-replicate, weigh-set,
}
use aeron_fast.Stats.Defs.{PerformanceStats}
use aeron_fast.Stats.Concurrent.{
  Pc, exec, rank, latency, System, note, Step, call, run, start, Reach, here, next,
}

-- What a thread still has to do of update `k`, in some weight of the latencies.
abbrev pub own : ℕ → (ℕ → ℕ) → Pc → ℕ
own k w pc = if leb (rank pc) k then w (latency pc) else 0

abbrev pub pending : ℕ → (ℕ → ℕ) → List Pc → ℕ
pending k w pcs = weigh (own k w) pcs

-- The latencies of the calls so far are those past update `k` and those of the threads before it.
abbrev pub IsBalanced : System → Type 0
IsBalanced s =
    (k : ℕ) → k < 5 → (w : ℕ → ℕ) → weigh w s.started ≡ weigh w (s.passed k) + pending k w s.threads

rank_le : (pc : Pc) → rank pc ≤ 5
rank_le Pc.idle = omega arith
rank_le (Pc.counting l) = omega arith
rank_le (Pc.totalling l) = omega arith
rank_le (Pc.loading_min l) = omega arith
rank_le (Pc.lowering l c) = omega arith
rank_le (Pc.loading_max l) = omega arith
rank_le (Pc.raising l c) = omega arith
rank_le (Pc.bucketing l) = omega arith
rank_le (Pc.loading_count l) = omega arith
rank_le (Pc.appending l c) = omega arith
rank_le (Pc.storing l slot) = omega arith

-- A step never goes back, and keeps the latency of the call until its updates are done.
pub data Onward (pc pc' : Pc) : Type 0 where
  same : latency pc' ≡ latency pc → rank pc ≤ rank pc' → Onward pc pc'
  done : 5 ≤ rank pc' → Onward pc pc'

exec-Onward : (pc : Pc) (m : PerformanceStats) → Onward pc (exec pc m).0
unfolding exec
exec-Onward Pc.idle m = done (omega arith)
exec-Onward (Pc.counting l) m = same refl (omega arith)
exec-Onward (Pc.totalling l) m = same refl (omega arith)
exec-Onward (Pc.loading_min l) m = same refl (omega arith)
exec-Onward (Pc.lowering l c) m = same (ground arith) (ground arith)
exec-Onward (Pc.loading_max l) m = same refl (omega arith)
exec-Onward (Pc.raising l c) m = same (ground arith) (ground arith)
exec-Onward (Pc.bucketing l) m = same refl (omega arith)
exec-Onward (Pc.loading_count l) m = done (omega arith)
exec-Onward (Pc.appending l c) m = done (ground arith)
exec-Onward (Pc.storing l slot) m = done (omega arith)

-- An item that moves from before update `k` to behind it, or stays where it is.
weigh_moved :
    (a b k x l : ℕ) (xs : List ℕ) (w : ℕ → ℕ)
    → a ≤ b
    → (k < b) ⊎ (x ≡ w l)
    → weigh w (if leb a k && ltb k b then xs ++ l ∷ [] else xs) + (if leb b k then x else 0)
      ≡ weigh w xs + (if leb a k then w l else 0)
weigh_moved a b k x l xs w p q = ground (arith, weigh-snoc w xs l, q)

note-own :
    (pc pc' : Pc) (passed : ℕ → List ℕ) (k : ℕ) (w : ℕ → ℕ)
    → Onward pc pc'
    → k < 5
    → weigh w (note pc pc' passed k) + own k w pc' ≡ weigh w (passed k) + own k w pc
note-own pc pc' passed k w (same e p) small =
    weigh_moved (rank pc) (rank pc') k (w (latency pc')) (latency pc) (passed k) w p (inr (ap w e))
note-own pc pc' passed k w (done p) small =
    weigh_moved (rank pc) (rank pc') k (w (latency pc')) (latency pc) (passed k) w
      (omega (arith, rank_le pc)) (inl (omega arith))

own-idle : (k : ℕ) (w : ℕ → ℕ) → k < 5 → own k w Pc.idle ≡ 0
own-idle k w p = ground arith

Step-IsBalanced : {s t : System} → Step s t → IsBalanced s → IsBalanced t
Step-IsBalanced {s} (call i l e small) b k p w =
    let first : own k w (Pc.counting l) ≡ w l = ground arith in
    omega (
      arith,
      b k p w,
      weigh-snoc w s.started l,
      own-idle k w p,
      first,
      weigh-set (own k w) s.threads i Pc.idle (Pc.counting l) e,
    )
Step-IsBalanced {s} (run i pc e) b k p w = omega (
  arith,
  b k p w,
  note-own pc (exec pc s.memory).0 s.passed k w (exec-Onward pc s.memory) p,
  weigh-set (own k w) s.threads i pc (exec pc s.memory).0 e,
)

pub Reach-IsBalanced :
    (n : ℕ) (memory : PerformanceStats) {s : System} → Reach (start n memory) s → IsBalanced s
Reach-IsBalanced n memory here k p w =
    omega (arith, weigh-replicate (own k w) n Pc.idle (own-idle k w p))
Reach-IsBalanced n memory (next r st) k p w = Step-IsBalanced st (Reach-IsBalanced n memory r) k p w
