-- ===== src/Stats/Concurrent/Settle.antt =====
-- The threads can always come to rest, and what the statistics then hold.
use aeron_fast.Base.{
  ℕ, zero, suc, ◌≡◌, refl, sym, ap, ap₂, ◌∙◌, true, some, List, [], ◌∷◌, ◌++◌, arith, length,
  get_elem?, set, get_elem?-set_same, lt-get_elem?, set-set,
}
use mathlib.Core.Quot
use mathlib.Core.List.{append_assoc, append-nil}
use aeron_fast.Base.{get_elem?-append, set-append, set_self}
use aeron_fast.Stats.Defs.{PerformanceStats, create_performance_stats}
use aeron_fast.Stats.Bag.{figures}
use aeron_fast.Stats.Concurrent.{Pc, exec, run_alone, System, note, run, start, Reach, here, next}
use aeron_fast.Stats.Concurrent.Quiet.{IsQuiet, held, held-figures}
use aeron_fast.Stats.Concurrent.Returns.{run_alone_ends}

-- A path may be taken from its front.
pub Reach-append : {s t u : System} → Reach s t → Reach t u → Reach s u
Reach-append r here = r
Reach-append r (next q st) = next (Reach-append r q) st

-- A path on which thread `i` goes on alone for `k` operations.
pub record GoesOn (k i : ℕ) (pc : Pc) (s : System) : Type 0 where
  pub last : System
  pub path : Reach s last
  pub threads : last.threads ≡ set s.threads i (run_alone k pc s.memory).0
  pub started : last.started ≡ s.started

goes_on : (k i : ℕ) (pc : Pc) (s : System) → get_elem? s.threads i ≡ some pc → GoesOn k i pc s
goes_on zero i pc s e = record {
  last = s;
  path = here;
  threads = sym (set_self s.threads i pc e);
  started = refl;
}
goes_on (suc k) i pc s e =
    let pc' = (exec pc s.memory).0 in
    let s' : System = record {
      memory = (exec pc s.memory).1;
      threads = set s.threads i pc';
      started = s.started;
      passed = note pc pc' s.passed;
    } in
    let rest =
      goes_on k i pc' s' (get_elem?-set_same s.threads i pc' (lt-get_elem? s.threads i pc e)) in
    record {
      last = rest.last;
      path = Reach-append (next here (run i pc e)) rest.path;
      threads = rest.threads ∙ set-set s.threads i pc' (run_alone (suc k) pc s.memory).0;
      started = rest.started;
    }

abbrev pub AllIdle : List Pc → Type 0
AllIdle [] = Unit {0}
AllIdle (pc ∷ pcs) = (pc ≡ Pc.idle) × AllIdle pcs

AllIdle-snoc : (pcs : List Pc) → AllIdle pcs → AllIdle (pcs ++ Pc.idle ∷ [])
AllIdle-snoc [] h = (refl, tt)
AllIdle-snoc (pc ∷ pcs) h = (h.0, AllIdle-snoc pcs h.1)

pub AllIdle-IsQuiet : (pcs : List Pc) → AllIdle pcs → IsQuiet pcs
AllIdle-IsQuiet [] h = tt
AllIdle-IsQuiet (pc ∷ pcs) h = (rw (h.0) (omega arith), AllIdle-IsQuiet pcs h.1)

-- The threads behind a prefix that has come to rest end their calls one by one.
rest_ends :
    (pre post : List Pc) (s : System)
    → s.threads ≡ pre ++ post
    → AllIdle pre
    → (t : System) × Reach s t × AllIdle t.threads × (t.started ≡ s.started)
rest_ends pre [] s e idle = (s, here, rw (e, append-nil) idle, refl)
rest_ends pre (pc ∷ post) s e idle =
    let g = goes_on 12 (length pre) pc s (rw e (get_elem?-append pre pc post)) in
    let threads : g.last.threads ≡ (pre ++ Pc.idle ∷ []) ++ post =
      g.threads
      ∙ ap₂ (λ (l : List Pc) (p : Pc). set l (length pre) p) e (run_alone_ends pc s.memory)
      ∙ set-append pre pc Pc.idle post
      ∙ sym (append_assoc pre (Pc.idle ∷ []) post) in
    let (t, path, quiet, same) =
      rest_ends (pre ++ Pc.idle ∷ []) post g.last threads (AllIdle-snoc pre idle) in
    (t, Reach-append g.path path, quiet, same ∙ g.started)

-- From every state that the threads can reach, some order of their remaining operations, with no
-- new call, ends all calls, and the figures are then those of the bag of the latencies of the calls
-- so far.
pub calls_return :
    (n : ℕ) (memory : PerformanceStats) {s : System}
    → create_performance_stats true ≡ some memory
    → Reach (start n memory) s
    → (t : System) × Reach s t × AllIdle t.threads × (held t.memory ≡ figures (Quot.mk s.started))
calls_return n memory {s} made r =
    let (t, path, quiet, same) = rest_ends [] s.threads s refl tt in
    (
      t,
      path,
      quiet,
      held-figures n memory made (Reach-append r path) (AllIdle-IsQuiet t.threads quiet)
          ∙ ap (λ (h : List ℕ). figures (Quot.mk h)) same,
    )
