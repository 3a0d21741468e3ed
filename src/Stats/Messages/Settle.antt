-- ===== src/Stats/Messages/Settle.antt =====
-- The threads in `record_message_latency` can always come to rest, and what the statistics then
-- hold.
use mathlib.Core.Path.{subst}
use mathlib.Core.List.{append_assoc, append-nil}
use aeron_fast.Base.{
  ℕ, zero, suc, ◌^◌, ◌<◌, ◌≡◌, refl, sym, ap, ap₂, ◌∙◌, some, List, [], ◌∷◌, ◌++◌, arith, length,
  map, u64, get_elem?, set, get_elem?-set_same, lt-get_elem?, set-set, set_self, get_elem?-append,
  set-append,
}
use aeron_fast.Stats.Defs.{PerformanceStats, init_performance_stats, init_limits}
use aeron_fast.Stats.History.{minimum, maximum}
use aeron_fast.Stats.Tally.{sum, tally}
use aeron_fast.Stats.Concurrent.Quiet.{held}
use aeron_fast.Stats.Messages.{
  Delivery, latency, Pc, exec, run_alone, System, drawn_after, run, start, Reach, here, next,
}
use aeron_fast.Stats.Messages.Indices.{Next, ended, onward, proceed-Next}
use aeron_fast.Stats.Messages.Tasks.{AllIdle}
use aeron_fast.Stats.Messages.Returns.{run_alone_returns}
use aeron_fast.Stats.Messages.Settled.{messages_figures}

-- A path may be taken from its front.
Reach-append : {s t u : System} → Reach s t → Reach t u → Reach s u
Reach-append r here = r
Reach-append r (next q st) = next (Reach-append r q) st

-- The calls that have not drawn their index, in the order of their threads.
abbrev pub waiting : List Pc → List Delivery
waiting [] = []
waiting (pc ∷ pcs) = drawn_after pc [] ++ waiting pcs

-- A thread that draws no index with its next operation.
abbrev HasDrawn : Pc → Type 0
HasDrawn pc = (drawn : List Delivery) → drawn_after pc drawn ≡ drawn

Next-HasDrawn : {p : _} {d : Delivery} {i : ℕ} {pc : Pc} → Next p d i pc → HasDrawn pc
Next-HasDrawn (ended e) = λ drawn. refl
Next-HasDrawn (onward p' le up) = λ drawn. refl

exec-HasDrawn : (pc : Pc) (m : PerformanceStats) → HasDrawn (exec pc m).0
unfolding exec
exec-HasDrawn Pc.idle m = λ drawn. refl
exec-HasDrawn (Pc.drawing d) m = λ drawn. refl
exec-HasDrawn (Pc.inside p d i) m = Next-HasDrawn (proceed-Next p d i m)

drawn_after-append :
    (pc : Pc) (drawn : List Delivery) → drawn_after pc drawn ≡ drawn ++ drawn_after pc []
drawn_after-append Pc.idle drawn = sym (append-nil drawn)
drawn_after-append (Pc.drawing d) drawn = refl
drawn_after-append (Pc.inside p d i) drawn = sym (append-nil drawn)

-- The state after one operation of thread `i`.
abbrev stepped : System → ℕ → Pc → System
stepped s i pc = record {
  memory = (exec pc s.memory).1;
  threads = set s.threads i (exec pc s.memory).0;
  drawn = drawn_after pc s.drawn;
}

-- A path on which thread `i` goes on alone for `k` operations.
record GoesOn (k i : ℕ) (pc : Pc) (s : System) (drawn : List Delivery) : Type 0 where
  last : System
  path : Reach s last
  threads : last.threads ≡ set s.threads i (run_alone k pc s.memory).0
  drawn_so_far : last.drawn ≡ drawn

GoesOn-once :
    (k i : ℕ) (pc : Pc) (s : System) {drawn : List Delivery}
    → get_elem? s.threads i ≡ some pc
    → GoesOn k i (exec pc s.memory).0 (stepped s i pc) drawn
    → GoesOn (suc k) i pc s drawn
GoesOn-once k i pc s e rest = record {
  last = rest.last;
  path = Reach-append (next here (run i pc e)) rest.path;
  threads =
      rest.threads ∙ set-set s.threads i (exec pc s.memory).0 (run_alone (suc k) pc s.memory).0;
  drawn_so_far = rest.drawn_so_far;
}

goes_on :
    (k i : ℕ) (pc : Pc) (s : System)
    → HasDrawn pc
    → get_elem? s.threads i ≡ some pc
    → GoesOn k i pc s s.drawn
goes_on zero i pc s h e = record {
  last = s;
  path = here;
  threads = sym (set_self s.threads i pc e);
  drawn_so_far = refl;
}
goes_on (suc k) i pc s h e =
    let pc' = (exec pc s.memory).0 in
    let here' = get_elem?-set_same s.threads i pc' (lt-get_elem? s.threads i pc e) in
    let rest = goes_on k i pc' (stepped s i pc) (exec-HasDrawn pc s.memory) here' in
    GoesOn-once k i pc s e (subst (GoesOn k i pc' (stepped s i pc)) (h s.drawn) rest)

-- A whole call, or what is left of one.
call_ends :
    (i : ℕ) (pc : Pc) (s : System)
    → get_elem? s.threads i ≡ some pc
    → GoesOn 18 i pc s (drawn_after pc s.drawn)
call_ends i pc s e =
    let pc' = (exec pc s.memory).0 in
    let here' = get_elem?-set_same s.threads i pc' (lt-get_elem? s.threads i pc e) in
    GoesOn-once 17 i pc s e (goes_on 17 i pc' (stepped s i pc) (exec-HasDrawn pc s.memory) here')

AllIdle-snoc : (pcs : List Pc) → AllIdle pcs → AllIdle (pcs ++ Pc.idle ∷ [])
AllIdle-snoc [] h = (refl, tt)
AllIdle-snoc (pc ∷ pcs) h = (h.0, AllIdle-snoc pcs h.1)

-- The threads behind a prefix that has come to rest end their calls one by one.
rest_ends :
    (pre post : List Pc) (s : System)
    → s.threads ≡ pre ++ post
    → AllIdle pre
    → (t : System) × Reach s t × AllIdle t.threads × (t.drawn ≡ s.drawn ++ waiting post)
rest_ends pre [] s e idle = (s, here, rw (e, append-nil) idle, sym (append-nil s.drawn))
rest_ends pre (pc ∷ post) s e idle =
    let g = call_ends (length pre) pc s (rw e (get_elem?-append pre pc post)) in
    let threads : g.last.threads ≡ (pre ++ Pc.idle ∷ []) ++ post =
      g.threads
      ∙ ap₂ (λ (l : List Pc) (p : Pc). set l (length pre) p) e (run_alone_returns pc s.memory)
      ∙ set-append pre pc Pc.idle post
      ∙ sym (append_assoc pre (Pc.idle ∷ []) post) in
    let (t, path, quiet, same) =
      rest_ends (pre ++ Pc.idle ∷ []) post g.last threads (AllIdle-snoc pre idle) in
    (
      t,
      Reach-append g.path path,
      quiet,
      same
          ∙ ap (λ (l : List Delivery). l ++ waiting post)
              (g.drawn_so_far ∙ drawn_after-append pc s.drawn)
          ∙ append_assoc s.drawn (drawn_after pc []) (waiting post),
    )

-- From every state that any number of threads in `record_message_latency` can reach from
-- initialised statistics, in which fewer than 2 ^ 64 calls have drawn an index or wait to: some
-- order of the remaining operations, with no new call, ends all calls. The calls that wait then
-- have the next indices, in the order of their threads, and the message count, the sum modulo 2 ^
-- 64, the extremes and the ten buckets are those of the latencies of all the calls.
pub message_calls_return :
    (n : ℕ) (old memory : PerformanceStats) {s : System}
    → (init_performance_stats (some old)).1 ≡ some memory
    → Reach (start n memory) s
    → length (s.drawn ++ waiting s.threads) < 2 ^ 64
    → (t : System) × Reach s t
      × AllIdle t.threads
      × (t.drawn ≡ s.drawn ++ waiting s.threads)
      × (let h = map latency (s.drawn ++ waiting s.threads) in
          held t.memory
          ≡ (u64 (length h), u64 (sum h), minimum h, maximum h, tally 0 (map suc init_limits) h))
message_calls_return n old memory {s} made r few =
    let (t, path, quiet, same) = rest_ends [] s.threads s refl tt in
    let small : length t.drawn < 2 ^ 64 = omega (arith, ap length same) in
    let figures = messages_figures n old memory made (Reach-append r path) small quiet in
    (t, path, quiet, same, rw same at figures)
