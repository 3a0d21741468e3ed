-- ===== src/Stats/Messages/Records.antt =====
-- The records of the first thousand messages when several threads write them.
use mathlib.Core.Option.{some-injective}
use aeron_fast.Base.{
  ℕ, ◌≤◌, ◌<◌, ◌≡◌, refl, sym, ap, ◌∙◌, inl, inr, some, List, arith, length, get_elem?, set, ltb,
  ◌==◌, if◌then◌else◌, IsU64, Bool-cases, All-get_elem?, length-set, get_elem?-set_same,
  get_elem?-set_other,
}
use aeron_fast.Stats.Defs.{PerformanceStats, DetailedRecords, detailed_record_count}
use aeron_fast.Stats.Messages.{
  Delivery, latency, Place, Pc, proceed, exec, System, call, run, start, Reach, here, next,
}
use aeron_fast.Stats.Messages.Indices.{rank, IsDrawn, Reach-IsIndexed, Next-place, proceed-Next}
use aeron_fast.Stats.Messages.Tasks.{
  Does, before, past, now, Serves, Reach-Task, Task_idle, AllIdle,
}

-- The three arrays.
pub data Column : Type 0 where
  send receive delay : Column

abbrev pub column : Column → DetailedRecords → List ℕ
column Column.send r = r.send_times
column Column.receive r = r.receive_times
column Column.delay r = r.latencies

abbrev pub entry : Column → Delivery → ℕ
entry Column.send d = d.send_time
entry Column.receive d = d.receive_time
entry Column.delay d = latency d

-- The place of a call before its store into an array.
abbrev pub store_rank : Column → ℕ
store_rank Column.send = 5
store_rank Column.receive = 6
store_rank Column.delay = 7

store_rank_le : (c : Column) → store_rank c ≤ 7
store_rank_le Column.send = omega arith
store_rank_le Column.receive = omega arith
store_rank_le Column.delay = omega arith

-- A record has room for an index, and then has it.
abbrev pub Written : Column → PerformanceStats → ℕ → Delivery → Type 0
Written c m i d = i < detailed_record_count → get_elem? (column c m.records) i ≡ some (entry c d)

-- An operation stores the entry of its call at its index, if that is its turn, and leaves the array
-- as it is otherwise.
column-proceed :
    (c : Column) (p : Place) (d : Delivery) (i : ℕ) (m : PerformanceStats)
    → column c (proceed p d i m).1.records ≡ (
        if rank p == store_rank c
        then set (column c m.records) i (entry c d)
        else column c m.records)
unfolding proceed
column-proceed Column.send Place.storing_send d i m = refl
column-proceed Column.receive Place.storing_receive d i m = refl
column-proceed Column.delay Place.storing_latency d i m = refl
column-proceed Column.send p d i m = ground arith
column-proceed Column.receive p d i m = ground arith
column-proceed Column.delay p d i m = ground arith

-- The arrays keep their length.
abbrev pub HasRoom : Column → PerformanceStats → Type 0
HasRoom c m = length (column c m.records) ≡ detailed_record_count

proceed-HasRoom :
    (c : Column) (p : Place) (d : Delivery) (i : ℕ) (m : PerformanceStats)
    → HasRoom c m
    → HasRoom c (proceed p d i m).1
proceed-HasRoom c p d i m h =
    ground (arith, column-proceed c p d i m, length-set (column c m.records) i (entry c d))

-- A store puts the entry of the call with its index, and so keeps those that are there.
proceed-Written :
    (c : Column) (p : Place) (x d : Delivery) (n j : ℕ) (m : PerformanceStats)
    (drawn : List Delivery)
    → HasRoom c m
    → get_elem? drawn n ≡ some x
    → get_elem? drawn j ≡ some d
    → Written c m j d
    → Written c (proceed p x n m).1 j d
proceed-Written c p x d n j m drawn room e f h small = elim (Bool-cases (n == j)) [
  | inl q ↦
      let same_index : n ≡ j = ground arith in
      let same : x ≡ d = some-injective _ _ (sym e ∙ ap (get_elem? drawn) same_index ∙ f) in
      let here_now = get_elem?-set_same (column c m.records) n (entry c x) (omega arith) in
      let value : entry c x ≡ entry c d = ap (entry c) same in
      ground (arith, column-proceed c p x n m, h small, here_now)
  | inr q ↦
      let other = get_elem?-set_other (column c m.records) n j (entry c x) (ground arith) in
      ground (arith, column-proceed c p x n m, h small, other)
]

-- The store of an entry, and the branch that passes it by without room.
proceed-Does :
    (c : Column) (p : Place) (d : Delivery) (i : ℕ) (m : PerformanceStats)
    → HasRoom c m
    → Does (store_rank c) (Written c) p d i m
proceed-Does c p d i m room = elim (Bool-cases (ltb (rank p) (store_rank c))) [
  | inl early ↦
      let (p', to, up) =
        Next-place p d i (proceed-Next p d i m) (ground (arith, store_rank_le c)) in
      elim up [
        | inl near ↦ before to (ground (arith, near))
        | inr full ↦ now λ small. absurd (omega (arith, full.1))
      ]
  | inr late ↦ elim (Bool-cases (rank p == store_rank c)) [
    | inl turn ↦ now λ small.
        rw (column-proceed c p d i m, turn)
          (get_elem?-set_same (column c m.records) i (entry c d) (omega arith))
    | inr other ↦ past (ground arith)
  ]
]

exec-HasRoom : (c : Column) (pc : Pc) (m : PerformanceStats) → HasRoom c m → HasRoom c (exec pc m).1
unfolding exec
exec-HasRoom c Pc.idle m h = h
exec-HasRoom c (Pc.drawing d) m h = h
exec-HasRoom c (Pc.inside p d i) m h = proceed-HasRoom c p d i m h

exec-Written :
    (c : Column) (pc : Pc) (m : PerformanceStats) (drawn : List Delivery) (j : ℕ) (d : Delivery)
    → HasRoom c m
    → IsDrawn drawn pc
    → get_elem? drawn j ≡ some d
    → Written c m j d
    → Written c (exec pc m).1 j d
unfolding exec
exec-Written c Pc.idle m drawn j d room own f h = h
exec-Written c (Pc.drawing x) m drawn j d room own f h = h
exec-Written c (Pc.inside p x n) m drawn j d room own f h =
    proceed-Written c p x d n j m drawn room own f h

module _ (n : ℕ) (memory : PerformanceStats) (zeroed : memory.counters.message_count ≡ 0)
    (c : Column) (room : HasRoom c memory) where
  Reach-HasRoom : {s : System} → Reach (start n memory) s → HasRoom c s.memory
  Reach-HasRoom here = room
  Reach-HasRoom (next r (call i d e)) = Reach-HasRoom r
  Reach-HasRoom (next {t} r (run i pc e)) = exec-HasRoom c pc t.memory (Reach-HasRoom r)

  Reach-Serves :
      (s : System)
      → Reach (start n memory) s
      → IsU64 (length s.drawn)
      → Serves (store_rank c) (Written c) s
  Reach-Serves s r small =
      let indexed = Reach-IsIndexed n memory zeroed r small in
      record {
        keeps = λ i pc e j d f.
            exec-Written c pc s.memory s.drawn j d (Reach-HasRoom r)
              (All-get_elem? (IsDrawn s.drawn) s.threads i pc e indexed.indices) f;
        does = λ i p d k e. proceed-Does c p d k s.memory (Reach-HasRoom r);
      }

  -- Without a call under way, an array holds the entry of every call whose index it has room for.
  pub column_filled :
      {s : System}
      → Reach (start n memory) s
      → IsU64 (length s.drawn)
      → AllIdle s.threads
      → (j : ℕ) (d : Delivery) → get_elem? s.drawn j ≡ some d
      → Written c s.memory j d
  column_filled {s} r small idle =
      Task_idle (store_rank c) (Written c) s idle
        (Reach-Task (store_rank c) (Written c) n memory zeroed Reach-Serves r small)
