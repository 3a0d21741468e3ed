-- ===== src/Stats/Summary/Figures.antt =====
-- The figures that `record_message_latency` leaves after a history of messages.
use aeron_fast.Base.{
  ℕ, suc, ◌^◌, ◌≤◌, ◌<◌, ◌≡◌, refl, sym, ap, ◌∙◌, inl, inr, Bool, true, false, some, List, [], ◌∷◌,
  ◌++◌, arith, length, length-append, map, map-snoc, length-map, ltb, leb, ◌==◌, if◌then◌else◌, u64,
  u64_max, add64, IsU64, Bool-cases,
}
use aeron_fast.Stats.Defs.{PerformanceStats, init_performance_stats, init_limits}
use aeron_fast.Stats.{
  record_message_latency, update_extremes, count_message, lower_min, lower_min_self, raise_max_self,
}
use aeron_fast.Stats.History.{minimum, maximum, sum-snoc, minimum-snoc, maximum-snoc}
use aeron_fast.Stats.Tally.{sum, tally}
use aeron_fast.Stats.Messages.{Delivery, latency}
use aeron_fast.Stats.Messages.Distribution.{ranges, bucket_lem}
use aeron_fast.Stats.Deliveries.{record_deliveries, record_deliveries-keeps, receive}
use aeron_fast.Stats.Messages.Settled.{zeros-tally}

-- The place of the first `x` in a list, counted from 1.
abbrev pub position : ℕ → List ℕ → ℕ
position x [] = 0
position x (y ∷ ys) = if y == x then 1 else suc (position x ys)

-- The number of the first message with the lowest latency; 0 when no latency is below the start
-- value.
abbrev pub fastest : List ℕ → ℕ
fastest h = if minimum h == u64_max then 0 else position (minimum h) h

-- The first and the last item, and 0 of no items.
abbrev pub first_of : List ℕ → ℕ
first_of [] = 0
first_of (x ∷ xs) = x

abbrev pub last_of : List ℕ → ℕ
last_of [] = 0
last_of (x ∷ []) = x
last_of (x ∷ y ∷ ys) = last_of (y ∷ ys)

-- What `s` holds after the messages of `h`.
pub record HasFigures (h : List Delivery) (s : PerformanceStats) : Type 0 where
  pub count : s.counters.message_count ≡ length h
  pub total : s.counters.total_latency ≡ u64 (sum (map latency h))
  pub lowest : s.counters.min_latency ≡ minimum (map latency h)
  pub highest : s.counters.max_latency ≡ maximum (map latency h)
  pub named : s.min_latency_message_index ≡ fastest (map latency h)
  pub started : s.first_message_time ≡ first_of (map receive h)
  pub ended : s.last_message_time ≡ last_of (map receive h)
  pub limits : s.latency_bucket_limits ≡ init_limits
  pub buckets : s.latency_buckets ≡ tally 0 ranges (map latency h)

first_of-snoc :
    (xs : List ℕ) (x : ℕ) → first_of (xs ++ x ∷ []) ≡ (if length xs == 0 then x else first_of xs)
first_of-snoc [] x = refl
first_of-snoc (y ∷ ys) x = ground arith

last_of-snoc : (xs : List ℕ) (x : ℕ) → last_of (xs ++ x ∷ []) ≡ x
last_of-snoc [] x = refl
last_of-snoc (y ∷ []) x = refl
last_of-snoc (y ∷ z ∷ ys) x = last_of-snoc (z ∷ ys) x

-- A latency below all of a list is at its end for the first time.
position-new : (h : List ℕ) (l : ℕ) → l < minimum h → position l (h ++ l ∷ []) ≡ suc (length h)
position-new [] l p = ground arith
position-new (x ∷ h) l p = ground (arith, position-new h l (omega arith))

-- The place of one that is there already stays.
position-old :
    (h : List ℕ) (l : ℕ)
    → minimum h < u64_max
    → position (minimum h) (h ++ l ∷ []) ≡ position (minimum h) h
position-old [] l p = absurd (omega arith)
position-old (x ∷ h) l p = elim (Bool-cases (leb x (minimum h))) [
  | inl q ↦ let here : (x == minimum (x ∷ h)) ≡ true = ground arith in rw here refl
  | inr q ↦
      let later : minimum (x ∷ h) ≡ minimum h = ground arith in
      let other : (x == minimum (x ∷ h)) ≡ false = ground arith in
      rw other (
        ap (λ m. suc (position m (h ++ l ∷ []))) later
        ∙ ap suc (position-old h l (omega arith))
        ∙ ap (λ m. suc (position m h)) (sym later))
]

minimum_le : (h : List ℕ) → minimum h ≤ u64_max
minimum_le [] = omega arith
minimum_le (x ∷ h) = omega (arith, minimum_le h)

fastest-snoc :
    (h : List ℕ) (l : ℕ)
    → IsU64 l
    → fastest (h ++ l ∷ []) ≡ (if ltb l (minimum h) then suc (length h) else fastest h)
fastest-snoc h l small = elim (Bool-cases (ltb l (minimum h))) [
  | inl p ↦
      let lowest : minimum (h ++ l ∷ []) ≡ l = ground (arith, minimum-snoc h l small) in
      let below : (l == u64_max) ≡ false = ground (arith, minimum_le h) in
      rw (lowest, below, p) (position-new h l (ground arith))
  | inr p ↦
      let lowest : minimum (h ++ l ∷ []) ≡ minimum h = ground (arith, minimum-snoc h l small) in
      elim (Bool-cases (minimum h == u64_max)) [
        | inl q ↦ rw (lowest, q, p) refl
        | inr q ↦ rw (lowest, q, p) (position-old h l (ground (arith, minimum_le h)))
      ]
]

module _ (h : List Delivery) (d : Delivery) (s : PerformanceStats) (few : suc (length h) < 2 ^ 64)
    (before : HasFigures h s) where
  counters_after :
      let c = update_extremes (latency d) (count_message (latency d) s.counters) in
      (c.message_count ≡ length (h ++ d ∷ []))
      × (c.total_latency ≡ u64 (sum (map latency (h ++ d ∷ []))))
      × (c.min_latency ≡ minimum (map latency (h ++ d ∷ [])))
      × (c.max_latency ≡ maximum (map latency (h ++ d ∷ [])))
  unfolding update_extremes count_message
  counters_after = rw (map-snoc latency h d) (
      ground (
        arith,
        before.count,
        before.total,
        before.lowest,
        before.highest,
        length-append h (d ∷ []),
        sum-snoc (map latency h) (latency d),
        minimum-snoc (map latency h) (latency d) (omega arith),
        maximum-snoc (map latency h) (latency d),
        lower_min_self 0 s.counters.min_latency (latency d),
        raise_max_self 0 s.counters.max_latency (latency d),
      ))

  -- Whether the loop for the minimum stored the latency is any equal value here.
  named_after :
      (stored : Bool)
      → stored ≡ ltb (latency d) s.counters.min_latency
      → (if stored then add64 s.counters.message_count 1 else s.min_latency_message_index)
        ≡ fastest (map latency (h ++ d ∷ []))
  named_after stored e = rw (map-snoc latency h d) (
      ground (
        arith,
        e,
        before.count,
        before.lowest,
        before.named,
        fastest-snoc (map latency h) (latency d) (omega arith),
        length-map latency h,
      ))

  pub record_message_latency-HasFigures :
      (s' : PerformanceStats) × (record_message_latency (some s) d.send_time d.receive_time
        ≡ some s')
      × HasFigures (h ++ d ∷ []) s'
  unfolding record_message_latency
  record_message_latency-HasFigures = (
    _,
    refl,
    record {
      count = counters_after.0;
      total = counters_after.1;
      lowest = counters_after.2;
      highest = counters_after.3;
      named =
          named_after (lower_min 1 s.counters.min_latency s.counters.min_latency (latency d)).1
            (ground (arith, lower_min_self 0 s.counters.min_latency (latency d)));
      started = rw (map-snoc receive h d) (
          ground (
            arith,
            before.count,
            before.started,
            first_of-snoc (map receive h) d.receive_time,
            length-map receive h,
          ));
      ended = rw (map-snoc receive h d) (sym (last_of-snoc (map receive h) d.receive_time));
      limits = before.limits;
      buckets =
          rw (before.limits, before.buckets, map-snoc latency h d)
            (bucket_lem (map latency h) (latency d));
    },
  )

initialised-HasFigures :
    (memory : PerformanceStats)
    → (s : PerformanceStats) × ((init_performance_stats (some memory)).1 ≡ some s) × HasFigures [] s
unfolding init_performance_stats
initialised-HasFigures memory = (
  _,
  refl,
  record {
    count = refl;
    total = refl;
    lowest = refl;
    highest = refl;
    named = refl;
    started = refl;
    ended = refl;
    limits = refl;
    buckets = zeros-tally;
  },
)

-- After `init_performance_stats`, whatever the memory held, and `record_message_latency` for fewer
-- than 2 ^ 64 messages, the statistics hold the figures of those messages.
pub record_deliveries-HasFigures :
    (memory : PerformanceStats) (ds : List Delivery)
    → length ds < 2 ^ 64
    → (s : PerformanceStats) × (record_deliveries (init_performance_stats (some memory)).1 ds
        ≡ some s)
      × HasFigures ds s
record_deliveries-HasFigures memory ds few =
    let (s, made, start) = initialised-HasFigures memory in
    let (s', ran, has) =
      record_deliveries-keeps HasFigures record_message_latency-HasFigures [] ds s few start in
    (s', rw made ran, has)
