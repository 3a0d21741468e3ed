-- ===== src/Stats/Lowest.antt =====
-- The message that `record_message_latency` remembers as the fastest.
use aeron_fast.Base.{
  ℕ, suc, ◌^◌, ◌≤◌, ◌<◌, ◌≡◌, ◌∙◌, refl, ap, ◌⊎◌, inl, inr, true, false, arith, List, [], ◌∷◌,
  length, Option, some, none, u64_max, add64, sub64, ltb, ◌==◌, if◌then◌else◌, Bool-cases, Bool,
}
use aeron_fast.Stats.Defs.{PerformanceStats, init_performance_stats}
use aeron_fast.Stats.{
  record_message_latency, lower_min, lower_min_self, update_extremes, count_message,
}

-- The send and receive times of the messages so far, the newest first.
abbrev pub Messages : Type 0
Messages = List (ℕ × ℕ)

-- Message number `k`, counted from 1.
abbrev pub numbered : Messages → ℕ → Option (ℕ × ℕ)
numbered [] k = none
numbered (m ∷ h) k = if k == suc (length h) then some m else numbered h k

-- `lowest` is the lowest latency so far, and message `index`, with its times, is the first that has
-- it. Of no message with a latency below the start value the index is 0.
pub record NamesLowest (h : Messages) (lowest index send receive : ℕ) : Type 0 where
  pub least : (k s r : ℕ) → numbered h k ≡ some (s, r) → lowest ≤ sub64 r s
  pub which :
      ((index ≡ 0) × (lowest ≡ u64_max))
      ⊎ ((numbered h index ≡ some (send, receive)) × (lowest ≡ sub64 receive send))
  pub first : (k s r : ℕ) → k < index → numbered h k ≡ some (s, r) → lowest < sub64 r s

some_injective {ℓ} : {A : Type ℓ} {a b : A} → some a ≡ some b → a ≡ b
some_injective {a = a} e = ap (λ o. elim o [ none ↦ a | some x ↦ x ]) e

same_latency : {a b : ℕ × ℕ} → a ≡ b → sub64 a.1 a.0 ≡ sub64 b.1 b.0
same_latency e = ap (λ (m : ℕ × ℕ). sub64 m.1 m.0) e

le_of_same : (a b c : ℕ) → a ≤ b → b ≡ c → a ≤ c
le_of_same a b c p e = omega arith

new_or_old :
    (h : Messages) (m y : ℕ × ℕ) (k : ℕ)
    → numbered (m ∷ h) k ≡ some y
    → ((k ≡ suc (length h)) × (m ≡ y)) ⊎ (numbered h k ≡ some y)
new_or_old h m y k e = elim (Bool-cases (k == suc (length h))) [
  | inl p ↦ inl ((ground arith, some_injective (rw p at e)))
  | inr p ↦ inr (rw p at e)
]

numbered_le : (h : Messages) (y : ℕ × ℕ) (k : ℕ) → numbered h k ≡ some y → k ≤ length h
numbered_le [] y k e = ground arith
numbered_le (m ∷ h) y k e = elim (new_or_old h m y k e) [
  | inl new ↦ omega (arith, new.0)
  | inr old ↦ omega (arith, numbered_le h y k old)
]

old_number : (h : Messages) (m : ℕ × ℕ) (k : ℕ) → k ≤ length h → numbered (m ∷ h) k ≡ numbered h k
old_number h m k p = let other : (k == suc (length h)) ≡ false = ground arith in rw other refl

new_number : (h : Messages) (m : ℕ × ℕ) → numbered (m ∷ h) (suc (length h)) ≡ some m
new_number h m = let same : (suc (length h) == suc (length h)) ≡ true = ground arith in rw same refl

module _ (h : Messages) (lowest index s₀ r₀ send receive : ℕ)
    (before : NamesLowest h lowest index s₀ r₀) where
  lower :
      sub64 receive send < lowest
      → NamesLowest ((send, receive) ∷ h) (sub64 receive send) (suc (length h)) send receive
  lower p = record {
    least = λ k s r e. elim (new_or_old h (send, receive) (s, r) k e) [
      | inl new ↦ le_of_same (sub64 receive send) _ _ (omega arith) (same_latency new.1)
      | inr old ↦ omega (arith, before.least k s r old)
    ];
    which = inr ((new_number h (send, receive), refl));
    first = λ k s r below e. elim (new_or_old h (send, receive) (s, r) k e) [
      | inl new ↦ absurd (omega (arith, new.0))
      | inr old ↦ omega (arith, before.least k s r old)
    ];
  }

  index_le : index ≤ length h
  index_le = elim before.which [
    | inl none_yet ↦ omega (arith, none_yet.0)
    | inr named ↦ numbered_le h (s₀, r₀) index named.0
  ]

  not_lower : lowest ≤ sub64 receive send → NamesLowest ((send, receive) ∷ h) lowest index s₀ r₀
  not_lower p = record {
    least = λ k s r e. elim (new_or_old h (send, receive) (s, r) k e) [
      | inl new ↦ le_of_same lowest _ _ p (same_latency new.1)
      | inr old ↦ before.least k s r old
    ];
    which = elim before.which [
      | inl none_yet ↦ inl none_yet
      | inr named ↦ inr ((old_number h (send, receive) index index_le ∙ named.0, named.1))
    ];
    first = λ k s r below e. elim (new_or_old h (send, receive) (s, r) k e) [
      | inl new ↦ absurd (omega (arith, new.0, index_le))
      | inr old ↦ before.first k s r below old
    ];
  }

-- The statistics after the messages of `h`.
pub record Remembers (h : Messages) (s : PerformanceStats) : Type 0 where
  pub count : s.counters.message_count ≡ length h
  pub names :
      NamesLowest h s.counters.min_latency s.min_latency_message_index s.min_latency_send_time
        s.min_latency_receive_time

module _ (h : Messages) (s : PerformanceStats) (send receive : ℕ) (before : Remembers h s)
    (few : suc (length h) < 2 ^ 64) where
  -- The result of the loop for the minimum is any equal pair here.
  names_after :
      (kept : ℕ × Bool)
      → kept ≡ (
          if ltb (sub64 receive send) s.counters.min_latency
          then (sub64 receive send, true)
          else (s.counters.min_latency, false))
      → NamesLowest
          ((send, receive) ∷ h)
          kept.0
          (if kept.1 then add64 s.counters.message_count 1 else s.min_latency_message_index)
          (if kept.1 then send else s.min_latency_send_time)
          (if kept.1 then receive else s.min_latency_receive_time)
  names_after kept e =
      let number : add64 s.counters.message_count 1 ≡ suc (length h) =
        omega (arith, before.count) in
      elim (Bool-cases (ltb (sub64 receive send) s.counters.min_latency)) [
        | inl p ↦ rw (e, p, number) (lower h _ _ _ _ send receive before.names (ground arith))
        | inr p ↦ rw (e, p) (not_lower h _ _ _ _ send receive before.names (ground arith))
      ]

  -- With one message more, and fewer than 2 ^ 64 in all, `record_message_latency` still names the
  -- first of the messages with the lowest latency, by its number and with its two times.
  pub record_message_latency-Remembers :
      (s' : PerformanceStats) × (record_message_latency (some s) send receive ≡ some s')
      × Remembers ((send, receive) ∷ h) s'
  unfolding record_message_latency update_extremes count_message
  record_message_latency-Remembers = (
    _,
    refl,
    record {
      count = omega (arith, before.count);
      names =
          names_after
            (lower_min 1 s.counters.min_latency s.counters.min_latency (sub64 receive send))
            (lower_min_self 0 s.counters.min_latency (sub64 receive send));
    },
  )

-- `record_message_latency` for each message, the oldest first, so that the list is read from its
-- end.
pub record_messages : Option PerformanceStats → Messages → Option PerformanceStats
record_messages stats [] = stats
record_messages stats ((send, receive) ∷ h) =
    record_message_latency (record_messages stats h) send receive

-- After `init_performance_stats`, whatever the memory held, and then any number of messages below 2
-- ^ 64, the statistics count the messages and name the first with the lowest latency, with its
-- times.
pub record_messages-Remembers :
    (memory : PerformanceStats) (h : Messages)
    → length h < 2 ^ 64
    → (s : PerformanceStats) × (record_messages (init_performance_stats (some memory)).1 h ≡ some s)
      × Remembers h s
unfolding record_messages init_performance_stats
record_messages-Remembers memory [] few = (
  _,
  refl,
  record {
    count = refl;
    names = record {
      least = λ k s r e. ground arith;
      which = inl ((refl, refl));
      first = λ k s r below e. absurd (omega arith);
    };
  },
)
record_messages-Remembers memory ((send, receive) ∷ h) few =
    let (s, ran, m) = record_messages-Remembers memory h (omega arith) in
    let (s', step, m') = record_message_latency-Remembers h s send receive m few in
    (s', rw (ran, record_messages) step, m')
