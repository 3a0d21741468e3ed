-- ===== src/Subscriber/Delivered.antt =====
-- The fragments of a poll, each handled in turn by `process_message_fragment`.
use native.Mathlib.Nat.{add-zero, add_assoc}
use mathlib.Core.List.{append-nil, append_assoc}
use aeron_fast.Base.{
  ℕ, ◌+◌, ◌≤◌, ◌<◌, ◌^◌, ◌≡◌, refl, ◌⊎◌, inl, inr, true, false, some, List, [], ◌∷◌, ◌++◌, arith,
  length, length-append, ltb, sub64, IsU64, Bool-cases, ◌∙◌, suc,
}
use aeron_fast.Clock.{Timespec, get_timestamp_ns}
use aeron_fast.Message.Bytes.{Endian}
use aeron_fast.Message.{parse_binary_message_timestamp}
use aeron_fast.Subscriber.{
  SubscriberStats, Globals, account, check_target, process_message_fragment, Fragment, deliver,
}
use aeron_fast.Subscriber.Heard.{
  latency_of, heard, heard_bytes, Summary, account-Summary, check_target-Summary,
}

-- `running` is only cleared with the target reached.
abbrev pub Alive : Globals → Type 0
Alive g = (g.running ≡ true) ⊎ (g.target_messages ≤ g.stats.messages_received)

-- What one or more fragments change.
pub record Takes (host : Endian) (fs : List Fragment) (h : List ℕ) (b : ℕ) (g g' : Globals)
    : Type 0 where
  pub summary : Summary (h ++ heard host fs) (b + heard_bytes fs) g'.stats
  pub same_target : g'.target_messages ≡ g.target_messages
  pub same_polls : g'.stats.polling_iterations ≡ g.stats.polling_iterations
  pub alive : Alive g → length h + length fs < 2 ^ 64 → Alive g'

sub64-IsU64 : (a b : ℕ) → IsU64 (sub64 a b)
sub64-IsU64 a b = omega arith

process_short :
    (host : Endian) (buffer : List ℕ) (now : Timespec) (g : Globals)
    → ltb (length buffer) 8 ≡ true
    → process_message_fragment host buffer now g ≡ some g
unfolding process_message_fragment
process_short host buffer now g p = rw p refl

process_long :
    (host : Endian) (buffer : List ℕ) (now : Timespec) (g : Globals)
    → ltb (length buffer) 8 ≡ false
    → process_message_fragment host buffer now g
      ≡ some (
          check_target
            (get_timestamp_ns now)
            (record g { stats = account (latency_of host (buffer, now)) (length buffer) g.stats }))
unfolding process_message_fragment parse_binary_message_timestamp
process_long host buffer now g p = rw p refl

check_target-Alive :
    (now : ℕ) (g : Globals)
    → ((check_target now g).target_messages ≡ g.target_messages)
      × ((check_target now g).stats.polling_iterations ≡ g.stats.polling_iterations)
      × (Alive g → Alive (check_target now g))
unfolding check_target
check_target-Alive now g = ground arith

account-Alive :
    (h : List ℕ) (b l size : ℕ) (g : Globals)
    → Summary h b g.stats
    → suc (length h) < 2 ^ 64
    → Alive g
    → Alive (record g { stats = account l size g.stats })
unfolding account
account-Alive h b l size g s fits a = ground arith

account_polls :
    (l size : ℕ) (s : SubscriberStats)
    → (account l size s).polling_iterations ≡ s.polling_iterations
unfolding account
account_polls l size s = refl

-- What one counted fragment does.
counted :
    (h : List ℕ) (b l size now : ℕ) (g : Globals)
    → IsU64 l
    → Summary h b g.stats
    → let g' = check_target now (record g { stats = account l size g.stats }) in
      Summary (h ++ l ∷ []) (b + size) g'.stats
      × (g'.target_messages ≡ g.target_messages)
      × (g'.stats.polling_iterations ≡ g.stats.polling_iterations)
      × (Alive g → suc (length h) < 2 ^ 64 → Alive g')
counted h b l size now g small s =
    let g₁ : Globals = record g { stats = account l size g.stats } in
    let s₁ : Summary (h ++ l ∷ []) (b + size) g₁.stats =
      account-Summary h b g.stats l size small s in
    let (same_target, same_polls, alive) = check_target-Alive now g₁ in
    (
      check_target-Summary (h ++ l ∷ []) (b + size) now g₁ s₁,
      same_target,
      same_polls ∙ account_polls l size g.stats,
      λ a fits. alive (account-Alive h b l size g s fits a),
    )

joined :
    (host : Endian) (buffer : List ℕ) (now : Timespec) (fs : List Fragment) (h : List ℕ) (b : ℕ)
    (s : SubscriberStats)
    → ltb (length buffer) 8 ≡ false
    → Summary
        ((h ++ latency_of host (buffer, now) ∷ []) ++ heard host fs)
        (b + length buffer + heard_bytes fs)
        s
    → Summary (h ++ heard host ((buffer, now) ∷ fs)) (b + heard_bytes ((buffer, now) ∷ fs)) s
joined host buffer now fs h b s p t =
    let l : ℕ = latency_of host (buffer, now) in
    rw p (
      rw (append_assoc h (l ∷ []) (heard host fs), add_assoc b (length buffer) (heard_bytes fs)) at
        t)

-- A poll's fragments, whatever they hold, are read inside their bounds and summarised.
pub deliver-Takes :
    (host : Endian) (fs : List Fragment) (h : List ℕ) (b : ℕ) (g : Globals)
    → Summary h b g.stats
    → (g' : Globals) × (deliver host fs g ≡ some g') × Takes host fs h b g g'
unfolding deliver
deliver-Takes host [] h b g s = (
  g,
  refl,
  record {
    summary = rw (append-nil h, add-zero b) s;
    same_target = refl;
    same_polls = refl;
    alive = λ a fits. a;
  },
)
deliver-Takes host ((buffer, now) ∷ fs) h b g s = elim (Bool-cases (ltb (length buffer) 8)) [
  | inl p ↦
      (let (g', e, t) = deliver-Takes host fs h b g s in
        (
          g',
          rw (process_short host buffer now g p, deliver) e,
          record {
            summary = rw p (t.summary);
            same_target = t.same_target;
            same_polls = t.same_polls;
            alive = λ a fits. t.alive a (omega arith);
          },
        ))
  | inr p ↦
      (let l : ℕ = latency_of host (buffer, now) in
        let g₁ : Globals =
          check_target (get_timestamp_ns now)
            (record g { stats = account l (length buffer) g.stats }) in
        let c = counted h b l (length buffer) (get_timestamp_ns now) g (sub64-IsU64 _ _) s in
        let (g', e, t) = deliver-Takes host fs (h ++ l ∷ []) (b + length buffer) g₁ c.0 in
        (
          g',
          rw (process_long host buffer now g p, deliver) e,
          record {
            summary = joined host buffer now fs h b _ p t.summary;
            same_target = t.same_target ∙ c.1;
            same_polls = t.same_polls ∙ c.2;
            alive =
                λ a fits. t.alive (c.3 a (omega arith)) (omega (arith, length-append h (l ∷ [])));
          },
        ))
]
