-- ===== src/Subscriber/Heard.antt =====
-- The counters of the subscriber as a summary of the fragments that it was given.
use aeron_fast.Base.{
  ℕ, ◌+◌, ◌≡◌, inl, inr, some, List, [], ◌∷◌, ◌++◌, arith, length, length-append, ltb, leb,
  if◌then◌else◌, u64, sub64, IsU64, take, Bool-cases,
}
use aeron_fast.Clock.{get_timestamp_ns}
use aeron_fast.Message.Bytes.{Endian, be64toh, of_object_bytes}
use aeron_fast.Stats.Defs.{PerformanceStats}
use aeron_fast.Stats.Tally.{sum}
use aeron_fast.Stats.History.{
  Tracks, minimum, maximum, record_latency-Tracks, sum-snoc, minimum-snoc, maximum-snoc,
}
use aeron_fast.Subscriber.{SubscriberStats, Globals, account, check_target, Fragment}

-- The latency of a fragment that has room for a timestamp, as the difference of the timestamps.
abbrev pub latency_of : Endian → Fragment → ℕ
latency_of host (buffer, now) =
    sub64 (get_timestamp_ns now) (be64toh host (of_object_bytes host (take 8 buffer)))

-- The latencies of the fragments that are long enough, in their order.
abbrev pub heard : Endian → List Fragment → List ℕ
heard host [] = []
heard host ((buffer, now) ∷ fs) =
    if ltb (length buffer) 8 then heard host fs else latency_of host (buffer, now) ∷ heard host fs

-- The number of bytes of those fragments.
abbrev pub heard_bytes : List Fragment → ℕ
heard_bytes [] = 0
heard_bytes ((buffer, now) ∷ fs) =
    if ltb (length buffer) 8 then heard_bytes fs else length buffer + heard_bytes fs

-- The counters after messages of `b` bytes together with the latencies of `h`, oldest first: the
-- subscriber's own extremes and sum are those of the latency statistics.
pub record Summary (h : List ℕ) (b : ℕ) (s : SubscriberStats) : Type 0 where
  pub messages : s.messages_received ≡ u64 (length h)
  pub fragments : s.fragments_received ≡ u64 (length h)
  pub bytes : s.bytes_received ≡ u64 b
  pub lowest : s.min_latency ≡ minimum h
  pub highest : s.max_latency ≡ maximum h
  pub total : s.total_latency ≡ u64 (sum h)
  pub latency_stats : PerformanceStats
  pub present : s.latency_stats ≡ some latency_stats
  pub tracks : Tracks h latency_stats

pub account-Summary :
    (h : List ℕ) (b : ℕ) (s : SubscriberStats) (l size : ℕ)
    → IsU64 l
    → Summary h b s
    → Summary (h ++ l ∷ []) (b + size) (account l size s)
unfolding account
account-Summary h b s l size small sum_h =
    let (stats, step, t) = record_latency-Tracks h sum_h.latency_stats l sum_h.tracks small in
    record {
      messages = omega (arith, sum_h.messages, length-append h (l ∷ []));
      fragments = omega (arith, sum_h.fragments, length-append h (l ∷ []));
      bytes = omega (arith, sum_h.bytes);
      lowest = ground (arith, sum_h.lowest, minimum-snoc h l small);
      highest = ground (arith, sum_h.highest, maximum-snoc h l);
      total = omega (arith, sum_h.total, sum-snoc h l);
      latency_stats = stats;
      present = rw (sum_h.present) step;
      tracks = t;
    }

-- The times and the number of polls are not part of the summary.
pub other_fields-Summary :
    (h : List ℕ) (b polls end : ℕ) (s : SubscriberStats)
    → Summary h b s
    → Summary h b (record s { polling_iterations = polls; end_time = end })
other_fields-Summary h b polls end s m = record {
  messages = m.messages;
  fragments = m.fragments;
  bytes = m.bytes;
  lowest = m.lowest;
  highest = m.highest;
  total = m.total;
  latency_stats = m.latency_stats;
  present = m.present;
  tracks = m.tracks;
}

pub check_target-Summary :
    (h : List ℕ) (b now : ℕ) (g : Globals)
    → Summary h b g.stats
    → Summary h b (check_target now g).stats
unfolding check_target
check_target-Summary h b now g s =
    elim (Bool-cases (leb g.target_messages g.stats.messages_received)) [
      | inl p ↦ rw p (other_fields-Summary h b g.stats.polling_iterations now g.stats s)
      | inr p ↦ rw p s
    ]
