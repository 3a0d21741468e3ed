-- ===== src/Stats/Recorder.antt =====
-- What c-performance/include/performance_stats.h offers to a program that records latencies, as an
-- interface, and a program that uses it.
pub mod Filled
use mathlib.Core.Option.{some-injective}
use aeron_fast.Base.{
  ℕ, suc, ◌+◌, ◌≡◌, refl, sym, ap, ◌∙◌, ◌⊎◌, inl, inr, Bool, true, false, Option, none, some, List,
  [], ◌∷◌, ◌++◌, arith, u64, add64, IsU64,
}
use native.Mathlib.Nat.{add-zero, zero-add}
use mathlib.Core.List.{append_assoc, append-nil}
use aeron_fast.Stats.Defs.{PerformanceStats, create_performance_stats}
use aeron_fast.Stats.History.{Tracks, create-Tracks, record_latency-Tracks}
use aeron_fast.Stats.{
  record_latency, record_send_latency, record_back_pressure, record_retry, update_extremes,
  count_message,
}

-- The operations, and what they promise of the statistics: `Holds h b r stats` is that they stand
-- for the latencies of `h`, with `b` events of back pressure and `r` retries. Of
-- `record_message_latency`, which counts its latency into other buckets, and of the end of the
-- statistics nothing more is asked.
pub record LatencyRecorder : Type 1 where
  pub Stats : Type 0
  pub create_performance_stats : Bool → Option Stats
  pub destroy_performance_stats : Stats → Stats
  pub record_latency : Option Stats → ℕ → Option Stats
  pub record_message_latency : Option Stats → ℕ → ℕ → Option Stats
  pub record_send_latency : Option Stats → ℕ → Option Stats
  pub record_back_pressure : Option Stats → Option Stats
  pub record_retry : Option Stats → Option Stats
  pub Holds : List ℕ → ℕ → ℕ → Stats → Type 0
  pub refused : create_performance_stats false ≡ none
  pub created : (s : Stats) × (create_performance_stats true ≡ some s) × Holds [] 0 0 s
  pub latency_held :
      (h : List ℕ) (b r : ℕ) (s : Stats) (l : ℕ)
      → Holds h b r s
      → IsU64 l
      → (s' : Stats) × (record_latency (some s) l ≡ some s') × Holds (h ++ l ∷ []) b r s'
  pub send_latency_held :
      (h : List ℕ) (b r : ℕ) (s : Stats) (l : ℕ)
      → Holds h b r s
      → (s' : Stats) × (record_send_latency (some s) l ≡ some s') × Holds h b r s'
  pub back_pressure_held :
      (h : List ℕ) (b r : ℕ) (s : Stats)
      → Holds h b r s
      → (s' : Stats) × (record_back_pressure (some s) ≡ some s') × Holds h (suc b) r s'
  pub retry_held :
      (h : List ℕ) (b r : ℕ) (s : Stats)
      → Holds h b r s
      → (s' : Stats) × (record_retry (some s) ≡ some s') × Holds h b (suc r) s'
  pub null_message_latency : (m n : ℕ) → record_message_latency none m n ≡ none
  pub null_latency : (l : ℕ) → record_latency none l ≡ none
  pub null_send_latency : (l : ℕ) → record_send_latency none l ≡ none
  pub null_back_pressure : record_back_pressure none ≡ none
  pub null_retry : record_retry none ≡ none

-- What a program records.
pub data Recording : Type 0 where
  latency send_latency : ℕ → Recording
  back_pressure retry : Recording

abbrev pub latencies : List Recording → List ℕ
latencies [] = []
latencies (latency l ∷ rs) = l ∷ latencies rs
latencies (_ ∷ rs) = latencies rs

abbrev pub back_pressures : List Recording → ℕ
back_pressures [] = 0
back_pressures (back_pressure ∷ rs) = suc (back_pressures rs)
back_pressures (_ ∷ rs) = back_pressures rs

abbrev pub retries : List Recording → ℕ
retries [] = 0
retries (retry ∷ rs) = suc (retries rs)
retries (_ ∷ rs) = retries rs

abbrev pub AllFit : List Recording → Type 0
AllFit [] = Unit {0}
AllFit (latency l ∷ rs) = IsU64 l × AllFit rs
AllFit (_ ∷ rs) = AllFit rs

carry : (m n : ℕ) → suc m + n ≡ m + suc n
carry m n = omega arith

module _ (R : LatencyRecorder) where
  -- One call, and a run of calls.
  abbrev pub record_one : Option R.Stats → Recording → Option R.Stats
  record_one s (latency l) = R.record_latency s l
  record_one s (send_latency l) = R.record_send_latency s l
  record_one s back_pressure = R.record_back_pressure s
  record_one s retry = R.record_retry s

  abbrev pub record_each : Option R.Stats → List Recording → Option R.Stats
  record_each s [] = s
  record_each s (r ∷ rs) = record_each (record_one s r) rs

  -- Without statistics every call does nothing.
  pub record_each-none : (rs : List Recording) → record_each none rs ≡ none
  record_each-none [] = refl
  record_each-none (latency l ∷ rs) = rw (R.null_latency l) (record_each-none rs)
  record_each-none (send_latency l ∷ rs) = rw (R.null_send_latency l) (record_each-none rs)
  record_each-none (back_pressure ∷ rs) = rw (R.null_back_pressure) (record_each-none rs)
  record_each-none (retry ∷ rs) = rw (R.null_retry) (record_each-none rs)

  record_each-Holds :
      (rs : List Recording) (h : List ℕ) (b r : ℕ) (s : R.Stats)
      → R.Holds h b r s
      → AllFit rs
      → (s' : R.Stats) × (record_each (some s) rs ≡ some s')
        × R.Holds (h ++ latencies rs) (b + back_pressures rs) (r + retries rs) s'
  record_each-Holds [] h b r s holds fit =
      (s, refl, rw (append-nil h, add-zero b, add-zero r) holds)
  record_each-Holds (latency l ∷ rs) h b r s holds fit =
      let (s', e, holds') = R.latency_held h b r s l holds fit.0 in
      let (t, e', rest) = record_each-Holds rs (h ++ l ∷ []) b r s' holds' fit.1 in
      (t, rw e e', rw (append_assoc h (l ∷ []) (latencies rs)) at rest)
  record_each-Holds (send_latency l ∷ rs) h b r s holds fit =
      let (s', e, holds') = R.send_latency_held h b r s l holds in
      let (t, e', rest) = record_each-Holds rs h b r s' holds' fit in (t, rw e e', rest)
  record_each-Holds (back_pressure ∷ rs) h b r s holds fit =
      let (s', e, holds') = R.back_pressure_held h b r s holds in
      let (t, e', rest) = record_each-Holds rs h (suc b) r s' holds' fit in
      (t, rw e e', rw (carry b (back_pressures rs)) at rest)
  record_each-Holds (retry ∷ rs) h b r s holds fit =
      let (s', e, holds') = R.retry_held h b r s holds in
      let (t, e', rest) = record_each-Holds rs h b (suc r) s' holds' fit in
      (t, rw e e', rw (carry r (retries rs)) at rest)

  -- A program that creates statistics, if it can, and records in any order: the latencies, the
  -- events of back pressure and the retries do not disturb one another.
  pub record_each-create :
      (allocated : Bool) (rs : List Recording)
      → AllFit rs
      → ((allocated ≡ false) × (record_each (R.create_performance_stats allocated) rs ≡ none))
        ⊎ ((s : R.Stats) × (record_each (R.create_performance_stats allocated) rs ≡ some s)
            × R.Holds (latencies rs) (back_pressures rs) (retries rs) s)
  record_each-create false rs fit = inl (refl, rw (R.refused) (record_each-none rs))
  record_each-create true rs fit =
      let (s, e, holds) = R.created in
      let (t, e', rest) = record_each-Holds rs [] 0 0 s holds fit in
      inr (t, rw e e', rw (zero-add (back_pressures rs), zero-add (retries rs)) at rest)
