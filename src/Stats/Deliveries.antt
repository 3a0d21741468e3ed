-- ===== src/Stats/Deliveries.antt =====
-- What `record_message_latency` leaves in the arrays after a history of messages.
use mathlib.Core.List.{append_assoc, append-nil}
use aeron_fast.Base.{
  ℕ, suc, ◌^◌, ◌<◌, ◌≡◌, refl, sym, Option, some, List, [], ◌∷◌, ◌++◌, arith, length, length-append,
  map, min, ltb, if◌then◌else◌, set, map-snoc, length-map,
}
use aeron_fast.Stats.Defs.{
  PerformanceStats, DetailedRecords, init_performance_stats, detailed_record_count,
}
use aeron_fast.Stats.{record_message_latency, write_record, update_extremes, count_message}
use aeron_fast.Stats.History.{first_latencies, first_latencies-snoc, zeros-first_latencies}
use aeron_fast.Stats.Messages.{Delivery, latency}

-- `record_message_latency` for each message, the oldest first.
pub record_deliveries : Option PerformanceStats → List Delivery → Option PerformanceStats
record_deliveries stats [] = stats
record_deliveries stats (d ∷ ds) =
    record_deliveries (record_message_latency stats d.send_time d.receive_time) ds

-- What every call keeps of the history and the statistics, a run of calls keeps.
module _ (Holds : List Delivery → PerformanceStats → Type 0)
    (keeps : (h : List Delivery) (d : Delivery) (s : PerformanceStats)
      → suc (length h) < 2 ^ 64
      → Holds h s
      → (s' : PerformanceStats) × (record_message_latency (some s) d.send_time d.receive_time
          ≡ some s')
        × Holds (h ++ d ∷ []) s') where
  pub record_deliveries-keeps :
      (h ds : List Delivery) (s : PerformanceStats)
      → length (h ++ ds) < 2 ^ 64
      → Holds h s
      → (s' : PerformanceStats) × (record_deliveries (some s) ds ≡ some s') × Holds (h ++ ds) s'
  unfolding record_deliveries
  record_deliveries-keeps h [] s few before = (s, refl, rw append-nil before)
  record_deliveries-keeps h (d ∷ ds) s few before =
      let room : suc (length h) < 2 ^ 64 = omega (arith, length-append h (d ∷ ds)) in
      let (s', step, after) = keeps h d s room before in
      let more : length ((h ++ d ∷ []) ++ ds) < 2 ^ 64 = rw (append_assoc h (d ∷ []) ds) few in
      let (s'', ran, last) = record_deliveries-keeps (h ++ d ∷ []) ds s' more after in
      (s'', rw (step, ran), rw (append_assoc h (d ∷ []) ds) at last)

abbrev pub send : Delivery → ℕ
send d = d.send_time

abbrev pub receive : Delivery → ℕ
receive d = d.receive_time

-- The arrays hold the first thousand messages of `h`.
pub record HasRecords (h : List Delivery) (r : DetailedRecords) : Type 0 where
  pub sends : r.send_times ≡ first_latencies detailed_record_count (map send h)
  pub receives : r.receive_times ≡ first_latencies detailed_record_count (map receive h)
  pub delays : r.latencies ≡ first_latencies detailed_record_count (map latency h)
  pub recorded : r.recorded_count ≡ min detailed_record_count (length h)

pub record HasDetails (h : List Delivery) (s : PerformanceStats) : Type 0 where
  pub count : s.counters.message_count ≡ length h
  pub records : HasRecords h s.records

-- One array with one message more.
column-snoc :
    (f : Delivery → ℕ) (h : List Delivery) (d : Delivery)
    → first_latencies detailed_record_count (map f (h ++ d ∷ [])) ≡ (
        if ltb (length h) detailed_record_count
        then set (first_latencies detailed_record_count (map f h)) (length h) (f d)
        else first_latencies detailed_record_count (map f h))
column-snoc f h d =
    rw (map-snoc f h d, sym (length-map f h))
      (first_latencies-snoc detailed_record_count (map f h) (f d))

write_record-HasRecords :
    (h : List Delivery) (d : Delivery) (r : DetailedRecords)
    → HasRecords h r
    → HasRecords (h ++ d ∷ []) (write_record (length h) d.send_time d.receive_time (latency d) r)
unfolding write_record
write_record-HasRecords h d r before = record {
  sends = ground (arith, before.sends, column-snoc send h d);
  receives = ground (arith, before.receives, column-snoc receive h d);
  delays = ground (arith, before.delays, column-snoc latency h d);
  recorded = ground (arith, before.recorded, length-append h (d ∷ []));
}

record_message_latency-HasDetails :
    (h : List Delivery) (d : Delivery) (s : PerformanceStats)
    → suc (length h) < 2 ^ 64
    → HasDetails h s
    → (s' : PerformanceStats) × (record_message_latency (some s) d.send_time d.receive_time
        ≡ some s')
      × HasDetails (h ++ d ∷ []) s'
unfolding record_message_latency update_extremes count_message
record_message_latency-HasDetails h d s few before = (
  _,
  refl,
  record {
    count = omega (arith, before.count, length-append h (d ∷ []));
    records = rw before.count (write_record-HasRecords h d s.records before.records);
  },
)

pub record_deliveries-HasDetails :
    (h ds : List Delivery) (s : PerformanceStats)
    → length (h ++ ds) < 2 ^ 64
    → HasDetails h s
    → (s' : PerformanceStats) × (record_deliveries (some s) ds ≡ some s') × HasDetails (h ++ ds) s'
record_deliveries-HasDetails h ds s few before =
    record_deliveries-keeps HasDetails record_message_latency-HasDetails h ds s few before

pub initialised-HasDetails :
    (memory : PerformanceStats)
    → (s : PerformanceStats) × ((init_performance_stats (some memory)).1 ≡ some s) × HasDetails [] s
unfolding init_performance_stats
initialised-HasDetails memory = (
  _,
  refl,
  record {
    count = refl;
    records = record {
      sends = zeros-first_latencies detailed_record_count;
      receives = zeros-first_latencies detailed_record_count;
      delays = zeros-first_latencies detailed_record_count;
      recorded = refl;
    };
  },
)
