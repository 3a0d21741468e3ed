-- ===== src/Stats/Print/Details.antt =====
-- The list that `print_detailed_records` prints.
use aeron_fast.Stats.Deliveries.{
  send, receive, HasRecords, record_deliveries, record_deliveries-HasDetails,
  initialised-HasDetails,
}
use mathlib.Core.List.{append_assoc}
use aeron_fast.Base.{
  ℕ, zero, suc, ◌+◌, ◌^◌, ◌≤◌, ◌<◌, ◌≡◌, refl, ap, ◌∙◌, some, List, [], ◌∷◌, ◌++◌, arith, length,
  length-append, get_elem?, get_elem?-append, get_or, map, min, take, ltb, true, false,
  if◌then◌else◌, get_or-get_elem?, get_elem?-map, ap₂, ◌==◌,
}
use aeron_fast.Stats.Defs.{
  PerformanceStats, DetailedRecords, init_performance_stats, detailed_record_count,
}
use aeron_fast.Stats.History.{first_latencies}
use aeron_fast.Stats.Messages.{Delivery, latency}
use aeron_fast.Stats.Print.{StatsLine, detail_lines, print_detailed_records}

-- The lines for the messages of a list, the first of them number `i + 1`.
abbrev pub lines_of : ℕ → List Delivery → List StatsLine
lines_of i [] = []
lines_of i (d ∷ ds) =
    StatsLine.detail (i + 1) d.send_time d.receive_time (latency d) ∷ lines_of (suc i) ds

get_elem?-first_latencies :
    (n : ℕ) (h : List ℕ) (i l : ℕ)
    → i < n
    → get_elem? h i ≡ some l
    → get_elem? (first_latencies n h) i ≡ some l
unfolding first_latencies
get_elem?-first_latencies zero h i l p e = absurd (omega arith)
get_elem?-first_latencies (suc n) [] i l p e = absurd (cc)
get_elem?-first_latencies (suc n) (x ∷ h) zero l p e = e
get_elem?-first_latencies (suc n) (x ∷ h) (suc i) l p e =
    get_elem?-first_latencies n h i l (omega arith) e

-- The cell of a message in one of the arrays.
cell :
    (f : Delivery → ℕ) (pre : List Delivery) (d : Delivery) (post : List Delivery) (array : List ℕ)
    → length pre < detailed_record_count
    → array ≡ first_latencies detailed_record_count (map f (pre ++ d ∷ post))
    → get_or array (length pre) 0 ≡ f d
cell f pre d post array room e = get_or-get_elem? _ (length pre) (f d) 0 (
    rw e (
      get_elem?-first_latencies detailed_record_count _ (length pre) (f d) room
        (get_elem?-map f (pre ++ d ∷ post) (length pre) d (get_elem?-append pre d post))))

detail_lines_lem :
    (left : ℕ) (pre post : List Delivery) (r : DetailedRecords)
    → length pre + left ≤ detailed_record_count
    → HasRecords (pre ++ post) r
    → detail_lines left (length pre) r ≡ lines_of (length pre) (take left post)
unfolding detail_lines
detail_lines_lem zero pre post r room has = refl
detail_lines_lem (suc left) pre [] r room has =
    let over : ltb (length pre) r.recorded_count ≡ false =
      ground (arith, has.recorded, length-append pre []) in
    rw over refl
detail_lines_lem (suc left) pre (d ∷ post) r room has =
    let in_range : ltb (length pre) r.recorded_count ≡ true =
      ground (arith, has.recorded, length-append pre (d ∷ post)) in
    let here : length pre < detailed_record_count = omega arith in
    let longer : length (pre ++ d ∷ []) ≡ suc (length pre) =
      omega (arith, length-append pre (d ∷ [])) in
    let rest =
      detail_lines_lem left (pre ++ d ∷ []) post r (omega (arith, longer))
        (rw (append_assoc pre (d ∷ []) post) has) in
    rw
      (
        in_range,
        cell send pre d post r.send_times here has.sends,
        cell receive pre d post r.receive_times here has.receives,
        cell latency pre d post r.latencies here has.delays,
      )
      (ap
        (λ (l : List StatsLine).
          StatsLine.detail (length pre + 1) d.send_time d.receive_time (latency d) ∷ l)
        (rw longer at rest))

-- The list for the messages of `ds`.
abbrev pub report_of : List Delivery → List StatsLine
report_of [] = []
report_of (d ∷ ds) =
    let recorded = min detailed_record_count (length (d ∷ ds)) in
    StatsLine.records_title recorded
    ∷ (lines_of 0 (take 20 (d ∷ ds))
        ++ (if ltb 20 (length (d ∷ ds)) then StatsLine.more_records recorded ∷ [] else []))

-- The list with `lines` for what the loop prints.
abbrev listing : ℕ → List StatsLine → List StatsLine
listing recorded lines =
    if recorded == 0
    then []
    else StatsLine.records_title recorded
      ∷ (lines ++ (if ltb 20 recorded then StatsLine.more_records recorded ∷ [] else []))

print_detailed_records_lem :
    (s : PerformanceStats)
    → print_detailed_records (some s)
      ≡ listing s.records.recorded_count (detail_lines 20 0 s.records)
unfolding print_detailed_records detail_lines
print_detailed_records_lem s = refl

listing-report_of :
    (ds : List Delivery)
    → listing (min detailed_record_count (length ds)) (lines_of 0 (take 20 ds)) ≡ report_of ds
listing-report_of [] = refl
listing-report_of (d ∷ ds) = ground arith

-- After `init_performance_stats`, whatever the memory held, and `record_message_latency` for fewer
-- than 2 ^ 64 messages, `print_detailed_records` prints nothing if there were none. Otherwise it
-- prints the number of the messages, at most 1000, then a line for each of the first twenty, in
-- order, with its number and its own times and latency, and a last line exactly if there are more
-- than twenty.
pub print_detailed_records-record_deliveries :
    (memory : PerformanceStats) (ds : List Delivery)
    → length ds < 2 ^ 64
    → print_detailed_records (record_deliveries (init_performance_stats (some memory)).1 ds)
      ≡ report_of ds
print_detailed_records-record_deliveries memory ds few =
    let (s, made, start) = initialised-HasDetails memory in
    let (s', ran, has) = record_deliveries-HasDetails [] ds s few start in
    let lines = detail_lines_lem 20 [] ds s'.records (omega arith) has.records in
    rw (made, ran)
      (print_detailed_records_lem s'
        ∙ ap₂ listing has.records.recorded lines
        ∙ listing-report_of ds)
