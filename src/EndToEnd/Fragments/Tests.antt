-- ===== src/EndToEnd/Fragments/Tests.antt =====
-- One message of 24 bytes in three fragments.
use aeron_fast.Base.{ℕ, ◌+◌, ◌*◌, ◌<◌, ◌≡◌, ◌↔◌, refl, true, some, List, [], ◌∷◌, ◌++◌, arith, u64}
use aeron_fast.Clock.{Timespec}
use aeron_fast.Message.Bytes.{Endian}
use aeron_fast.Message.Order.{be_bytes}
use aeron_fast.Message.Layout.{ramp}
use aeron_fast.Stats.Defs.{PerformanceStats}
use aeron_fast.Stats.History.{create_performance_stats-Tracks}
use aeron_fast.Subscriber.{Globals, Fragment, deliver}
use aeron_fast.Subscriber.Loop.Result.{initialised, initialised-Summary}
use aeron_fast.EndToEnd.{buffers}
use aeron_fast.EndToEnd.Fragments.{
  AreSeries, whole, part, message, done, counted_per_message, deliver_fragmented,
}

abbrev now : Timespec
now = record { tv_sec = 1700000000; tv_nsec = 5 }

abbrev empty_stats : PerformanceStats
empty_stats = (create_performance_stats-Tracks [] tt).0

abbrev fresh : Globals
fresh = record { running = true; target_messages = 2; stats = initialised empty_stats now }

abbrev stamp : List ℕ
stamp = be_bytes 1700000000000000001

abbrev sent : List ℕ
sent = stamp ++ (ramp 0 8 ++ ramp 8 8)

abbrev three_parts : List Fragment
three_parts = (stamp, now) ∷ (ramp 0 8, now) ∷ (ramp 8 8, now) ∷ []

three_parts-AreSeries : AreSeries 8 (sent ∷ []) (buffers three_parts)
three_parts-AreSeries =
    message
      (part stamp (ramp 0 8 ++ ramp 8 8) refl (omega arith)
        (part (ramp 0 8) (ramp 8 8) refl (omega arith) (whole (ramp 8 8) (omega arith))))
      done

deliver_fragmented_example :
    (g' : Globals) × (deliver Endian.little three_parts fresh ≡ some g')
    × (g'.stats.messages_received ≡ u64 (0 + 1 * counted_per_message 8 24))
    × ((counted_per_message 8 24 ≡ 1) ↔ (24 < 8 + 8))
deliver_fragmented_example =
    deliver_fragmented Endian.little 8 24 (sent ∷ []) three_parts [] 0 fresh (omega arith)
      (omega arith) (refl, tt) three_parts-AreSeries
      (initialised-Summary empty_stats now (create_performance_stats-Tracks [] tt).2)

three_counted : counted_per_message 8 24 ≡ 3
three_counted = refl
