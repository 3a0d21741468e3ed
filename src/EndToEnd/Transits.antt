-- ===== src/EndToEnd/Transits.antt =====
-- The latencies that the subscriber counts are the times that the messages took, by the two clocks.
use aeron_fast.Base.{
  ℕ, zero, suc, ◌^◌, ◌≤◌, ◌<◌, ◌≡◌, refl, sym, ap, ap₂, ◌∙◌, false, List, [], ◌∷◌, ◌++◌, arith,
  length, take, ltb, sub64,
}
use aeron_fast.Clock.{Timespec, get_timestamp_ns, get_timestamp_ns_small}
use aeron_fast.Message.Bytes.{Endian, be64toh, of_object_bytes}
use aeron_fast.Message.Order.{be_bytes, be64toh-be_bytes}
use aeron_fast.Publisher.Loop.Trace.{IsMessage}
use aeron_fast.Subscriber.{Fragment}
use aeron_fast.Subscriber.Heard.{heard, latency_of}
use aeron_fast.Subscriber.Latency.{counted_latency, sub64-counted_latency}
use aeron_fast.Subscriber.Loop.{Poll}
use aeron_fast.Subscriber.Loop.Ends.{arrived}
use aeron_fast.EndToEnd.{buffers, handed_over}
use aeron_fast.EndToEnd.Lengths.{
  AllStamped, AllStamped-append_left, AllStamped-append_right, length-IsMessage,
}

-- The timestamp that the first eight bytes are in network order.
abbrev pub stamp_in : List ℕ → ℕ
stamp_in m = be64toh Endian.big (of_object_bytes Endian.big (take 8 m))

-- What fragments took from the stamp to the reading of the clock, and those of `n` polls from the
-- `i`th on.
abbrev pub transits : List Fragment → List ℕ
transits [] = []
transits ((m, now) ∷ fs) = counted_latency (stamp_in m) (get_timestamp_ns now) ∷ transits fs

abbrev pub polled_transits : (ℕ → Poll) → ℕ → ℕ → List ℕ
polled_transits polls i zero = []
polled_transits polls i (suc n) = transits (polls i).fragments ++ polled_transits polls (suc i) n

-- A reader of either byte order reads the stamp of a message of the publisher.
stamp_read :
    (host : Endian) (size : ℕ) (m : List ℕ)
    → IsMessage size m
    → (stamp_in m < 2 ^ 64) × (be64toh host (of_object_bytes host (take 8 m)) ≡ stamp_in m)
stamp_read host size m (t, small, e) =
    let first : take 8 m ≡ be_bytes t = ap (take 8) e in
    let here : stamp_in m ≡ t =
      ap (λ (bs : List ℕ). be64toh Endian.big (of_object_bytes Endian.big bs)) first
      ∙ be64toh-be_bytes Endian.big t small in
    (
      rw here small,
      ap (λ (bs : List ℕ). be64toh host (of_object_bytes host bs)) first
          ∙ be64toh-be_bytes host t small
          ∙ sym here,
    )

latency_of_message :
    (host : Endian) (size : ℕ) (m : List ℕ) (now : Timespec)
    → IsMessage size m
    → latency_of host (m, now) ≡ counted_latency (stamp_in m) (get_timestamp_ns now)
latency_of_message host size m now stamped =
    let (small, read) = stamp_read host size m stamped in
    ap (λ (t : ℕ). sub64 (get_timestamp_ns now) t) read
    ∙ sub64-counted_latency (stamp_in m) (get_timestamp_ns now) small (get_timestamp_ns_small now)

heard-transits :
    (host : Endian) (size : ℕ) (fs : List Fragment)
    → 8 ≤ size
    → AllStamped size (buffers fs)
    → heard host fs ≡ transits fs
heard-transits host size [] enough all = refl
heard-transits host size ((m, now) ∷ fs) enough (stamped, all) =
    let e : length m ≡ size = length-IsMessage size m enough stamped in
    let long : ltb (length m) 8 ≡ false = ground arith in
    rw long (
      ap₂ ◌∷◌ (latency_of_message host size m now stamped) (heard-transits host size fs enough all))

pub arrived-transits :
    (host : Endian) (size : ℕ) (polls : ℕ → Poll) (i n : ℕ)
    → 8 ≤ size
    → AllStamped size (handed_over polls i n)
    → arrived host polls i n ≡ polled_transits polls i n
arrived-transits host size polls i zero enough all = refl
arrived-transits host size polls i (suc n) enough all =
    let now : List (List ℕ) = buffers (polls i).fragments in
    let later : List (List ℕ) = handed_over polls (suc i) n in
    ap₂ ◌++◌
      (heard-transits host size (polls i).fragments enough
        (AllStamped-append_left size now later all))
      (arrived-transits host size polls (suc i) n enough
        (AllStamped-append_right size now later all))
