-- ===== src/EndToEnd/Fragments.antt =====
-- Messages that are longer than a fragment. The Aeron client hands such a message over in parts
-- (c-performance/aeron-lib/include/aeron/aeronc.h, aeron_subscription_poll), each but the last as
-- long as a fragment allows (LogBufferDescriptor.h, computeFragmentedFrameLength), unless the
-- subscriber puts an assembler before its handler, which c-performance/src/binary_subscriber.c
-- does not.
mod Tests
use native.Mathlib.Nat.{
  add-div_left, add-mod_left, suc-mul, div-eq_of_lt, mod-eq_of_lt, add-zero, zero-mul,
}
use aeron_fast.Base.{
  ℕ, suc, ◌+◌, ◌*◌, ◌/◌, ◌%◌, ◌≤◌, ◌<◌, ◌≡◌, refl, sym, ap, ◌∙◌, inl, inr, false, some, List, [],
  ◌∷◌, ◌++◌, arith, length, length-append, ltb, leb, ◌==◌, if◌then◌else◌, u64, Bool-cases, All, ◌↔◌,
  ◌-◌,
}
use aeron_fast.Message.Bytes.{Endian}
use aeron_fast.Subscriber.{Fragment, Globals, deliver}
use aeron_fast.Subscriber.Heard.{heard, Summary}
use aeron_fast.Subscriber.Delivered.{deliver-Takes}
use aeron_fast.EndToEnd.{buffers}

-- The parts of one message, where a fragment holds at most `payload` bytes.
pub data IsSeries (payload : ℕ) : List ℕ → List (List ℕ) → Type 0 where
  whole : (m : List ℕ) → length m ≤ payload → IsSeries payload m (m ∷ [])
  part :
      (start rest : List ℕ) {parts : List (List ℕ)}
      → length start ≡ payload
      → 0 < length rest
      → IsSeries payload rest parts
      → IsSeries payload (start ++ rest) (start ∷ parts)

-- The parts of messages, one message after the other.
pub data AreSeries (payload : ℕ) : List (List ℕ) → List (List ℕ) → Type 0 where
  done : AreSeries payload [] []
  message :
      {m : List ℕ} {parts : List (List ℕ)} {ms rest : List (List ℕ)}
      → IsSeries payload m parts
      → AreSeries payload ms rest
      → AreSeries payload (m ∷ ms) (parts ++ rest)

-- How many of the parts are long enough for a timestamp.
abbrev long_parts : List (List ℕ) → ℕ
long_parts [] = 0
long_parts (b ∷ bs) = (if ltb (length b) 8 then 0 else 1) + long_parts bs

length-heard :
    (host : Endian) (fs : List Fragment) → length (heard host fs) ≡ long_parts (buffers fs)
length-heard host [] = refl
length-heard host ((b, now) ∷ fs) = ground (arith, length-heard host fs)

long_parts-append : (xs ys : List (List ℕ)) → long_parts (xs ++ ys) ≡ long_parts xs + long_parts ys
long_parts-append [] ys = omega arith
long_parts-append (x ∷ xs) ys = omega (arith, long_parts-append xs ys)

-- What the subscriber takes for messages of its own, of a message of `size` bytes.
abbrev pub counted_per_message : ℕ → ℕ → ℕ
counted_per_message payload size = size / payload + (if ltb (size % payload) 8 then 0 else 1)

per_less :
    (payload n : ℕ) → n < payload → counted_per_message payload n ≡ (if ltb n 8 then 0 else 1)
per_less payload n less = rw (div-eq_of_lt less, mod-eq_of_lt less) (omega arith)

per_more :
    (payload n : ℕ)
    → 0 < payload
    → counted_per_message payload (payload + n) ≡ suc (counted_per_message payload n)
per_more payload n some_room = rw (add-div_left n some_room, add-mod_left payload n) (omega arith)

per_full : (payload : ℕ) → 8 ≤ payload → counted_per_message payload payload ≡ 1
per_full payload enough =
    ap (counted_per_message payload) (sym (add-zero payload))
    ∙ per_more payload 0 (omega arith)
    ∙ ap suc (per_less payload 0 (omega arith))

per_fits :
    (payload n : ℕ)
    → 8 ≤ payload
    → n ≤ payload
    → counted_per_message payload n ≡ (if ltb n 8 then 0 else 1)
per_fits payload n enough fits = elim (Bool-cases (n == payload)) [
  | inl p ↦
      let same : n ≡ payload = ground arith in
      ap (counted_per_message payload) same ∙ per_full payload enough ∙ ground arith
  | inr p ↦ per_less payload n (ground arith)
]

long_parts-IsSeries :
    (payload : ℕ) {m : List ℕ} {parts : List (List ℕ)}
    → 8 ≤ payload
    → IsSeries payload m parts
    → long_parts parts ≡ counted_per_message payload (length m)
long_parts-IsSeries payload enough (whole m fits) =
    omega (arith, per_fits payload (length m) enough fits)
long_parts-IsSeries payload enough (part start rest full more series) =
    let long : ltb (length start) 8 ≡ false = ground arith in
    let sizes : length (start ++ rest) ≡ payload + length rest =
      omega (arith, length-append start rest) in
    rw (long, sizes, per_more payload (length rest) (omega arith))
      (omega (arith, long_parts-IsSeries payload enough series))

long_parts-AreSeries :
    (payload size : ℕ) {ms rest : List (List ℕ)}
    → 8 ≤ payload
    → AreSeries payload ms rest
    → All (λ m. length m ≡ size) ms
    → long_parts rest ≡ length ms * counted_per_message payload size
long_parts-AreSeries payload size enough done sizes = rw zero-mul refl
long_parts-AreSeries payload size enough (message {parts} {ms} {rest} series more) sizes =
    let one = long_parts-IsSeries payload enough series in
    let others = long_parts-AreSeries payload size enough more sizes.1 in
    let same : counted_per_message payload _ ≡ counted_per_message payload size =
      ap (counted_per_message payload) sizes.0 in
    rw suc-mul (omega (arith, one, others, same, long_parts-append parts rest))

-- Messages that fit into a fragment are handed over as they are.
pub AreSeries_whole :
    (payload : ℕ) {ms rest : List (List ℕ)}
    → AreSeries payload ms rest
    → All (λ m. length m ≤ payload) ms
    → rest ≡ ms
AreSeries_whole payload done fit = refl
AreSeries_whole payload (message (whole m small) more) fit =
    ap (λ (l : List (List ℕ)). m ∷ l) (AreSeries_whole payload more fit.1)
AreSeries_whole payload (message (part start rest full nonempty series) more) fit =
    absurd (omega (arith, length-append start rest, fit.0))

-- What is over a first full part.
per_over :
    (payload n : ℕ)
    → 8 ≤ payload
    → payload ≤ n
    → counted_per_message payload n ≡ suc (counted_per_message payload (n - payload))
per_over payload n enough over =
    let split : n ≡ payload + (n - payload) = omega arith in
    ap (counted_per_message payload) split ∙ per_more payload (n - payload) (omega arith)

per_positive : (payload n : ℕ) → 8 ≤ payload → 8 ≤ n → 1 ≤ counted_per_message payload n
per_positive payload n enough stamped = elim (Bool-cases (leb n payload)) [
  | inl p ↦ ground (arith, per_fits payload n enough)
  | inr p ↦ omega (arith, per_over payload n enough (ground arith))
]

per_one :
    (payload size : ℕ)
    → 8 ≤ payload
    → 8 ≤ size
    → (counted_per_message payload size ≡ 1) ↔ (size < payload + 8)
per_one payload size enough stamped = elim (Bool-cases (ltb size (payload + 8))) [
  | inl p ↦
      let small : size < payload + 8 = ground arith in
      let one : counted_per_message payload size ≡ 1 = elim (Bool-cases (leb size payload)) [
        | inl q ↦ ground (arith, per_fits payload size enough)
        | inr q ↦ ground (
          arith,
          per_over payload size enough (ground arith),
          per_fits payload (size - payload) enough (ground arith),
        )
      ] in
      ((λ e. small), (λ h. one))
  | inr p ↦
      let big : payload + 8 ≤ size = ground arith in
      let more = per_over payload size enough (omega arith) in
      let again = per_positive payload (size - payload) enough (omega arith) in
      ((λ e. absurd (omega arith)), (λ h. absurd (omega arith)))
]

-- A poll that hands over messages of one size, each with room for its stamp and in fragments of at
-- most `payload` bytes, at least 8, of which all but the last of a message are full: the handler
-- counts every one of them `size / payload` times, and once more if a last fragment of at least 8
-- bytes is left, modulo 2 ^ 64. That is once exactly when the size is below `payload + 8`; of
-- longer messages it takes later fragments for messages of their own.
pub deliver_fragmented :
    (host : Endian) (payload size : ℕ) (ms : List (List ℕ)) (fs : List Fragment) (h : List ℕ)
    (b : ℕ) (g : Globals)
    → 8 ≤ payload
    → 8 ≤ size
    → All (λ m. length m ≡ size) ms
    → AreSeries payload ms (buffers fs)
    → Summary h b g.stats
    → (g' : Globals) × (deliver host fs g ≡ some g')
      × (g'.stats.messages_received ≡ u64 (length h + length ms * counted_per_message payload size))
      × ((counted_per_message payload size ≡ 1) ↔ (size < payload + 8))
deliver_fragmented host payload size ms fs h b g enough stamped sizes series before =
    let (g', ran, takes) = deliver-Takes host fs h b g before in
    (
      g',
      ran,
      omega (
        arith,
        takes.summary.messages,
        length-append h (heard host fs),
        length-heard host fs,
        long_parts-AreSeries payload size enough series sizes,
      ),
      per_one payload size enough stamped,
    )
