-- ===== src/EndToEnd/Lengths.antt =====
-- Every message that is handed over has the size of the messages sent, and is counted.
use aeron_fast.Base.{
  ℕ, zero, suc, ◌+◌, ◌*◌, ◌≤◌, ◌≡◌, refl, sym, ap, ap₂, ◌∙◌, inl, inr, false, List, [], ◌∷◌, ◌++◌,
  arith, length, length-append, ltb, Bool-cases,
}
use native.Mathlib.Nat.{suc-mul, add-mul}
use aeron_fast.Message.Bytes.{Endian}
use aeron_fast.Publisher.Accounts.{Offers, is_accepted, count}
use aeron_fast.Publisher.Loop.Trace.{AllMessages, length-be_bytes-ramp, IsMessage}
use aeron_fast.Subscriber.{Fragment}
use aeron_fast.Subscriber.Heard.{heard, heard_bytes}
use aeron_fast.Subscriber.Loop.{Poll}
use aeron_fast.Subscriber.Loop.Ends.{arrived, arrived_bytes}
use aeron_fast.EndToEnd.{accepted_messages, buffers, handed_over}

abbrev pub AllStamped : ℕ → List (List ℕ) → Type 0
AllStamped size [] = Unit {0}
AllStamped size (m ∷ ms) = IsMessage size m × AllStamped size ms

pub length-IsMessage : (size : ℕ) (m : List ℕ) → 8 ≤ size → IsMessage size m → length m ≡ size
length-IsMessage size m enough (stamp, small, e) =
    ap length e ∙ length-be_bytes-ramp stamp size enough

AllStamped-snoc :
    (size : ℕ) (ms : List (List ℕ)) (m : List ℕ)
    → AllStamped size ms
    → IsMessage size m
    → AllStamped size (ms ++ m ∷ [])
AllStamped-snoc size [] m h e = (e, tt)
AllStamped-snoc size (x ∷ ms) m h e = (h.0, AllStamped-snoc size ms m h.1 e)

pub AllStamped-append_left :
    (size : ℕ) (xs ys : List (List ℕ)) → AllStamped size (xs ++ ys) → AllStamped size xs
AllStamped-append_left size [] ys h = tt
AllStamped-append_left size (x ∷ xs) ys h = (h.0, AllStamped-append_left size xs ys h.1)

pub AllStamped-append_right :
    (size : ℕ) (xs ys : List (List ℕ)) → AllStamped size (xs ++ ys) → AllStamped size ys
AllStamped-append_right size [] ys h = h
AllStamped-append_right size (x ∷ xs) ys h = AllStamped-append_right size xs ys h.1

pub accepted_messages-AllStamped :
    (size : ℕ) (offers : Offers)
    → AllMessages size offers
    → AllStamped size (accepted_messages offers)
accepted_messages-AllStamped size [] all = tt
accepted_messages-AllStamped size ((m, r) ∷ offers) (stamped, all) =
    elim (Bool-cases (is_accepted r)) [
      | inl p ↦ rw p (
          AllStamped-snoc size (accepted_messages offers) m
            (accepted_messages-AllStamped size offers all) stamped)
      | inr p ↦ rw p (accepted_messages-AllStamped size offers all)
    ]

pub length-accepted_messages :
    (offers : Offers) → length (accepted_messages offers) ≡ count is_accepted offers
length-accepted_messages [] = refl
length-accepted_messages ((m, r) ∷ offers) = elim (Bool-cases (is_accepted r)) [
  | inl p ↦ rw p (
      omega
        (arith, length-append (accepted_messages offers) (m ∷ []), length-accepted_messages offers))
  | inr p ↦ rw p (omega (arith, length-accepted_messages offers))
]

heard_all :
    (host : Endian) (size : ℕ) (fs : List Fragment)
    → 8 ≤ size
    → AllStamped size (buffers fs)
    → (length (heard host fs) ≡ length (buffers fs)) × (heard_bytes fs ≡ length (buffers fs) * size)
heard_all host size [] enough all = (refl, omega arith)
heard_all host size ((buffer, now) ∷ fs) enough (stamped, all) =
    let e : length buffer ≡ size = length-IsMessage size buffer enough stamped in
    let (same, bytes) = heard_all host size fs enough all in
    let long : ltb (length buffer) 8 ≡ false = ground arith in
    rw long (omega (arith, same), omega (arith, bytes, suc-mul (length (buffers fs)) size))

pub arrived_all :
    (host : Endian) (size : ℕ) (polls : ℕ → Poll) (i n : ℕ)
    → 8 ≤ size
    → AllStamped size (handed_over polls i n)
    → (length (arrived host polls i n) ≡ length (handed_over polls i n))
      × (arrived_bytes polls i n ≡ length (handed_over polls i n) * size)
arrived_all host size polls i zero enough all = (refl, omega arith)
arrived_all host size polls i (suc n) enough all =
    let fs : List Fragment = (polls i).fragments in
    let later : List (List ℕ) = handed_over polls (suc i) n in
    let (same, bytes) =
      heard_all host size fs enough (AllStamped-append_left size (buffers fs) later all) in
    let (same', bytes') =
      arrived_all host size polls (suc i) n enough
        (AllStamped-append_right size (buffers fs) later all) in
    let both : length (buffers fs ++ later) ≡ length (buffers fs) + length later =
      length-append (buffers fs) later in
    (
      omega
          (arith, both, same, same', length-append (heard host fs) (arrived host polls (suc i) n)),
      ap₂ ◌+◌ bytes bytes'
          ∙ sym (add-mul (length (buffers fs)) (length later) size)
          ∙ ap (λ (c : ℕ). c * size) (sym both),
    )
