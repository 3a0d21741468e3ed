-- ===== src/Publisher/Offers.antt =====
-- The results of `aeron_publication_offer` as c-performance/aeron-lib/include/aeron/aeronc.h
-- documents them, and what the counters of the publisher make of each.
use aeron_fast.Base.{
  ℕ, suc, ◌+◌, ◌-◌, ◌^◌, ◌<◌, ◌≡◌, refl, ◌↔◌, Bool, true, false, ◌||◌, [], ◌∷◌, arith, length,
  if◌then◌else◌, List,
}
use aeron_fast.Base.Int.{pos, eqb_ℤ}
use aeron_fast.Publisher.Accounts.{
  Offers, is_accepted, is_error, is_pressured, count, Books, publish_message-Books,
}
use aeron_fast.Base.{ℕ, ◌+◌, ◌-◌, ◌^◌, ◌<◌, ◌≡◌, ◌↔◌, Bool, true, false, arith, if◌then◌else◌}
use aeron_fast.Publisher
use aeron_fast.Base.Int.{ℤ, negsuc}
use aeron_fast.Publisher.{PublisherStats, publish_message, initial_stats}

-- An accepted offer returns the new position; the others are the six failures.
pub data Failure : Type 0 where
  not_connected back_pressured admin_action closed max_position_exceeded publication_error : Failure

abbrev pub failure_code : Failure → ℤ
failure_code Failure.not_connected = Publisher.not_connected
failure_code Failure.back_pressured = Publisher.back_pressured
failure_code Failure.admin_action = Publisher.admin_action
failure_code Failure.closed = Publisher.closed
failure_code Failure.max_position_exceeded = Publisher.max_position_exceeded
failure_code Failure.publication_error = Publisher.publication_error

-- Whether aeronc.h tells the caller to offer again: it says so of ADMIN_ACTION, calls NOT_CONNECTED
-- intermittent, and back pressure prevents only the further transmission.
abbrev pub is_transient : Failure → Bool
is_transient Failure.not_connected = true
is_transient Failure.back_pressured = true
is_transient Failure.admin_action = true
is_transient _ = false

-- The failures that no counter of the publisher shows.
abbrev pub is_uncounted : Failure → Bool
is_uncounted Failure.max_position_exceeded = true
is_uncounted Failure.publication_error = true
is_uncounted _ = false

abbrev pub failures_counted : PublisherStats → ℕ
failures_counted s = s.send_errors + s.back_pressure_events

-- The counters of a failed offer: nothing is counted as sent, and one of the two counters of
-- failures goes up by one, with MAX_POSITION_EXCEEDED and ERROR as the exceptions, which change no
-- field. The code that comes back is -1 exactly after back pressure: of the transient failures only
-- that one is offered again.
pub publish_message-Failure :
    (f : Failure) (size : ℕ) (s : PublisherStats)
    → failures_counted s < 2 ^ 64 - 1
    → let (code, s') = publish_message (failure_code f) size s in
      (s'.messages_sent ≡ s.messages_sent)
      × (s'.bytes_sent ≡ s.bytes_sent)
      × (failures_counted s' ≡ failures_counted s + (if is_uncounted f then 0 else 1))
      × ((s' ≡ s) ↔ (is_uncounted f ≡ true))
      × ((code ≡ negsuc 0) ↔ (f ≡ Failure.back_pressured))
unfolding publish_message
publish_message-Failure Failure.not_connected size s small = ground arith
publish_message-Failure Failure.back_pressured size s small = ground arith
publish_message-Failure Failure.admin_action size s small = ground arith
publish_message-Failure Failure.closed size s small = ground arith
publish_message-Failure Failure.max_position_exceeded size s small = ground arith
publish_message-Failure Failure.publication_error size s small = ground arith

-- What `aeron_publication_offer` returns: a new position of the stream, or a failure.
pub data IsOffer : ℤ → Type 0 where
  position : (n : ℕ) → IsOffer (pos (suc n))
  failure : (f : Failure) → IsOffer (failure_code f)

abbrev pub AllOffers : List ℤ → Type 0
AllOffers [] = Unit {0}
AllOffers (r ∷ results) = IsOffer r × AllOffers results

-- The results that no counter shows.
abbrev pub is_silent : ℤ → Bool
is_silent r = eqb_ℤ r Publisher.max_position_exceeded || eqb_ℤ r Publisher.publication_error

abbrev pub one : Bool → ℕ
one b = if b then 1 else 0

one_kind :
    (r : ℤ)
    → IsOffer r
    → one (is_accepted r) + one (is_error r) + one (is_pressured r) + one (is_silent r) ≡ 1
one_kind _ (position n) = ground arith
one_kind _ (failure Failure.not_connected) = refl
one_kind _ (failure Failure.back_pressured) = refl
one_kind _ (failure Failure.admin_action) = refl
one_kind _ (failure Failure.closed) = refl
one_kind _ (failure Failure.max_position_exceeded) = refl
one_kind _ (failure Failure.publication_error) = refl

-- How many results are of a kind.
abbrev pub number_of : (ℤ → Bool) → List ℤ → ℕ
number_of p [] = 0
number_of p (r ∷ results) = one (p r) + number_of p results

-- A run of `publish_message` over the results of its offers, the first one first.
unfoldable pub publish_all : ℕ → List ℤ → PublisherStats → PublisherStats
publish_all size [] s = s
publish_all size (r ∷ results) s = publish_all size results (publish_message r size s).1

-- The same offers behind others, as the books have them.
abbrev behind : Offers → List ℤ → Offers
behind offers [] = offers
behind offers (r ∷ results) = behind (([], r) ∷ offers) results

publish_all-Books :
    (size : ℕ) (offers : Offers) (results : List ℤ) (s : PublisherStats)
    → Books size offers s
    → Books size (behind offers results) (publish_all size results s)
unfolding publish_all
publish_all-Books size offers [] s b = b
publish_all-Books size offers (r ∷ results) s b =
    publish_all-Books size (([], r) ∷ offers) results _ (publish_message-Books size offers s [] r b)

count-behind :
    (p : ℤ → Bool) (offers : Offers) (results : List ℤ)
    → count p (behind offers results) ≡ count p offers + number_of p results
count-behind p offers [] = omega arith
count-behind p offers (r ∷ results) = omega (arith, count-behind p (([], r) ∷ offers) results)

number_kinds :
    (results : List ℤ)
    → AllOffers results
    → number_of is_accepted results
        + number_of is_error results
        + number_of is_pressured results
        + number_of is_silent results
      ≡ length results
number_kinds [] all = refl
number_kinds (r ∷ results) all = omega (arith, one_kind r all.0, number_kinds results all.1)

initial-Books : (size : ℕ) → Books size [] initial_stats
initial-Books size = record { sent = refl; bytes = omega arith; pressure = refl; errors = refl }

-- After fewer than 2 ^ 64 offers with documented results, from the counters at the start of the
-- program, every offer is counted once, as sent, as an error or as back pressure, but for those
-- that returned MAX_POSITION_EXCEEDED or ERROR.
pub publish_all-length :
    (size : ℕ) (results : List ℤ)
    → AllOffers results
    → length results < 2 ^ 64
    → let s = publish_all size results initial_stats in
      s.messages_sent + s.send_errors + s.back_pressure_events + number_of is_silent results
      ≡ length results
publish_all-length size results all fits =
    let b = publish_all-Books size [] results initial_stats (initial-Books size) in
    omega (
      arith,
      b.sent,
      b.errors,
      b.pressure,
      count-behind is_accepted [] results,
      count-behind is_error [] results,
      count-behind is_pressured [] results,
      number_kinds results all,
    )
