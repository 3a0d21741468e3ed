-- ===== src/Stats/Bag.antt =====
-- The latencies of a run as a bag: a list up to the order of its items, and what the statistics say
-- of it.
use mathlib.Core.Quot
use mathlib.Core.Quot.{Quot, Quot-set}
use native.Mathlib.Nat.{le_antisymm}
use aeron_fast.Base.{
  ℕ, ◌/◌, ◌≤◌, ◌≡◌, refl, sym, ap, ap₂, ◌∙◌, ◌&&◌, List, [], ◌∷◌, arith, ltb, leb, if◌then◌else◌,
  length, u64, u64_max, weigh,
}
use aeron_fast.Stats.Defs.{create_limits}
use aeron_fast.Stats.Tally.{count_between, tally, sum}
use aeron_fast.Stats.History.{minimum, maximum}

-- Two lists hold the same items, as often: every weight of the items has the same sum over both.
abbrev pub SameBag : List ℕ → List ℕ → Type 0
SameBag xs ys = (w : ℕ → ℕ) → weigh w xs ≡ weigh w ys

abbrev pub Bag : Type 0
Bag = Quot SameBag

length-weigh : (xs : List ℕ) → length xs ≡ weigh (λ _. 1) xs
length-weigh [] = refl
length-weigh (x ∷ xs) = omega (arith, length-weigh xs)

sum-weigh : (xs : List ℕ) → sum xs ≡ weigh (λ x. x) xs
sum-weigh [] = refl
sum-weigh (x ∷ xs) = omega (arith, sum-weigh xs)

abbrev between : ℕ → ℕ → ℕ → ℕ
between lo hi l = if leb lo (l / 1000) && ltb (l / 1000) hi then 1 else 0

count_between-weigh : (lo hi : ℕ) (xs : List ℕ) → count_between lo hi xs ≡ weigh (between lo hi) xs
count_between-weigh lo hi [] = refl
count_between-weigh lo hi (x ∷ xs) = omega (arith, count_between-weigh lo hi xs)

pub length-SameBag : (xs ys : List ℕ) → SameBag xs ys → length xs ≡ length ys
length-SameBag xs ys same = length-weigh xs ∙ same (λ _. 1) ∙ sym (length-weigh ys)

pub sum-SameBag : (xs ys : List ℕ) → SameBag xs ys → sum xs ≡ sum ys
sum-SameBag xs ys same = sum-weigh xs ∙ same (λ x. x) ∙ sym (sum-weigh ys)

pub tally-SameBag :
    (lo : ℕ) (limits xs ys : List ℕ) → SameBag xs ys → tally lo limits xs ≡ tally lo limits ys
tally-SameBag lo [] xs ys same = refl
tally-SameBag lo (hi ∷ limits) xs ys same =
    ap₂ ◌∷◌
      (ap u64
        (count_between-weigh lo hi xs ∙ same (between lo hi) ∙ sym (count_between-weigh lo hi ys)))
      (tally-SameBag hi limits xs ys same)

abbrev below : ℕ → ℕ → ℕ
below m x = if ltb x m then 1 else 0

abbrev above : ℕ → ℕ → ℕ
above m x = if ltb m x then 1 else 0

none_below : (m : ℕ) (xs : List ℕ) → m ≤ minimum xs → weigh (below m) xs ≡ 0
none_below m [] h = refl
none_below m (x ∷ xs) h = ground (arith, none_below m xs)

le-minimum : (m : ℕ) (xs : List ℕ) → m ≤ u64_max → weigh (below m) xs ≡ 0 → m ≤ minimum xs
le-minimum m [] small h = small
le-minimum m (x ∷ xs) small h = ground (arith, le-minimum m xs)

minimum-le : (xs : List ℕ) → minimum xs ≤ u64_max
minimum-le [] = omega arith
minimum-le (x ∷ xs) = omega (arith, minimum-le xs)

none_above : (m : ℕ) (xs : List ℕ) → maximum xs ≤ m → weigh (above m) xs ≡ 0
none_above m [] h = refl
none_above m (x ∷ xs) h = ground (arith, none_above m xs)

maximum-le : (m : ℕ) (xs : List ℕ) → weigh (above m) xs ≡ 0 → maximum xs ≤ m
maximum-le m [] h = omega arith
maximum-le m (x ∷ xs) h = ground (arith, maximum-le m xs)

minimum-le_SameBag : (xs ys : List ℕ) → SameBag xs ys → minimum xs ≤ minimum ys
minimum-le_SameBag xs ys same =
    let m : ℕ = minimum xs in
    le-minimum m ys (minimum-le xs) (sym (same (below m)) ∙ none_below m xs (omega arith))

maximum-le_SameBag : (xs ys : List ℕ) → SameBag xs ys → maximum xs ≤ maximum ys
maximum-le_SameBag xs ys same =
    let m : ℕ = maximum ys in maximum-le m xs (same (above m) ∙ none_above m ys (omega arith))

pub minimum-SameBag : (xs ys : List ℕ) → SameBag xs ys → minimum xs ≡ minimum ys
minimum-SameBag xs ys same =
    le_antisymm (minimum-le_SameBag xs ys same) (minimum-le_SameBag ys xs (λ w. sym (same w)))

pub maximum-SameBag : (xs ys : List ℕ) → SameBag xs ys → maximum xs ≡ maximum ys
maximum-SameBag xs ys same =
    le_antisymm (maximum-le_SameBag xs ys same) (maximum-le_SameBag ys xs (λ w. sym (same w)))

-- What the statistics hold of some latencies: their number and sum modulo 2 ^ 64, the smallest, the
-- largest, and the ten buckets.
abbrev pub Figures : Type 0
Figures = ℕ × ℕ × ℕ × ℕ × List ℕ

abbrev pub figures_of : List ℕ → Figures
figures_of h = (u64 (length h), u64 (sum h), minimum h, maximum h, tally 0 create_limits h)

pub figures_of-SameBag : (xs ys : List ℕ) → SameBag xs ys → figures_of xs ≡ figures_of ys
figures_of-SameBag xs ys same =
    rw
      (
        length-SameBag xs ys same,
        sum-SameBag xs ys same,
        minimum-SameBag xs ys same,
        maximum-SameBag xs ys same,
        tally-SameBag 0 create_limits xs ys same,
      )
      refl

pub Figures-set : IsSet Figures
Figures-set = hlevel

-- The figures of a bag: they do not depend on the order of the latencies.
unfoldable pub figures : Bag → Figures
figures = Quot.lift Figures-set figures_of figures_of-SameBag
