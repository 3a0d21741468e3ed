-- ===== src/Stats/Tally.antt =====
-- The distribution that the buckets stand for, and the bucket loop against it.
use aeron_fast.Base.{
  ℕ, suc, ◌+◌, ◌/◌, ◌%◌, ◌^◌, ◌≤◌, ◌<◌, ◌≡◌, refl, ◌&&◌, List, [], ◌∷◌, ◌++◌, map, arith, ltb, leb,
  if◌then◌else◌, length, u64,
}
use aeron_fast.Stats.{count_bucket}

-- How many latencies of a history, in nanoseconds, have microseconds from `lo` up to below `hi`.
abbrev pub count_between : ℕ → ℕ → List ℕ → ℕ
count_between lo hi [] = 0
count_between lo hi (l ∷ h) =
    (if leb lo (l / 1000) && ltb (l / 1000) hi then 1 else 0) + count_between lo hi h

-- The buckets of a history: each counts from the limit before it up to its own, modulo 2 ^ 64.
abbrev pub tally : ℕ → List ℕ → List ℕ → List ℕ
tally lo [] h = []
tally lo (hi ∷ his) h = u64 (count_between lo hi h) ∷ tally hi his h

-- Limits in ascending order, all of them `lo` or more.
abbrev pub IsAscending : ℕ → List ℕ → Type 0
IsAscending lo [] = Unit {0}
IsAscending lo (x ∷ xs) = (lo ≤ x) × IsAscending x xs

count_between-snoc :
    (lo hi : ℕ) (h : List ℕ) (l : ℕ)
    → count_between lo hi (h ++ l ∷ [])
      ≡ count_between lo hi h + (if leb lo (l / 1000) && ltb (l / 1000) hi then 1 else 0)
count_between-snoc lo hi [] l = omega arith
count_between-snoc lo hi (x ∷ h) l = omega (arith, count_between-snoc lo hi h l)

-- A latency below all the limits' ranges counts in none of them.
tally-snoc_below :
    (lo : ℕ) (limits h : List ℕ) (l : ℕ)
    → IsAscending lo limits
    → l / 1000 < lo
    → tally lo limits (h ++ l ∷ []) ≡ tally lo limits h
tally-snoc_below lo [] h l asc below = refl
tally-snoc_below lo (x ∷ xs) h l asc below =
    ground (arith, count_between-snoc lo x h l, tally-snoc_below x xs h l asc.1)

-- The bucket loop counts a latency in the one range that it falls in.
pub count_bucket-tally :
    (lo : ℕ) (limits h : List ℕ) (l : ℕ)
    → IsAscending lo limits
    → lo ≤ l / 1000
    → count_bucket ltb (l / 1000) limits (tally lo limits h) ≡ tally lo limits (h ++ l ∷ [])
unfolding count_bucket
count_bucket-tally lo [] h l asc above = refl
count_bucket-tally lo (x ∷ xs) h l asc above = ground (
  arith,
  count_between-snoc lo x h l,
  tally-snoc_below x xs h l asc.1,
  count_bucket-tally x xs h l asc.1,
)

-- `<=` on whole microseconds is `<` on the next limit.
pub count_bucket-leb :
    (us : ℕ) (limits buckets : List ℕ)
    → count_bucket leb us limits buckets ≡ count_bucket ltb us (map suc limits) buckets
unfolding count_bucket
count_bucket-leb us [] buckets = refl
count_bucket-leb us (x ∷ xs) [] = refl
count_bucket-leb us (x ∷ xs) (b ∷ bs) = ground (arith, count_bucket-leb us xs bs)

abbrev pub sum : List ℕ → ℕ
sum [] = 0
sum (x ∷ xs) = x + sum xs

-- The last limit, or `lo` if there is none.
abbrev pub top : ℕ → List ℕ → ℕ
top lo [] = lo
top lo (x ∷ xs) = top x xs

-- Every latency of a history is below `hi` microseconds.
abbrev pub AllBelow : ℕ → List ℕ → Type 0
AllBelow hi [] = Unit {0}
AllBelow hi (l ∷ h) = (l / 1000 < hi) × AllBelow hi h

le-top : (lo : ℕ) (limits : List ℕ) → IsAscending lo limits → lo ≤ top lo limits
le-top lo [] asc = omega arith
le-top lo (x ∷ xs) asc = omega (arith, le-top x xs asc.1)

count_between_split :
    (lo mid hi : ℕ) (h : List ℕ)
    → lo ≤ mid
    → mid ≤ hi
    → count_between lo mid h + count_between mid hi h ≡ count_between lo hi h
count_between_split lo mid hi [] p q = refl
count_between_split lo mid hi (l ∷ h) p q = ground (arith, count_between_split lo mid hi h)

count_between_self : (lo : ℕ) (h : List ℕ) → count_between lo lo h ≡ 0
count_between_self lo [] = refl
count_between_self lo (l ∷ h) = ground (arith, count_between_self lo h)

count_between_all : (hi : ℕ) (h : List ℕ) → AllBelow hi h → count_between 0 hi h ≡ length h
count_between_all hi [] below = refl
count_between_all hi (l ∷ h) below = ground (arith, count_between_all hi h below.1)

sum-tally-mod :
    (lo : ℕ) (limits h : List ℕ)
    → IsAscending lo limits
    → sum (tally lo limits h) % 2 ^ 64 ≡ count_between lo (top lo limits) h % 2 ^ 64
sum-tally-mod lo [] h asc = omega (arith, count_between_self lo h)
sum-tally-mod lo (x ∷ xs) h asc = omega (
  arith,
  sum-tally-mod x xs h asc.1,
  count_between_split lo x (top x xs) h asc.0 (le-top x xs asc.1),
)

-- When the last limit is above every latency, each is in one bucket: the buckets add up to the
-- length of the history, modulo 2 ^ 64.
pub sum-tally :
    (limits h : List ℕ)
    → IsAscending 0 limits
    → AllBelow (top 0 limits) h
    → sum (tally 0 limits h) % 2 ^ 64 ≡ length h % 2 ^ 64
sum-tally limits h asc below =
    omega (arith, sum-tally-mod 0 limits h asc, count_between_all (top 0 limits) h below)
