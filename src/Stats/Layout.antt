-- ===== src/Stats/Layout.antt =====
-- c-performance/include/performance_stats.h: where the counters lie in memory. Their padding keeps
-- counters that different operations write on different cache lines.
use aeron_fast.Base.{
  ℕ, ◌+◌, ◌-◌, ◌*◌, ◌/◌, ◌%◌, ◌≡◌, refl, sym, ap, ◌∙◌, ◌↔◌, ◌⊎◌, inl, inr, List, [], ◌∷◌, arith,
  get_or,
}
use aeron_fast.Common.{cache_line_size, buffer_alignment}

-- A member of a structure: its size and its alignment in bytes.
pub record Member : Type 0 where
  pub size : ℕ
  pub align : ℕ

abbrev pub round_up : ℕ → ℕ → ℕ
round_up align n = (n + (align - 1)) / align * align

-- Where the members lie, each at the next place with its alignment.
abbrev pub offsets : ℕ → List Member → List ℕ
offsets from [] = []
offsets from (m ∷ ms) = round_up m.align from ∷ offsets (round_up m.align from + m.size) ms

abbrev pub end_of : ℕ → List Member → ℕ
end_of from [] = from
end_of from (m ∷ ms) = end_of (round_up m.align from + m.size) ms

abbrev pub size_of : ℕ → List Member → ℕ
size_of align ms = round_up align (end_of 0 ms)

-- A `uint64_t`, and an array of characters.
abbrev word : Member
word = record { size = 8; align = 8 }

abbrev padding : ℕ → Member
padding n = record { size = n; align = 1 }

-- `stats_counters_t`, with its padding.
abbrev pub counter_members : List Member
counter_members =
    word
    ∷ padding (cache_line_size - 8)
    ∷ word
    ∷ padding (cache_line_size - 8)
    ∷ word
    ∷ word
    ∷ padding (cache_line_size - 2 * 8)
    ∷ word
    ∷ word
    ∷ padding (cache_line_size - 2 * 8)
    ∷ []

pub data Counter : Type 0 where
  message_count total_latency min_latency max_latency back_pressure_count retry_count : Counter

-- The place of a counter among the members.
abbrev pub place : Counter → ℕ
place Counter.message_count = 0
place Counter.total_latency = 2
place Counter.min_latency = 4
place Counter.max_latency = 5
place Counter.back_pressure_count = 7
place Counter.retry_count = 8

abbrev pub offset : Counter → ℕ
offset c = get_or (offsets 0 counter_members) (place c) 0

-- The cache line of a byte's address.
abbrev pub line : ℕ → ℕ
line address = address / cache_line_size

-- The counters that the structure puts together: the extremes, and the two counts of the sender.
abbrev pub group : Counter → ℕ
group Counter.message_count = 0
group Counter.total_latency = 1
group Counter.min_latency = 2
group Counter.max_latency = 2
group Counter.back_pressure_count = 3
group Counter.retry_count = 3

counters_size : size_of cache_line_size counter_members ≡ 256
counters_size = refl

offset-group :
    (c : Counter)
    → (offset c ≡ group c * cache_line_size) ⊎ (offset c ≡ group c * cache_line_size + 8)
offset-group Counter.message_count = inl refl
offset-group Counter.total_latency = inl refl
offset-group Counter.min_latency = inl refl
offset-group Counter.max_latency = inr refl
offset-group Counter.back_pressure_count = inl refl
offset-group Counter.retry_count = inr refl

line-group :
    (base : ℕ) (c : Counter)
    → base % 16 ≡ 0
    → (line (base + offset c) ≡ line base + group c)
      × (line (base + offset c + 7) ≡ line base + group c)
line-group base c aligned = elim (offset-group c) [
  | inl e ↦ omega (arith, e)
  | inr e ↦ omega (arith, e)
]

-- Wherever `calloc` puts the counters, at a multiple of 16 and not of 64 as the structure asks, no
-- counter crosses the end of a cache line, and two counters are on the same line exactly when they
-- are both extremes or both counts of the sender, or the same one.
pub line-offset_iff :
    (base : ℕ) (c d : Counter)
    → base % buffer_alignment ≡ 0
    → (line (base + offset c) ≡ line (base + offset c + 7))
      × ((line (base + offset c) ≡ line (base + offset d)) ↔ (group c ≡ group d))
line-offset_iff base c d aligned =
    let (c_start, c_end) = line-group base c aligned in
    let (d_start, d_end) = line-group base d aligned in
    (
      c_start ∙ sym c_end,
      (
        (λ e. omega (arith, c_start, d_start, e)),
        (λ e. c_start ∙ ap (λ (g : ℕ). line base + g) e ∙ sym d_start),
      ),
    )
