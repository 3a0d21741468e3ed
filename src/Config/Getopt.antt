-- ===== src/Config/Getopt.antt =====
-- `getopt_long` of the C library, as glibc has it where POSIXLY_CORRECT is not set: short options
-- in clusters, long options by name or by an abbreviation, operands passed over, `--` as the end.
-- The program calls it until it returns -1; here are all results of those calls in order.
use aeron_fast.Base.{
  ℕ, Bool, true, false, not, ◌&&◌, Option, none, some, List, [], ◌∷◌, ◌++◌, ◌==◌, if◌then◌else◌,
}

-- A result of `getopt_long`: the option's letter, with `optarg`; `unknown` is '?'.
pub data Opt : Type 0 where
  flag : ℕ → Opt
  option : ℕ → List ℕ → Opt
  unknown : Opt

-- `struct option` with a null `flag`: the name, whether an argument is required, and the letter.
pub record LongOption : Type 0 where
  pub name : List ℕ
  pub required : Bool
  pub letter : ℕ

pub record Grammar : Type 0 where
  pub short_options : List ℕ
  pub long_options : List LongOption

-- What one element of `argv` gives: options, and the letter of one whose argument is the next.
pub data Scan : Type 0 where
  complete : List Opt → Scan
  wants : List Opt → ℕ → Scan
  stop : Scan

abbrev pub prepend : Opt → Scan → Scan
prepend o (Scan.complete os) = Scan.complete (o ∷ os)
prepend o (Scan.wants os letter) = Scan.wants (o ∷ os) letter
prepend o Scan.stop = Scan.stop

-- Whether a letter stands in `optstring`, and whether a colon follows it.
abbrev pub colon_follows : List ℕ → Bool
colon_follows [] = false
colon_follows (c ∷ s) = c == b':'

unfoldable pub short_kind : List ℕ → ℕ → Option Bool
short_kind [] letter = none
short_kind (c ∷ s) letter = if c == letter then some (colon_follows s) else short_kind s letter

-- A cluster of short options, behind its dash.
unfoldable pub scan_cluster : List ℕ → List ℕ → Scan
unfolding short_kind
scan_cluster short_options [] = Scan.complete []
scan_cluster short_options (c ∷ rest) =
    let more = scan_cluster short_options rest in
    if c == b':' then prepend Opt.unknown more else elim (short_kind short_options c) [
      | none ↦ prepend Opt.unknown more
      | some required ↦
          (if required
            then elim rest [
              | [] ↦ Scan.wants [] c
              | d ∷ attached ↦ Scan.complete (Opt.option c (d ∷ attached) ∷ [])
            ]
            else prepend (Opt.flag c) more)
    ]

-- Equality and prefixes of texts.
unfoldable pub text_eq : List ℕ → List ℕ → Bool
text_eq [] [] = true
text_eq (a ∷ s) (b ∷ t) = a == b && text_eq s t
text_eq _ _ = false

unfoldable pub is_prefix : List ℕ → List ℕ → Bool
is_prefix [] t = true
is_prefix (a ∷ s) [] = false
is_prefix (a ∷ s) (b ∷ t) = a == b && is_prefix s t

-- A long option with its `=value`, if it has one.
pub record LongText : Type 0 where
  pub name : List ℕ
  pub value : Option (List ℕ)

unfoldable pub split_long : List ℕ → LongText
split_long [] = record { name = []; value = none }
split_long (c ∷ s) =
    let rest = split_long s in
    if c == b'='
    then record { name = []; value = some s }
    else record { name = c ∷ rest.name; value = rest.value }

unfoldable pub find_exact : List LongOption → List ℕ → Option LongOption
unfolding text_eq
find_exact [] name = none
find_exact (o ∷ os) name = if text_eq o.name name then some o else find_exact os name

-- An abbreviation must fit one option, or options that mean the same.
unfoldable pub find_abbreviation : List LongOption → List ℕ → Option LongOption → Option LongOption
unfolding is_prefix
find_abbreviation [] name found = found
find_abbreviation (o ∷ os) name found =
    let skip = find_abbreviation os name found in
    let take = find_abbreviation os name (some o) in
    if is_prefix name o.name
    then elim found [ none ↦ take | some p ↦ (if not (p.letter == o.letter) then none else skip) ]
    else skip

-- An element that begins with two dashes, behind them.
unfoldable pub scan_long : List LongOption → List ℕ → Scan
unfolding split_long find_exact find_abbreviation
scan_long long_options text =
    let long = split_long text in
    let match : Option LongOption = elim (find_exact long_options long.name) [
      | some o ↦ some o
      | none ↦ find_abbreviation long_options long.name none
    ] in
    elim match [
      | none ↦ Scan.complete (Opt.unknown ∷ [])
      | some o ↦
          (if o.required
            then elim long.value [
              | none ↦ Scan.wants [] o.letter
              | some value ↦ Scan.complete (Opt.option o.letter value ∷ [])
            ]
            else elim long.value [
              | none ↦ Scan.complete (Opt.flag o.letter ∷ [])
              | some value ↦ Scan.complete (Opt.unknown ∷ [])
            ])
    ]

-- One element of `argv`. What does not begin with a dash, or is a dash alone, is an operand.
unfoldable pub scan_argument : Grammar → List ℕ → Scan
unfolding scan_cluster scan_long
scan_argument g [] = Scan.complete []
scan_argument g (a ∷ []) = Scan.complete []
scan_argument g (a ∷ b ∷ rest) =
    if not (a == b'-')
    then Scan.complete []
    else if not (b == b'-')
    then scan_cluster g.short_options (b ∷ rest)
    else elim rest [ [] ↦ Scan.stop | c ∷ text ↦ scan_long g.long_options (c ∷ text) ]

-- All the options of `argv`, behind the program's name.
unfoldable pub getopt_long : Grammar → List (List ℕ) → List Opt
unfolding scan_argument
getopt_long g [] = []
getopt_long g (a ∷ []) = elim (scan_argument g a) [
  | Scan.complete os ↦ os
  | Scan.wants os letter ↦ os ++ Opt.unknown ∷ []
  | Scan.stop ↦ []
]
getopt_long g (a ∷ b ∷ rest) = elim (scan_argument g a) [
  | Scan.complete os ↦ os ++ getopt_long g (b ∷ rest)
  | Scan.wants os letter ↦ os ++ Opt.option letter b ∷ getopt_long g rest
  | Scan.stop ↦ []
]
