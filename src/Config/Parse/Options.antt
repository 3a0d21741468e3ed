-- ===== src/Config/Parse/Options.antt =====
-- What single options do, as the usage texts name them.
use aeron_fast.Base.{
  ℕ, ◌^◌, ◌≤◌, ◌<◌, ◌≡◌, ◌≢◌, ◌⊎◌, refl, Option, none, some, List, [], ◌∷◌, arith, ltb,
  if◌then◌else◌, take, ◌↔◌, ◌∙◌, ap, All,
}
use aeron_fast.Base.Int.{ℤ, pos, negsuc, ◌≤ℤ◌, pos_part, neg_part}
use aeron_fast.Common.{Config, codes, error_success, error_invalid_param}
use aeron_fast.Config.Number.{atoi, to_u64, atoll, to_int32}
use aeron_fast.Config.Getopt.{Opt, Scan, getopt_long, scan_argument, Grammar}
use aeron_fast.Config.Settings.{set_default_config, load_config_from_env, validate_config}
use aeron_fast.Config.Parse.{parse_publisher_args, parse_subscriber_args, publisher_grammar}

-- The configuration that no option has changed.
abbrev pub defaults : Option (List ℕ) → Config → Option Config
defaults env memory = load_config_from_env env (set_default_config (some memory))

-- A text that `getopt_long` takes for an operand.
abbrev pub IsOperand : List ℕ → Type 0
IsOperand [] = Unit {0}
IsOperand (c ∷ s) = c ≢ b'-'

-- The spellings of the publisher's endpoint option that `getopt_long` knows.
abbrev pub publisher_endpoint_flags : List (List ℕ)
publisher_endpoint_flags =
    codes "-b"
    ∷ codes "-l"
    ∷ codes "-e"
    ∷ codes "-i"
    ∷ codes "--bind"
    ∷ codes "--listen"
    ∷ codes "--endpoint"
    ∷ codes "--ip"
    ∷ []

-- `config` with the endpoint that the option parser stores for `ip`.
abbrev pub with_endpoint : List ℕ → Option Config → Option Config
with_endpoint ip none = none
with_endpoint ip (some config) = some (record config { custom_endpoint = take 63 ip })

-- Each spelling, before any text at all, stores the first 63 bytes of the text as the endpoint and
-- changes nothing else.
pub publisher_endpoint :
    (env : Option (List ℕ)) (memory : Config) (ip : List ℕ)
    → All
        (λ flag.
          parse_publisher_args env (flag ∷ ip ∷ []) (some memory)
          ≡ (error_success, with_endpoint ip (defaults env memory)))
        publisher_endpoint_flags
unfolding parse_publisher_args getopt_long set_default_config load_config_from_env validate_config
publisher_endpoint none memory ip =
    (refl, (refl, (refl, (refl, (refl, (refl, (refl, (refl, tt))))))))
publisher_endpoint (some dir) memory ip =
    (refl, (refl, (refl, (refl, (refl, (refl, (refl, (refl, tt))))))))

-- The spellings of the subscriber's endpoint option that `getopt_long` knows.
abbrev pub subscriber_endpoint_flags : List (List ℕ)
subscriber_endpoint_flags =
    codes "-o"
    ∷ codes "-e"
    ∷ codes "-i"
    ∷ codes "--connect"
    ∷ codes "--endpoint"
    ∷ codes "--ip"
    ∷ []

-- The subscriber's spellings likewise.
pub subscriber_endpoint :
    (env : Option (List ℕ)) (memory : Config) (ip : List ℕ)
    → All
        (λ flag.
          parse_subscriber_args env (flag ∷ ip ∷ []) (some memory)
          ≡ (error_success, with_endpoint ip (defaults env memory)))
        subscriber_endpoint_flags
unfolding parse_subscriber_args getopt_long set_default_config load_config_from_env validate_config
subscriber_endpoint none memory ip = (refl, (refl, (refl, (refl, (refl, (refl, tt))))))
subscriber_endpoint (some dir) memory ip = (refl, (refl, (refl, (refl, (refl, (refl, tt))))))

scan_argument-IsOperand :
    (g : Grammar) (s : List ℕ) → IsOperand s → scan_argument g s ≡ Scan.complete []
unfolding scan_argument
scan_argument-IsOperand g [] h = refl
scan_argument-IsOperand g (a ∷ []) h = refl
scan_argument-IsOperand g (a ∷ b ∷ s) h = ground arith

getopt_long-IsOperand : (g : Grammar) (s : List ℕ) → IsOperand s → getopt_long g (s ∷ []) ≡ []
unfolding getopt_long
getopt_long-IsOperand g s h = rw (scan_argument-IsOperand g s h, getopt_long)

-- `-bind` is `-b` with an attached argument.
getopt_long-bind :
    (ip : List ℕ)
    → IsOperand ip
    → getopt_long publisher_grammar (codes "-bind" ∷ ip ∷ []) ≡ Opt.option b'b' (codes "ind") ∷ []
getopt_long-bind ip h =
    let split : getopt_long publisher_grammar (codes "-bind" ∷ ip ∷ [])
        ≡ Opt.option b'b' (codes "ind") ∷ getopt_long publisher_grammar (ip ∷ []) =
      unfold getopt_long in refl in
    split
    ∙ ap (λ os. Opt.option b'b' (codes "ind") ∷ os) (getopt_long-IsOperand publisher_grammar ip h)

-- The usage text and the README write the option with one dash: `-bind ip`. `getopt_long` reads
-- that as `-b` with the argument `ind`, so that the endpoint is `ind` and the address is passed
-- over, for every address that does not begin with a dash.
pub publisher_single_dash :
    (env : Option (List ℕ)) (memory : Config) (ip : List ℕ)
    → IsOperand ip
    → parse_publisher_args env (codes "-bind" ∷ ip ∷ []) (some memory)
      ≡ (error_success, with_endpoint (codes "ind") (defaults env memory))
unfolding parse_publisher_args set_default_config load_config_from_env validate_config
publisher_single_dash none memory ip h = rw (getopt_long-bind ip h)
publisher_single_dash (some dir) memory ip h = rw (getopt_long-bind ip h)

to_int32_range : (z : ℤ) → (pos_part (to_int32 z) < 2 ^ 31) × (neg_part (to_int32 z) ≤ 2 ^ 31)
to_int32_range z = ground arith

atoi_range : (s : List ℕ) → (pos_part (atoi s) < 2 ^ 31) × (neg_part (atoi s) ≤ 2 ^ 31)
unfolding atoi
atoi_range s = to_int32_range (atoll s)

-- `config` with another message size.
abbrev pub with_size : ℕ → Option Config → Option Config
with_size n none = none
with_size n (some config) = some (record config { message_size = n })

size_option_code :
    (env : Option (List ℕ)) (memory : Config) (text : List ℕ)
    → parse_publisher_args env (codes "-s" ∷ text ∷ []) (some memory) ≡ (
      if ltb (to_u64 (atoi text)) 8 then error_invalid_param else error_success,
      with_size (to_u64 (atoi text)) (defaults env memory),
    )
unfolding parse_publisher_args getopt_long set_default_config load_config_from_env validate_config
size_option_code none memory text = refl
size_option_code (some dir) memory text = refl

size_accepted :
    (v : ℤ)
    → pos_part v < 2 ^ 31
    → neg_part v ≤ 2 ^ 31
    → ((if ltb (to_u64 v) 8 then error_invalid_param else error_success) ≡ error_success)
      ↔ ((pos 8 ≤ℤ v) ⊎ (v ≤ℤ negsuc 0))
size_accepted (pos n) p q = ground arith
size_accepted (negsuc n) p q = ground arith

-- `-s text` stores the number that `atoi` makes of the text, modulo 2 ^ 64. It is accepted exactly
-- when that number is 8 or more, or is negative: the test for at least 8 bytes lets every negative
-- size through, as a size near 2 ^ 64.
pub size_option_lem :
    (env : Option (List ℕ)) (memory : Config) (text : List ℕ)
    → (result : ℤ) × (parse_publisher_args env (codes "-s" ∷ text ∷ []) (some memory)
        ≡ (result, with_size (to_u64 (atoi text)) (defaults env memory)))
      × ((result ≡ error_success) ↔ ((pos 8 ≤ℤ atoi text) ⊎ (atoi text ≤ℤ negsuc 0)))
size_option_lem env memory text = (
  _,
  size_option_code env memory text,
  size_accepted (atoi text) (atoi_range text).0 (atoi_range text).1,
)
