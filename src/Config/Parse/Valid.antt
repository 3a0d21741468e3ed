-- ===== src/Config/Parse/Valid.antt =====
-- What holds of a configuration that a command line was parsed into.
pub mod Accepted
use aeron_fast.Config.Settings.Validity.{IsValid, validate_config_iff}
use aeron_fast.Base.{
  ◌≤◌, ◌<◌, ◌^◌, ◌≡◌, arith, length, length-take_le, IsU64, some, ◌⊎◌, Option, inl, List, inr, ◌∷◌,
  ℕ, refl, [], none, take,
}
use aeron_fast.Base.Int.{ℤ, pos, negsuc}
use aeron_fast.Common.{
  Config, default_channel, default_stream_id, default_message_size, default_message_count,
  default_target_message_count, default_fragment_limit, error_success, error_invalid_param, codes,
}
use aeron_fast.Config.Number.{atoi, atoll, to_u64}
use aeron_fast.Config.Getopt.{Opt, getopt_long}
use aeron_fast.Config.Parse.{
  next, publisher_case, subscriber_case, Case, parse_publisher_args, leave, parse_loop, help_shown,
  parse_subscriber_args, publisher_grammar, subscriber_grammar,
}
use aeron_fast.Config.Settings.{validate_config, set_default_config, load_config_from_env}

-- Every field fits its C type, and what no option sets is as the defaults have it.
pub record IsBounded (config : Config) : Type 0 where
  pub channel : config.channel ≡ default_channel
  pub endpoint : length config.custom_endpoint ≤ 63
  pub aeron_dir : length config.aeron_dir ≤ 255
  pub stream_id : config.stream_id ≡ default_stream_id
  pub fragment_limit : config.fragment_limit ≡ default_fragment_limit
  pub size : IsU64 config.message_size
  pub count : IsU64 config.message_count
  pub target : IsU64 config.target_message_count

-- A publisher leaves the subscriber's target alone, a subscriber the size and the number to send.
abbrev pub IsPublisher : Config → Type 0
IsPublisher config = IsBounded config × (config.target_message_count ≡ default_target_message_count)

abbrev pub IsSubscriber : Config → Type 0
IsSubscriber config =
    IsBounded config
    × (config.message_size ≡ default_message_size)
    × (config.message_count ≡ default_message_count)

to_u64-lt : (z : ℤ) → to_u64 z < 2 ^ 64
to_u64-lt (pos n) = omega arith
to_u64-lt (negsuc n) = omega arith

publisher_case-IsPublisher :
    (o : Opt) (config config' : Config)
    → IsPublisher config
    → publisher_case o config ≡ next config'
    → IsPublisher config'
unfolding publisher_case
publisher_case-IsPublisher (Opt.option letter optarg) config h e =
    ground (arith, to_u64-lt (atoi optarg), to_u64-lt (atoll optarg), length-take_le 63 optarg)
publisher_case-IsPublisher (Opt.flag letter) config h e = ground arith
publisher_case-IsPublisher Opt.unknown config h e = cc

subscriber_case-IsSubscriber :
    (o : Opt) (config config' : Config)
    → IsSubscriber config
    → subscriber_case o config ≡ next config'
    → IsSubscriber config'
unfolding subscriber_case
subscriber_case-IsSubscriber (Opt.option letter optarg) config h e =
    ground (arith, to_u64-lt (atoll optarg), length-take_le 63 optarg)
subscriber_case-IsSubscriber (Opt.flag letter) config h e = ground arith
subscriber_case-IsSubscriber Opt.unknown config h e = cc

-- A parser's result: success with a valid configuration that satisfies `P`, or one of two codes.
pub data Outcome (P : Config → Type 0) : ℤ → Config → Type 0 where
  parsed :
      {result : ℤ} {config : Config}
      → result ≡ error_success
      → P config
      → IsValid config
      → Outcome P result config
  shown : {result : ℤ} {config : Config} → result ≡ help_shown → Outcome P result config
  refused : {result : ℤ} {config : Config} → result ≡ error_invalid_param → Outcome P result config

-- A `return` of a `switch` is one of the two codes.
abbrev LeavesWell : (Opt → Config → Case) → Type 0
LeavesWell switch =
    (o : Opt) (config : Config) (result : ℤ)
    → switch o config ≡ leave result
    → (result ≡ help_shown) ⊎ (result ≡ error_invalid_param)

publisher_case-LeavesWell : LeavesWell publisher_case
unfolding publisher_case
publisher_case-LeavesWell (Opt.option letter optarg) config result e = ground arith
publisher_case-LeavesWell (Opt.flag letter) config result e = ground arith
publisher_case-LeavesWell Opt.unknown config result e = ground arith

subscriber_case-LeavesWell : LeavesWell subscriber_case
unfolding subscriber_case
subscriber_case-LeavesWell (Opt.option letter optarg) config result e = ground arith
subscriber_case-LeavesWell (Opt.flag letter) config result e = ground arith
subscriber_case-LeavesWell Opt.unknown config result e = ground arith

validated :
    (P : Config → Type 0) (config : Config)
    → P config
    → Outcome P (validate_config (some config)) config
validated P config h =
    let v = validate_config_iff config in
    elim (v.1) [ inl ok ↦ parsed ok h (v.0.0 ok) | inr bad ↦ refused bad ]

Case-cases :
    (c : Case) → ((config : Config) × (c ≡ next config)) ⊎ ((result : ℤ) × (c ≡ leave result))
Case-cases (next config) = inl (config, refl)
Case-cases (leave result) = inr (result, refl)

module _ (P : Config → Type 0) (switch : Opt → Config → Case)
    (keeps : (o : Opt) (c c' : Config) → P c → switch o c ≡ next c' → P c')
    (leaves : LeavesWell switch) where
  parse_loop-Outcome :
      (os : List Opt) (config : Config)
      → P config
      → let r = parse_loop switch os config in Outcome P (r.0) (r.1)
  unfolding parse_loop
  parse_loop-Outcome [] config h = validated P config h
  parse_loop-Outcome (o ∷ os) config h = elim (Case-cases (switch o config)) [
    | inl (config', e) ↦
        rw (e, parse_loop) (parse_loop-Outcome os config' (keeps o config config' h e))
    | inr (result, e) ↦ elim (leaves o config result e) [
      | inl help ↦ rw (e, parse_loop) (shown help)
      | inr bad ↦ rw (e, parse_loop) (refused bad)
    ]
  ]

-- The defaults with any directory that fits its array.
default_config-IsBounded :
    (memory : Config) (dir : List ℕ)
    → length dir ≤ 255
    → (config : Config) × (set_default_config (some memory) ≡ some config)
      × IsBounded (record config { aeron_dir = dir })
      × (config.target_message_count ≡ default_target_message_count)
      × (config.message_size ≡ default_message_size)
      × (config.message_count ≡ default_message_count)
unfolding set_default_config
default_config-IsBounded memory dir h = (
  _,
  refl,
  record {
    channel = refl;
    endpoint = omega arith;
    aeron_dir = h;
    stream_id = refl;
    fragment_limit = refl;
    size = omega arith;
    count = omega arith;
    target = omega arith;
  },
  refl,
  refl,
  refl,
)

-- What the option loop starts from.
abbrev start : Option (List ℕ) → Config → Option Config
start env memory = load_config_from_env env (set_default_config (some memory))

start-IsBounded :
    (env : Option (List ℕ)) (memory : Config)
    → (config : Config) × (start env memory ≡ some config)
      × IsPublisher config
      × IsSubscriber config
unfolding load_config_from_env
start-IsBounded none memory =
    let (c, e, b, t, m, n) =
      default_config-IsBounded memory (codes "/dev/shm/aeron") (omega arith) in
    (_, rw (e, load_config_from_env), (b, t), (b, m, n))
start-IsBounded (some dir) memory =
    let (c, e, b, t, m, n) =
      default_config-IsBounded memory (take 255 dir) (length-take_le 255 dir) in
    (_, rw (e, load_config_from_env), (b, t), (b, m, n))

-- Whatever the arguments, the environment and the memory behind the pointer are, the publisher's
-- parser returns one of three codes. Success comes with a configuration that `validate_config`
-- accepts, whose fields fit their types, and in which no field is changed that has no option.
pub parse_publisher_args-Outcome :
    (env : Option (List ℕ)) (args : List (List ℕ)) (memory : Config)
    → (result : ℤ) × (config : Config) × (parse_publisher_args env args (some memory)
        ≡ (result, some config))
      × Outcome IsPublisher result config
unfolding parse_publisher_args
parse_publisher_args-Outcome env args memory =
    let (config, e, p, s) = start-IsBounded env memory in
    (
      _,
      _,
      rw e refl,
      parse_loop-Outcome IsPublisher publisher_case publisher_case-IsPublisher
          publisher_case-LeavesWell (getopt_long publisher_grammar args) config p,
    )

-- The subscriber's parser likewise.
pub parse_subscriber_args-Outcome :
    (env : Option (List ℕ)) (args : List (List ℕ)) (memory : Config)
    → (result : ℤ) × (config : Config) × (parse_subscriber_args env args (some memory)
        ≡ (result, some config))
      × Outcome IsSubscriber result config
unfolding parse_subscriber_args
parse_subscriber_args-Outcome env args memory =
    let (config, e, p, s) = start-IsBounded env memory in
    (
      _,
      _,
      rw e refl,
      parse_loop-Outcome IsSubscriber subscriber_case subscriber_case-IsSubscriber
          subscriber_case-LeavesWell (getopt_long subscriber_grammar args) config s,
    )
