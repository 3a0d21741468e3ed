-- ===== src/Config/Parse/Valid/Accepted.antt =====
-- What holds of a configuration that a parser has accepted, the Aeron directory included.
use mathlib.Core.Path.{subst}
use mathlib.Core.Option.{some-injective}
use aeron_fast.Base.{ℕ, ◌≡◌, refl, sym, ap, ◌∙◌, Option, none, some, List, arith}
use aeron_fast.Base.Int.{ℤ}
use aeron_fast.Common.{Config, error_success, aeron_dir_capacity}
use aeron_fast.Config.Getopt.{Opt, getopt_long}
use aeron_fast.Config.Parse.{
  next, publisher_case, subscriber_case, parse_publisher_args, parse_subscriber_args,
  publisher_grammar, subscriber_grammar,
}
use aeron_fast.Config.Settings.{
  copy_string, default_aeron_dir, set_default_config, load_config_from_env,
}
use aeron_fast.Config.Parse.Valid.{
  Outcome, parsed, shown, refused, IsPublisher, IsSubscriber, parse_loop-Outcome,
  publisher_case-LeavesWell, subscriber_case-LeavesWell, start, parse_publisher_args-Outcome,
  parse_subscriber_args-Outcome,
}

-- The directory that a program takes, by the value of AERON_DIR.
abbrev pub dir_of : Option (List ℕ) → List ℕ
dir_of none = copy_string aeron_dir_capacity default_aeron_dir
dir_of (some dir) = copy_string aeron_dir_capacity dir

accepted :
    (P : Config → Type 0) {result : ℤ} {config : Config}
    → Outcome P result config
    → result ≡ error_success
    → P config
accepted P (parsed e p v) same = p
accepted P (shown e) same = absurd (ground (arith, e, same))
accepted P (refused e) same = absurd (ground (arith, e, same))

-- A pair of a code and a configuration, taken apart.
same_result : {r r' : ℤ × Option Config} → r ≡ r' → (r.0 ≡ r'.0) × (r.1 ≡ r'.1)
same_result e = (ap (λ (r : ℤ × Option Config). r.0) e, ap (λ (r : ℤ × Option Config). r.1) e)

accepted_result :
    (P : Config → Type 0) (outcome : ℤ × Option Config) (config : Config)
    → (result : ℤ) × (c : Config) × (outcome ≡ (result, some c)) × Outcome P result c
    → outcome ≡ (error_success, some config)
    → P config
accepted_result P outcome config (result, c, e, o) given =
    let (code, same) = same_result (sym e ∙ given) in
    subst P (some-injective _ _ same) (accepted P o code)

module _ (dir : List ℕ) where
  abbrev Keeps : Config → Type 0
  Keeps c = c.aeron_dir ≡ dir

  publisher_case-Keeps :
      (o : Opt) (c c' : Config) → Keeps c → publisher_case o c ≡ next c' → Keeps c'
  unfolding publisher_case
  publisher_case-Keeps (Opt.option letter optarg) c c' h e = ground arith
  publisher_case-Keeps (Opt.flag letter) c c' h e = ground arith
  publisher_case-Keeps Opt.unknown c c' h e = cc

  subscriber_case-Keeps :
      (o : Opt) (c c' : Config) → Keeps c → subscriber_case o c ≡ next c' → Keeps c'
  unfolding subscriber_case
  subscriber_case-Keeps (Opt.option letter optarg) c c' h e = ground arith
  subscriber_case-Keeps (Opt.flag letter) c c' h e = ground arith
  subscriber_case-Keeps Opt.unknown c c' h e = cc

start_dir :
    (env : Option (List ℕ)) (memory : Config)
    → (c : Config) × (start env memory ≡ some c) × (c.aeron_dir ≡ dir_of env)
unfolding load_config_from_env set_default_config
start_dir none memory = (_, refl, refl)
start_dir (some dir) memory = (_, refl, refl)

module _ (env : Option (List ℕ)) (args : List (List ℕ)) (memory config : Config) where
  -- A configuration that the publisher's parser accepts, and one that the subscriber's does: the
  -- fields fit their types, and the directory is the first 255 bytes of AERON_DIR or the default.
  pub IsPublisher-accepts :
      parse_publisher_args env args (some memory) ≡ (error_success, some config)
      → IsPublisher config × (config.aeron_dir ≡ dir_of env)
  unfolding parse_publisher_args
  IsPublisher-accepts e = (
    accepted_result IsPublisher (parse_publisher_args env args (some memory)) config
        (parse_publisher_args-Outcome env args memory) e,
    accepted_result (Keeps (dir_of env)) (parse_publisher_args env args (some memory)) config
        (let (c, made, same) = start_dir env memory in
          (
            _,
            _,
            rw made refl,
            parse_loop-Outcome (Keeps (dir_of env)) publisher_case
                (publisher_case-Keeps (dir_of env)) publisher_case-LeavesWell
                (getopt_long publisher_grammar args) c same,
          ))
        e,
  )

  pub IsSubscriber-accepts :
      parse_subscriber_args env args (some memory) ≡ (error_success, some config)
      → IsSubscriber config × (config.aeron_dir ≡ dir_of env)
  unfolding parse_subscriber_args
  IsSubscriber-accepts e = (
    accepted_result IsSubscriber (parse_subscriber_args env args (some memory)) config
        (parse_subscriber_args-Outcome env args memory) e,
    accepted_result (Keeps (dir_of env)) (parse_subscriber_args env args (some memory)) config
        (let (c, made, same) = start_dir env memory in
          (
            _,
            _,
            rw made refl,
            parse_loop-Outcome (Keeps (dir_of env)) subscriber_case
                (subscriber_case-Keeps (dir_of env)) subscriber_case-LeavesWell
                (getopt_long subscriber_grammar args) c same,
          ))
        e,
  )
