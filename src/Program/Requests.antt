-- ===== src/Program/Requests.antt =====
-- What `main` of each program asks of the Aeron client, by the parameters that
-- c-performance/aeron-lib/include/aeron/aeronc.h documents.
use mathlib.Core.Option.{some-injective}
use aeron_fast.Base.{
  ℕ, ◌≤◌, ◌≡◌, ◌↔◌, sym, ap, ◌∙◌, Bool, true, false, Option, some, List, arith, length,
}
use aeron_fast.Common.{Config, error_success}
use aeron_fast.Config.Parse.{parse_publisher_args, parse_subscriber_args}
use aeron_fast.Config.Parse.Valid.Accepted.{dir_of, IsPublisher-accepts, IsSubscriber-accepts}
use aeron_fast.Config.Settings.{get_effective_channel, channel_text}
use aeron_fast.Config.Settings.Channel.{
  is_ipc, host, channel_text-eq_iff, get_effective_channel_whole,
}

-- `aeron_context_set_dir`
pub record SetDir : Type 0 where
  pub value : List ℕ

-- `aeron_async_add_publication`. A null pointer is `none`.
pub record AddPublication : Type 0 where
  pub uri : Option (List ℕ)
  pub stream_id : ℕ

-- `aeron_async_add_subscription`; of a handler for images, and of what is passed to it, whether it
-- is there.
pub record AddSubscription : Type 0 where
  pub uri : Option (List ℕ)
  pub stream_id : ℕ
  pub on_available_image_handler : Bool
  pub on_available_image_clientd : Bool
  pub on_unavailable_image_handler : Bool
  pub on_unavailable_image_clientd : Bool

pub set_dir : Config → SetDir
set_dir config = record { value = config.aeron_dir }

-- `channel_buffer` has 512 bytes.
pub add_publication : Config → AddPublication
add_publication config = record {
  uri = get_effective_channel (some config) true 512;
  stream_id = config.stream_id;
}

pub add_subscription : Config → AddSubscription
add_subscription config = record {
  uri = get_effective_channel (some config) true 512;
  stream_id = config.stream_id;
  on_available_image_handler = false;
  on_available_image_clientd = false;
  on_unavailable_image_handler = false;
  on_unavailable_image_clientd = false;
}

some_eq_iff {ℓ} : {A : Type ℓ} (a b : A) → (some a ≡ some b) ↔ (a ≡ b)
some_eq_iff a b = (some-injective a b, ap some)

-- Two configurations whose endpoints fit their arrays have channels that are not cut off, and they
-- are the same exactly if both use IPC, or neither does and both name the same host.
channels_meet :
    (p s : Config)
    → length p.custom_endpoint ≤ 63
    → length s.custom_endpoint ≤ 63
    → (get_effective_channel (some p) true 512 ≡ get_effective_channel (some s) true 512) ↔ (
        (is_ipc p.transport_type ≡ is_ipc s.transport_type)
        × (is_ipc p.transport_type ≡ false → host p.custom_endpoint ≡ host s.custom_endpoint))
channels_meet p s fits fits' =
    let whole = get_effective_channel_whole p 512 fits (omega arith) in
    let whole' = get_effective_channel_whole s 512 fits' (omega arith) in
    let texts =
      channel_text-eq_iff p.transport_type s.transport_type p.custom_endpoint s.custom_endpoint in
    let strings =
      some_eq_iff (channel_text p.transport_type p.custom_endpoint)
        (channel_text s.transport_type s.custom_endpoint) in
    (
      (λ e. texts.0 (strings.0 (sym whole ∙ e ∙ whole'))),
      (λ h. whole ∙ strings.1 (texts.1 h) ∙ sym whole'),
    )

-- Whatever the command lines, the directories in the environment and the memory behind the pointers
-- are, if both parsers succeed: both programs ask for the same stream; they ask for the same
-- channel exactly if both use IPC, or neither does and both name the same host, an empty one being
-- localhost; and each client gets the first 255 bytes of the value of AERON_DIR, or the default.
pub programs_meet :
    (env env' : Option (List ℕ)) (args args' : List (List ℕ)) (memory memory' p s : Config)
    → parse_publisher_args env args (some memory) ≡ (error_success, some p)
    → parse_subscriber_args env' args' (some memory') ≡ (error_success, some s)
    → ((add_publication p).stream_id ≡ (add_subscription s).stream_id)
      × (((add_publication p).uri ≡ (add_subscription s).uri) ↔ (
          (is_ipc p.transport_type ≡ is_ipc s.transport_type)
          × (is_ipc p.transport_type ≡ false → host p.custom_endpoint ≡ host s.custom_endpoint)))
      × ((set_dir p).value ≡ dir_of env)
      × ((set_dir s).value ≡ dir_of env')
unfolding set_dir add_publication add_subscription
programs_meet env env' args args' memory memory' p s parsed parsed' =
    let (bounded, dir) = IsPublisher-accepts env args memory p parsed in
    let (bounded', dir') = IsSubscriber-accepts env' args' memory' s parsed' in
    (
      bounded.0.stream_id ∙ sym bounded'.0.stream_id,
      channels_meet p s bounded.0.endpoint bounded'.0.endpoint,
      dir,
      dir',
    )
