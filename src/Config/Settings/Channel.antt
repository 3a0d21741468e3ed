-- ===== src/Config/Settings/Channel.antt =====
-- The channel string.

use mathlib.Core.List.{append_cancel_right}
use aeron_fast.Base.{
  ℕ, Bool-cases, inl, inr, ◌-◌, ◌↔◌, drop, false, Bool, if◌then◌else◌, take_all, ◌≤◌, ◌≡◌, refl, ap,
  some, true, List, [], ◌∷◌, arith, length, length-append, ◌≢◌, sym, get_or,
}
use aeron_fast.Common.{Config, codes, TransportType, udp, ipc, network_udp}
use aeron_fast.Config.Settings.{channel_text, is_empty, get_effective_channel, endpoint_channel}

-- The length of a channel text is at most that of the longest endpoint and 25 bytes more.
length-channel_text :
    (t : TransportType) (endpoint : List ℕ)
    → length endpoint ≤ 63
    → length (channel_text t endpoint) ≤ 88
unfolding channel_text
length-channel_text udp [] h = omega arith
length-channel_text udp (c ∷ s) h = omega (arith, length-append (c ∷ s) (codes ":20121"))
length-channel_text ipc s h = omega arith
length-channel_text network_udp [] h = omega arith
length-channel_text network_udp (c ∷ s) h = omega (arith, length-append (c ∷ s) (codes ":20121"))

-- With an endpoint that fits its array of 64 bytes, no channel is cut off by a buffer of 89 bytes
-- or more; both programs give 512.
pub get_effective_channel_whole :
    (config : Config) (size : ℕ)
    → length config.custom_endpoint ≤ 63
    → 89 ≤ size
    → get_effective_channel (some config) true size
      ≡ some (channel_text config.transport_type config.custom_endpoint)
unfolding get_effective_channel
get_effective_channel_whole config size h fits =
    let whole =
      take_all (size - 1) (channel_text config.transport_type config.custom_endpoint)
        (omega (arith, length-channel_text config.transport_type config.custom_endpoint h)) in
    ground (arith, whole)

-- The host that a configuration names.
abbrev pub host : List ℕ → List ℕ
host endpoint = if is_empty endpoint then codes "localhost" else endpoint

abbrev pub is_ipc : TransportType → Bool
is_ipc udp = false
is_ipc ipc = true
is_ipc network_udp = false

endpoint_channel_injective : (a b : List ℕ) → endpoint_channel a ≡ endpoint_channel b → a ≡ b
endpoint_channel_injective a b e = append_cancel_right a b (codes ":20121") (ap (drop 19) e)

channel_text-ipc :
    (t : TransportType) (a : List ℕ)
    → is_ipc t ≡ true
    → channel_text t a ≡ codes "aeron:ipc?term-length=1048576"
unfolding channel_text
channel_text-ipc udp a h = cc
channel_text-ipc ipc a h = refl
channel_text-ipc network_udp a h = cc

channel_text-host :
    (t : TransportType) (a : List ℕ)
    → is_ipc t ≡ false
    → channel_text t a ≡ endpoint_channel (host a)
unfolding channel_text
channel_text-host udp [] h = refl
channel_text-host udp (c ∷ s) h = refl
channel_text-host ipc a h = cc
channel_text-host network_udp [] h = refl
channel_text-host network_udp (c ∷ s) h = refl

-- The seventh byte tells them apart.
ipc_not_endpoint : (s : List ℕ) → codes "aeron:ipc?term-length=1048576" ≢ endpoint_channel s
ipc_not_endpoint s e =
    let apart : ◌≡◌ {A = ℕ} 105 117 = ap (λ (t : List ℕ). get_or t 6 0) e in omega arith

-- Two configurations have the same channel exactly when both use IPC, or neither does and both name
-- the same host; UDP and NETWORK_UDP are not told apart.
pub channel_text-eq_iff :
    (t u : TransportType) (a b : List ℕ)
    → (channel_text t a ≡ channel_text u b)
      ↔ ((is_ipc t ≡ is_ipc u) × (is_ipc t ≡ false → host a ≡ host b))
channel_text-eq_iff t u a b = elim (Bool-cases (is_ipc t)) [
  | inl p ↦ elim (Bool-cases (is_ipc u)) [
    | inl q ↦
        rw (channel_text-ipc t a p, channel_text-ipc u b q, p, q)
          ((λ e. (refl, λ f. cc), λ e. refl))
    | inr q ↦
        rw (channel_text-ipc t a p, channel_text-host u b q, p, q)
          ((λ e. absurd (ipc_not_endpoint _ e), λ e. cc (e.0)))
  ]
  | inr p ↦ elim (Bool-cases (is_ipc u)) [
    | inl q ↦
        rw (channel_text-host t a p, channel_text-ipc u b q, p, q)
          ((λ e. absurd (ipc_not_endpoint _ (sym e)), λ e. cc (e.0)))
    | inr q ↦
        rw (channel_text-host t a p, channel_text-host u b q, p, q)
          ((
            λ e. (refl, λ _. endpoint_channel_injective (host a) (host b) e),
            λ e. ap endpoint_channel (e.1 refl),
          ))
  ]
]
