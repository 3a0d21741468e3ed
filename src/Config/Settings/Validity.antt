-- ===== src/Config/Settings/Validity.antt =====
-- What `validate_config` accepts.
use aeron_fast.Base.{◌≡◌, ◌≢◌, ◌≤◌, ◌↔◌, ◌⊎◌, some, [], arith}
use aeron_fast.Common.{Config, network_udp, error_success, error_invalid_param}
use aeron_fast.Config.Settings.{validate_config}

-- Room for the timestamp, something to send and to receive, and a named peer for NETWORK_UDP.
pub record IsValid (config : Config) : Type 0 where
  pub size : 8 ≤ config.message_size
  pub count : 1 ≤ config.message_count
  pub target : 1 ≤ config.target_message_count
  pub endpoint : config.transport_type ≡ network_udp → config.custom_endpoint ≢ []

-- `validate_config` succeeds on exactly the valid configurations, and has one error for all others.
pub validate_config_iff :
    (config : Config)
    → ((validate_config (some config) ≡ error_success) ↔ IsValid config)
      × ((validate_config (some config) ≡ error_success)
          ⊎ (validate_config (some config) ≡ error_invalid_param))
unfolding validate_config
validate_config_iff config = ground arith
