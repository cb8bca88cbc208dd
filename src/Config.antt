-- ===== src/Config.antt =====
-- crates/partly-proxy-lib/src/config.rs. Durations are numbers of nanoseconds, paths and addresses
-- are texts.

use partly_proxy.Base.{
  String, ℕ, ◌*◌, Bool, true, false, Option, none, some, [], ◌∷◌, ◌==◌, if◌then◌else◌, format,
  to_ascii_lowercase,
}
use partly_proxy.Types.Error.{Result, ok, err, command}

-- `Duration::from_secs`, `Duration::from_millis`
abbrev pub from_secs : ℕ → ℕ
from_secs n = n * 1_000_000_000

abbrev pub from_millis : ℕ → ℕ
from_millis n = n * 1_000_000

pub record UpstreamTlsConfig : Type 0 where
  pub accept_invalid_certs : Bool
  pub custom_ca_cert : Option String

pub record InboundTlsConfig : Type 0 where
  pub cert_path : String
  pub key_path : String

pub record UpstreamTarget : Type 0 where
  pub base_url : String
  pub host_header : Option String
  pub connect_timeout : ℕ
  pub request_timeout : ℕ
  pub tls : Option UpstreamTlsConfig

-- `UpstreamTarget::new`, with the fields of `default`.
unfoldable pub new_target : String → UpstreamTarget
new_target base_url = record {
  base_url = base_url;
  host_header = none;
  connect_timeout = from_secs 10;
  request_timeout = from_secs 30;
  tls = none;
}

unfoldable pub with_host_header : UpstreamTarget → String → UpstreamTarget
with_host_header t host = record t { host_header = some host }

unfoldable pub with_connect_timeout : UpstreamTarget → ℕ → UpstreamTarget
with_connect_timeout t d = record t { connect_timeout = d }

unfoldable pub with_request_timeout : UpstreamTarget → ℕ → UpstreamTarget
with_request_timeout t d = record t { request_timeout = d }

unfoldable pub with_tls : UpstreamTarget → UpstreamTlsConfig → UpstreamTarget
with_tls t cfg = record t { tls = some cfg }

pub record ProxyConfig : Type 0 where
  pub bind_addr : String
  pub upstream : UpstreamTarget
  pub inbound_tls : Option InboundTlsConfig

-- `ProxyConfig::http`
unfoldable pub http_config : String → UpstreamTarget → ProxyConfig
http_config addr target = record { bind_addr = addr; upstream = target; inbound_tls = none }

pub record RecordingConfig : Type 0 where
  pub enabled : Bool
  pub max_in_memory : ℕ

-- `RecordingConfig::default`, `disabled` and `in_memory`
abbrev pub default_recording : RecordingConfig
default_recording = record { enabled = true; max_in_memory = 10_000 }

abbrev pub disabled : RecordingConfig
disabled = record { enabled = false; max_in_memory = 10_000 }

unfoldable pub in_memory : ℕ → RecordingConfig
in_memory cap = record { enabled = true; max_in_memory = cap }

pub data Mode : Type 0 where
  record_mode replay_mode : Mode

-- `Mode::from_str`, with `Debug` of a text for the message.
unfoldable pub mode_from_str : (String → String) → String → Result Mode
unfolding format to_ascii_lowercase
mode_from_str debug s =
    let lower = to_ascii_lowercase s in
    if lower == "record"
    then ok record_mode
    else if lower == "replay"
    then ok replay_mode
    else err (
        command
          (format ("invalid proxy mode " ∷ debug s ∷ ": expected \"record\" or \"replay\"" ∷ [])))
