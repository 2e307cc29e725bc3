-- ===== src/Config.antt =====
-- src/config.rs: the configuration record, the reliability posture and service names.
mod Tests
use zenoh_bridge_tcp.Prelude.{
  ℕ, ◌≡◌, refl, Bool, true, false, ◌||◌, [], ◌∷◌, ◌*◌, arith, ◌==◌, if◌then◌else◌, Result, ok, err,
  all, map, Option, some, none, not, ◌≢◌, ◌↔◌,
}
use zenoh_bridge_tcp.Text.{Text, codes, text_eq, is_ascii_alphanumeric, ascii_lower, has}

-- What the data plane does when it cannot keep every byte.
pub data ReliabilityMode : Type 0 where
  stream telemetry : ReliabilityMode

-- `ReliabilityMode::from_str`: the case of ASCII letters does not count.
unfoldable pub parse_reliability : Text → Option ReliabilityMode
parse_reliability s =
    let low = map ascii_lower s in
    if text_eq low (codes "stream")
    then some stream
    else if text_eq low (codes "telemetry")
    then some telemetry
    else none

-- Sizes in bytes or samples, times in milliseconds.
pub record BridgeConfig : Type 0 where
  pub buffer_size : ℕ
  pub reliability : ReliabilityMode
  pub max_connections : ℕ
  pub cache_size : ℕ
  pub max_header_size : ℕ
  pub read_timeout : ℕ
  pub heartbeat_interval : ℕ
  pub availability_timeout : ℕ
  pub drain_timeout : ℕ
  pub max_response_size : ℕ
  pub response_idle_timeout : ℕ
  pub connect_timeout : ℕ
  pub rx_channel_capacity : ℕ

-- `BridgeConfig::default`.
abbrev pub default_config : BridgeConfig
default_config = record {
  buffer_size = 65536;
  reliability = stream;
  max_connections = 1024;
  cache_size = 256;
  max_header_size = 16 * 1024;
  read_timeout = 10000;
  heartbeat_interval = 500;
  availability_timeout = 1000;
  drain_timeout = 5000;
  max_response_size = 10 * 1024 * 1024;
  response_idle_timeout = 30000;
  connect_timeout = 10000;
  rx_channel_capacity = 256;
}

-- `BridgeConfig::new`: the two timeouts are given in seconds.
unfoldable pub new_config : ℕ → ℕ → ℕ → BridgeConfig
new_config buffer_size read_timeout_secs drain_timeout_secs = record default_config {
  buffer_size = buffer_size;
  read_timeout = read_timeout_secs * 1000;
  drain_timeout = drain_timeout_secs * 1000;
}

pub data NameError : Type 0 where
  empty_name : NameError
  invalid_char : ℕ → NameError

abbrev pub is_name_char : ℕ → Bool
is_name_char c = is_ascii_alphanumeric c || (c == b'-' || (c == b'_' || c == b'.'))

-- The loop over the characters.
pub check_chars : Text → Result NameError (Unit {0})
check_chars [] = ok tt
check_chars (c ∷ cs) =
    let rest = check_chars cs in if not (is_name_char c) then err (invalid_char c) else rest

unfoldable pub validate_service_name : Text → Result NameError (Unit {0})
unfolding check_chars
validate_service_name [] = err empty_name
validate_service_name (c ∷ cs) = check_chars (c ∷ cs)

-- A literal, non-empty key segment.
abbrev pub IsServiceName : Text → Type 0
IsServiceName s = (s ≢ []) × (all is_name_char s ≡ true)

check_chars_sound : (s : Text) → check_chars s ≡ ok tt → all is_name_char s ≡ true
unfolding check_chars
check_chars_sound [] h = refl
check_chars_sound (c ∷ cs) h = ground (arith, check_chars_sound cs)

check_chars_complete : (s : Text) → all is_name_char s ≡ true → check_chars s ≡ ok tt
unfolding check_chars
check_chars_complete [] h = refl
check_chars_complete (c ∷ cs) h = ground (arith, check_chars_complete cs)

-- A service name is accepted exactly when it is not empty and each of its characters is an ASCII
-- letter, a digit, `-`, `_` or `.`.
pub validate_service_name_iff : (s : Text) → (validate_service_name s ≡ ok tt) ↔ IsServiceName s
unfolding validate_service_name
validate_service_name_iff [] = (λ h. cc, λ h. absurd (h.0 refl))
validate_service_name_iff (c ∷ cs) =
    (λ h. ((λ e. cc), check_chars_sound (c ∷ cs) h), λ h. check_chars_complete (c ∷ cs) h.1)

-- No wildcard and no separator gets into a key through a service name.
pub has-IsServiceName :
    (s : Text) (c : ℕ) → all is_name_char s ≡ true → is_name_char c ≡ false → has c s ≡ false
has-IsServiceName [] c h n = refl
has-IsServiceName (x ∷ s) c h n = ground (arith, has-IsServiceName s c)
