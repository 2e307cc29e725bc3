-- ===== src/Args.antt =====
-- src/args.rs: the command line behind clap, its validation, and the configuration that is made of
-- it. The socket addresses and the case map are the parameters of Spec and Dns.
pub mod Validated
mod Tests
use zenoh_bridge_tcp.Prelude.{
  ℕ, ◌≡◌, Bool, true, false, ◌&&◌, not, ◌||◌, List, [], ◌∷◌, Option, some, none, Result, ok, err,
  ◌>>=◌, ◌>>◌, guard, if◌then◌else◌, leb, ◌*◌,
}
use zenoh_bridge_tcp.Text.{Text, codes, text_eq}
use zenoh_bridge_tcp.Config.{ReliabilityMode, stream, parse_reliability, BridgeConfig, new_config}
use zenoh_bridge_tcp.Dns.{CaseMap}
use zenoh_bridge_tcp.Spec.{
  SocketText, SpecError, TlsMode, passthrough, terminate, ListenSpec, parse_listen, BackendSpec,
  parse_backend, map_err, unwrap_or,
}
use zenoh_bridge_tcp.Logging.{
  LogError, LogTarget, stdout, LogOptions, parse_log_target, parse_format, parse_color,
}

-- `Args`, with the times as they are given: seconds, and milliseconds where the flag says so.
pub record Args (net : SocketText) : Type 0 where
  pub listen : List Text
  pub backend : List Text
  pub zenoh_config : Option Text
  pub zenoh_mode : Text
  pub zenoh_connect : Option Text
  pub zenoh_listen : Option Text
  pub buffer_size : ℕ
  pub read_timeout : ℕ
  pub drain_timeout : ℕ
  pub reliability : Text
  pub max_connections : ℕ
  pub cache_size : ℕ
  pub max_header_size : ℕ
  pub heartbeat_interval_ms : ℕ
  pub availability_timeout_ms : ℕ
  pub max_response_size : ℕ
  pub rx_channel_capacity : ℕ
  pub metrics_addr : Option net.SocketAddr
  pub log_level : Text
  pub log_format : Text
  pub log_target : List Text
  pub log_color : Text

pub data ArgsError : Type 0 where
  bad_listen bad_backend : SpecError → ArgsError
  duplicate_scope : Text → Option Text → ArgsError
  no_specs no_tls_feature : ArgsError
  small_buffer_size no_read_timeout no_drain_timeout bad_reliability no_connections : ArgsError
  no_cache no_rx_channel small_header_size no_heartbeat no_availability : ArgsError
  small_response_size bad_log_level : ArgsError
  bad_log : LogError → ArgsError

-- `iter().map(parse).collect::<Result<Vec<_>, _>>()`: the first refusal ends it.
unfoldable pub parse_all {ℓ κ μ} :
    {A : Type ℓ} {B : Type κ} {E : Type μ} → (A → Result E B) → List A → Result E (List B)
parse_all parse [] = ok []
parse_all parse (x ∷ xs) = do y ← parse x; ys ← parse_all parse xs; ok (y ∷ ys)

abbrev pub same_host : Option Text → Option Text → Bool
same_host none none = true
same_host (some a) (some b) = text_eq a b
same_host _ _ = false

abbrev pub same_scope : Text × Option Text → Text × Option Text → Bool
same_scope (s, h) (s', h') = text_eq s s' && same_host h h'

-- The set of scopes, as the list of what was inserted.
abbrev pub seen_scope : Text × Option Text → List (Text × Option Text) → Bool
seen_scope x [] = false
seen_scope x (y ∷ ys) = same_scope x y || seen_scope x ys

abbrev pub is_nil {ℓ} : {A : Type ℓ} → List A → Bool
is_nil [] = true
is_nil (_ ∷ _) = false

abbrev pub asks_terminate : TlsMode → Bool
asks_terminate passthrough = false
asks_terminate (terminate _ _) = true

abbrev pub is_level : Text → Bool
is_level s =
    text_eq s (codes "trace")
    || (text_eq s (codes "debug")
        || (text_eq s (codes "info")
            || (text_eq s (codes "warn")
                || (text_eq s (codes "error") || text_eq s (codes "off")))))

abbrev pub is_reliability : Text → Bool
is_reliability s = elim (parse_reliability s) [ none ↦ false | some _ ↦ true ]

unfoldable pub sinks : List Text → Result LogError (List LogTarget)
sinks [] = ok (stdout ∷ [])
sinks (t ∷ ts) = parse_all parse_log_target (t ∷ ts)

module _ (net : SocketText) where
  -- `Args::listen_specs`.
  unfoldable pub listen_specs : Args net → Result SpecError (List (ListenSpec net))
  listen_specs a = parse_all (parse_listen net) a.listen

  abbrev pub scope_of : BackendSpec net → Text × Option Text
  scope_of b = (b.service, b.host)

  -- The loop over the scopes of the backends.
  unfoldable pub check_scopes :
      List (Text × Option Text) → List (BackendSpec net) → Result ArgsError (Unit {0})
  check_scopes seen [] = ok tt
  check_scopes seen (b ∷ bs) = do
    guard (not (seen_scope (scope_of b) seen)) (duplicate_scope b.service b.host)
    check_scopes (scope_of b ∷ seen) bs

  -- The loop of a build without TLS termination.
  unfoldable pub check_tls : Bool → List (ListenSpec net) → Result ArgsError (Unit {0})
  check_tls true ls = ok tt
  check_tls false [] = ok tt
  check_tls false (l ∷ ls) = do
    guard (not (asks_terminate l.tls)) no_tls_feature
    check_tls false ls

  -- The bounds of the numeric flags, in the order of the tests.
  unfoldable pub check_bounds : Args net → Result ArgsError (Unit {0})
  check_bounds a = do
    guard (leb 1024 a.buffer_size) small_buffer_size
    guard (leb 1 a.read_timeout) no_read_timeout
    guard (leb 1 a.drain_timeout) no_drain_timeout
    guard (is_reliability a.reliability) bad_reliability
    guard (leb 1 a.max_connections) no_connections
    guard (leb 1 a.cache_size) no_cache
    guard (leb 1 a.rx_channel_capacity) no_rx_channel
    guard (leb 1024 a.max_header_size) small_header_size
    guard (leb 1 a.heartbeat_interval_ms) no_heartbeat
    guard (leb 1 a.availability_timeout_ms) no_availability
    guard (leb a.max_header_size a.max_response_size) small_response_size

  -- `Args::log_options`.
  unfoldable pub log_options : Args net → Result LogError LogOptions
  log_options a = do
    targets ← sinks a.log_target
    format ← parse_format a.log_format
    color ← parse_color a.log_color
    ok (record { level = a.log_level; format = format; color = color; targets = targets })

  unfoldable pub check_log : Args net → Result ArgsError (Unit {0})
  check_log a = do _ ← map_err bad_log (log_options a); guard (is_level a.log_level) bad_log_level

  -- `Args::bridge_config`.
  unfoldable pub bridge_config : Args net → BridgeConfig
  unfolding new_config
  bridge_config a = record (new_config a.buffer_size a.read_timeout a.drain_timeout) {
    reliability = unwrap_or (parse_reliability a.reliability) stream;
    max_connections = a.max_connections;
    cache_size = a.cache_size;
    max_header_size = a.max_header_size;
    heartbeat_interval = a.heartbeat_interval_ms;
    availability_timeout = a.availability_timeout_ms;
    max_response_size = a.max_response_size;
    rx_channel_capacity = a.rx_channel_capacity;
  }

module _ (net : SocketText) (cm : CaseMap) where
  -- `Args::backend_specs`.
  unfoldable pub backend_specs : Args net → Result SpecError (List (BackendSpec net))
  backend_specs a = parse_all (parse_backend net cm) a.backend

  -- `Args::validate`, in a build with or without TLS termination.
  unfoldable pub validate : Bool → Args net → Result ArgsError (Unit {0})
  validate tls_termination a = do
    listens ← map_err bad_listen (listen_specs net a)
    backends ← map_err bad_backend (backend_specs a)
    check_scopes net [] backends
    guard (not (is_nil a.listen && is_nil a.backend)) no_specs
    check_tls net tls_termination listens
    check_bounds net a
    check_log net a
