-- ===== src/Spec.antt =====
-- src/spec.rs: the grammar of `--listen` and `--backend`. Socket addresses are read and written by
-- the standard library; they are a parameter, `SocketText`.
pub mod Fits
pub mod Listen
pub mod Backend
pub mod Tests
use zenoh_bridge_tcp.Prelude.{
  ◌≡◌, Bool, true, false, ◌&&◌, not, ◌||◌, List, [], ◌∷◌, ◌++◌, Option, some, none, Result, ok, err,
  ◌>>=◌, ◌>>◌, guard, ok_or, if◌then◌else◌,
}
use zenoh_bridge_tcp.Text.{Text, codes, text_eq, has, is_empty, starts_with}
use zenoh_bridge_tcp.Text.Split.{split_once, split}
use zenoh_bridge_tcp.Config.{NameError, validate_service_name}
use zenoh_bridge_tcp.Dns.{CaseMap, HostError, spec_host_key}

-- `SocketAddr`: what is written is read back, and holds digits, dots, colons and brackets only.
pub record SocketText : Type 1 where
  pub SocketAddr : Type 0
  pub parse_addr : Text → Option SocketAddr
  pub show_addr : SocketAddr → Text
  pub parse-show : (a : SocketAddr) → parse_addr (show_addr a) ≡ some a
  pub show_no_comma : (a : SocketAddr) → has b',' (show_addr a) ≡ false
  pub show_no_slash : (a : SocketAddr) → has b'/' (show_addr a) ≡ false

pub data ProtoMode : Type 0 where
  auto raw : ProtoMode

pub data RouteMode : Type 0 where
  connection request : RouteMode

-- A path is the text that it is spelled by.
pub data TlsMode : Type 0 where
  passthrough : TlsMode
  terminate : Text → Text → TlsMode

pub data SpecError : Type 0 where
  no_slash bad_address empty_option no_equals empty_value unknown_option : SpecError
  duplicate_option : Text → SpecError
  bad_proto bad_route cert_without_key key_without_cert : SpecError
  raw_request raw_terminate request_terminate : SpecError
  bad_service : NameError → SpecError
  empty_at_host normalized_empty : SpecError
  bad_host : HostError → SpecError

-- An error of a callee, as the `?` operator passes it on.
abbrev pub map_err {ℓ κ μ} :
    {E : Type ℓ} {F : Type κ} {A : Type μ} → (E → F) → Result E A → Result F A
map_err f (ok a) = ok a
map_err f (err e) = err (f e)

-- The four variables of the option loop.
pub record Options : Type 0 where
  pub proto : Option ProtoMode
  pub route : Option RouteMode
  pub cert : Option Text
  pub key : Option Text

abbrev pub no_options : Options
no_options = record { proto = none; route = none; cert = none; key = none }

abbrev pub is_some {ℓ} : {A : Type ℓ} → Option A → Bool
is_some none = false
is_some (some _) = true

abbrev pub proto_value : Text → Result SpecError ProtoMode
proto_value v =
    if text_eq v (codes "auto")
    then ok auto
    else if text_eq v (codes "raw")
    then ok raw
    else err bad_proto

abbrev pub route_value : Text → Result SpecError RouteMode
route_value v =
    if text_eq v (codes "connection")
    then ok connection
    else if text_eq v (codes "request")
    then ok request
    else err bad_route

set_proto : Options → Text → Result SpecError Options
set_proto o v = do
  guard (not (is_some o.proto)) (duplicate_option (codes "proto"))
  p ← proto_value v
  ok (record o { proto = some p })

set_route : Options → Text → Result SpecError Options
set_route o v = do
  guard (not (is_some o.route)) (duplicate_option (codes "route"))
  r ← route_value v
  ok (record o { route = some r })

set_cert : Options → Text → Result SpecError Options
set_cert o v = do
  guard (not (is_some o.cert)) (duplicate_option (codes "cert"))
  ok (record o { cert = some v })

set_key : Options → Text → Result SpecError Options
set_key o v = do
  guard (not (is_some o.key)) (duplicate_option (codes "key"))
  ok (record o { key = some v })

-- The match on the option's name.
unfoldable pub set_option : Options → Text → Text → Result SpecError Options
unfolding set_proto set_route set_cert set_key
set_option o name v =
    if text_eq name (codes "proto")
    then set_proto o v
    else if text_eq name (codes "route")
    then set_route o v
    else if text_eq name (codes "cert")
    then set_cert o v
    else if text_eq name (codes "key")
    then set_key o v
    else err unknown_option

-- One turn of the loop over the parts behind the address.
unfoldable pub apply_option : Options → Text → Result SpecError Options
apply_option o opt = do
  guard (not (is_empty opt)) empty_option
  (name, v) ← ok_or (split_once b'=' opt) no_equals
  guard (not (is_empty v)) empty_value
  set_option o name v

unfoldable pub apply_options : Options → List Text → Result SpecError Options
apply_options o [] = ok o
apply_options o (opt ∷ opts) = do o' ← apply_option o opt; apply_options o' opts

-- A certificate and a key come together or not at all.
abbrev pub tls_mode : Option Text → Option Text → Result SpecError TlsMode
tls_mode (some c) (some k) = ok (terminate c k)
tls_mode none none = ok passthrough
tls_mode (some _) none = err cert_without_key
tls_mode none (some _) = err key_without_cert

abbrev pub unwrap_or {ℓ} : {A : Type ℓ} → Option A → A → A
unwrap_or none a = a
unwrap_or (some b) a = b

-- The combinations that contradict themselves, in the order of the tests.
abbrev pub check_modes : ProtoMode → TlsMode → RouteMode → Result SpecError (Unit {0})
check_modes raw t request = err raw_request
check_modes raw (terminate _ _) connection = err raw_terminate
check_modes auto (terminate _ _) request = err request_terminate
check_modes _ _ _ = ok tt

abbrev pub show_proto : ProtoMode → Text
show_proto auto = []
show_proto raw = codes ",proto=raw"

abbrev pub show_tls : TlsMode → Text
show_tls passthrough = []
show_tls (terminate cert key) = codes ",cert=" ++ (cert ++ (codes ",key=" ++ key))

abbrev pub show_route : RouteMode → Text
show_route connection = []
show_route request = codes ",route=request"

abbrev pub show_host : Option Text → Text
show_host (some host) = b'@' ∷ host
show_host none = []

unfoldable pub is_ws_url : Text → Bool
is_ws_url t = starts_with (codes "ws://") t || starts_with (codes "wss://") t

abbrev pub check_host : Option Text → Result SpecError (Unit {0})
check_host none = ok tt
check_host (some host) = guard (not (is_empty host)) normalized_empty

module _ (net : SocketText) where
  open net use {SocketAddr, parse_addr, show_addr}

  pub record ListenSpec : Type 0 where
    pub service : Text
    pub addr : SocketAddr
    pub proto : ProtoMode
    pub tls : TlsMode
    pub route : RouteMode

  -- Behind the loop: the transport mode, the defaults and the contradictions.
  abbrev pub finish_listen : Text → SocketAddr → Options → Result SpecError ListenSpec
  finish_listen service addr o = do
    tls ← tls_mode o.cert o.key
    let proto = unwrap_or o.proto auto
    let route = unwrap_or o.route connection
    check_modes proto tls route
    ok (record { service = service; addr = addr; proto = proto; tls = tls; route = route })

  -- `ListenSpec::from_str`.
  unfoldable pub parse_listen : Text → Result SpecError ListenSpec
  parse_listen spec = do
    (service, rest) ← ok_or (split_once b'/' spec) no_slash
    map_err bad_service (validate_service_name service)
    let (addr_part, parts) = split b',' rest
    addr ← ok_or (parse_addr addr_part) bad_address
    o ← apply_options no_options parts
    finish_listen service addr o

  -- `ListenSpec`'s `Display`.
  unfoldable pub show_listen : ListenSpec → Text
  show_listen s =
      s.service
      ++ (b'/'
          ∷ (show_addr s.addr ++ (show_proto s.proto ++ (show_tls s.tls ++ show_route s.route))))

  pub data BackendTarget : Type 0 where
    tcp : SocketAddr → BackendTarget
    ws : Text → BackendTarget

  pub record BackendSpec : Type 0 where
    pub service : Text
    pub host : Option Text
    pub target : BackendTarget

  abbrev pub parse_target : Text → Result SpecError BackendTarget
  parse_target t =
      if is_ws_url t then ok (ws t) else do addr ← ok_or (parse_addr t) bad_address; ok (tcp addr)

  -- `BackendSpec`'s `Display`.
  abbrev pub show_target : BackendTarget → Text
  show_target (tcp addr) = show_addr addr
  show_target (ws url) = url

  unfoldable pub show_backend : BackendSpec → Text
  show_backend s = s.service ++ (show_host s.host ++ (b'/' ∷ show_target s.target))

module _ (net : SocketText) (cm : CaseMap) where
  -- The service and the host key in front of the target, given that text cut at its first `@`.
  unfoldable pub parse_head : Text → Option (Text × Text) → Result SpecError (Text × Option Text)
  parse_head head none = ok (head, none)
  parse_head head (some (service, host)) = do
    guard (not (is_empty host)) empty_at_host
    key ← map_err bad_host (spec_host_key cm host)
    ok (service, some key)

  -- `BackendSpec::from_str`.
  unfoldable pub parse_backend : Text → Result SpecError (BackendSpec net)
  unfolding parse_head
  parse_backend spec = do
    (head, target_part) ← ok_or (split_once b'/' spec) no_slash
    (service, host) ← parse_head head (split_once b'@' head)
    map_err bad_service (validate_service_name service)
    check_host host
    target ← parse_target net target_part
    ok (record { service = service; host = host; target = target })
