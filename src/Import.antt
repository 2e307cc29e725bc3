-- ===== src/Import.antt =====
-- src/import/mod.rs: the dispatch of a listener on its spec, and the parser that the mode runners use.
pub mod Doors
pub mod Parser
pub mod Http
pub mod Readers
pub mod Exchange
pub mod Requests
pub mod KeepAlive
pub mod Detect
pub mod Head
pub mod Route
pub mod Relay
pub mod Accept
pub mod Tests
use zenoh_bridge_tcp.Prelude.{
  Bool, true, false, [], ◌∷◌, ◌++◌, Option, some, none, Result, ok, err, ok_or, ◌>>=◌, ◌>>◌,
}
use zenoh_bridge_tcp.Text.{Text}
use zenoh_bridge_tcp.Text.Split.{split}
use zenoh_bridge_tcp.Config.{NameError, validate_service_name}
use zenoh_bridge_tcp.Spec.{
  SocketText, ListenSpec, ProtoMode, auto, raw, TlsMode, passthrough, terminate, RouteMode,
  connection, request, map_err,
}
use zenoh_bridge_tcp.Export.Specs.{two_parts}

-- The runner that a listener is given to.
pub data Door : Type 0 where
  tunnel auto_detect per_request : Door
  terminated : Text → Text → Door

-- The match of `run_listener_with_readiness`, with the build's TLS feature.
abbrev pub dispatch : Bool → ProtoMode → TlsMode → RouteMode → Option Door
dispatch tls raw passthrough connection = some tunnel
dispatch tls auto passthrough connection = some auto_detect
dispatch tls auto passthrough request = some per_request
dispatch true auto (terminate cert key) connection = some (terminated cert key)
dispatch _ _ _ _ = none

pub data ImportError : Type 0 where
  bad_format bad_address : ImportError
  bad_service : NameError → ImportError

module _ (net : SocketText) where
  -- What the runners are handed: `{service}/{addr}`.
  unfoldable pub mode_spec : ListenSpec net → Text
  mode_spec s = s.service ++ (b'/' ∷ net.show_addr s.addr)

  unfoldable pub parse_import_spec : Text → Result ImportError (Text × net.SocketAddr)
  parse_import_spec spec = do
    (service, target) ← ok_or (two_parts (split b'/' spec)) bad_format
    map_err bad_service (validate_service_name service)
    addr ← ok_or (net.parse_addr target) bad_address
    ok (service, addr)
