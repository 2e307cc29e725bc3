-- ===== src/Export/Specs.antt =====
-- src/export/mod.rs: the three spec parsers that stand beside `BackendSpec`.
pub mod Parts
pub mod Agree
use zenoh_bridge_tcp.Prelude.{
  Bool, not, List, [], ◌∷◌, Option, some, none, Result, ok, err, ok_or, guard, ◌>>=◌, ◌>>◌,
}
use zenoh_bridge_tcp.Text.{Text, is_empty}
use zenoh_bridge_tcp.Text.Split.{split, split_once}
use zenoh_bridge_tcp.Config.{NameError, validate_service_name}
use zenoh_bridge_tcp.Dns.{CaseMap, HostError, spec_host_key}
use zenoh_bridge_tcp.Spec.{SocketText, map_err, is_ws_url}

pub data ExportError : Type 0 where
  bad_format bad_address not_ws_url empty_service : ExportError
  bad_service : NameError → ExportError
  bad_host : HostError → ExportError

-- `parts.len() != 2` and `parts.len() != 3`, with the parts.
abbrev pub two_parts : Text × List Text → Option (Text × Text)
two_parts (a, b ∷ []) = some (a, b)
two_parts _ = none

abbrev pub three_parts : Text × List Text → Option (Text × Text × Text)
three_parts (a, b ∷ c ∷ []) = some (a, b, c)
three_parts _ = none

module _ (net : SocketText) where
  unfoldable pub parse_export_spec : Text → Result ExportError (Text × net.SocketAddr)
  parse_export_spec spec = do
    (service, target) ← ok_or (two_parts (split b'/' spec)) bad_format
    map_err bad_service (validate_service_name service)
    addr ← ok_or (net.parse_addr target) bad_address
    ok (service, addr)

  unfoldable pub parse_http_export_spec :
      CaseMap → Text → Result ExportError (Text × Text × net.SocketAddr)
  parse_http_export_spec cm spec = do
    (service, host, target) ← ok_or (three_parts (split b'/' spec)) bad_format
    map_err bad_service (validate_service_name service)
    dns ← map_err bad_host (spec_host_key cm host)
    addr ← ok_or (net.parse_addr target) bad_address
    ok (service, dns, addr)

-- The text in front of the first slash is the service, and what is behind it the URL.
unfoldable pub parse_ws_export_spec : Text → Result ExportError (Text × Text)
parse_ws_export_spec spec = do
  (service, url) ← ok_or (split_once b'/' spec) bad_format
  map_err bad_service (validate_service_name service)
  guard (is_ws_url url) not_ws_url
  guard (not (is_empty service)) empty_service
  ok (service, url)
