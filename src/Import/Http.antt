-- ===== src/Import/Http.antt =====
-- flowscope's HTTP types, as far as src/import reads them, and its HTTP/1 parser as a parameter.
use zenoh_bridge_tcp.Prelude.{ℕ, ◌≡◌, Bool, List, [], Option, Result, ◌>>=◌}
use zenoh_bridge_tcp.Text.{Text}
use zenoh_bridge_tcp.Dns.{CaseMap, HostError, routing_key}
use zenoh_bridge_tcp.Spec.{map_err}
use zenoh_bridge_tcp.Export.Relay.{Bytes}
use zenoh_bridge_tcp.Import.Parser.{Side, initiator, StreamParser}

-- The bytes of a head, what `authority` says of its target (the host, or why there is none), and
-- whether it asks for a WebSocket.
pub record RequestHead : Type 0 where
  pub raw : Bytes
  pub authority : Result Text Text
  pub is_websocket_upgrade : Bool

-- The values of its `Connection` fields, with none for one that is no UTF-8.
pub record ResponseHead : Type 0 where
  pub raw : Bytes
  pub interim : Bool
  pub until_close : Bool
  pub http_1_0 : Bool
  pub connection : List (Option Text)

pub data HttpEvent : Type 0 where
  request_head : RequestHead → HttpEvent
  response_head : ResponseHead → HttpEvent
  body trailers : Side → Bytes → HttpEvent
  end : Side → HttpEvent
  switch_protocols : HttpEvent

-- Why a parser refuses to go on, and whether that is its client's fault, where it can tell.
pub record Poison : Type 0 where
  pub reason : Text
  pub client_fault : Option Bool

-- `HttpProxyParser`, made for a largest head.
pub record HttpParser : Type 1 where
  pub parser : StreamParser HttpEvent
  pub with_config : ℕ → parser.State
  pub poison : parser.State → Option Poison
  pub is_tunnelled : parser.State → Bool
  pub is_done : parser.State → Bool
  pub fin : Side → parser.State → parser.State
  pub take_residue : Side → parser.State → Bytes × parser.State
  pub with_config_fed : (max : ℕ) → parser.fed initiator (with_config max) ≡ []

pub data ReaderError : Type 0 where
  unroutable_target : Text → ReaderError
  unroutable_host : HostError → ReaderError
  malformed : Text → ReaderError
  switched_protocols no_authority : ReaderError

-- `routing_key_from_head`.
unfoldable pub routing_key_from_head : CaseMap → RequestHead → Result ReaderError Text
routing_key_from_head cm head = do
  host ← map_err unroutable_target head.authority
  map_err unroutable_host (routing_key cm host)
