-- ===== src/Import/Readers/Tests.antt =====
-- The readers of src/import/connection.rs with small parsers.
use zenoh_bridge_tcp.Prelude.{
  ℕ, ◌≡◌, refl, false, List, [], ◌∷◌, some, none, ok, ◌==◌, if◌then◌else◌,
}
use zenoh_bridge_tcp.Text.{Text, codes}
use zenoh_bridge_tcp.Dns.Tests.{kelvin_map}
use zenoh_bridge_tcp.Export.Relay.{Bytes}
use zenoh_bridge_tcp.Import.Parser.{Side, initiator, responder, push_bytes, push_loop}
use zenoh_bridge_tcp.Import.Parser.Tests.{two_at_once, nothing_taken}
use zenoh_bridge_tcp.Import.Http.{
  RequestHead, HttpEvent, request_head, body, end, response_head, HttpParser,
}
use zenoh_bridge_tcp.Import.Head.{ReadEvent, chunk}
use zenoh_bridge_tcp.Import.Readers.{
  read_http_head, peek_http_head_outcome, Http2Event, stream_trailers, Http2Parser,
}
use zenoh_bridge_tcp.Import.Readers.Peek.{Foretold, read_http_head-Foretold}
use zenoh_bridge_tcp.Import.Readers.Grpc.{new_scanner, tap, scan, feed, Once, response_tap-Once}

abbrev pub api_head : RequestHead
api_head = record {
  raw = 10 ∷ [];
  authority = ok (codes "API.local:80");
  is_websocket_upgrade = false;
}

-- A request is a byte 10, its body bytes 20 and its end a byte 21.
abbrev pub http_events : Side → ℕ → List HttpEvent
http_events initiator b =
    if b == 10
    then request_head api_head ∷ []
    else if b == 20
    then body initiator (20 ∷ []) ∷ []
    else if b == 21
    then end initiator ∷ []
    else []
http_events responder b =
    if b == 30
    then response_head (record {
      raw = 30 ∷ [];
      interim = false;
      until_close = false;
      http_1_0 = false;
      connection = [];
    })
      ∷ []
    else if b == 31
    then body responder (31 ∷ []) ∷ []
    else if b == 32
    then end responder ∷ []
    else []

abbrev pub small_http : HttpParser
small_http = record {
  parser = two_at_once http_events;
  with_config = λ max. nothing_taken;
  poison = λ s. none;
  is_tunnelled = λ s. false;
  is_done = λ s. false;
  fin = λ d s. s;
  take_residue = λ d s. ([], s);
  with_config_fed = λ max. refl;
}

abbrev pub segments : List ReadEvent
segments = chunk (1 ∷ 2 ∷ 3 ∷ []) ∷ chunk (4 ∷ 10 ∷ 20 ∷ []) ∷ []

abbrev pub api_key : Text
api_key = codes "api.local"

abbrev pub read_so_far : Bytes
read_so_far = 1 ∷ 2 ∷ 3 ∷ 4 ∷ 10 ∷ 20 ∷ []

read_http_head-Foretold_example :
    Foretold kelvin_map small_http 1024
      (peek_http_head_outcome kelvin_map small_http 1024 (1 ∷ 2 ∷ 3 ∷ []))
      (1 ∷ 2 ∷ 3 ∷ [])
      (chunk (4 ∷ 10 ∷ 20 ∷ []) ∷ [])
      (read_http_head kelvin_map small_http 1024 segments)
read_http_head-Foretold_example =
    read_http_head-Foretold kelvin_map small_http 1024 1 (2 ∷ 3 ∷ [])
      (chunk (4 ∷ 10 ∷ 20 ∷ []) ∷ [])

-- A byte on the server's side is the trailers of the stream of that number, with status 0.
abbrev grpc_events : Side → ℕ → List Http2Event
grpc_events initiator b = []
grpc_events responder b = stream_trailers b (some 0) ∷ []

abbrev pub small_http2 : Http2Parser
small_http2 = record {
  parser = two_at_once grpc_events;
  with_preface = λ required. nothing_taken;
  is_failed = λ s. none;
}

reported_once :
    tap small_http2 (new_scanner small_http2) ((1 ∷ 3 ∷ 1 ∷ []) ∷ (3 ∷ 5 ∷ []) ∷ [])
    ≡ (1, 0) ∷ (3, 0) ∷ (5, 0) ∷ []
unfolding tap feed scan push_bytes push_loop
reported_once = refl

response_tap-Once_example :
    Once [] (tap small_http2 (new_scanner small_http2) ((1 ∷ 3 ∷ 1 ∷ []) ∷ (3 ∷ 5 ∷ []) ∷ []))
response_tap-Once_example = response_tap-Once small_http2 ((1 ∷ 3 ∷ 1 ∷ []) ∷ (3 ∷ 5 ∷ []) ∷ [])
