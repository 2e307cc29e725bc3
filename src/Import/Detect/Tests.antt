-- ===== src/Import/Detect/Tests.antt =====
-- A connection through src/import/auto.rs, with small parsers.
use zenoh_bridge_tcp.Prelude.{
  ◌≡◌, refl, true, false, List, [], ◌∷◌, ◌++◌, some, none, ok, ◌==◌, if◌then◌else◌,
}
use zenoh_bridge_tcp.Text.{codes, text_eq, parse_u16}
use zenoh_bridge_tcp.Dns.{routing_key, bare_host, check_key, has_explicit_port}
use zenoh_bridge_tcp.Dns.Tests.{kelvin_map}
use zenoh_bridge_tcp.Keys.{available_key}
use zenoh_bridge_tcp.Export.Relay.{Bytes}
use zenoh_bridge_tcp.Import.Parser.{push_bytes, push_loop}
use zenoh_bridge_tcp.Import.Http.{routing_key_from_head}
use zenoh_bridge_tcp.Import.Head.{read_until}
use zenoh_bridge_tcp.Import.Head.Verbatim.{received}
use zenoh_bridge_tcp.Import.Readers.{
  TlsParser, client_hello, first_event, reader_step, concat_pending, read_http_head,
  peek_http_head_outcome, read_tls_sni, tls_step, first_hello,
}
use zenoh_bridge_tcp.Import.Readers.Tests.{small_http, small_http2, segments, api_key, read_so_far}
use zenoh_bridge_tcp.Import.Route.{host_first, resolve_backend}
use zenoh_bridge_tcp.Import.Detect.{
  WireProtocol, tls, http1, Classify, decided, undecided, PeekEvent, peek, classify_loop, bridged,
  dropped, no_backend, tcp, World, Handler, by_route, tls_fate, http_fate, handle_import_connection,
  peek_full_http_head, handle_auto_http_connection, handle_auto_import_connection,
}
use zenoh_bridge_tcp.Import.Detect.Stable.{Verdict, classify_loop-Verdict}
use zenoh_bridge_tcp.Import.Detect.Served.{IsOpaque, IsServed}
use zenoh_bridge_tcp.Import.Detect.Routed.{handle_auto_import_connection-IsServed}

-- Two bytes decide; a TLS record starts with 22.
abbrev two_decide : Bytes → Classify
two_decide [] = undecided
two_decide (a ∷ []) = undecided
two_decide (a ∷ b ∷ bs) = if a == 22 then decided tls else decided http1

two_decide_stable :
    (bytes more : Bytes) (p : WireProtocol)
    → two_decide bytes ≡ decided p
    → two_decide (bytes ++ more) ≡ decided p
two_decide_stable [] more p e = cc
two_decide_stable (a ∷ []) more p e = cc
two_decide_stable (a ∷ b ∷ bs) more p e = e

abbrev growing : List PeekEvent
growing = peek (1 ∷ []) false ∷ peek (1 ∷ 2 ∷ 3 ∷ []) false ∷ []

growing_decided : classify_loop two_decide growing ≡ some (ok (http1, false))
unfolding classify_loop
growing_decided = refl

classify_loop-Verdict_example : Verdict two_decide read_so_far http1 false
classify_loop-Verdict_example =
    classify_loop-Verdict two_decide two_decide_stable read_so_far growing
      ((2 ∷ 3 ∷ 4 ∷ 10 ∷ 20 ∷ [], refl), ((4 ∷ 10 ∷ 20 ∷ [], refl), tt)) growing_decided

abbrev small_tls : TlsParser
small_tls = record {
  State = Unit;
  default_parser = tt;
  feed_initiator = λ s bytes. (tt, client_hello none ∷ []);
}

-- Only the backend of `api.local` is there.
abbrev env : Handler
env = record {
  cm = kelvin_map;
  http = small_http;
  http2 = small_http2;
  tls_parser = small_tls;
  classify_first_bytes = two_decide;
  show_error = λ e. [];
  show_failure = λ e. [];
  max_header_size = 1024;
  token_alive = λ key. ok (text_eq key (codes "svc/api.local/available"));
  service = codes "svc";
}

abbrev a_client : World
a_client = record {
  first_peeks = growing;
  head_peeks = peek read_so_far false ∷ [];
  short_peek = peek (1 ∷ 2 ∷ 3 ∷ []) false;
  reads = segments;
  first = host_first;
  handshake = true;
}

client_bridged :
    handle_auto_import_connection env a_client
    ≡ some (bridged (some api_key) (some read_so_far) tcp)
unfolding handle_auto_import_connection classify_loop handle_auto_http_connection
    peek_full_http_head peek_http_head_outcome handle_import_connection http_fate by_route
    resolve_backend read_http_head read_until reader_step concat_pending push_bytes push_loop
    first_event routing_key_from_head routing_key bare_host check_key has_explicit_port parse_u16
    available_key
client_bridged = refl

handle_auto_import_connection-IsServed_example :
    IsServed env.token_alive env.service
      (received segments)
      (IsOpaque two_decide growing)
      (bridged (some api_key) (some read_so_far) tcp)
handle_auto_import_connection-IsServed_example =
    handle_auto_import_connection-IsServed env a_client refl client_bridged

-- A TLS client without SNI finds no default backend, and is dropped without a word.
abbrev old_client : World
old_client = record a_client {
  first_peeks = peek (22 ∷ 3 ∷ []) false ∷ [];
  short_peek = peek (22 ∷ 3 ∷ []) false;
}

old_client_dropped : handle_auto_import_connection env old_client ≡ some (dropped none no_backend)
unfolding handle_auto_import_connection classify_loop handle_import_connection tls_fate by_route
    resolve_backend read_tls_sni tls_step first_hello read_until available_key
old_client_dropped = refl
