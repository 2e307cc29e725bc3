-- ===== src/Import/Detect.antt =====
-- src/import/auto.rs and `handle_import_connection` of src/import/connection.rs: what a new connection
-- speaks, and where it goes. The classifier is an argument; a turn at the socket is an event.
pub mod Stable
pub mod Served
pub mod Ends
pub mod Routed
mod Tests
use zenoh_bridge_tcp.Prelude.{
  ℕ, Bool, true, false, ◌&&◌, ◌||◌, List, [], ◌∷◌, Option, some, none, Result, ok, err, length, ltb,
  leb, ◌==◌, if◌then◌else◌,
}
use zenoh_bridge_tcp.Text.{Text}
use zenoh_bridge_tcp.Dns.{CaseMap}
use zenoh_bridge_tcp.HttpUtil.{http_400_response, http_502_response}
use zenoh_bridge_tcp.Export.Relay.{Bytes}
use zenoh_bridge_tcp.Import.Http.{RequestHead, HttpParser, ReaderError, routing_key_from_head}
use zenoh_bridge_tcp.Import.Head.{ReadEvent, ReadHeadOutcome, parsed, timeout, HeadError}
use zenoh_bridge_tcp.Import.Readers.{
  Http2Parser, TlsParser, ReadFailure, map_result, PeekOutcome, head, need_more, refused,
  peek_http_head_outcome, read_http_head, read_h2_head, read_tls_sni,
}
use zenoh_bridge_tcp.Import.Route.{
  BackendRoute, host, default_backend, unavailable, FirstDone, resolve_backend,
}

-- flowscope's classification of the first bytes.
pub data WireProtocol : Type 0 where
  tls http1 http2_preface ssh raw : WireProtocol

pub data Classify : Type 0 where
  decided : WireProtocol → Classify
  undecided : Classify

-- One peek: the bytes that wait, none at the end of the stream, and whether the deadline is over
-- behind it; a failure; or the deadline while nothing comes.
pub data PeekEvent : Type 0 where
  peek : Bytes → Bool → PeekEvent
  peek_failed peek_timeout : PeekEvent

-- Why a peek leads nowhere.
pub data PeekError : Type 0 where
  failed_peek no_data closed_before_data : PeekError

-- Why a connection is dropped.
pub data DropCause : Type 0 where
  unpeeked : PeekError → DropCause
  bad_head : DropCause
  no_probe : Text → DropCause
  no_backend no_handshake : DropCause

module _ (classify_first_bytes : Bytes → Classify) where
  abbrev pub after_classify :
      Classify
      → Bool
      → Option (Result PeekError (WireProtocol × Bool))
      → Option (Result PeekError (WireProtocol × Bool))
  after_classify (decided p) over rest = some (ok (p, false))
  after_classify undecided over rest = if over then some (ok (raw, true)) else rest

  -- The loop over the peeks: the protocol, and whether it was given up.
  unfoldable pub classify_loop : List PeekEvent → Option (Result PeekError (WireProtocol × Bool))
  classify_loop [] = none
  classify_loop (peek_failed ∷ es) = some (err failed_peek)
  classify_loop (peek_timeout ∷ es) = some (err no_data)
  classify_loop (peek [] late ∷ es) = some (err closed_before_data)
  classify_loop (peek (b ∷ bs) late ∷ es) =
      let rest = classify_loop es in
      after_classify (classify_first_bytes (b ∷ bs)) (late || length (b ∷ bs) == 64) rest

-- What becomes of a connection: it is dropped, with a response that the bridge writes or without
-- one, or it is bridged under a host or not, with the bytes that were read already; as TCP, as
-- HTTP/2 with the tap on its responses, or as a WebSocket.
pub data Carried : Type 0 where
  tcp http2_relay websocket : Carried

pub data Fate : Type 0 where
  dropped : Option Text → DropCause → Fate
  bridged : Option Text → Option Bytes → Carried → Fate

-- What a resolution leads to.
unfoldable pub by_route : Result Text BackendRoute → Fate → Fate → Fate → Fate
by_route (err e) to_host to_default refusal = dropped none (no_probe e)
by_route (ok host) to_host to_default refusal = to_host
by_route (ok default_backend) to_host to_default refusal = to_default
by_route (ok unavailable) to_host to_default refusal = refusal

-- What happens while a connection is handled: the peeks of the classification, those of a whole
-- HTTP head, the short one of `handle_import_connection`, the reads, the probe that is done first,
-- and whether the WebSocket handshake is done.
pub record World : Type 0 where
  pub first_peeks : List PeekEvent
  pub head_peeks : List PeekEvent
  pub short_peek : PeekEvent
  pub reads : List ReadEvent
  pub first : FirstDone
  pub handshake : Bool

-- What the handlers are given: the parsers, the configuration, the bus and the service.
pub record Handler : Type 1 where
  pub cm : CaseMap
  pub http : HttpParser
  pub http2 : Http2Parser
  pub tls_parser : TlsParser
  pub classify_first_bytes : Bytes → Classify
  pub show_error : ReaderError → Text
  pub show_failure : ReadFailure → Text
  pub max_header_size : ℕ
  pub token_alive : Text → Result Text Bool
  pub service : Text

module _ (env : Handler) where
  open env use {
    cm, http, http2, tls_parser, classify_first_bytes, show_error, show_failure, max_header_size,
    token_alive, service,
  }

  abbrev pub resolve : Option Text → FirstDone → Result Text BackendRoute
  resolve = resolve_backend token_alive service

  -- A TLS connection, routed by its SNI.
  unfoldable pub tls_fate : Result ReadFailure (Option Text × Bytes) → FirstDone → Fate
  tls_fate (err e) first = dropped none bad_head
  tls_fate (ok (some dns, buffer)) first =
      by_route (resolve (some dns) first) (bridged (some dns) (some buffer) tcp)
        (bridged none (some buffer) tcp) (dropped none no_backend)
  tls_fate (ok (none, buffer)) first =
      by_route (resolve none first) (bridged none (some buffer) tcp)
        (bridged none (some buffer) tcp) (dropped none no_backend)

  -- A plain HTTP connection, routed by its first request's host.
  unfoldable pub http_fate : Result ReadFailure (Text × Bytes) → FirstDone → Fate
  http_fate (err e) first = dropped (some (http_400_response (show_failure e))) bad_head
  http_fate (ok (dns, buffer)) first =
      by_route (resolve (some dns) first) (bridged (some dns) (some buffer) tcp)
        (bridged none (some buffer) tcp) (dropped (some (http_502_response dns)) no_backend)

  abbrev pub is_tls : Classify → Bool
  is_tls (decided tls) = true
  is_tls _ = false

  -- Behind the short peek; at the end of the stream, the reader of HTTP says what is wrong.
  abbrev pub after_short_peek : PeekEvent → World → Option Fate
  after_short_peek peek_failed w = some (dropped none (unpeeked failed_peek))
  after_short_peek peek_timeout w = some (dropped none (unpeeked no_data))
  after_short_peek (peek bytes late) w =
      if is_tls (classify_first_bytes bytes)
      then map_result (λ r. tls_fate r w.first) (read_tls_sni cm tls_parser max_header_size w.reads)
      else map_result (λ r. http_fate r w.first) (read_http_head cm http max_header_size w.reads)

  unfoldable pub handle_import_connection : Bool → World → Option Fate
  handle_import_connection false w = some (bridged none none tcp)
  handle_import_connection true w = after_short_peek w.short_peek w

  abbrev pub after_peek :
      PeekOutcome → Bool → Bool → Option (Option RequestHead) → Option (Option RequestHead)
  after_peek (head h) full late rest = some (some h)
  after_peek refused full late rest = some none
  after_peek need_more full late rest = if full || late then some none else rest

  -- `peek_full_http_head`, with the number of bytes that the parser saw last.
  unfoldable pub peek_full_http_head : ℕ → List PeekEvent → Option (Option RequestHead)
  peek_full_http_head last_len [] = none
  peek_full_http_head last_len (peek_failed ∷ es) = some none
  peek_full_http_head last_len (peek_timeout ∷ es) = some none
  peek_full_http_head last_len (peek [] late ∷ es) = some none
  peek_full_http_head last_len (peek (b ∷ bs) late ∷ es) =
      let n = length (b ∷ bs) in
      let more = peek_full_http_head n es in
      let same = peek_full_http_head last_len es in
      if ltb last_len n
      then after_peek (peek_http_head_outcome cm http max_header_size (b ∷ bs))
          (leb max_header_size n) late more
      else if late
      then some none
      else same

  -- A connection that asks for a WebSocket, routed by its host.
  abbrev pub handshaken : Bool → Option Text → Fate
  handshaken done dns = if done then bridged dns none websocket else dropped none no_handshake

  unfoldable pub websocket_fate : Result ReaderError Text → FirstDone → Bool → Fate
  websocket_fate (err e) first handshake =
      dropped (some (http_400_response (show_error e))) bad_head
  websocket_fate (ok dns) first handshake =
      by_route (resolve (some dns) first) (handshaken handshake (some dns))
        (handshaken handshake none) (dropped (some (http_502_response dns)) no_backend)

  abbrev pub after_full_head : Option RequestHead → World → Option Fate
  after_full_head none w = handle_import_connection true w
  after_full_head (some h) w =
      if h.is_websocket_upgrade
      then some (websocket_fate (routing_key_from_head cm h) w.first w.handshake)
      else handle_import_connection true w

  abbrev pub with_head : Option (Option RequestHead) → World → Option Fate
  with_head none w = none
  with_head (some found) w = after_full_head found w

  unfoldable pub handle_auto_http_connection : World → Option Fate
  handle_auto_http_connection w = with_head (peek_full_http_head 0 w.head_peeks) w

  -- A connection with the preface of HTTP/2, routed by its first `:authority`; a client that waits
  -- for the server is relayed without a host.
  unfoldable pub h2c_fate : Result (HeadError ReaderError) (ReadHeadOutcome Text) → FirstDone → Fate
  h2c_fate (err e) first = dropped none bad_head
  h2c_fate (ok (parsed dns buffer)) first =
      by_route (resolve (some dns) first) (bridged (some dns) (some buffer) http2_relay)
        (bridged none (some buffer) http2_relay) (dropped none no_backend)
  h2c_fate (ok (timeout partial)) first =
      by_route (resolve none first) (bridged none (some partial) tcp)
        (bridged none (some partial) tcp) (dropped none no_backend)

  unfoldable pub handle_h2c_connection : World → Option Fate
  handle_h2c_connection w =
      map_result (λ r. h2c_fate r w.first) (read_h2_head cm http2 max_header_size true w.reads)

  abbrev pub by_protocol : WireProtocol → World → Option Fate
  by_protocol tls w = handle_import_connection true w
  by_protocol http1 w = handle_auto_http_connection w
  by_protocol http2_preface w = handle_h2c_connection w
  by_protocol ssh w = handle_import_connection false w
  by_protocol raw w = handle_import_connection false w

  abbrev pub after_classification :
      Option (Result PeekError (WireProtocol × Bool)) → World → Option Fate
  after_classification none w = none
  after_classification (some (err e)) w = some (dropped none (unpeeked e))
  after_classification (some (ok (p, gave_up))) w = by_protocol p w

  -- `handle_auto_import_connection`.
  unfoldable pub handle_auto_import_connection : World → Option Fate
  handle_auto_import_connection w =
      after_classification (classify_loop classify_first_bytes w.first_peeks) w
