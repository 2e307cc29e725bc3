-- ===== src/Import/Readers.antt =====
-- src/import/connection.rs: the readers of a connection's head, on the shell of `read_until`.
pub mod Gapless
pub mod Framed
pub mod Peek
pub mod Grpc
pub mod Tests
use zenoh_bridge_tcp.Prelude.{
  ℕ, zero, suc, Bool, true, false, ◌||◌, List, [], ◌∷◌, ◌++◌, Option, some, none, Result, ok, err,
  ◌>>=◌, if◌then◌else◌,
}
use zenoh_bridge_tcp.Text.{Text}
use zenoh_bridge_tcp.Dns.{CaseMap, routing_key}
use zenoh_bridge_tcp.Spec.{map_err, is_some}
use zenoh_bridge_tcp.Export.Relay.{Bytes}
use zenoh_bridge_tcp.Import.Parser.{Side, initiator, responder, StreamParser, push_bytes}
use zenoh_bridge_tcp.Import.Http.{
  RequestHead, HttpEvent, request_head, Poison, HttpParser, ReaderError, malformed,
  switched_protocols, no_authority, unroutable_host, routing_key_from_head,
}
use zenoh_bridge_tcp.Import.Head.{
  ReadEvent, ReadHeadOutcome, parsed, timeout, HeadError, read_until,
}

-- `concat_pending`.
unfoldable pub concat_pending : Bytes → Bytes → Bytes
concat_pending [] chunk = chunk
concat_pending (b ∷ bs) chunk = (b ∷ bs) ++ chunk

module _ {Event H : Type 0} (parser : StreamParser Event) (pick : Event → Option H) where
  open parser use {State, next_event, queued}

  abbrev pub pick_or : Option H → State → Option H × State → Option H × State
  pick_or none s rest = rest
  pick_or (some h) s rest = (some h, s)

  -- The loop over the events, up to the first one that is looked for.
  unfoldable pub first_event : ℕ → State → Option H × State
  first_event zero s = (none, s)
  first_event (suc n) s = elim (next_event s) [
    | none ↦ (none, s)
    | some (e, s') ↦ let rest = first_event n s' in pick_or (pick e) s' rest
  ]

  -- One chunk: behind what was refused, into the parser, and then its events.
  unfoldable pub reader_step :
      {E T : Type 0}
      → (Option H → State → Result E (Option T))
      → State × Bytes
      → Bytes
      → (State × Bytes) × Result E (Option T)
  reader_step verdict (s, pending) chunk =
      let (s1, rest) = push_bytes parser initiator s (concat_pending pending chunk) in
      let (found, s2) = first_event (queued s1) s1 in ((s2, rest), verdict found s2)

-- A value where there is one to return.
abbrev pub found_key {ℓ} : {E : Type ℓ} → Result E Text → Result E (Option Text)
found_key (ok key) = ok (some key)
found_key (err e) = err e

-- How a reader that does not relay at the deadline ends.
pub data ReadFailure : Type 0 where
  failed : HeadError ReaderError → ReadFailure
  timed_out : ReadFailure

abbrev pub no_timeout {ℓ} :
    {T : Type ℓ}
    → Result (HeadError ReaderError) (ReadHeadOutcome T)
    → Result ReadFailure (T × Bytes)
no_timeout (ok (parsed value buffer)) = ok (value, buffer)
no_timeout (ok (timeout partial)) = err timed_out
no_timeout (err e) = err (failed e)

abbrev pub map_result {ℓ κ} : {A : Type ℓ} {B : Type κ} → (A → B) → Option A → Option B
map_result f none = none
map_result f (some a) = some (f a)

abbrev pub as_request_head : HttpEvent → Option RequestHead
as_request_head (request_head h) = some h
as_request_head _ = none

pub data PeekOutcome : Type 0 where
  head : RequestHead → PeekOutcome
  need_more refused : PeekOutcome

module _ (cm : CaseMap) (http : HttpParser) (max_header_size : ℕ) where
  open http use {parser, with_config, poison, is_tunnelled}

  -- The verdict behind the events of a chunk, where no head was among them.
  abbrev pub no_head : Option Poison → Bool → Result ReaderError (Option Text)
  no_head (some p) tunnelled = err (malformed p.reason)
  no_head none tunnelled = if tunnelled then err switched_protocols else ok none

  abbrev pub http_verdict : Option RequestHead → parser.State → Result ReaderError (Option Text)
  http_verdict (some h) s = found_key (routing_key_from_head cm h)
  http_verdict none s = no_head (poison s) (is_tunnelled s)

  -- What `read_http_head` does with a chunk.
  abbrev pub http_step :
      parser.State × Bytes → Bytes → (parser.State × Bytes) × Result ReaderError (Option Text)
  http_step = reader_step parser as_request_head http_verdict

  -- `read_http_head`: no result while it still reads.
  unfoldable pub read_http_head : List ReadEvent → Option (Result ReadFailure (Text × Bytes))
  read_http_head es =
      map_result no_timeout
        (read_until http_step max_header_size (with_config max_header_size, []) [] es)

  abbrev pub peeked : Option RequestHead → parser.State → PeekOutcome
  peeked (some h) s = head h
  peeked none s = if is_some (poison s) || is_tunnelled s then refused else need_more

  -- `peek_http_head_outcome`.
  unfoldable pub peek_http_head_outcome : Bytes → PeekOutcome
  peek_http_head_outcome peek =
      let (s1, rest) = push_bytes parser initiator (with_config max_header_size) peek in
      let (found, s2) = first_event parser as_request_head (parser.queued s1) s1 in peeked found s2

-- The events of flowscope's HTTP/2 parser that are read: a block of fields, with its stream, its
-- side, whether it ends the stream, its `:authority` and the gRPC status in it.
pub record StreamHead : Type 0 where
  pub stream_id : ℕ
  pub dir : Side
  pub end_stream : Bool
  pub authority : Option Text
  pub grpc_status : Option ℕ

pub data Http2Event : Type 0 where
  stream_head : StreamHead → Http2Event
  stream_trailers : ℕ → Option ℕ → Http2Event
  other_event : Http2Event

pub record Http2Parser : Type 1 where
  pub parser : StreamParser Http2Event
  pub with_preface : Bool → parser.State
  pub is_failed : parser.State → Option Text

-- A head that the client sent.
abbrev pub from_client : StreamHead → Side → Option StreamHead
from_client h initiator = some h
from_client h responder = none

abbrev pub as_client_head : Http2Event → Option StreamHead
as_client_head (stream_head h) = from_client h h.dir
as_client_head _ = none

-- `h2_routing_key`.
unfoldable pub h2_routing_key : CaseMap → Option Text → Result ReaderError Text
h2_routing_key cm none = err no_authority
h2_routing_key cm (some authority) = map_err unroutable_host (routing_key cm authority)

module _ (cm : CaseMap) (http2 : Http2Parser) (max_header_size : ℕ) where
  open http2 use {parser, with_preface, is_failed}

  abbrev pub h2_no_head : Option Text → Result ReaderError (Option Text)
  h2_no_head (some e) = err (malformed e)
  h2_no_head none = ok none

  abbrev pub h2_verdict : Option StreamHead → parser.State → Result ReaderError (Option Text)
  h2_verdict (some h) s = found_key (h2_routing_key cm h.authority)
  h2_verdict none s = h2_no_head (is_failed s)

  abbrev pub h2_step :
      parser.State × Bytes → Bytes → (parser.State × Bytes) × Result ReaderError (Option Text)
  h2_step = reader_step parser as_client_head h2_verdict

  -- `read_h2_head`.
  unfoldable pub read_h2_head :
      Bool → List ReadEvent → Option (Result (HeadError ReaderError) (ReadHeadOutcome Text))
  read_h2_head require_preface es =
      read_until h2_step max_header_size (with_preface require_preface, []) [] es

-- flowscope's TLS parser: the messages that a chunk completes, with the SNI of a ClientHello.
pub data TlsMessage : Type 0 where
  client_hello : Option Text → TlsMessage
  other_message : TlsMessage

pub record TlsParser : Type 1 where
  pub State : Type 0
  pub default_parser : State
  pub feed_initiator : State → Bytes → State × List TlsMessage

-- The key of a ClientHello: none where it names no host.
abbrev pub sni_key : CaseMap → Option Text → Result ReaderError (Option (Option Text))
sni_key cm none = ok (some none)
sni_key cm (some sni) = do key ← map_err unroutable_host (routing_key cm sni); ok (some (some key))

-- The loop over the messages of a chunk.
unfoldable pub first_hello : CaseMap → List TlsMessage → Result ReaderError (Option (Option Text))
first_hello cm [] = ok none
first_hello cm (client_hello sni ∷ ms) = sni_key cm sni
first_hello cm (other_message ∷ ms) = first_hello cm ms

module _ (cm : CaseMap) (tls : TlsParser) (max_header_size : ℕ) where
  unfoldable pub tls_step :
      tls.State → Bytes → tls.State × Result ReaderError (Option (Option Text))
  tls_step s chunk =
      let (s', messages) = tls.feed_initiator s chunk in (s', first_hello cm messages)

  -- `read_tls_sni`.
  unfoldable pub read_tls_sni : List ReadEvent → Option (Result ReadFailure (Option Text × Bytes))
  read_tls_sni es =
      map_result no_timeout (read_until tls_step max_header_size tls.default_parser [] es)
