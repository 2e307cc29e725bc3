-- ===== src/Import/Exchange.antt =====
-- src/import/multiroute.rs, `run_exchange` behind its set-up: one request and its response over a
-- keep-alive connection, as a machine of what its `select` may be woken by.
pub mod Close
pub mod Limits
pub mod Verbatim
mod Tests
use zenoh_bridge_tcp.Prelude.{
  ℕ, ◌+◌, Bool, true, false, not, ◌||◌, ◌&&◌, List, [], ◌∷◌, ◌++◌, Option, some, none, Result, ok,
  err, ◌>>=◌, ok_or, length, ltb, ◌==◌, if◌then◌else◌,
}
use zenoh_bridge_tcp.Text.{Text, is_empty}
use zenoh_bridge_tcp.Spec.{unwrap_or}
use zenoh_bridge_tcp.Metrics.{fetch_add}
use zenoh_bridge_tcp.HttpUtil.{http_400_response, http_502_response, http_504_response}
use zenoh_bridge_tcp.Export.Relay.{Bytes}
use zenoh_bridge_tcp.Import.Parser.{Side, initiator, responder, push_bytes, drain_events}
use zenoh_bridge_tcp.Import.Http.{
  ResponseHead, HttpEvent, request_head, response_head, body, trailers, end, switch_protocols,
  Poison, HttpParser,
}
use zenoh_bridge_tcp.Import.Exchange.Close.{response_wants_close}

-- How a non-switched exchange ended.
pub data ExchangeEnd : Type 0 where
  whole timeout overflow truncated poisoned backend_gone drained : ExchangeEnd

-- What the client was written of the response: a head, or a part of the body or the trailers.
pub data Chunk : Type 0 where
  head part : Bytes → Chunk

pub data ExchangeError : Type 0 where
  put_failed write_failed client_failed : ExchangeError

-- What becomes of an event: it was acted on, it waits for the next request, or it ends the exchange.
pub data Handled : Type 0 where
  acted deferred stopped : Handled

-- What wakes the `select`: bytes of the client, none at its end; its failure; a sample, empty at the
-- backend's end; the end of the channel; the idle budget; the overflow; the drain.
pub data ExchangeEvent : Type 0 where
  client_bytes sample : Bytes → ExchangeEvent
  client_fails rx_closed idle overflowed drain : ExchangeEvent

pub data ExchangeOutcome : Type 0 where
  complete : Bool → ExchangeEnd → ExchangeOutcome
  switched_protocol : ExchangeOutcome

-- The next outcomes of puts and writes; behind the last, they succeed.
abbrev pub attempt : List Bool → Option (List Bool)
attempt [] = some []
attempt (true ∷ io) = some io
attempt (false ∷ io) = none

module _ (http : HttpParser) where
  -- The variables of the loop, with what was published, what was written, the response that the
  -- bridge writes itself, and whether the client's stream was shut.
  pub record Exchange : Type 0 where
    pub parser : http.parser.State
    pub events : List HttpEvent
    pub client_pending : Bytes
    pub resp_pending : Bytes
    pub client_eof : Bool
    pub request_done : Bool
    pub response_done : Bool
    pub switched : Bool
    pub keep_alive : Bool
    pub ended : ExchangeEnd
    pub bytes_written : ℕ
    pub up : ℕ
    pub down : ℕ
    pub puts : List Bytes
    pub sent : List Chunk
    pub answer : List Text
    pub shut : Bool
    pub over : Bool
    pub io : List Bool

  -- A put to the backend.
  unfoldable pub publish : Exchange → Bytes → Result ExchangeError Exchange
  publish s raw = do
    io ← ok_or (attempt s.io) put_failed
    ok (record s { puts = s.puts ++ raw ∷ []; up = fetch_add s.up (length raw); io = io })

  -- A write to the client, with its count.
  unfoldable pub write : Exchange → (Bytes → Chunk) → Bytes → Result ExchangeError Exchange
  write s kind raw = do
    io ← ok_or (attempt s.io) write_failed
    ok (record s {
      sent = s.sent ++ kind raw ∷ [];
      bytes_written = s.bytes_written + length raw;
      down = fetch_add s.down (length raw);
      io = io;
    })

  abbrev pub acting : Result ExchangeError Exchange → Result ExchangeError (Exchange × Handled)
  acting (ok s) = ok (s, acted)
  acting (err e) = err e

  abbrev pub truncate : Exchange → Exchange
  truncate s = record s { keep_alive = false; ended = truncated }

  -- A part of the response: the limit comes before the write.
  unfoldable pub relay_part : ℕ → Exchange → Bytes → Result ExchangeError (Exchange × Handled)
  relay_part max s raw =
      if ltb max (s.bytes_written + length raw)
      then ok (truncate s, stopped)
      else acting (write s part raw)

  abbrev pub note_close : Exchange → ResponseHead → Exchange
  note_close s rh =
      if not rh.interim && response_wants_close rh then record s { keep_alive = false } else s

  -- The match on an event.
  unfoldable pub handle : ℕ → Exchange → HttpEvent → Result ExchangeError (Exchange × Handled)
  handle max s (body initiator raw) =
      if s.request_done then ok (s, deferred) else acting (publish s raw)
  handle max s (trailers initiator raw) =
      if s.request_done then ok (s, deferred) else acting (publish s raw)
  handle max s (end initiator) =
      if s.request_done then ok (s, deferred) else ok (record s { request_done = true }, acted)
  handle max s (response_head rh) = acting (write (note_close s rh) head rh.raw)
  handle max s (body responder raw) = relay_part max s raw
  handle max s (trailers responder raw) = relay_part max s raw
  handle max s (end responder) = ok (record s { response_done = true }, stopped)
  handle max s switch_protocols = ok (record s { switched = true }, stopped)
  handle max s (request_head h) = ok (s, deferred)

  -- The loop over the events, with those carried aside, which are put back in front.
  unfoldable pub process :
      ℕ → List HttpEvent → Exchange → List HttpEvent → Result ExchangeError (Bool × Exchange)
  process max carry s [] = ok (false, record s { events = carry })
  process max carry s (ev ∷ evs) = handle max s ev >>= λ r. elim r.1 [
    | acted ↦ process max carry r.0 evs
    | deferred ↦ process max (carry ++ ev ∷ []) r.0 evs
    | stopped ↦ ok (true, record r.0 { events = carry ++ evs })
  ]

  -- Bytes of a side go into the parser, and its events behind those that wait.
  unfoldable pub offer_client : Exchange → Bytes → Exchange
  offer_client s bytes =
      let (p, rest) = push_bytes http.parser initiator s.parser bytes in
      let (p', events) = drain_events http.parser p s.events in
      record s { parser = p'; events = events; client_pending = rest }

  unfoldable pub offer_response : Exchange → Bytes → Exchange
  offer_response s bytes =
      let (p, rest) = push_bytes http.parser responder s.parser bytes in
      let (p', events) = drain_events http.parser p s.events in
      record s { parser = p'; events = events; resp_pending = rest }

  unfoldable pub finish_side : Side → Exchange → Exchange
  finish_side d s =
      let (p, events) = drain_events http.parser (http.fin d s.parser) s.events in
      record s { parser = p; events = events }

  -- The tails that were refused are offered again.
  unfoldable pub reoffer : Exchange → Exchange
  reoffer s =
      let s1 = if is_empty s.client_pending then s else offer_client s s.client_pending in
      if is_empty s1.resp_pending then s1 else offer_response s1 s1.resp_pending

  -- The exchange ends in another way than its response: nothing follows on the connection.
  abbrev pub break_off : ExchangeEnd → Exchange → Exchange
  break_off e s = record s { keep_alive = false; ended = e; over = true }

  -- A response of the bridge's own, where the client has had nothing yet; a failed write is ignored.
  abbrev pub write_answer : Option (List Bool) → Exchange → Text → Exchange
  write_answer (some io) s text = record s { answer = s.answer ++ text ∷ []; shut = true; io = io }
  write_answer none s text = record s { shut = true }

  unfoldable pub answer_with : Exchange → Text → Exchange
  answer_with s text = if s.bytes_written == 0 then write_answer (attempt s.io) s text else s

  abbrev pub poison_answer : Text → Poison → Text
  poison_answer dns p =
      if unwrap_or p.client_fault true then http_400_response p.reason else http_502_response dns

  abbrev pub refuse_poison : Text → Option Poison → Exchange → Exchange
  refuse_poison dns none s = s
  refuse_poison dns (some p) s = break_off poisoned (answer_with s (poison_answer dns p))

  -- The top of the loop, up to the `select`.
  unfoldable pub advance : ℕ → Text → Exchange → Result ExchangeError Exchange
  advance max dns s = do
    let s1 = reoffer s
    (stop, s2) ← process max [] s1 s1.events
    ok (if stop then record s2 { over = true } else refuse_poison dns (http.poison s2.parser) s2)

  -- The client is read while its request is not complete and no tail of it waits.
  abbrev pub reads_client : Exchange → Bool
  reads_client s = not s.request_done && (not s.client_eof && is_empty s.client_pending)

  abbrev pub on_client_bytes : Exchange → Bytes → Exchange
  on_client_bytes s [] = finish_side initiator (record s { client_eof = true })
  on_client_bytes s (b ∷ bs) = offer_client s (b ∷ bs)

  abbrev pub on_response_sample : Exchange → Bytes → Exchange
  on_response_sample s [] = finish_side responder s
  on_response_sample s (b ∷ bs) = offer_response s (b ∷ bs)

  -- One turn of the loop from the `select` on.
  unfoldable pub exchange_step : ℕ → Text → Exchange → ExchangeEvent → Result ExchangeError Exchange
  exchange_step max dns s (client_bytes bytes) =
      if reads_client s then advance max dns (on_client_bytes s bytes) else ok s
  exchange_step max dns s client_fails = if reads_client s then err client_failed else ok s
  exchange_step max dns s (sample bytes) = advance max dns (on_response_sample s bytes)
  exchange_step max dns s rx_closed =
      ok (break_off backend_gone (answer_with s (http_502_response dns)))
  exchange_step max dns s idle = ok (break_off timeout (answer_with s http_504_response))
  exchange_step max dns s overflowed = ok (break_off overflow s)
  exchange_step max dns s drain = ok (break_off drained s)

  unfoldable pub exchange_run :
      ℕ → Text → Exchange → List ExchangeEvent → Result ExchangeError Exchange
  exchange_run max dns s [] = ok s
  exchange_run max dns s (ev ∷ evs) =
      if s.over then ok s else exchange_step max dns s ev >>= λ s'. exchange_run max dns s' evs

  -- The variables at their first values.
  abbrev pub new_exchange : http.parser.State → List HttpEvent → Bytes → Bool → List Bool → Exchange
  new_exchange p events pending eof io = record {
    parser = p;
    events = events;
    client_pending = pending;
    resp_pending = [];
    client_eof = eof;
    request_done = false;
    response_done = false;
    switched = false;
    keep_alive = true;
    ended = whole;
    bytes_written = 0;
    up = 0;
    down = 0;
    puts = [];
    sent = [];
    answer = [];
    shut = false;
    over = false;
    io = io;
  }

  -- An exchange: the head is forwarded, and the loop runs.
  unfoldable pub run_exchange :
      ℕ → Text → Exchange → Bytes → List ExchangeEvent → Result ExchangeError Exchange
  run_exchange max dns s raw evs = do
    s1 ← publish s raw
    s2 ← advance max dns s1
    exchange_run max dns s2 evs

  -- Behind the loop, once it is over.
  unfoldable pub exchange_outcome : Exchange → ExchangeOutcome
  exchange_outcome s =
      if s.switched
      then switched_protocol
      else complete (s.keep_alive && (s.response_done && not s.client_eof)) s.ended
