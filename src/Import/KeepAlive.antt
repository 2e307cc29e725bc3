-- ===== src/Import/KeepAlive.antt =====
-- src/import/multiroute.rs, `handle_multiroute_connection`: the requests of one connection, each routed
-- on its own. What the world does in one turn of the loop is an argument.
pub mod Turns
pub mod Outcomes
mod Tests
use zenoh_bridge_tcp.Prelude.{
  ℕ, suc, ◌+◌, ◌≡◌, ◌⊎◌, inl, inr, refl, Bool, true, false, not, ◌&&◌, List, [], ◌∷◌, ◌++◌, Option,
  some, none, Result, ok, err, ◌==◌, arith, Option-cases, Result-cases, subst, if-cases,
  if◌then◌else◌,
}
use zenoh_bridge_tcp.Text.{Text}
use zenoh_bridge_tcp.Dns.{CaseMap}
use zenoh_bridge_tcp.Metrics.{ConnOutcome}
use zenoh_bridge_tcp.HttpUtil.{http_400_response, http_502_response_keep_alive}
use zenoh_bridge_tcp.Export.Relay.{Bytes}
use zenoh_bridge_tcp.Import.Route.{BackendRoute, host, default_backend, unavailable}
use zenoh_bridge_tcp.Import.Http.{RequestHead, HttpParser, ReaderError, routing_key_from_head}
use zenoh_bridge_tcp.Import.Requests.{
  NextRequest, got, clean_end, malformed, Client, ClientRead, next_request_head,
  consume_request_body,
}
use zenoh_bridge_tcp.Import.Exchange.{
  ExchangeEnd, whole, timeout, overflow, truncated, poisoned, backend_gone, drained, ExchangeError,
  Exchange, ExchangeEvent, run_exchange, new_exchange, ExchangeOutcome, complete, switched_protocol,
  exchange_outcome,
}
use zenoh_bridge_tcp.Import.Exchange.Limits.{run_exchange-reusable}

-- What an exchange's end makes of the connection's outcome.
unfoldable pub end_outcome : ExchangeEnd → ConnOutcome → ConnOutcome
end_outcome whole o = o
end_outcome timeout o = ConnOutcome.failed
end_outcome truncated o = ConnOutcome.failed
end_outcome backend_gone o = ConnOutcome.failed
end_outcome overflow o = ConnOutcome.reset
end_outcome poisoned o = ConnOutcome.reset
end_outcome drained o = ConnOutcome.reset

-- A failed resolution counts as no backend.
abbrev pub route_or_unavailable {ℓ} : {E : Type ℓ} → Result E BackendRoute → BackendRoute
route_or_unavailable (ok r) = r
route_or_unavailable (err e) = unavailable

module _ (cm : CaseMap) (http : HttpParser) (show_error : ReaderError → Text) (max : ℕ) where
  -- The reads for the head, what the resolution says, the reads for a body that is dropped, and what
  -- happens in the exchange, with the outcomes of its puts and writes.
  pub record Turn : Type 0 where
    pub reads : List ClientRead
    pub route : Result Text BackendRoute
    pub body_reads : List ClientRead
    pub events : List ExchangeEvent
    pub io : List Bool

  -- The variables of the loop, the responses that the bridge wrote itself outside of an exchange, and
  -- whether the loop goes on.
  pub record Connection : Type 0 where
    pub client : Client http
    pub outcome : ConnOutcome
    pub request_num : ℕ
    pub answers : List Text
    pub open_still : Bool

  unfoldable pub new_connection : ℕ → Connection
  new_connection max_header_size = record {
    client = record {
      parser = http.with_config max_header_size;
      events = [];
      leftover = [];
      client_eof = false;
    };
    outcome = ConnOutcome.completed;
    request_num = 0;
    answers = [];
    open_still = true;
  }

  abbrev pub refuse : Connection → Connection
  refuse c = record c { outcome = ConnOutcome.reset; open_still = false }

  abbrev pub answer_400 : Text → Connection → Connection
  answer_400 reason c = record c { answers = c.answers ++ http_400_response reason ∷ [] }

  -- A request that cannot be framed is answered where it is the client's fault.
  abbrev pub refuse_malformed : Bool → Text → Connection → Connection
  refuse_malformed true reason c = refuse (answer_400 reason c)
  refuse_malformed false reason c = refuse c

  abbrev pub client_of : Exchange http → Client http
  client_of s = record {
    parser = s.parser;
    events = s.events;
    leftover = s.client_pending;
    client_eof = s.client_eof;
  }

  abbrev pub after_outcome : Exchange http → ExchangeOutcome → Connection → Connection
  after_outcome s (complete keep_alive e) c = record c {
    client = client_of s;
    outcome = end_outcome e c.outcome;
    open_still = keep_alive && not (http.is_done s.parser);
  }
  after_outcome s switched_protocol c = record c { client = client_of s; open_still = false }

  abbrev pub after_exchange : Result ExchangeError (Exchange http) → Connection → Connection
  after_exchange (err e) c = record c { outcome = ConnOutcome.failed; open_still = false }
  after_exchange (ok s) c = after_outcome s (exchange_outcome http s) c

  abbrev pub exchange_of :
      Turn → Client http → RequestHead → Text → Result ExchangeError (Exchange http)
  exchange_of t c h dns =
      run_exchange http max dns (new_exchange http c.parser c.events c.leftover c.client_eof t.io)
        h.raw t.events

  -- The body of a request that no backend takes is dropped; none while it is still read.
  abbrev pub after_body : Option (Client http) → Text → Connection → Option Connection
  after_body none dns c = none
  after_body (some client) dns c =
      some
        (record c { client = client; answers = c.answers ++ http_502_response_keep_alive dns ∷ [] })

  abbrev pub after_route : BackendRoute → Turn → RequestHead → Text → Connection → Option Connection
  after_route unavailable t h dns c =
      after_body (consume_request_body http c.client t.body_reads) dns c
  after_route host t h dns c = some (after_exchange (exchange_of t c.client h dns) c)
  after_route default_backend t h dns c = some (after_exchange (exchange_of t c.client h dns) c)

  abbrev pub after_key :
      Result ReaderError Text → Turn → RequestHead → Connection → Option Connection
  after_key (err e) t h c = some (refuse (answer_400 (show_error e) c))
  after_key (ok dns) t h c = after_route (route_or_unavailable t.route) t h dns c

  abbrev pub after_head : Option (NextRequest × Client http) → Turn → Connection → Option Connection
  after_head none t c = none
  after_head (some (clean_end, client)) t c =
      some (record c { client = client; open_still = false })
  after_head (some (malformed fault reason, client)) t c =
      some (refuse_malformed fault reason (record c { client = client }))
  after_head (some (got h, client)) t c =
      after_key (routing_key_from_head cm h) t h
        (record c { client = client; request_num = suc c.request_num })

  -- One turn of the loop: none while it waits for the client.
  unfoldable pub serve : Turn → Connection → Option Connection
  serve t c = after_head (next_request_head http (c.request_num == 0) c.client t.reads) t c

  -- The loop: what there is of the connection when it waits, or closes.
  unfoldable pub serve_all : List Turn → Connection → Connection
  serve_all [] c = c
  serve_all (t ∷ ts) c =
      if c.open_still then elim (serve t c) [ none ↦ c | some c' ↦ serve_all ts c' ] else c
