-- ===== src/Import/KeepAlive/Tests.antt =====
-- A connection of two requests through src/import/multiroute.rs.
use zenoh_bridge_tcp.Prelude.{◌≡◌, ◌≢◌, inl, refl, true, false, List, [], ◌∷◌, ◌++◌, none, ok}
use zenoh_bridge_tcp.Text.{Text, codes, parse_u16}
use zenoh_bridge_tcp.Dns.{routing_key, bare_host, check_key, has_explicit_port}
use zenoh_bridge_tcp.Dns.Tests.{kelvin_map}
use zenoh_bridge_tcp.Metrics.{ConnOutcome}
use zenoh_bridge_tcp.HttpUtil.{http_502_response_keep_alive}
use zenoh_bridge_tcp.Import.Route.{host, unavailable}
use zenoh_bridge_tcp.Import.Parser.{push_bytes, push_loop, drain_events, drain_loop}
use zenoh_bridge_tcp.Import.Parser.Tests.{nothing_taken}
use zenoh_bridge_tcp.Import.Http.{ReaderError, routing_key_from_head}
use zenoh_bridge_tcp.Import.Readers.Tests.{small_http}
use zenoh_bridge_tcp.Import.Exchange.{
  publish, write, relay_part, handle, process, offer_client, offer_response, reoffer, advance,
  sample, client_bytes, exchange_step, exchange_run, run_exchange, exchange_outcome,
}
use zenoh_bridge_tcp.Import.Exchange.Close.{response_wants_close, names_token}
use zenoh_bridge_tcp.Import.Requests.{
  Client, bytes, drained, next_request_head, consume_request_body, settle, settle_body, offer,
  pop_head, pop_body,
}
use zenoh_bridge_tcp.Import.Requests.Progress.{Takes, next_request_head_answers}
use zenoh_bridge_tcp.Import.KeepAlive.{
  Turn, Connection, new_connection, serve, serve_all, end_outcome,
}

abbrev no_text : ReaderError → Text
no_text e = []

-- No backend for the first request, whose body is dropped; the second is served.
abbrev two_turns : List (Turn kelvin_map small_http no_text 16)
two_turns =
    record {
      reads = bytes (10 ∷ 20 ∷ 21 ∷ []) ∷ [];
      route = ok unavailable;
      body_reads = [];
      events = [];
      io = [];
    }
    ∷ record {
      reads = bytes (10 ∷ []) ∷ [];
      route = ok host;
      body_reads = [];
      events = client_bytes (21 ∷ []) ∷ sample (30 ∷ 31 ∷ 32 ∷ []) ∷ [];
      io = [];
    }
    ∷ []

abbrev served : Connection kelvin_map small_http no_text 16
served =
    serve_all kelvin_map small_http no_text 16 two_turns
      (new_connection kelvin_map small_http no_text 16 1024)

both_answered :
    (served.answers ≡ http_502_response_keep_alive (codes "api.local") ∷ [])
    × (served.request_num ≡ 2)
    × (served.open_still ≡ true)
    × (served.outcome ≡ ConnOutcome.completed)
unfolding serve_all serve new_connection next_request_head settle settle_body offer pop_head
    pop_body consume_request_body push_bytes push_loop drain_events drain_loop routing_key_from_head
    routing_key bare_host check_key has_explicit_port parse_u16 run_exchange publish advance reoffer
    process handle write relay_part offer_client offer_response exchange_run exchange_step
    response_wants_close names_token exchange_outcome end_outcome
both_answered = (refl, refl, refl, refl)

abbrev at_first : Connection kelvin_map small_http no_text 16
at_first = new_connection kelvin_map small_http no_text 16 1024

small_http-Takes : Takes small_http
small_http-Takes s b [] quiet open_side = inl (λ e. cc)
small_http-Takes s b (c ∷ bs) quiet open_side = inl (λ e. cc)

abbrev waiting : Client small_http
waiting = record {
  parser = nothing_taken;
  events = [];
  leftover = 1 ∷ 2 ∷ 3 ∷ [];
  client_eof = false;
}

next_request_head_answers_example :
    next_request_head small_http true waiting ((bytes (4 ∷ 5 ∷ []) ∷ []) ++ drained ∷ []) ≢ none
next_request_head_answers_example =
    next_request_head_answers small_http true waiting (bytes (4 ∷ 5 ∷ []) ∷ []) small_http-Takes
      refl
