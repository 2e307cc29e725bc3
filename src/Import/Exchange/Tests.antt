-- ===== src/Import/Exchange/Tests.antt =====
-- An exchange of src/import/multiroute.rs at concrete runs, and the heads of its unit tests.
use zenoh_bridge_tcp.Prelude.{◌≡◌, refl, true, false, List, [], ◌∷◌, some, ok}
use zenoh_bridge_tcp.Text.{codes}
use zenoh_bridge_tcp.Text.Split.{split}
use zenoh_bridge_tcp.Import.Parser.{
  initiator, responder, push_bytes, push_loop, drain_events, drain_loop,
}
use zenoh_bridge_tcp.Import.Parser.Tests.{nothing_taken}
use zenoh_bridge_tcp.Import.Http.{ResponseHead, HttpEvent, request_head, body, end}
use zenoh_bridge_tcp.Import.Readers.Tests.{small_http, api_head}
use zenoh_bridge_tcp.Import.Exchange.Close.{response_wants_close, names_token, trim}
use zenoh_bridge_tcp.Import.Exchange.{
  whole, head, part, Exchange, publish, write, relay_part, handle, process, offer_client,
  offer_response, finish_side, reoffer, advance, ExchangeEvent, client_bytes, sample, exchange_step,
  exchange_run, run_exchange, new_exchange, exchange_outcome,
}
use zenoh_bridge_tcp.Import.Exchange.Limits.{Kept, run_exchange-Kept, run_exchange-reusable}
use zenoh_bridge_tcp.Import.Exchange.Verbatim.{Splits, process-Splits}

abbrev fresh : Exchange small_http
fresh = new_exchange small_http nothing_taken [] [] false []

-- The rest of a request with the head of the next one behind it, and a response in two samples.
abbrev one_exchange : List ExchangeEvent
one_exchange = client_bytes (20 ∷ 21 ∷ 10 ∷ []) ∷ sample (30 ∷ 31 ∷ []) ∷ sample (31 ∷ 32 ∷ []) ∷ []

-- What it leaves: the next head waits.
abbrev answered : Exchange small_http
answered = record fresh {
  parser = record { up = 20 ∷ 21 ∷ 10 ∷ []; down = 30 ∷ 31 ∷ 31 ∷ 32 ∷ []; queue = [] };
  events = request_head api_head ∷ [];
  request_done = true;
  response_done = true;
  bytes_written = 3;
  up = 2;
  down = 3;
  puts = (10 ∷ []) ∷ (20 ∷ []) ∷ [];
  sent = head (30 ∷ []) ∷ part (31 ∷ []) ∷ part (31 ∷ []) ∷ [];
  over = true;
}

exchanged : run_exchange small_http 16 (codes "a") fresh (10 ∷ []) one_exchange ≡ ok answered
unfolding run_exchange publish advance reoffer process handle write relay_part offer_client
    offer_response finish_side exchange_run exchange_step push_bytes push_loop drain_events
    drain_loop response_wants_close names_token
exchanged = refl

run_exchange-Kept_example : Kept small_http 16 answered
run_exchange-Kept_example =
    run_exchange-Kept small_http 16 (codes "a") nothing_taken [] [] (10 ∷ []) false [] one_exchange
      exchanged

run_exchange-reusable_example :
    (whole ≡ whole)
    × (answered.answer ≡ [])
    × (answered.response_done ≡ true)
    × (answered.client_eof ≡ false)
unfolding exchange_outcome
run_exchange-reusable_example =
    run_exchange-reusable small_http 16 (codes "a") nothing_taken [] [] (10 ∷ []) false []
      one_exchange exchanged refl

abbrev queued_events : List HttpEvent
queued_events =
    body initiator (1 ∷ [])
    ∷ end initiator
    ∷ request_head api_head
    ∷ body responder (2 ∷ [])
    ∷ body initiator (3 ∷ [])
    ∷ end responder
    ∷ body responder (4 ∷ [])
    ∷ []

abbrev behind_queue : Exchange small_http
behind_queue = record fresh {
  events = request_head api_head ∷ body initiator (3 ∷ []) ∷ body responder (4 ∷ []) ∷ [];
  request_done = true;
  response_done = true;
  bytes_written = 1;
  up = 1;
  down = 1;
  puts = (1 ∷ []) ∷ [];
  sent = part (2 ∷ []) ∷ [];
}

queue_processed : process small_http 16 [] fresh queued_events ≡ ok (true, behind_queue)
unfolding process handle publish write relay_part
queue_processed = refl

process-Splits_example : Splits small_http 16 [] fresh queued_events true behind_queue
process-Splits_example = process-Splits small_http 16 fresh queued_events queue_processed

abbrev plain_head : ResponseHead
plain_head = record {
  raw = [];
  interim = false;
  until_close = false;
  http_1_0 = false;
  connection = [];
}

close_heads :
    (response_wants_close plain_head ≡ false)
    × (response_wants_close (record plain_head { connection = some (codes "Upgrade, Close") ∷ [] })
        ≡ true)
    × (response_wants_close (record plain_head { http_1_0 = true }) ≡ true)
    × (response_wants_close
          (record plain_head { http_1_0 = true; connection = some (codes "keep-alive") ∷ [] })
        ≡ false)
unfolding response_wants_close names_token split trim
close_heads = (refl, refl, refl, refl)
