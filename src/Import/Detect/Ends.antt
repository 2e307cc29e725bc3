-- ===== src/Import/Detect/Ends.antt =====
-- The handlers of src/import/auto.rs and src/import/connection.rs: where each of them takes a
-- connection.
use zenoh_bridge_tcp.Prelude.{
  sym, ◌∙◌, Bool, true, false, [], Option, some, none, Result, ok, err, append-nil,
}
use zenoh_bridge_tcp.Text.{Text}
use zenoh_bridge_tcp.Export.Relay.{Bytes}
use zenoh_bridge_tcp.Import.Http.{ReaderError}
use zenoh_bridge_tcp.Import.Head.{ReadHeadOutcome, parsed, timeout, HeadError}
use zenoh_bridge_tcp.Import.Head.Verbatim.{Replay}
use zenoh_bridge_tcp.Import.Readers.{ReadFailure}
use zenoh_bridge_tcp.Import.Route.{FirstDone}
use zenoh_bridge_tcp.Import.Detect.{
  Fate, bridged, websocket, Handler, tls_fate, http_fate, handshaken, websocket_fate, h2c_fate,
}
use zenoh_bridge_tcp.Import.Detect.Served.{SomeAll, StartOf, Handed, IsServed, by_route-IsServed}

module _ (env : Handler) where
  open env use {
    cm, http, http2, tls_parser, classify_first_bytes, max_header_size, token_alive, service,
  }

  abbrev pub Seen : Bytes → Type 0 → Fate → Type 0
  Seen total Opaque fate = IsServed token_alive service total Opaque fate

  abbrev pub tls_end : Result ReadFailure (Option Text × Bytes) → FirstDone → Fate
  tls_end = tls_fate env

  abbrev pub http_end : Result ReadFailure (Text × Bytes) → FirstDone → Fate
  http_end = http_fate env

  abbrev handshake_end : Bool → Option Text → Fate
  handshake_end = handshaken env

  abbrev pub websocket_end : Result ReaderError Text → FirstDone → Bool → Fate
  websocket_end = websocket_fate env

  abbrev pub h2c_end : Result (HeadError ReaderError) (ReadHeadOutcome Text) → FirstDone → Fate
  h2c_end = h2c_fate env

  pub tls_fate-IsServed :
      (total : Bytes) (Opaque : Type 0) (first : FirstDone)
      (r : Result ReadFailure (Option Text × Bytes))
      → Handed (Option Text) total r
      → Seen total Opaque (tls_end r first)
  unfolding tls_fate IsServed
  tls_fate-IsServed total Opaque first (err e) h = tt
  tls_fate-IsServed total Opaque first (ok (some dns, buffer)) h =
      by_route-IsServed token_alive service total Opaque (some dns) first _ _ _ (λ a. (a, h))
        (λ a. (a, h)) (λ a. a)
  tls_fate-IsServed total Opaque first (ok (none, buffer)) h =
      by_route-IsServed token_alive service total Opaque none first _ _ _ (λ a. (a, h))
        (λ a. (a, h)) (λ a. a)

  pub http_fate-IsServed :
      (total : Bytes) (Opaque : Type 0) (first : FirstDone) (r : Result ReadFailure (Text × Bytes))
      → Handed Text total r
      → Seen total Opaque (http_end r first)
  unfolding http_fate IsServed
  http_fate-IsServed total Opaque first (err e) h = tt
  http_fate-IsServed total Opaque first (ok (dns, buffer)) h =
      by_route-IsServed token_alive service total Opaque (some dns) first _ _ _ (λ a. (a, h))
        (λ a. (a, h)) (λ a. a)

  handshaken-IsServed :
      (total : Bytes) (Opaque : Type 0) (done : Bool) (dns : Option Text)
      → Seen total Opaque (bridged dns none websocket)
      → Seen total Opaque (handshake_end done dns)
  unfolding IsServed
  handshaken-IsServed total Opaque true dns h = h
  handshaken-IsServed total Opaque false dns h = tt

  pub websocket_fate-IsServed :
      (total : Bytes) (Opaque : Type 0) (first : FirstDone) (handshake : Bool)
      (key : Result ReaderError Text)
      → Seen total Opaque (websocket_end key first handshake)
  unfolding websocket_fate IsServed
  websocket_fate-IsServed total Opaque first handshake (err e) = tt
  websocket_fate-IsServed total Opaque first handshake (ok dns) =
      by_route-IsServed token_alive service total Opaque (some dns) first _ _ _
        (λ a. handshaken-IsServed total Opaque handshake (some dns) (a, tt))
        (λ a. handshaken-IsServed total Opaque handshake none a) (λ a. a)

  -- What a reader at an HTTP/2 connection hands on, at its deadline too.
  abbrev pub H2Handed : Bytes → Result (HeadError ReaderError) (ReadHeadOutcome Text) → Type 0
  H2Handed total (err e) = Unit
  H2Handed total (ok (parsed dns buffer)) = StartOf total buffer
  H2Handed total (ok (timeout partial)) = StartOf total partial

  pub Replay-H2Handed :
      (total : Bytes) (m : Option (Result (HeadError ReaderError) (ReadHeadOutcome Text)))
      → Replay max_header_size total m
      → SomeAll (H2Handed total) m
  unfolding Replay
  Replay-H2Handed total none h = tt
  Replay-H2Handed total (some (err e)) h = tt
  Replay-H2Handed total (some (ok (parsed dns buffer))) (unread, cut, small) = (unread, cut)
  Replay-H2Handed total (some (ok (timeout partial))) (same, small) =
      ([], sym same ∙ sym (append-nil partial))

  pub h2c_fate-IsServed :
      (total : Bytes) (Opaque : Type 0) (first : FirstDone)
      (r : Result (HeadError ReaderError) (ReadHeadOutcome Text))
      → H2Handed total r
      → Seen total Opaque (h2c_end r first)
  unfolding h2c_fate IsServed
  h2c_fate-IsServed total Opaque first (err e) h = tt
  h2c_fate-IsServed total Opaque first (ok (parsed dns buffer)) h =
      by_route-IsServed token_alive service total Opaque (some dns) first _ _ _ (λ a. (a, h))
        (λ a. (a, h)) (λ a. a)
  h2c_fate-IsServed total Opaque first (ok (timeout partial)) h =
      by_route-IsServed token_alive service total Opaque none first _ _ _ (λ a. (a, h))
        (λ a. (a, h)) (λ a. a)
