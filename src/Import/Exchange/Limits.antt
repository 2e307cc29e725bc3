-- ===== src/Import/Exchange/Limits.antt =====
-- What an exchange of src/import/multiroute.rs writes to its client, and whether its connection goes on.
use zenoh_bridge_tcp.Prelude.{
  ℕ, ◌+◌, ◌≡◌, ◌≤◌, ◌⊎◌, inl, inr, refl, subst, Bool, true, false, List, [], ◌∷◌, ◌++◌, Option,
  some, none, Result, ok, err, ◌>>=◌, length, ltb, ◌==◌, arith, Bool-cases, Option-cases, OkAll,
  OkAll-bind, Result-cases, not, ◌&&◌, if-elim, if-cases, if◌then◌else◌, ==_iff,
}
use zenoh_bridge_tcp.Text.{Text, is_empty}
use zenoh_bridge_tcp.HttpUtil.{http_502_response, http_504_response}
use zenoh_bridge_tcp.Export.Relay.{Bytes}
use zenoh_bridge_tcp.Import.Parser.{Side, initiator, responder}
use zenoh_bridge_tcp.Import.Http.{
  ResponseHead, HttpEvent, request_head, response_head, body, trailers, end, switch_protocols,
  HttpParser, Poison,
}
use zenoh_bridge_tcp.Import.Exchange.Close.{response_wants_close}
use zenoh_bridge_tcp.Import.Exchange.{
  ExchangeEnd, whole, poisoned, backend_gone, timeout, poison_answer, Chunk, head, part,
  ExchangeError, Handled, acted, deferred, stopped, attempt, Exchange, publish, write, acting,
  relay_part, note_close, handle, process, offer_client, offer_response, finish_side, reoffer,
  break_off, answer_with, refuse_poison, advance, ExchangeEvent, on_client_bytes,
  on_response_sample, reads_client, exchange_step, exchange_run, new_exchange, run_exchange,
  exchange_outcome, complete, client_bytes, sample, client_fails, rx_closed, idle, overflowed,
  drain,
}

abbrev pub chunk_length : Chunk → ℕ
chunk_length (head b) = length b
chunk_length (part b) = length b

abbrev pub total : List Chunk → ℕ
total [] = 0
total (c ∷ cs) = chunk_length c + total cs

-- Behind every part of a body or of trailers, no more than the limit has been written.
abbrev pub Capped : ℕ → ℕ → List Chunk → Type 0
Capped max written [] = Unit {0}
Capped max written (head b ∷ cs) = Capped max (written + length b) cs
Capped max written (part b ∷ cs) = (written + length b ≤ max) × Capped max (written + length b) cs

Capped-append :
    (max written : ℕ) (cs ds : List Chunk)
    → Capped max written cs
    → Capped max (written + total cs) ds
    → Capped max written (cs ++ ds)
Capped-append max written [] ds h h' = subst (λ z. Capped max z ds) (omega arith) h'
Capped-append max written (head b ∷ cs) ds h h' =
    Capped-append max (written + length b) cs ds h (subst (λ z. Capped max z ds) (omega arith) h')
Capped-append max written (part b ∷ cs) ds h h' = (
  h.0,
  Capped-append max (written + length b) cs ds h.1 (subst (λ z. Capped max z ds) (omega arith) h'),
)

total-append : (cs ds : List Chunk) → total (cs ++ ds) ≡ total cs + total ds
total-append [] ds = omega arith
total-append (c ∷ cs) ds = omega (arith, total-append cs ds)

module _ (http : HttpParser) (max : ℕ) where
  -- The limit is kept, the count is right, and an exchange that did not end whole closes.
  abbrev pub Sound : Exchange http → Type 0
  Sound s =
      Capped max 0 s.sent
      × (total s.sent ≡ s.bytes_written)
      × ((s.ended ≡ whole) ⊎ (s.keep_alive ≡ false))

  -- So far, the bridge has written nothing of its own.
  abbrev Live : Exchange http → Type 0
  Live s = Sound s × (s.answer ≡ [])

  publish-Live : (s : Exchange http) (raw : Bytes) → Live s → OkAll Live (publish http s raw)
  unfolding publish
  publish-Live s raw h = elim (Option-cases (attempt s.io)) [
    | inl e ↦ rw e tt
    | inr (io, e) ↦ rw e h
  ]

  write-Live :
      (s : Exchange http) (kind : Bytes → Chunk) (raw : Bytes)
      → ((b : Bytes) → chunk_length (kind b) ≡ length b)
      → Capped max s.bytes_written (kind raw ∷ [])
      → Live s
      → OkAll Live (write http s kind raw)
  unfolding write
  write-Live s kind raw same fits h = elim (Option-cases (attempt s.io)) [
    | inl e ↦ rw e tt
    | inr (io, e) ↦ rw e (
      let count : s.bytes_written ≡ 0 + total s.sent = omega (arith, h.0.1) in
          (
            Capped-append max 0 s.sent (kind raw ∷ []) h.0.0
                (subst (λ z. Capped max z (kind raw ∷ [])) count fits),
            omega (arith, total-append s.sent (kind raw ∷ []), same raw, h.0.1),
            h.0.2,
          ),
      h.1,
    )
  ]

  -- An event was handled, and the state is as good as before.
  abbrev LiveNext : Exchange http × Handled → Type 0
  LiveNext (s, h) = Live s

  acting-LiveNext :
      (r : Result ExchangeError (Exchange http)) → OkAll Live r → OkAll LiveNext (acting http r)
  acting-LiveNext (ok s) h = h
  acting-LiveNext (err e) h = tt

  relay_part-LiveNext :
      (s : Exchange http) (raw : Bytes) → Live s → OkAll LiveNext (relay_part http max s raw)
  unfolding relay_part
  relay_part-LiveNext s raw h = elim (Bool-cases (ltb max (s.bytes_written + length raw))) [
    | inl e ↦ rw e ((h.0.0, h.0.1, inr refl), h.1)
    | inr e ↦ rw e (
        acting-LiveNext (write http s part raw)
          (write-Live s part raw (λ b. refl) (ground arith, tt) h))
  ]

  note_close-Live : (s : Exchange http) (rh : ResponseHead) → Live s → Live (note_close http s rh)
  note_close-Live s rh h =
      if-elim Live (not rh.interim && response_wants_close rh) ((h.0.0, h.0.1, inr refl), h.1) h

  handle-LiveNext :
      (s : Exchange http) (ev : HttpEvent) → Live s → OkAll LiveNext (handle http max s ev)
  unfolding handle
  handle-LiveNext s (request_head rh) h = h
  handle-LiveNext s (response_head rh) h =
      acting-LiveNext (write http (note_close http s rh) head rh.raw)
        (write-Live (note_close http s rh) head rh.raw (λ b. refl) tt (note_close-Live s rh h))
  handle-LiveNext s (body initiator raw) h =
      if-elim (OkAll LiveNext) s.request_done h
        (acting-LiveNext (publish http s raw) (publish-Live s raw h))
  handle-LiveNext s (body responder raw) h = relay_part-LiveNext s raw h
  handle-LiveNext s (trailers initiator raw) h =
      if-elim (OkAll LiveNext) s.request_done h
        (acting-LiveNext (publish http s raw) (publish-Live s raw h))
  handle-LiveNext s (trailers responder raw) h = relay_part-LiveNext s raw h
  handle-LiveNext s (end initiator) h = if-elim (OkAll LiveNext) s.request_done h h
  handle-LiveNext s (end responder) h = h
  handle-LiveNext s switch_protocols h = h

  handled-Live :
      (s : Exchange http) (ev : HttpEvent) {s' : Exchange http} {h : Handled}
      → handle http max s ev ≡ ok (s', h)
      → Live s
      → Live s'
  handled-Live s ev e h = subst (λ r. OkAll LiveNext r) e (handle-LiveNext s ev h)

  -- The loop over the events.
  abbrev LiveTurn : Bool × Exchange http → Type 0
  LiveTurn (stop, s) = Live s

  process-LiveTurn :
      (carry : List HttpEvent) (s : Exchange http) (evs : List HttpEvent)
      → Live s
      → OkAll LiveTurn (process http max carry s evs)
  unfolding process
  process-LiveTurn carry s [] h = h
  process-LiveTurn carry s (ev ∷ evs) h = elim (Result-cases (handle http max s ev)) [
    | inr (why, e) ↦ rw e tt
    | inl ((s', acted), e) ↦ rw e (process-LiveTurn carry s' evs (handled-Live s ev e h))
    | inl ((s', deferred), e) ↦
        rw e (process-LiveTurn (carry ++ ev ∷ []) s' evs (handled-Live s ev e h))
    | inl ((s', stopped), e) ↦ rw e (handled-Live s ev e h)
  ]

  offer_client-Live :
      (s : Exchange http) (bytes : Bytes) → Live s → Live (offer_client http s bytes)
  unfolding offer_client
  offer_client-Live s bytes h = h

  offer_response-Live :
      (s : Exchange http) (bytes : Bytes) → Live s → Live (offer_response http s bytes)
  unfolding offer_response
  offer_response-Live s bytes h = h

  finish_side-Live : (d : Side) (s : Exchange http) → Live s → Live (finish_side http d s)
  unfolding finish_side
  finish_side-Live d s h = h

  reoffer-Live : (s : Exchange http) → Live s → Live (reoffer http s)
  unfolding reoffer
  reoffer-Live s h =
      let s1 = if is_empty s.client_pending then s else offer_client http s s.client_pending in
      let h1 =
        if-elim Live (is_empty s.client_pending) h (offer_client-Live s s.client_pending h) in
      if-elim Live (is_empty s1.resp_pending) h1 (offer_response-Live s1 s1.resp_pending h1)

  -- What holds of an exchange at every moment: the bridge's own response stands alone, and closes.
  abbrev pub Kept : Exchange http → Type 0
  Kept s =
      Sound s
      × ((s.over ≡ true) ⊎ (s.answer ≡ []))
      × ((s.answer ≡ []) ⊎ ((s.bytes_written ≡ 0) × (s.keep_alive ≡ false)))

  Live-Kept : (s : Exchange http) → Live s → Kept s
  Live-Kept s h = (h.0, inr h.1, inl h.1)

  answered-Kept :
      (e : ExchangeEnd) (s : Exchange http) (text : Text)
      → Live s
      → Kept (break_off http e (answer_with http s text))
  unfolding answer_with
  answered-Kept e s text h = elim (Bool-cases (s.bytes_written == 0)) [
    | inr some_written ↦ rw some_written ((h.0.0, h.0.1, inr refl), inr h.1, inl h.1)
    | inl nothing ↦ elim (Option-cases (attempt s.io)) [
      | inl fails ↦ rw (nothing, fails) ((h.0.0, h.0.1, inr refl), inr h.1, inl h.1)
      | inr (io, works) ↦
          rw (nothing, works)
            ((h.0.0, h.0.1, inr refl), inl refl, inr ((==_iff s.bytes_written 0).0 nothing, refl))
    ]
  ]

  refuse_poison-Kept :
      (dns : Text) (p : Option Poison) (s : Exchange http)
      → Live s
      → Kept (refuse_poison http dns p s)
  refuse_poison-Kept dns none s h = Live-Kept s h
  refuse_poison-Kept dns (some p) s h = answered-Kept poisoned s (poison_answer http dns p) h

  advance-Kept : (dns : Text) (s : Exchange http) → Live s → OkAll Kept (advance http max dns s)
  unfolding advance
  advance-Kept dns s h =
      let s1 = reoffer http s in
      elim (Result-cases (process http max [] s1 s1.events)) [
        | inr (why, e) ↦ rw e tt
        | inl ((stop, s2), e) ↦
            let h2 : Live s2 =
              subst (λ r. OkAll LiveTurn r) e
                (process-LiveTurn [] s1 s1.events (reoffer-Live s h)) in
            rw e (
              if-elim Kept stop (h2.0, inr h2.1, inl h2.1)
                (refuse_poison-Kept dns (http.poison s2.parser) s2 h2))
      ]

  on_client_bytes-Live :
      (s : Exchange http) (bytes : Bytes) → Live s → Live (on_client_bytes http s bytes)
  on_client_bytes-Live s [] h = finish_side-Live initiator (record s { client_eof = true }) h
  on_client_bytes-Live s (b ∷ bs) h = offer_client-Live s (b ∷ bs) h

  on_response_sample-Live :
      (s : Exchange http) (bytes : Bytes) → Live s → Live (on_response_sample http s bytes)
  on_response_sample-Live s [] h = finish_side-Live responder s h
  on_response_sample-Live s (b ∷ bs) h = offer_response-Live s (b ∷ bs) h

  step-Kept :
      (dns : Text) (s : Exchange http) (ev : ExchangeEvent)
      → Live s
      → OkAll Kept (exchange_step http max dns s ev)
  unfolding exchange_step
  step-Kept dns s (client_bytes bytes) h =
      if-elim (OkAll Kept) (reads_client http s)
        (advance-Kept dns (on_client_bytes http s bytes) (on_client_bytes-Live s bytes h))
        (Live-Kept s h)
  step-Kept dns s (sample bytes) h =
      advance-Kept dns (on_response_sample http s bytes) (on_response_sample-Live s bytes h)
  step-Kept dns s client_fails h = if-elim (OkAll Kept) (reads_client http s) tt (Live-Kept s h)
  step-Kept dns s rx_closed h = answered-Kept backend_gone s (http_502_response dns) h
  step-Kept dns s idle h = answered-Kept timeout s http_504_response h
  step-Kept dns s overflowed h = ((h.0.0, h.0.1, inr refl), inr h.1, inl h.1)
  step-Kept dns s drain h = ((h.0.0, h.0.1, inr refl), inr h.1, inl h.1)

  silent : (s : Exchange http) → s.over ≡ false → (s.over ≡ true) ⊎ (s.answer ≡ []) → s.answer ≡ []
  silent s going (inl over) = absurd cc
  silent s going (inr a) = a

  run-Kept :
      (dns : Text) (s : Exchange http) (evs : List ExchangeEvent)
      → Kept s
      → OkAll Kept (exchange_run http max dns s evs)
  unfolding exchange_run
  run-Kept dns s [] h = h
  run-Kept dns s (ev ∷ evs) h =
      if-cases (OkAll Kept) s.over (λ over. h)
        (λ going.
          OkAll-bind Kept Kept (exchange_step http max dns s ev)
            (λ s'. exchange_run http max dns s' evs) (step-Kept dns s ev (h.0, silent s going h.1))
            (λ s' h'. run-Kept dns s' evs h'))

-- In every run of an exchange that returns, whichever puts and writes succeed: behind each part of
-- a body or of trailers that the client is written no more than the response limit has been
-- written, the count of bytes is that of the chunks, an exchange that did not end whole does not
-- keep the connection, and a response of the bridge's own is written only where nothing else was,
-- and closes.
pub run_exchange-Kept :
    (http : HttpParser) (max : ℕ) (dns : Text) (p : http.parser.State) (events : List HttpEvent)
    (pending raw : Bytes) (eof : Bool) (io : List Bool) (evs : List ExchangeEvent)
    {s : Exchange http}
    → run_exchange http max dns (new_exchange http p events pending eof io) raw evs ≡ ok s
    → Kept http max s
unfolding run_exchange
run_exchange-Kept http max dns p events pending raw eof io evs e =
    let start = new_exchange http p events pending eof io in
    subst (OkAll (Kept http max)) e (
      OkAll-bind (Live http max) (Kept http max) (publish http start raw)
        (λ s. advance http max dns s >>= λ s1. exchange_run http max dns s1 evs)
        (publish-Live http max start raw ((tt, refl, inl refl), refl))
        (λ s h.
          OkAll-bind (Kept http max) (Kept http max) (advance http max dns s)
            (λ s1. exchange_run http max dns s1 evs) (advance-Kept http max dns s h)
            (λ s1 h1. run-Kept http max dns s1 evs h1)))

-- An exchange whose connection is kept has ended whole, with its response complete, no response of
-- the bridge's own and a client that has not closed.
pub run_exchange-reusable :
    (http : HttpParser) (max : ℕ) (dns : Text) (p : http.parser.State) (events : List HttpEvent)
    (pending raw : Bytes) (eof : Bool) (io : List Bool) (evs : List ExchangeEvent)
    {s : Exchange http} {e : ExchangeEnd}
    → run_exchange http max dns (new_exchange http p events pending eof io) raw evs ≡ ok s
    → exchange_outcome http s ≡ complete true e
    → (e ≡ whole) × (s.answer ≡ []) × (s.response_done ≡ true) × (s.client_eof ≡ false)
unfolding exchange_outcome
run_exchange-reusable http max dns p events pending raw eof io evs {s} {e} ran o =
    let kept : Kept http max s =
      run_exchange-Kept http max dns p events pending raw eof io evs ran in
    ground arith
