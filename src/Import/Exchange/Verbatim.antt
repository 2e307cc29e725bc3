-- ===== src/Import/Exchange/Verbatim.antt =====
-- The loop over the events in src/import/multiroute.rs: where each event goes.
use zenoh_bridge_tcp.Prelude.{
  ℕ, ◌+◌, ◌≡◌, ◌⊎◌, inl, inr, refl, sym, ap, ◌∙◌, subst, Bool, true, false, List, [], ◌∷◌, ◌++◌, ok,
  length, ltb, append_assoc, append-nil, Option-cases, Result-cases, OkAll, OkAll-map, if-elim,
  if-cases, not, ◌&&◌,
}
use zenoh_bridge_tcp.Export.Relay.{Bytes}
use zenoh_bridge_tcp.Import.Parser.{initiator, responder}
use zenoh_bridge_tcp.Import.Http.{
  ResponseHead, HttpEvent, request_head, response_head, body, trailers, end, switch_protocols,
  HttpParser,
}
use zenoh_bridge_tcp.Import.Exchange.Close.{response_wants_close}
use zenoh_bridge_tcp.Import.Exchange.{
  Chunk, head, part, Handled, acted, deferred, stopped, attempt, Exchange, publish, write, acting,
  relay_part, note_close, handle, process,
}

-- Whether the request is complete behind an event.
abbrev pub done_after : Bool → HttpEvent → Bool
done_after d (end initiator) = true
done_after d _ = d

-- What an event sends to the backend: the parts of a request that is not complete.
abbrev pub up_of : HttpEvent → Bool → List Bytes
up_of (body initiator raw) false = raw ∷ []
up_of (trailers initiator raw) false = raw ∷ []
up_of _ _ = []

-- What it sends to the client.
abbrev pub down_of : HttpEvent → List Chunk
down_of (response_head rh) = head rh.raw ∷ []
down_of (body responder raw) = part raw ∷ []
down_of (trailers responder raw) = part raw ∷ []
down_of _ = []

-- What it leaves to the next request.
abbrev pub left_of : HttpEvent → Bool → List HttpEvent
left_of (request_head h) d = request_head h ∷ []
left_of (body initiator raw) true = body initiator raw ∷ []
left_of (trailers initiator raw) true = trailers initiator raw ∷ []
left_of (end initiator) true = end initiator ∷ []
left_of _ _ = []

abbrev pub uploads : Bool → List HttpEvent → List Bytes
uploads d [] = []
uploads d (ev ∷ evs) = up_of ev d ++ uploads (done_after d ev) evs

abbrev pub downloads : List HttpEvent → List Chunk
downloads [] = []
downloads (ev ∷ evs) = down_of ev ++ downloads evs

abbrev pub left : Bool → List HttpEvent → List HttpEvent
left d [] = []
left d (ev ∷ evs) = left_of ev d ++ left (done_after d ev) evs

module _ (http : HttpParser) (max : ℕ) where
  -- What a handled event did.
  abbrev Effect : Exchange http → HttpEvent → Exchange http → Type 0
  Effect s ev s' =
      (s'.puts ≡ s.puts ++ up_of ev s.request_done)
      × (s'.sent ≡ s.sent ++ down_of ev)
      × (s'.request_done ≡ done_after s.request_done ev)

  abbrev EffectOf : Exchange http → HttpEvent → Exchange http × Handled → Type 0
  EffectOf s ev (s', acted) = Effect s ev s' × (left_of ev s.request_done ≡ [])
  EffectOf s ev (s', deferred) = Effect s ev s' × (left_of ev s.request_done ≡ ev ∷ [])
  EffectOf s ev (s', stopped) = (s'.puts ≡ s.puts) × (s'.sent ≡ s.sent)

  publish-EffectOf :
      (s : Exchange http) (ev : HttpEvent) (raw : Bytes)
      → up_of ev s.request_done ≡ raw ∷ []
      → down_of ev ≡ []
      → done_after s.request_done ev ≡ s.request_done
      → left_of ev s.request_done ≡ []
      → OkAll (EffectOf s ev) (acting http (publish http s raw))
  unfolding publish
  publish-EffectOf s ev raw u d r l = elim (Option-cases (attempt s.io)) [
    | inl e ↦ rw e tt
    | inr (io, e) ↦ rw e (
      (
        ap (λ z. s.puts ++ z) (sym u),
        sym (append-nil s.sent) ∙ ap (λ z. s.sent ++ z) (sym d),
        sym r,
      ),
      l,
    )
  ]

  -- An event that waits changes nothing.
  wait-EffectOf :
      (s : Exchange http) (ev : HttpEvent)
      → up_of ev s.request_done ≡ []
      → down_of ev ≡ []
      → done_after s.request_done ev ≡ s.request_done
      → left_of ev s.request_done ≡ ev ∷ []
      → EffectOf s ev (s, deferred)
  wait-EffectOf s ev u d r l = (
    (
      sym (append-nil s.puts) ∙ ap (λ z. s.puts ++ z) (sym u),
      sym (append-nil s.sent) ∙ ap (λ z. s.sent ++ z) (sym d),
      sym r,
    ),
    l,
  )

  write-EffectOf :
      (s : Exchange http) (kind : Bytes → Chunk) (ev : HttpEvent) (raw : Bytes)
      → up_of ev s.request_done ≡ []
      → down_of ev ≡ kind raw ∷ []
      → done_after s.request_done ev ≡ s.request_done
      → left_of ev s.request_done ≡ []
      → OkAll (EffectOf s ev) (acting http (write http s kind raw))
  unfolding write
  write-EffectOf s kind ev raw u d r l = elim (Option-cases (attempt s.io)) [
    | inl e ↦ rw e tt
    | inr (io, e) ↦ rw e (
      (
        sym (append-nil s.puts) ∙ ap (λ z. s.puts ++ z) (sym u),
        ap (λ z. s.sent ++ z) (sym d),
        sym r,
      ),
      l,
    )
  ]

  part-EffectOf :
      (s : Exchange http) (ev : HttpEvent) (raw : Bytes)
      → up_of ev s.request_done ≡ []
      → down_of ev ≡ part raw ∷ []
      → done_after s.request_done ev ≡ s.request_done
      → left_of ev s.request_done ≡ []
      → OkAll (EffectOf s ev) (relay_part http max s raw)
  unfolding relay_part
  part-EffectOf s ev raw u d r l =
      if-elim (OkAll (EffectOf s ev)) (ltb max (s.bytes_written + length raw)) (refl, refl)
        (write-EffectOf s part ev raw u d r l)

  head-EffectOf :
      (s : Exchange http) (rh : ResponseHead)
      → OkAll
          (EffectOf s (response_head rh))
          (acting http (write http (note_close http s rh) head rh.raw))
  head-EffectOf s rh =
      if-elim
        (λ s0. OkAll (EffectOf s (response_head rh)) (acting http (write http s0 head rh.raw)))
        (not rh.interim && response_wants_close rh)
        (write-EffectOf (record s { keep_alive = false }) head (response_head rh) rh.raw refl refl
          refl refl)
        (write-EffectOf s head (response_head rh) rh.raw refl refl refl refl)

  handle-EffectOf :
      (s : Exchange http) (ev : HttpEvent) → OkAll (EffectOf s ev) (handle http max s ev)
  unfolding handle
  handle-EffectOf s (request_head h) = wait-EffectOf s (request_head h) refl refl refl refl
  handle-EffectOf s (response_head rh) = head-EffectOf s rh
  handle-EffectOf s (body initiator raw) =
      let ev = body initiator raw in
      if-cases (OkAll (EffectOf s ev)) s.request_done
        (λ d. wait-EffectOf s ev (ap (up_of ev) d) refl refl (ap (left_of ev) d))
        (λ d. publish-EffectOf s ev raw (ap (up_of ev) d) refl refl (ap (left_of ev) d))
  handle-EffectOf s (body responder raw) =
      part-EffectOf s (body responder raw) raw refl refl refl refl
  handle-EffectOf s (trailers initiator raw) =
      let ev = trailers initiator raw in
      if-cases (OkAll (EffectOf s ev)) s.request_done
        (λ d. wait-EffectOf s ev (ap (up_of ev) d) refl refl (ap (left_of ev) d))
        (λ d. publish-EffectOf s ev raw (ap (up_of ev) d) refl refl (ap (left_of ev) d))
  handle-EffectOf s (trailers responder raw) =
      part-EffectOf s (trailers responder raw) raw refl refl refl refl
  handle-EffectOf s (end initiator) =
      let ev = end initiator in
      if-cases (OkAll (EffectOf s ev)) s.request_done
        (λ d. wait-EffectOf s ev refl refl (sym d) (ap (left_of ev) d))
        (λ d. ((sym (append-nil s.puts), sym (append-nil s.sent), refl), ap (left_of ev) d))
  handle-EffectOf s (end responder) = (refl, refl)
  handle-EffectOf s switch_protocols = (refl, refl)

  -- The events that the loop took: those it handled, and the one that stopped it, if one did.
  pub Splits : List HttpEvent → Exchange http → List HttpEvent → Bool → Exchange http → Type 0
  Splits carry s evs stop s' =
      (handled : List HttpEvent) × (last : List HttpEvent) × (rest : List HttpEvent) × (evs
        ≡ handled ++ (last ++ rest))
      × (((stop ≡ false) × (last ≡ []) × (rest ≡ []))
          ⊎ ((stop ≡ true) × ((ev : HttpEvent) × (last ≡ ev ∷ []))))
      × (s'.puts ≡ s.puts ++ uploads s.request_done handled)
      × (s'.sent ≡ s.sent ++ downloads handled)
      × (s'.events ≡ (carry ++ left s.request_done handled) ++ rest)

  abbrev Split : List HttpEvent → Exchange http → List HttpEvent → Bool × Exchange http → Type 0
  Split carry s evs (stop, s') = Splits carry s evs stop s'

  extend-Split :
      (carry : List HttpEvent) (s s1 : Exchange http) (ev : HttpEvent) (evs : List HttpEvent)
      (r : Bool × Exchange http)
      → Effect s ev s1
      → Split (carry ++ left_of ev s.request_done) s1 evs r
      → Split carry s (ev ∷ evs) r
  unfolding Splits
  extend-Split carry s s1 ev evs (stop, s') (p, t, d) (handled, last, rest, cut, how, ps, ts, es) =
      (
        ev ∷ handled,
        last,
        rest,
        ap (λ z. ev ∷ z) cut,
        how,
        ps
            ∙ (rw d (ap (λ z. z ++ uploads (done_after s.request_done ev) handled) p)
                ∙ append_assoc s.puts (up_of ev s.request_done)
                    (uploads (done_after s.request_done ev) handled)),
        ts
            ∙ (ap (λ z. z ++ downloads handled) t
                ∙ append_assoc s.sent (down_of ev) (downloads handled)),
        es
            ∙ ap (λ z. z ++ rest)
                (rw d (
                  append_assoc carry (left_of ev s.request_done)
                    (left (done_after s.request_done ev) handled))),
      )

  handled-EffectOf :
      (s : Exchange http) (ev : HttpEvent) {r : Exchange http × Handled}
      → handle http max s ev ≡ ok r
      → EffectOf s ev r
  handled-EffectOf s ev e = subst (λ z. OkAll (EffectOf s ev) z) e (handle-EffectOf s ev)

  process-Split :
      (carry : List HttpEvent) (s : Exchange http) (evs : List HttpEvent)
      → OkAll (Split carry s evs) (process http max carry s evs)
  unfolding process Splits
  process-Split carry s [] = (
    [],
    [],
    [],
    refl,
    inl (refl, refl, refl),
    sym (append-nil s.puts),
    sym (append-nil s.sent),
    sym (append-nil (carry ++ []) ∙ append-nil carry),
  )
  process-Split carry s (ev ∷ evs) = elim (Result-cases (handle http max s ev)) [
    | inr (why, e) ↦ rw e tt
    | inl ((s1, acted), e) ↦
        let (effect, none_left) = handled-EffectOf s ev e in
        rw e (
          OkAll-map (Split carry s1 evs) (Split carry s (ev ∷ evs)) (process http max carry s1 evs)
            (λ r h. extend-Split carry s s1 ev evs r effect (
              subst (λ z. Split z s1 evs r)
                (sym (ap (λ z. carry ++ z) none_left ∙ append-nil carry)) h))
            (process-Split carry s1 evs))
    | inl ((s1, deferred), e) ↦
        let (effect, one_left) = handled-EffectOf s ev e in
        rw e (
          OkAll-map (Split (carry ++ ev ∷ []) s1 evs) (Split carry s (ev ∷ evs))
            (process http max (carry ++ ev ∷ []) s1 evs)
            (λ r h.
              extend-Split carry s s1 ev evs r effect
                (subst (λ z. Split z s1 evs r) (sym (ap (λ z. carry ++ z) one_left)) h))
            (process-Split (carry ++ ev ∷ []) s1 evs))
    | inl ((s1, stopped), e) ↦
        let (p, t) = handled-EffectOf s ev e in
        rw e (
          [],
          ev ∷ [],
          evs,
          refl,
          inr (refl, (ev, refl)),
          p ∙ sym (append-nil s.puts),
          t ∙ sym (append-nil s.sent),
          ap (λ z. z ++ evs) (sym (append-nil carry)),
        )
  ]

  -- When the loop over the waiting events returns, the events are those that it handled, the one
  -- that stopped it if one did, and the rest: the bodies and trailers of the request, up to its
  -- end, were published in order and unchanged, the heads, bodies and trailers of the response
  -- were written in order and unchanged, and the events of the next request wait in order in front
  -- of the rest.
  pub process-Splits :
      (s : Exchange http) (evs : List HttpEvent) {stop : Bool} {s' : Exchange http}
      → process http max [] s evs ≡ ok (stop, s')
      → Splits [] s evs stop s'
  process-Splits s evs {stop} {s'} e =
      subst (λ z. OkAll (Split [] s evs) z) e (process-Split [] s evs)
