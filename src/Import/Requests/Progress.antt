-- ===== src/Import/Requests/Progress.antt =====
-- The loops of src/import/multiroute.rs that offer a refused tail again do not spin, and drop nothing.
use zenoh_bridge_tcp.Prelude.{
  ℕ, zero, suc, ◌≡◌, ◌≢◌, ◌≤◌, ◌<◌, ◌⊎◌, inl, inr, refl, subst, Bool, false, List, [], ◌∷◌, ◌++◌,
  Option, some, none, length, arith, Bool-cases, Option-cases, drop, length-drop, ◌==◌, ==_iff,
  if-cases, if-elim,
}
use zenoh_bridge_tcp.Text.{is_empty}
use zenoh_bridge_tcp.Export.Relay.{Bytes}
use zenoh_bridge_tcp.Import.Parser.{initiator, push_bytes, push_loop, drain_events}
use zenoh_bridge_tcp.Import.Parser.Feed.{drain_events-drained}
use zenoh_bridge_tcp.Import.Http.{HttpParser, Poison}
use zenoh_bridge_tcp.Import.Requests.{
  Client, offer, TurnEnd, next, spinning, settle, pop_head, or_poison, NextRequest, wants_read,
  settled, next_turn, or_poisoned, client_ends, ClientRead, bytes, failed, drained,
  next_request_head,
}

module _ (http : HttpParser) where
  open http use {parser, poison, is_tunnelled}

  -- A parser with no event to give, and not tunnelled, takes some of what it is offered, or is
  -- poisoned by it.
  abbrev pub Takes : Type 0
  Takes =
      (s : parser.State) (b : ℕ) (bs : Bytes)
      → parser.next_event s ≡ none
      → is_tunnelled s ≡ false
      → ((parser.push initiator s (b ∷ bs)).0 ≢ 0)
        ⊎ ((p : Poison) × (poison (drain_events parser (parser.push initiator s (b ∷ bs)).1 []).0
              ≡ some p))

  push_loop-length :
      (n : ℕ) (s : parser.State) (bs : Bytes)
      → length (push_loop parser n initiator s bs).1 ≤ length bs
  unfolding push_loop
  push_loop-length zero s bs = omega arith
  push_loop-length (suc n) s [] = omega arith
  push_loop-length (suc n) s (b ∷ bs) =
      let k = (parser.push initiator s (b ∷ bs)).0 in
      let s' = (parser.push initiator s (b ∷ bs)).1 in
      if-elim (λ (r : parser.State × Bytes). length r.1 ≤ length (b ∷ bs)) (k == 0) (omega arith)
        (omega (arith, push_loop-length n s' (drop k (b ∷ bs)), length-drop k (b ∷ bs)))

  -- A push that takes something makes the tail shorter.
  push_bytes-shorter :
      (s : parser.State) (b : ℕ) (bs : Bytes)
      → (parser.push initiator s (b ∷ bs)).0 ≢ 0
      → length (push_bytes parser initiator s (b ∷ bs)).1 < length (b ∷ bs)
  unfolding push_bytes push_loop
  push_bytes-shorter s b bs takes =
      let k = (parser.push initiator s (b ∷ bs)).0 in
      let s' = (parser.push initiator s (b ∷ bs)).1 in
      if-cases (λ (r : parser.State × Bytes). length r.1 < length (b ∷ bs)) (k == 0)
        (λ e. absurd (takes ((==_iff k 0).0 e)))
        (λ e.
          omega (
            arith,
            push_loop-length (length bs) s' (drop k (b ∷ bs)),
            length-drop k (b ∷ bs),
            takes,
          ))

  refused_tail :
      (s : parser.State) (b : ℕ) (bs : Bytes)
      → (parser.push initiator s (b ∷ bs)).0 ≡ 0
      → (push_bytes parser initiator s (b ∷ bs)).0 ≡ (parser.push initiator s (b ∷ bs)).1
  unfolding push_bytes push_loop
  refused_tail s b bs e = rw ((==_iff (parser.push initiator s (b ∷ bs)).0 0).1 e) refl

  -- An offer that does not poison the parser makes the tail shorter.
  offer-shorter :
      Takes
      → (c : Client http) (b : ℕ) (bs : Bytes) → parser.next_event c.parser ≡ none
      → is_tunnelled c.parser ≡ false
      → poison (offer http (record c { events = [] }) (b ∷ bs)).parser ≡ none
      → length (offer http (record c { events = [] }) (b ∷ bs)).leftover < length (b ∷ bs)
  unfolding offer
  offer-shorter takes c b bs quiet open_side sound =
      elim (Bool-cases ((parser.push initiator c.parser (b ∷ bs)).0 == 0)) [
        | inr e ↦ push_bytes-shorter c.parser b bs (λ z. absurd (ground arith))
        | inl e ↦
            let refused = (==_iff (parser.push initiator c.parser (b ∷ bs)).0 0).0 e in
            elim (takes c.parser b bs quiet open_side) [
              | inl some_taken ↦ absurd (some_taken refused)
              | inr (p, bad) ↦
                  let tail = refused_tail c.parser b bs refused in
                  let sound' : poison
                        (drain_events parser (parser.push initiator c.parser (b ∷ bs)).1 []).0
                      ≡ none =
                    subst (λ z. poison (drain_events parser z []).0 ≡ none) tail sound in
                  absurd cc
            ]
      ]

  offer-drained : (c : Client http) (bs : Bytes) → parser.next_event (offer http c bs).parser ≡ none
  unfolding offer
  offer-drained c bs =
      (drain_events-drained parser (push_bytes parser initiator c.parser bs).0 c.events).0

  -- The turns that read nothing end.
  Ends : TurnEnd × Client http → Type 0
  Ends r = r.0 ≢ spinning

  again-Ends :
      (n : ℕ) (c : Client http)
      → ((c' : Client http)
          → parser.next_event c'.parser ≡ none
          → length c'.leftover < n
          → Ends (settle http n c'))
      → Takes
      → (tail : Bytes) → parser.next_event c.parser ≡ none
      → is_tunnelled c.parser ≡ false
      → is_empty tail ≡ false
      → length tail < suc n
      → (let c1 = offer http (record c { events = [] }) tail in
          Ends (or_poison http (poison c1.parser) (spinning, c1) (settle http n c1)))
  unfolding Ends
  again-Ends n c ih takes [] quiet open_side full small = absurd cc
  again-Ends n c ih takes (b ∷ bs) quiet open_side full small =
      let c1 = offer http (record c { events = [] }) (b ∷ bs) in
      elim (Option-cases (poison c1.parser)) [
        | inr (p, bad) ↦ rw bad (λ e. cc)
        | inl sound ↦ rw sound (
            ih c1 (offer-drained (record c { events = [] }) (b ∷ bs))
              (omega (arith, offer-shorter takes c b bs quiet open_side sound, small)))
      ]

  settle-Ends :
      (n : ℕ) (c : Client http)
      → Takes
      → parser.next_event c.parser ≡ none
      → length c.leftover < n
      → Ends (settle http n c)
  unfolding settle
  settle-Ends zero c takes quiet small = absurd (omega (arith, small))
  settle-Ends (suc n) c takes quiet small = elim (Option-cases (pop_head c.events)) [
    | inr ((h, evs), e) ↦ rw (settle, e) (unfold Ends in λ x. cc)
    | inl e ↦
        let c0 : Client http = record c { events = [] } in
        rw (settle, e)
          (if-elim Ends c.client_eof (unfold Ends in λ x. cc) (
            if-cases Ends (is_tunnelled c.parser) (λ t. unfold Ends in λ x. cc)
              (λ open_side.
                if-cases Ends (is_empty c.leftover) (λ t. unfold Ends in λ x. cc)
                  (λ full.
                    again-Ends n c (λ c' q l. settle-Ends n c' takes q l) takes c.leftover quiet
                      open_side full small))))
  ]

  Quiet : Client http → Type 0
  Quiet c = parser.next_event c.parser ≡ none

  or_poison-Quiet :
      (o : Option Poison) (c1 : Client http) (r : TurnEnd × Client http)
      → Quiet c1
      → Quiet r.1
      → Quiet (or_poison http o (spinning, c1) r).1
  or_poison-Quiet none c1 r q q' = q'
  or_poison-Quiet (some p) c1 r q q' = q

  settle-Quiet : (n : ℕ) (c : Client http) → Quiet c → Quiet (settle http n c).1
  unfolding settle Quiet
  settle-Quiet zero c q = q
  settle-Quiet (suc n) c q = elim (Option-cases (pop_head c.events)) [
    | inr ((h, evs), e) ↦ rw (settle, e) q
    | inl e ↦
        let c0 : Client http = record c { events = [] } in
        let c1 = offer http c0 c0.leftover in
        let P : TurnEnd × Client http → Type 0 = λ r. parser.next_event r.1.parser ≡ none in
        rw (settle, e)
          (if-elim P c.client_eof q (
            if-elim P (is_tunnelled c.parser) q (
              if-elim P (is_empty c.leftover) q (
                or_poison-Quiet (poison c1.parser) c1 (settle http n c1)
                  (offer-drained c0 c0.leftover)
                  (settle-Quiet n c1 (offer-drained c0 c0.leftover))))))
  ]

  client_ends-Quiet : (c : Client http) → Quiet (client_ends http c)
  unfolding client_ends Quiet
  client_ends-Quiet c = (drain_events-drained parser (http.fin initiator c.parser) c.events).0

  next_turn-answers :
      (r : TurnEnd × Client http) {rest : Option (NextRequest × Client http)}
      → Ends r
      → rest ≢ none
      → next_turn http r rest ≢ none
  unfolding Ends
  next_turn-answers (next x, c) ends some_rest e = cc
  next_turn-answers (wants_read, c) ends some_rest e = some_rest e
  next_turn-answers (spinning, c) ends some_rest e = ends refl

  or_poisoned-answers :
      (o : Option Poison) (c : Client http) {rest : Option (NextRequest × Client http)}
      → rest ≢ none
      → or_poisoned http o c rest ≢ none
  or_poisoned-answers none c some_rest e = some_rest e
  or_poisoned-answers (some p) c some_rest e = cc

  settled-Ends : (c : Client http) → Takes → Quiet c → Ends (settled http c)
  unfolding Quiet
  settled-Ends c takes q = settle-Ends (suc (length c.leftover)) c takes q (omega arith)

  -- If the parser, where it has no event to give and is not tunnelled, takes a byte of what it is
  -- offered or is poisoned by it, and has no event to give at first, then reading the next request
  -- returns at the latest when the listener drains, whatever was read before: offering a refused
  -- tail again never spins.
  pub next_request_head_answers :
      (first : Bool) (c : Client http) (reads : List ClientRead)
      → Takes
      → parser.next_event c.parser ≡ none
      → next_request_head http first c (reads ++ drained ∷ []) ≢ none
  unfolding next_request_head Quiet
  next_request_head_answers first c [] takes q =
      next_turn-answers (settled http c) (settled-Ends c takes q) (λ e. cc)
  next_request_head_answers first c (failed ∷ reads) takes q =
      next_turn-answers (settled http c) (settled-Ends c takes q) (λ e. cc)
  next_request_head_answers first c (drained ∷ reads) takes q =
      next_turn-answers (settled http c) (settled-Ends c takes q) (λ e. cc)
  next_request_head_answers first c (bytes [] ∷ reads) takes q =
      let c' = (settled http c).1 in
      next_turn-answers (settled http c) (settled-Ends c takes q)
        (next_request_head_answers first (client_ends http c') reads takes (client_ends-Quiet c'))
  next_request_head_answers first c (bytes (b ∷ bs) ∷ reads) takes q =
      let c1 = offer http (settled http c).1 (b ∷ bs) in
      next_turn-answers (settled http c) (settled-Ends c takes q) (
        or_poisoned-answers (poison c1.parser) c1 (
          next_request_head_answers first c1 reads takes
            (offer-drained (settled http c).1 (b ∷ bs))))
