-- ===== src/Import/Readers/Gapless.antt =====
-- What the readers of src/import/connection.rs share: what their parser has been given, and what it has
-- given, when they return.
use zenoh_bridge_tcp.Prelude.{
  ℕ, zero, suc, ◌≡◌, ◌≢◌, ◌==◌, drop, refl, ap, ◌∙◌, sym, subst, ◌⊎◌, inl, inr, List, [], ◌∷◌, ◌++◌,
  Option, some, none, Result, ok, err, Option-cases, Bool-cases, leb, length, arith, append_assoc,
}
use zenoh_bridge_tcp.Export.Relay.{Bytes}
use zenoh_bridge_tcp.Import.Parser.{initiator, StreamParser, push_loop, push_bytes}
use zenoh_bridge_tcp.Import.Parser.Feed.{push_bytes-Settled}
use zenoh_bridge_tcp.Import.Head.{
  ReadEvent, chunk, read_failed, deadline, ReadHeadOutcome, parsed, HeadError, after_step,
  read_until,
}
use zenoh_bridge_tcp.Import.Readers.{concat_pending, first_event, reader_step}

-- The states of a parser in which it has given no event that is looked for: it starts, takes bytes of
-- the client, and gives other events.
pub data Unpicked {Event H : Type 0} (parser : StreamParser Event) (pick : Event → Option H)
    (start : parser.State) : parser.State → Type 0 where
  fresh : Unpicked parser pick start start
  pushed :
      (s : parser.State) (bytes : Bytes)
      → Unpicked parser pick start s
      → Unpicked parser pick start (parser.push initiator s bytes).1
  passed :
      (s s' : parser.State) (ev : Event)
      → Unpicked parser pick start s
      → parser.next_event s ≡ some (ev, s')
      → pick ev ≡ none
      → Unpicked parser pick start s'

concat_pending_lem : (pending more : Bytes) → concat_pending pending more ≡ pending ++ more
unfolding concat_pending
concat_pending_lem [] more = refl
concat_pending_lem (b ∷ bs) more = refl

module _ {Event H E T : Type 0} (parser : StreamParser Event) (pick : Event → Option H)
    (verdict : Option H → parser.State → Result E (Option T)) where
  open parser use {State, push, fed, queued, next_fed, next_event}

  pub first_event-fed :
      (n : ℕ) (s : State) → fed initiator (first_event parser pick n s).1 ≡ fed initiator s
  unfolding first_event
  first_event-fed zero s = refl
  first_event-fed (suc n) s = elim (Option-cases (next_event s)) [
    | inl e ↦ rw (first_event, e) refl
    | inr ((ev, s'), e) ↦ elim (Option-cases (pick ev)) [
      | inl p ↦ rw (first_event, e, p) (first_event-fed n s' ∙ next_fed initiator s ev s' e)
      | inr (h, p) ↦ rw (first_event, e, p) (next_fed initiator s ev s' e)
    ]
  ]

  module _ (start : State) (decides : (h : H) (s : State) → verdict (some h) s ≢ ok none) where
    abbrev Sought : State → Type 0
    Sought s = Unpicked parser pick start s

    push_loop-Unpicked :
        (n : ℕ) (s : State) (bytes : Bytes)
        → Sought s
        → Sought (push_loop parser n initiator s bytes).0
    unfolding push_loop
    push_loop-Unpicked zero s bytes u = u
    push_loop-Unpicked (suc n) s [] u = u
    push_loop-Unpicked (suc n) s (b ∷ bs) u =
        let (accepted, s') = push initiator s (b ∷ bs) in
        elim (Bool-cases (accepted == 0)) [
          | inl e ↦ rw e (pushed s (b ∷ bs) u)
          | inr e ↦ rw e (push_loop-Unpicked n s' (drop accepted (b ∷ bs)) (pushed s (b ∷ bs) u))
        ]

    push_bytes-Unpicked :
        (s : State) (bytes : Bytes) → Sought s → Sought (push_bytes parser initiator s bytes).0
    unfolding push_bytes
    push_bytes-Unpicked s bytes u = push_loop-Unpicked (length bytes) s bytes u

    -- The loop over the events passes only what is not looked for, where it finds nothing.
    first_event-Unpicked :
        (n : ℕ) (s : State)
        → Sought s
        → (first_event parser pick n s).0 ≡ none
        → Sought (first_event parser pick n s).1
    unfolding first_event
    first_event-Unpicked zero s u = λ _. u
    first_event-Unpicked (suc n) s u = elim (Option-cases (next_event s)) [
      | inl e ↦ rw (first_event, e) (λ _. u)
      | inr ((ev, s'), e) ↦ elim (Option-cases (pick ev)) [
        | inl p ↦ rw (first_event, e, p) (first_event-Unpicked n s' (passed s s' ev u e p))
        | inr (h, p) ↦ rw (first_event, e, p) (λ found. absurd cc)
      ]
    ]

    -- The parser has taken all that was read, but for what it refused, and has given nothing that is
    -- looked for.
    abbrev Gapless : State × Bytes → Bytes → Type 0
    Gapless (s, pending) buffer = (fed initiator s ++ pending ≡ buffer) × Sought s

    -- The value is the verdict on the first of the events that are looked for, in those bytes.
    abbrev pub Framed : T → Bytes → Type 0
    Framed value buffer =
        (s : State) × (rest : Bytes) × Sought s
        × (fed initiator s ++ rest ≡ buffer)
        × (verdict (first_event parser pick (queued s) s).0 (first_event parser pick (queued s) s).1
            ≡ ok (some value))

    pushed-Gapless :
        (s : State) (pending buffer bytes : Bytes)
        → Gapless (s, pending) buffer
        → Gapless (push_bytes parser initiator s (concat_pending pending bytes)) (buffer ++ bytes)
    pushed-Gapless s pending buffer bytes (h, u) = (
      (push_bytes-Settled parser initiator s (concat_pending pending bytes)).0
          ∙ (ap (λ z. fed initiator s ++ z) (concat_pending_lem pending bytes)
              ∙ (sym (append_assoc (fed initiator s) pending bytes) ∙ ap (λ z. z ++ bytes) h)),
      push_bytes-Unpicked s (concat_pending pending bytes) u,
    )

    -- A verdict that reads on has found nothing.
    nothing_found : (o : Option H) (s : State) → verdict o s ≡ ok none → o ≡ none
    nothing_found none s e = refl
    nothing_found (some h) s e = absurd (decides h s e)

    step-Gapless :
        (s : State) (pending buffer bytes : Bytes)
        → Gapless (s, pending) buffer
        → (reader_step parser pick verdict (s, pending) bytes).1 ≡ ok none
        → Gapless (reader_step parser pick verdict (s, pending) bytes).0 (buffer ++ bytes)
    unfolding reader_step
    step-Gapless s pending buffer bytes g e =
        let (s1, rest) = push_bytes parser initiator s (concat_pending pending bytes) in
        let (found, s2) = first_event parser pick (queued s1) s1 in
        let (whole, u) = pushed-Gapless s pending buffer bytes g in
        (
          ap (λ z. z ++ rest) (first_event-fed (queued s1) s1) ∙ whole,
          first_event-Unpicked (queued s1) s1 u (nothing_found found s2 e),
        )

    step-Framed :
        (s : State) (pending buffer bytes : Bytes) {value : T}
        → Gapless (s, pending) buffer
        → (reader_step parser pick verdict (s, pending) bytes).1 ≡ ok (some value)
        → Framed value (buffer ++ bytes)
    unfolding reader_step
    step-Framed s pending buffer bytes g e =
        let (s1, rest) = push_bytes parser initiator s (concat_pending pending bytes) in
        let (whole, u) = pushed-Gapless s pending buffer bytes g in (s1, rest, u, whole, e)

    after_step-parsed :
        (max : ℕ) (answer : Result E (Option T)) (buffer : Bytes)
        (rest : Option (Result (HeadError E) (ReadHeadOutcome T))) {value : T} {bytes : Bytes}
        → after_step (reader_step parser pick verdict) max answer buffer rest
          ≡ some (ok (parsed value bytes))
        → ((answer ≡ ok (some value)) × (buffer ≡ bytes))
          ⊎ ((answer ≡ ok none) × (rest ≡ some (ok (parsed value bytes))))
    after_step-parsed max (err e) buffer rest h = absurd cc
    after_step-parsed max (ok none) buffer rest h = elim (Bool-cases (leb max (length buffer))) [
      | inl e ↦ absurd (ground arith)
      | inr e ↦ inr (refl, ground arith)
    ]
    after_step-parsed max (ok (some value)) buffer rest h = inl (ground arith)

    pub read-Framed :
        (max : ℕ) (s : State) (pending buffer : Bytes) (es : List ReadEvent) {value : T}
        {bytes : Bytes}
        → Gapless (s, pending) buffer
        → read_until (reader_step parser pick verdict) max (s, pending) buffer es
          ≡ some (ok (parsed value bytes))
        → Framed value bytes
    unfolding read_until
    read-Framed max s pending buffer [] g e = absurd cc
    read-Framed max s pending buffer (deadline ∷ es) g e = absurd cc
    read-Framed max s pending buffer (read_failed ∷ es) g e = absurd cc
    read-Framed max s pending buffer (chunk [] ∷ es) g e = absurd cc
    read-Framed max s pending buffer (chunk (x ∷ xs) ∷ es) {value} g e =
        let (s', answer) = reader_step parser pick verdict (s, pending) (x ∷ xs) in
        let next = read_until (reader_step parser pick verdict) max s' (buffer ++ x ∷ xs) es in
        elim (after_step-parsed max answer (buffer ++ x ∷ xs) next e) [
          | inl (found, same) ↦
              subst (λ z. Framed value z) same (step-Framed s pending buffer (x ∷ xs) g found)
          | inr (nothing, later) ↦
              read-Framed max s'.0 s'.1 (buffer ++ x ∷ xs) es
                (step-Gapless s pending buffer (x ∷ xs) g nothing) later
        ]
