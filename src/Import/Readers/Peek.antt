-- ===== src/Import/Readers/Peek.antt =====
-- The door that peeks and the reader that consumes, both of src/import/connection.rs.
use zenoh_bridge_tcp.Prelude.{
  ℕ, ◌≡◌, ◌∙◌, refl, ap, List, [], ◌∷◌, ◌++◌, Option, some, none, Result, ok, err, Option-cases,
  Result-cases, Bool-cases, inl, inr, leb, length, if◌then◌else◌,
}
use zenoh_bridge_tcp.Text.{Text}
use zenoh_bridge_tcp.Dns.{CaseMap}
use zenoh_bridge_tcp.Export.Relay.{Bytes}
use zenoh_bridge_tcp.Import.Parser.{initiator, push_bytes}
use zenoh_bridge_tcp.Import.Parser.Feed.{push_bytes-Settled}
use zenoh_bridge_tcp.Import.Http.{
  RequestHead, HttpParser, ReaderError, malformed, switched_protocols, routing_key_from_head,
}
use zenoh_bridge_tcp.Import.Head.{ReadEvent, chunk, HeadError, oversized, after_step, read_until}
use zenoh_bridge_tcp.Import.Readers.{
  concat_pending, first_event, reader_step, found_key, as_request_head, http_verdict, http_step,
  PeekOutcome, head, need_more, refused, peeked, peek_http_head_outcome, ReadFailure, failed,
  no_timeout, map_result, read_http_head,
}
use zenoh_bridge_tcp.Import.Readers.Gapless.{first_event-fed}

-- What the step of the consuming reader answers.
abbrev Answers : CaseMap → PeekOutcome → Result ReaderError (Option Text) → Type 0
Answers cm (head h) answer = answer ≡ found_key (routing_key_from_head cm h)
Answers cm need_more answer = answer ≡ ok none
Answers cm refused answer = (e : ReaderError) × (answer ≡ err e)

module _ (cm : CaseMap) (http : HttpParser) (max_header_size : ℕ) where
  open http use {parser, with_config, with_config_fed, poison, is_tunnelled}

  peeked-Answers :
      (found : Option RequestHead) (s : parser.State)
      → Answers cm
          (peeked cm http max_header_size found s)
          (http_verdict cm http max_header_size found s)
  peeked-Answers (some h) s = refl
  peeked-Answers none s = elim (Option-cases (poison s)) [
    | inl e ↦ elim (Bool-cases (is_tunnelled s)) [
      | inl t ↦ rw (e, t) (switched_protocols, refl)
      | inr t ↦ rw (e, t) refl
    ]
    | inr (p, e) ↦ rw e (malformed p.reason, refl)
  ]

  -- A key is returned with the bytes for replay, a refusal is passed on.
  abbrev pub routed : Result ReaderError Text → Bytes → Result ReadFailure (Text × Bytes)
  routed (ok key) bytes = ok (key, bytes)
  routed (err e) bytes = err (failed (HeadError.refused e))

  -- What the peek tells of the reader whose first read returns the same bytes, before any others.
  pub Foretold :
      PeekOutcome → Bytes → List ReadEvent → Option (Result ReadFailure (Text × Bytes)) → Type 0
  Foretold (head h) bytes es r = r ≡ some (routed (routing_key_from_head cm h) bytes)
  Foretold refused bytes es r = (e : ReaderError) × (r ≡ some (err (failed (HeadError.refused e))))
  Foretold need_more bytes es r =
      (s : parser.State) × (rest : Bytes) × (parser.fed initiator s ++ rest ≡ bytes)
      × (r ≡ (
          if leb max_header_size (length bytes)
          then some (err (failed oversized))
          else map_result no_timeout
              (read_until (http_step cm http max_header_size) max_header_size (s, rest) bytes es)))

  step-Answers :
      (bytes : Bytes)
      → Answers cm
          (peek_http_head_outcome cm http max_header_size bytes)
          (http_step cm http max_header_size (with_config max_header_size, []) bytes).1
  unfolding peek_http_head_outcome reader_step concat_pending
  step-Answers bytes =
      let (s1, rest) = push_bytes parser initiator (with_config max_header_size) bytes in
      let (found, s2) = first_event parser as_request_head (parser.queued s1) s1 in
      peeked-Answers found s2

  -- The step has kept what it was given.
  step-whole :
      (bytes : Bytes)
      → let (s, rest) =
          (http_step cm http max_header_size (with_config max_header_size, []) bytes).0 in
        parser.fed initiator s ++ rest ≡ bytes
  unfolding reader_step concat_pending
  step-whole bytes =
      let start = with_config max_header_size in
      let (s1, rest) = push_bytes parser initiator start bytes in
      ap (λ z. z ++ rest)
        (first_event-fed parser as_request_head (http_verdict cm http max_header_size)
          (parser.queued s1) s1)
      ∙ ((push_bytes-Settled parser initiator start bytes).0
          ∙ ap (λ z. z ++ bytes) (with_config_fed max_header_size))

  -- What the shell makes of the answer.
  shell-Foretold :
      (p : PeekOutcome) (answer : Result ReaderError (Option Text)) (s : parser.State)
      (rest bytes : Bytes) (es : List ReadEvent)
      → parser.fed initiator s ++ rest ≡ bytes
      → Answers cm p answer
      → Foretold p bytes es (
          map_result no_timeout (
            after_step
              (http_step cm http max_header_size)
              max_header_size
              answer
              bytes
              (read_until (http_step cm http max_header_size) max_header_size (s, rest) bytes es)))
  unfolding Foretold
  shell-Foretold (head h) answer s rest bytes es whole a =
      elim (Result-cases (routing_key_from_head cm h)) [
        | inl (key, e) ↦ rw (a, e) refl
        | inr (why, e) ↦ rw (a, e) refl
      ]
  shell-Foretold refused answer s rest bytes es whole (e, a) = rw a (e, refl)
  shell-Foretold need_more answer s rest bytes es whole a = rw a (
    s,
    rest,
    whole,
    elim (Bool-cases (leb max_header_size (length bytes))) [
      | inl over ↦ rw over refl
      | inr room ↦ rw room refl
    ],
  )

  -- Where the first read returns the bytes that were peeked at, the reader that consumes does what
  -- the peek foretells: where there is a head, it returns its routing key with these bytes, or
  -- refuses its target; where the peek is refused, it refuses; and where the peek needs more, it
  -- refuses bytes that have reached the size limit, and else reads on from a parser that has taken
  -- them all but for a tail that is kept.
  pub read_http_head-Foretold :
      (b : ℕ) (bs : Bytes) (es : List ReadEvent)
      → Foretold
          (peek_http_head_outcome cm http max_header_size (b ∷ bs))
          (b ∷ bs)
          es
          (read_http_head cm http max_header_size (chunk (b ∷ bs) ∷ es))
  unfolding read_http_head read_until
  read_http_head-Foretold b bs es =
      let bytes = b ∷ bs in
      let ((s, rest), answer) =
        http_step cm http max_header_size (with_config max_header_size, []) bytes in
      shell-Foretold (peek_http_head_outcome cm http max_header_size bytes) answer s rest bytes es
        (step-whole bytes) (step-Answers bytes)
