-- ===== src/Import/Readers/Grpc.antt =====
-- src/import/connection.rs, `GrpcStatusScanner` and `h2_response_tap`: the gRPC statuses that are read off
-- a response's stream.
use zenoh_bridge_tcp.Prelude.{
  ℕ, zero, suc, ◌≡◌, refl, ap, ◌∙◌, sym, subst, Bool, false, ◌||◌, List, [], ◌∷◌, ◌++◌, Option,
  some, none, ◌==◌, if◌then◌else◌, Bool-cases, Option-cases, inl, inr,
}
use zenoh_bridge_tcp.Export.Relay.{Bytes}
use zenoh_bridge_tcp.Import.Parser.{responder, push_bytes}
use zenoh_bridge_tcp.Import.Readers.{
  Http2Event, stream_head, stream_trailers, other_event, Http2Parser, map_result,
}

-- `seen.insert(id)` is true if the stream is new.
abbrev pub is_seen : ℕ → List ℕ → Bool
is_seen id [] = false
is_seen id (x ∷ xs) = x == id || is_seen id xs

-- The stream and the status that an event carries.
abbrev pub status_of : Http2Event → Option (ℕ × ℕ)
status_of (stream_trailers id status) = map_result (λ c. (id, c)) status
status_of (stream_head h) =
    if h.end_stream then map_result (λ c. (h.stream_id, c)) h.grpc_status else none
status_of other_event = none

-- A status is reported if its stream is new.
abbrev pub report : Option (ℕ × ℕ) → List ℕ → List (ℕ × ℕ)
report none seen = []
report (some (id, code)) seen = if is_seen id seen then [] else (id, code) ∷ []

abbrev pub ids : List (ℕ × ℕ) → List ℕ
ids [] = []
ids ((id, code) ∷ rs) = id ∷ ids rs

module _ (http2 : Http2Parser) where
  open http2 use {parser, with_preface}

  -- `GrpcStatusScanner`.
  pub record Scanner : Type 0 where
    pub state : parser.State
    pub seen : List ℕ

  -- `GrpcStatusScanner::new`.
  abbrev pub new_scanner : Scanner
  new_scanner = record { state = with_preface false; seen = [] }

  -- The loop over the events: what it reports, in order.
  unfoldable pub scan : ℕ → Scanner → Scanner × List (ℕ × ℕ)
  scan zero s = (s, [])
  scan (suc n) s = elim (parser.next_event s.state) [
    | none ↦ (s, [])
    | some (e, s') ↦
        let new = report (status_of e) s.seen in
        let (last, rest) = scan n (record { state = s'; seen = ids new ++ s.seen }) in
        (last, new ++ rest)
  ]

  -- `GrpcStatusScanner::feed`: the refused tail of the chunk is dropped.
  unfoldable pub feed : Scanner → Bytes → Scanner × List (ℕ × ℕ)
  feed s bytes =
      let (state, _) = push_bytes parser responder s.state bytes in
      scan (parser.queued state) (record s { state = state })

  -- The tap, called with each chunk of a response.
  unfoldable pub tap : Scanner → List Bytes → List (ℕ × ℕ)
  tap s [] = []
  tap s (bytes ∷ chunks) = let (s', reports) = feed s bytes in reports ++ tap s' chunks

-- No report is of a stream that is in the list, or was reported before it.
pub Once : List ℕ → List (ℕ × ℕ) → Type 0
Once seen [] = Unit {0}
Once seen ((id, code) ∷ rs) = (is_seen id seen ≡ false) × Once (id ∷ seen) rs

marks : List ℕ → List (ℕ × ℕ) → List ℕ
marks seen [] = seen
marks seen ((id, code) ∷ rs) = marks (id ∷ seen) rs

Once-append :
    (seen : List ℕ) (rs rs' : List (ℕ × ℕ))
    → Once seen rs
    → Once (marks seen rs) rs'
    → Once seen (rs ++ rs')
unfolding Once marks
Once-append seen [] rs' h h' = h'
Once-append seen ((id, code) ∷ rs) rs' h h' = (h.0, Once-append (id ∷ seen) rs rs' h.1 h')

marks-append :
    (seen : List ℕ) (rs rs' : List (ℕ × ℕ)) → marks seen (rs ++ rs') ≡ marks (marks seen rs) rs'
unfolding marks
marks-append seen [] rs' = refl
marks-append seen ((id, code) ∷ rs) rs' = marks-append (id ∷ seen) rs rs'

-- The reports are new, and the list has grown by them.
abbrev Marked : List ℕ → List ℕ × List (ℕ × ℕ) → Type 0
Marked seen (seen', rs) = Once seen rs × (seen' ≡ marks seen rs)

report-Marked :
    (o : Option (ℕ × ℕ)) (seen : List ℕ) → Marked seen (ids (report o seen) ++ seen, report o seen)
unfolding Once marks
report-Marked none seen = (tt, refl)
report-Marked (some (id, code)) seen = elim (Bool-cases (is_seen id seen)) [
  | inl e ↦ rw e (tt, refl)
  | inr e ↦ rw e ((e, tt), refl)
]

Marked-append :
    (seen seen' seen'' : List ℕ) (rs rs' : List (ℕ × ℕ))
    → Marked seen (seen', rs)
    → Marked seen' (seen'', rs')
    → Marked seen (seen'', rs ++ rs')
Marked-append seen seen' seen'' rs rs' h h' = (
  Once-append seen rs rs' h.0 (subst (λ z. Once z rs') h.1 h'.0),
  h'.1 ∙ (ap (λ z. marks z rs') h.1 ∙ sym (marks-append seen rs rs')),
)

module _ (http2 : Http2Parser) where
  open http2 use {parser}

  scan-Marked :
      (n : ℕ) (s : Scanner http2) → Marked s.seen ((scan http2 n s).0.seen, (scan http2 n s).1)
  unfolding scan
  scan-Marked zero s = unfold Once marks in (tt, refl)
  scan-Marked (suc n) s = elim (Option-cases (parser.next_event s.state)) [
    | inl e ↦ rw (scan, e) (unfold Once marks in (tt, refl))
    | inr ((ev, s'), e) ↦
        let new = report (status_of ev) s.seen in
        let s1 : Scanner http2 = record { state = s'; seen = ids new ++ s.seen } in
        rw (scan, e)
          (Marked-append s.seen s1.seen (scan http2 n s1).0.seen new (scan http2 n s1).1
            (report-Marked (status_of ev) s.seen) (scan-Marked n s1))
  ]

  feed-Marked :
      (s : Scanner http2) (bytes : Bytes)
      → Marked s.seen ((feed http2 s bytes).0.seen, (feed http2 s bytes).1)
  unfolding feed
  feed-Marked s bytes =
      let (state, _) = push_bytes parser responder s.state bytes in
      scan-Marked (parser.queued state) (record s { state = state })

  tap-Once : (s : Scanner http2) (chunks : List Bytes) → Once s.seen (tap http2 s chunks)
  unfolding tap
  tap-Once s [] = unfold Once in tt
  tap-Once s (bytes ∷ chunks) =
      let (s', reports) = feed http2 s bytes in
      let (once, same) = feed-Marked s bytes in
      Once-append s.seen reports (tap http2 s' chunks) once
        (subst (λ z. Once z (tap http2 s' chunks)) same (tap-Once s' chunks))

  -- However a response is cut into chunks, the tap reports the gRPC status of each stream at most
  -- once.
  pub response_tap-Once : (chunks : List Bytes) → Once [] (tap http2 (new_scanner http2) chunks)
  response_tap-Once chunks = tap-Once (new_scanner http2) chunks
