-- ===== src/Import/Detect/Stable.antt =====
-- The loop over the peeks in src/import/auto.rs, and the bytes that the client sends.
use zenoh_bridge_tcp.Prelude.{
  ◌≡◌, refl, subst, Bool, true, false, ◌||◌, List, [], ◌∷◌, ◌++◌, Option, some, none, Result, ok,
  err, length, ◌==◌, if-cases,
}
use zenoh_bridge_tcp.Export.Relay.{Bytes}
use zenoh_bridge_tcp.Import.Detect.{
  WireProtocol, raw, Classify, decided, undecided, PeekEvent, peek, peek_failed, peek_timeout,
  PeekError, after_classify, classify_loop,
}

-- Each peek returns a prefix of what the client sends.
abbrev pub PeekedOf : Bytes → List PeekEvent → Type 0
PeekedOf total [] = Unit
PeekedOf total (peek bytes late ∷ es) =
    ((more : Bytes) × (bytes ++ more ≡ total)) × PeekedOf total es
PeekedOf total (peek_failed ∷ es) = PeekedOf total es
PeekedOf total (peek_timeout ∷ es) = PeekedOf total es

-- The deadline or the size of the window ended the loop.
abbrev pub window_over : Bytes → Bool → Bool
window_over bytes late = late || length bytes == 64

module _ (classify_first_bytes : Bytes → Classify) where
  -- The protocol is that of all that the client sends, or it is the fallback, to which the loop
  -- resorts where a prefix cannot be decided and there is nothing more to wait for.
  pub Verdict : Bytes → WireProtocol → Bool → Type 0
  Verdict total p false = classify_first_bytes total ≡ decided p
  Verdict total p true =
      (p ≡ raw)
      × ((bytes : Bytes) × (more : Bytes) × (late : Bool) × (bytes ++ more ≡ total)
          × (classify_first_bytes bytes ≡ undecided)
          × (window_over bytes late ≡ true))

  abbrev Judged : Bytes → Option (Result PeekError (WireProtocol × Bool)) → Type 0
  Judged total (some (ok (p, gave_up))) = Verdict total p gave_up
  Judged total (some (err e)) = Unit
  Judged total none = Unit

  module _
      (prefix_stable : (bytes more : Bytes) (p : WireProtocol)
        → classify_first_bytes bytes ≡ decided p
        → classify_first_bytes (bytes ++ more) ≡ decided p) where
    after_classify-Judged :
        (total bytes more : Bytes) (late : Bool) (c : Classify)
        (rest : Option (Result PeekError (WireProtocol × Bool)))
        → bytes ++ more ≡ total
        → classify_first_bytes bytes ≡ c
        → Judged total rest
        → Judged total (after_classify classify_first_bytes c (window_over bytes late) rest)
    unfolding Verdict
    after_classify-Judged total bytes more late (decided p) rest cut e h =
        subst (λ z. classify_first_bytes z ≡ decided p) cut (prefix_stable bytes more p e)
    after_classify-Judged total bytes more late undecided rest cut e h =
        if-cases (Judged total) (window_over bytes late)
          (λ o. (refl, (bytes, more, late, cut, e, o))) (λ o. h)

    loop-Judged :
        (total : Bytes) (es : List PeekEvent)
        → PeekedOf total es
        → Judged total (classify_loop classify_first_bytes es)
    unfolding classify_loop
    loop-Judged total [] h = tt
    loop-Judged total (peek_failed ∷ es) h = tt
    loop-Judged total (peek_timeout ∷ es) h = tt
    loop-Judged total (peek [] late ∷ es) h = tt
    loop-Judged total (peek (b ∷ bs) late ∷ es) ((more, cut), h) =
        after_classify-Judged total (b ∷ bs) more late (classify_first_bytes (b ∷ bs))
          (classify_loop classify_first_bytes es) cut refl (loop-Judged total es h)

    -- Where the classifier keeps its decision as more bytes come, and each peek returns a prefix
    -- of what the client sends, a protocol that the loop decides on is that of all that the client
    -- sends, however it was cut into segments; and a protocol that it gave up on is raw, with a
    -- prefix that could not be decided at the deadline or at the end of the window.
    pub classify_loop-Verdict :
        (total : Bytes) (es : List PeekEvent) {p : WireProtocol} {gave_up : Bool}
        → PeekedOf total es
        → classify_loop classify_first_bytes es ≡ some (ok (p, gave_up))
        → Verdict total p gave_up
    classify_loop-Verdict total es h e = subst (Judged total) e (loop-Judged total es h)
