-- ===== src/Import/Parser/Feed.antt =====
-- What the loops of src/import/multiroute.rs do to a parser: nothing is dropped, and they end only
-- where the parser refuses or has no more events.
use zenoh_bridge_tcp.Prelude.{
  ℕ, zero, suc, ◌≡◌, ◌≤◌, ◌⊎◌, inl, inr, refl, ap, ◌∙◌, sym, List, [], ◌∷◌, ◌++◌, none, length,
  take, drop, ◌==◌, arith, append_assoc, append-nil, take-append-drop, length-drop, Bool-cases,
  subst, ==_iff, Option-cases,
}
use zenoh_bridge_tcp.Export.Relay.{Bytes}
use zenoh_bridge_tcp.Import.Parser.{
  Side, StreamParser, push_loop, push_bytes, drain_loop, drain_events,
}

module _ {Event : Type 0} (parser : StreamParser Event) where
  open parser use {State, push, next_event, fed, queued, push_le, push_fed, next_fed, next_queued}

  push_lem :
      (d : Side) (s : State) (bytes : Bytes)
      → fed d (push d s bytes).1 ++ drop (push d s bytes).0 bytes ≡ fed d s ++ bytes
  push_lem d s bytes =
      let k = (push d s bytes).0 in
      ap (λ z. z ++ drop k bytes) (push_fed d s bytes)
      ∙ (append_assoc (fed d s) (take k bytes) (drop k bytes)
          ∙ ap (λ z. fed d s ++ z) (take-append-drop k bytes))

  -- What was taken, with what was refused, is what there was.
  push_loop-fed :
      (n : ℕ) (d : Side) (s : State) (bytes : Bytes)
      → fed d (push_loop parser n d s bytes).0 ++ (push_loop parser n d s bytes).1
        ≡ fed d s ++ bytes
  unfolding push_loop
  push_loop-fed zero d s bytes = refl
  push_loop-fed (suc n) d s [] = refl
  push_loop-fed (suc n) d s (b ∷ bs) = elim (Bool-cases ((push d s (b ∷ bs)).0 == 0)) [
    | inl e ↦ rw e (
        subst (λ k. fed d (push d s (b ∷ bs)).1 ++ drop k (b ∷ bs) ≡ fed d s ++ b ∷ bs)
          ((==_iff (push d s (b ∷ bs)).0 0).0 e) (push_lem d s (b ∷ bs)))
    | inr e ↦ rw e (
        push_loop-fed n d (push d s (b ∷ bs)).1 (drop (push d s (b ∷ bs)).0 (b ∷ bs))
        ∙ push_lem d s (b ∷ bs))
  ]

  -- The loop has ended: all was taken, or the parser took nothing of the rest.
  unfoldable pub Settled : Side → State × Bytes → Type 0
  Settled d (s', rest) = (rest ≡ []) ⊎ ((s : State) × (push d s rest ≡ (0, s')))

  push_loop-Settled :
      (n : ℕ) (d : Side) (s : State) (bytes : Bytes)
      → length bytes ≤ n
      → Settled d (push_loop parser n d s bytes)
  unfolding push_loop Settled
  push_loop-Settled zero d s [] h = inl refl
  push_loop-Settled zero d s (b ∷ bs) h = absurd (omega (arith, h))
  push_loop-Settled (suc n) d s [] h = inl refl
  push_loop-Settled (suc n) d s (b ∷ bs) h = elim (Bool-cases ((push d s (b ∷ bs)).0 == 0)) [
    | inl e ↦
        rw e (inr (s, ap (λ k. (k, (push d s (b ∷ bs)).1)) ((==_iff (push d s (b ∷ bs)).0 0).0 e)))
    | inr e ↦ rw e (
        push_loop-Settled n d (push d s (b ∷ bs)).1 (drop (push d s (b ∷ bs)).0 (b ∷ bs))
          (ground (arith, length-drop (push d s (b ∷ bs)).0 (b ∷ bs))))
  ]

  -- Whatever prefixes the parser accepts, when bytes are pushed in a loop, what it has then taken
  -- in all, followed by the tail that is returned, is what it had taken before followed by the
  -- bytes offered; and the loop ended with all of them taken, or at a push of which nothing was
  -- accepted.
  pub push_bytes-Settled :
      (d : Side) (s : State) (bytes : Bytes)
      → (fed d (push_bytes parser d s bytes).0 ++ (push_bytes parser d s bytes).1
          ≡ fed d s ++ bytes)
        × Settled d (push_bytes parser d s bytes)
  unfolding push_bytes
  push_bytes-Settled d s bytes = (
    push_loop-fed (length bytes) d s bytes,
    push_loop-Settled (length bytes) d s bytes (omega arith),
  )

  drain_loop-fed :
      (n : ℕ) (d : Side) (s : State) (events : List Event)
      → fed d (drain_loop parser n s events).0 ≡ fed d s
  unfolding drain_loop
  drain_loop-fed zero d s events = refl
  drain_loop-fed (suc n) d s events = elim (Option-cases (next_event s)) [
    | inl e ↦ rw (drain_loop, e) refl
    | inr ((ev, s'), e) ↦
        rw (drain_loop, e) (drain_loop-fed n d s' (events ++ ev ∷ []) ∙ next_fed d s ev s' e)
  ]

  drain_loop-drained :
      (n : ℕ) (s : State) (events : List Event)
      → queued s ≤ n
      → next_event (drain_loop parser n s events).0 ≡ none
  unfolding drain_loop
  drain_loop-drained zero s events h = elim (Option-cases (next_event s)) [
    | inl e ↦ e
    | inr ((ev, s'), e) ↦ absurd (omega (arith, next_queued s ev s' e, h))
  ]
  drain_loop-drained (suc n) s events h = elim (Option-cases (next_event s)) [
    | inl e ↦ rw (drain_loop, e) e
    | inr ((ev, s'), e) ↦
        rw (drain_loop, e)
          (drain_loop-drained n s' (events ++ ev ∷ []) (omega (arith, next_queued s ev s' e, h)))
  ]

  -- The events that are there stay in front.
  drain_loop-behind :
      (n : ℕ) (s : State) (events : List Event)
      → (more : List Event) × ((drain_loop parser n s events).1 ≡ events ++ more)
  unfolding drain_loop
  drain_loop-behind zero s events = ([], sym (append-nil events))
  drain_loop-behind (suc n) s events = elim (Option-cases (next_event s)) [
    | inl e ↦ rw (drain_loop, e) ([], sym (append-nil events))
    | inr ((ev, s'), e) ↦
        let (more, same) = drain_loop-behind n s' (events ++ ev ∷ []) in
        rw (drain_loop, e) (ev ∷ more, same ∙ append_assoc events (ev ∷ []) more)
  ]

  -- The loop ends where the parser has nothing more to give, with the events behind those that wait.
  pub drain_events-drained :
      (s : State) (events : List Event)
      → (next_event (drain_events parser s events).0 ≡ none)
        × ((more : List Event) × ((drain_events parser s events).1 ≡ events ++ more))
  unfolding drain_events
  drain_events-drained s events =
      (drain_loop-drained (queued s) s events (omega arith), drain_loop-behind (queued s) s events)

  pub drain_events-fed :
      (d : Side) (s : State) (events : List Event)
      → fed d (drain_events parser s events).0 ≡ fed d s
  unfolding drain_events
  drain_events-fed d s events = drain_loop-fed (queued s) d s events
