-- ===== src/Export/Relay/Up.antt =====
-- The direction from a client to its backend: as long as the connection is not reset, the backend's
-- writer takes exactly what the client's side delivered.
use zenoh_bridge_tcp.Prelude.{
  all, all-append, ℕ, ◌≡◌, ◌⊎◌, inl, inr, refl, ap, ◌∙◌, sym, subst, Bool, true, false, List, [],
  ◌∷◌, ◌++◌, arith, append_assoc, append-nil, Bool-cases, ltb, length,
}
use zenoh_bridge_tcp.Config.{stream}
use zenoh_bridge_tcp.Backpressure.{rx_channel, callback, RxChannel}
use zenoh_bridge_tcp.Export.Outcome.{DirectionEnd}
use zenoh_bridge_tcp.Export.Relay.Down.{is_data}
use zenoh_bridge_tcp.Export.Relay.{
  Bytes, Direction, running, joined, aborted, Relay, start_relay, RelayEvent, backend_read,
  backend_error, b2z_sees_cancel, client_sample, z2b_receives, channel_closed, z2b_sees_cancel,
  sample_missed, torn_down, watchdog_aborts, on_backend_read, b2z_step, z2b_step, outside_step,
  relay_step, relay_run, on_receive, on_closed,
}

-- What the subscriber's callback was called with.
unfoldable pub sample_of : RelayEvent → List Bytes
sample_of (client_sample payload) = payload ∷ []
sample_of _ = []

unfoldable pub samples : List RelayEvent → List Bytes
unfolding sample_of
samples [] = []
samples (ev ∷ evs) = sample_of ev ++ samples evs

-- A reader that runs, or met the end of its stream.
unfoldable pub Whole : Direction → Type 0
Whole running = Unit
Whole (joined DirectionEnd.eof) = Unit
Whole (joined DirectionEnd.reset) = ⊥
Whole (joined DirectionEnd.error) = ⊥
Whole aborted = ⊥

-- A writer that runs has written what was delivered, but for the queue; one that met the client's end
-- marker has written all in front of it and sent the FIN; there is no other end.
unfoldable pub Exact : Direction → Bool → Bool → List Bytes → List Bytes → List Bytes → Type 0
Exact running alive fin ws q os = (alive ≡ true) × (ws ++ q ≡ os) × (all is_data ws ≡ true)
Exact (joined DirectionEnd.eof) alive fin ws q os =
    (rest : List Bytes) × (alive ≡ false)
    × (fin ≡ true)
    × (os ≡ ws ++ [] ∷ rest)
    × (all is_data ws ≡ true)
Exact (joined DirectionEnd.reset) alive fin ws q os = ⊥
Exact (joined DirectionEnd.error) alive fin ws q os = ⊥
Exact aborted alive fin ws q os = ⊥

Good : Relay → List Bytes → Type 0
Good s os = Whole s.b2z × Exact s.z2b s.rx.receiver_alive s.fin s.writes s.rx.queue os

-- A connection is reset, or nothing was lost in it.
Inv : Relay → List Bytes → Type 0
unfolding Good
Inv s os = (s.rx.conn_cancel ≡ true) ⊎ Good s os

on_receive-cancelled :
    (s : Relay) (q : List Bytes) (ok : Bool)
    → s.rx.conn_cancel ≡ true
    → (on_receive s q ok).rx.conn_cancel ≡ true
on_receive-cancelled s [] ok h = h
on_receive-cancelled s ([] ∷ q) true h = h
on_receive-cancelled s ([] ∷ q) false h = refl
on_receive-cancelled s ((b ∷ bs) ∷ q) true h = h
on_receive-cancelled s ((b ∷ bs) ∷ q) false h = refl

on_backend_read-cancelled :
    (s : Relay) (bytes : Bytes) (ok : Bool)
    → s.rx.conn_cancel ≡ true
    → (on_backend_read s bytes ok).rx.conn_cancel ≡ true
on_backend_read-cancelled s [] true h = h
on_backend_read-cancelled s [] false h = refl
on_backend_read-cancelled s (b ∷ bs) true h = h
on_backend_read-cancelled s (b ∷ bs) false h = refl

on_closed-cancelled :
    (s : Relay) (q : List Bytes) → s.rx.conn_cancel ≡ true → (on_closed s q).rx.conn_cancel ≡ true
on_closed-cancelled s [] h = refl
on_closed-cancelled s (x ∷ q) h = h

b2z_step-cancelled :
    (d : Direction) (token : Bool) (s : Relay) (ev : RelayEvent)
    → s.rx.conn_cancel ≡ true
    → (b2z_step d token s ev).rx.conn_cancel ≡ true
unfolding b2z_step
b2z_step-cancelled d token s ev h = ground (arith, on_backend_read-cancelled s)

z2b_step-cancelled :
    (d : Direction) (token : Bool) (s : Relay) (ev : RelayEvent)
    → s.rx.conn_cancel ≡ true
    → (z2b_step d token s ev).rx.conn_cancel ≡ true
unfolding z2b_step
z2b_step-cancelled d token s ev h =
    ground (arith, on_receive-cancelled s s.rx.queue, on_closed-cancelled s s.rx.queue)

outside_step-cancelled :
    (capacity : ℕ) (s : Relay) (ev : RelayEvent)
    → s.rx.conn_cancel ≡ true
    → (outside_step capacity stream s ev).rx.conn_cancel ≡ true
unfolding outside_step callback
outside_step-cancelled capacity s ev h = ground arith

on_backend_read-Inv :
    (s : Relay) (bytes : Bytes) (ok : Bool) (os : List Bytes)
    → Good s os
    → Inv (on_backend_read s bytes ok) os
unfolding Inv Good Whole
on_backend_read-Inv s [] true os h = inr (tt, h.1)
on_backend_read-Inv s [] false os h = inl refl
on_backend_read-Inv s (b ∷ bs) true os h = inr h
on_backend_read-Inv s (b ∷ bs) false os h = inl refl

b2z_step-Inv :
    (d : Direction) (s : Relay) (ev : RelayEvent) (os : List Bytes)
    → Good s os
    → Inv (b2z_step d false s ev) os
unfolding b2z_step Inv Good
b2z_step-Inv running s (backend_read bytes ok) os h = on_backend_read-Inv s bytes ok os h
b2z_step-Inv running s backend_error os h = inl refl
b2z_step-Inv running s b2z_sees_cancel os h = inr h
b2z_step-Inv running s watchdog_aborts os h = inr h
b2z_step-Inv d s ev os h = inr h

-- The sample in front of the queue of a writer that runs.
on_receive-Inv :
    (s : Relay) (q : List Bytes) (ok : Bool) (os : List Bytes)
    → s.z2b ≡ running
    → q ≡ s.rx.queue
    → Good s os
    → Inv (on_receive s q ok) os
unfolding Inv Good Exact
on_receive-Inv s [] ok os r e h = inr h
on_receive-Inv s ([] ∷ q) true os r e h =
    let x : Exact running s.rx.receiver_alive s.fin s.writes s.rx.queue os =
      subst (λ z. Exact z s.rx.receiver_alive s.fin s.writes s.rx.queue os) r h.1 in
    inr (h.0, (q, refl, refl, sym (ap (λ z. s.writes ++ z) e ∙ x.1), x.2))
on_receive-Inv s ([] ∷ q) false os r e h = inl refl
on_receive-Inv s ((b ∷ bs) ∷ q) true os r e h =
    let x : Exact running s.rx.receiver_alive s.fin s.writes s.rx.queue os =
      subst (λ z. Exact z s.rx.receiver_alive s.fin s.writes s.rx.queue os) r h.1 in
    inr (
      h.0,
      rw r (
        x.0,
        append_assoc s.writes ((b ∷ bs) ∷ []) q ∙ ap (λ z. s.writes ++ z) e ∙ x.1,
        rw (all-append is_data s.writes ((b ∷ bs) ∷ []), x.2) refl,
      ),
    )
on_receive-Inv s ((b ∷ bs) ∷ q) false os r e h = inl refl

on_closed-Inv : (s : Relay) (q : List Bytes) (os : List Bytes) → Good s os → Inv (on_closed s q) os
unfolding Inv
on_closed-Inv s [] os h = inl refl
on_closed-Inv s (x ∷ q) os h = inr h

z2b_step-Inv :
    (d : Direction) (s : Relay) (ev : RelayEvent) (os : List Bytes)
    → s.z2b ≡ d
    → Good s os
    → Inv (z2b_step d false s ev) os
unfolding z2b_step Inv
z2b_step-Inv running s (z2b_receives ok) os r h = on_receive-Inv s s.rx.queue ok os r refl h
z2b_step-Inv running s channel_closed os r h = on_closed-Inv s s.rx.queue os h
z2b_step-Inv running s z2b_sees_cancel os r h = inr h
z2b_step-Inv running s watchdog_aborts os r h = inr h
z2b_step-Inv d s ev os r h = inr h

-- A delivery to a writer that runs, or to one that is done.
deliver-Exact :
    (capacity : ℕ) (d : Direction) (rx : RxChannel Bytes) (fin : Bool) (payload : Bytes)
    (ws os : List Bytes)
    → Exact d rx.receiver_alive fin ws rx.queue os
    → ((callback capacity stream rx payload).conn_cancel ≡ true)
      ⊎ Exact d
          (callback capacity stream rx payload).receiver_alive
          fin
          ws
          (callback capacity stream rx payload).queue
          (os ++ payload ∷ [])
unfolding Exact callback
deliver-Exact capacity running rx fin payload ws os h =
    elim (Bool-cases (ltb (length rx.queue) capacity)) [
      | inl room ↦
          rw (h.0, room)
            (inr (
              refl,
              sym (append_assoc ws rx.queue (payload ∷ [])) ∙ ap (λ z. z ++ payload ∷ []) h.1,
              h.2,
            ))
      | inr full ↦ rw (h.0, full) (inl refl)
    ]
deliver-Exact capacity (joined DirectionEnd.eof) rx fin payload ws os (rest, dead, sent, e, clean) =
    rw dead (
      inr (
        rest ++ payload ∷ [],
        refl,
        sent,
        ap (λ z. z ++ payload ∷ []) e ∙ append_assoc ws ([] ∷ rest) (payload ∷ []),
        clean,
      ))
deliver-Exact capacity (joined DirectionEnd.reset) rx fin payload ws os h = absurd h
deliver-Exact capacity (joined DirectionEnd.error) rx fin payload ws os h = absurd h
deliver-Exact capacity aborted rx fin payload ws os h = absurd h

deliver-Inv :
    (capacity : ℕ) (s : Relay) (payload : Bytes) (os : List Bytes)
    → Good s os
    → Inv (record s { rx = callback capacity stream s.rx payload }) (os ++ payload ∷ [])
unfolding Inv Good
deliver-Inv capacity s payload os h =
    elim (deliver-Exact capacity s.z2b s.rx s.fin payload s.writes os h.1) [
      | inl c ↦ inl c
      | inr x ↦ inr (h.0, x)
    ]

outside_step-Inv :
    (capacity : ℕ) (s : Relay) (ev : RelayEvent) (os : List Bytes)
    → Good s os
    → Inv (outside_step capacity stream s ev) (os ++ sample_of ev)
unfolding outside_step sample_of Inv
outside_step-Inv capacity s (client_sample payload) os h = deliver-Inv capacity s payload os h
outside_step-Inv capacity s sample_missed os h = inl refl
outside_step-Inv capacity s torn_down os h = inl refl
outside_step-Inv capacity s ev os h = rw (append-nil os) (inr h)

-- Either alternative, step by step.
reader-Inv :
    (s : Relay) (ev : RelayEvent) (os : List Bytes)
    → Inv s os
    → Inv (b2z_step s.b2z s.rx.conn_cancel s ev) os
unfolding Inv
reader-Inv s ev os (inl c) = inl (b2z_step-cancelled s.b2z s.rx.conn_cancel s ev c)
reader-Inv s ev os (inr h) = elim (Bool-cases s.rx.conn_cancel) [
  | inl c ↦ inl (b2z_step-cancelled s.b2z s.rx.conn_cancel s ev c)
  | inr live ↦ subst (λ z. Inv (b2z_step s.b2z z s ev) os) (sym live) (b2z_step-Inv s.b2z s ev os h)
]

writer-Inv :
    (s : Relay) (ev : RelayEvent) (os : List Bytes)
    → Inv s os
    → Inv (z2b_step s.z2b s.rx.conn_cancel s ev) os
unfolding Inv
writer-Inv s ev os (inl c) = inl (z2b_step-cancelled s.z2b s.rx.conn_cancel s ev c)
writer-Inv s ev os (inr h) = elim (Bool-cases s.rx.conn_cancel) [
  | inl c ↦ inl (z2b_step-cancelled s.z2b s.rx.conn_cancel s ev c)
  | inr live ↦
      subst (λ z. Inv (z2b_step s.z2b z s ev) os) (sym live) (z2b_step-Inv s.z2b s ev os refl h)
]

outside-Inv :
    (capacity : ℕ) (s : Relay) (ev : RelayEvent) (os : List Bytes)
    → Inv s os
    → Inv (outside_step capacity stream s ev) (os ++ sample_of ev)
unfolding Inv
outside-Inv capacity s ev os (inl c) = inl (outside_step-cancelled capacity s ev c)
outside-Inv capacity s ev os (inr h) = outside_step-Inv capacity s ev os h

run-Inv :
    (capacity : ℕ) (s : Relay) (evs : List RelayEvent) (os : List Bytes)
    → Inv s os
    → Inv (relay_run capacity stream s evs) (os ++ samples evs)
unfolding relay_run relay_step samples
run-Inv capacity s [] os h = subst (λ z. Inv s z) (sym (append-nil os)) h
run-Inv capacity s (ev ∷ evs) os h =
    let s1 = b2z_step s.b2z s.rx.conn_cancel s ev in
    let s2 = z2b_step s1.z2b s1.rx.conn_cancel s1 ev in
    subst (λ z. Inv (relay_run capacity stream (outside_step capacity stream s2 ev) evs) z)
      (append_assoc os (sample_of ev) (samples evs))
      (run-Inv capacity (outside_step capacity stream s2 ev) evs (os ++ sample_of ev)
        (outside-Inv capacity s2 ev os (writer-Inv s1 ev os (reader-Inv s ev os h))))

start-Inv : Inv start_relay []
unfolding Inv Good start_relay rx_channel Whole Exact
start-Inv = inr (tt, (refl, refl, refl))

-- In the byte-exact mode, as long as the connection is not reset, no direction has failed, and the
-- backend's writer has been given exactly what the client's side delivered: all but the queue
-- while it runs, and at its end all in front of the client's end marker, with the FIN sent.
pub run_delivers :
    (capacity : ℕ) (evs : List RelayEvent)
    → (relay_run capacity stream start_relay evs).rx.conn_cancel ≡ false
    → Whole (relay_run capacity stream start_relay evs).b2z
      × Exact
          (relay_run capacity stream start_relay evs).z2b
          (relay_run capacity stream start_relay evs).rx.receiver_alive
          (relay_run capacity stream start_relay evs).fin
          (relay_run capacity stream start_relay evs).writes
          (relay_run capacity stream start_relay evs).rx.queue
          (samples evs)
unfolding Inv Good
run_delivers capacity evs live = elim (run-Inv capacity start_relay evs [] start-Inv) [
  | inl c ↦ absurd cc
  | inr h ↦ h
]
