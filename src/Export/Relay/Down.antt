-- ===== src/Export/Relay/Down.antt =====
-- The direction from a backend to its client: what is published is what was read.
use zenoh_bridge_tcp.Prelude.{
  ℕ, ◌≡◌, ◌≢◌, refl, ap, ◌∙◌, sym, subst, Bool, true, false, List, [], ◌∷◌, ◌++◌, arith,
  append_assoc, append-nil, all, all-append,
}
use zenoh_bridge_tcp.Config.{ReliabilityMode}
use zenoh_bridge_tcp.Export.Outcome.{DirectionEnd}
use zenoh_bridge_tcp.Export.Relay.{
  Bytes, Direction, running, joined, aborted, Relay, start_relay, RelayEvent, backend_read,
  backend_error, b2z_sees_cancel, watchdog_aborts, on_backend_read, b2z_step, z2b_step,
  outside_step, relay_step, relay_run, on_receive,
}

-- What the backend sent, the empty read at its end included.
unfoldable pub read_of : RelayEvent → List Bytes
read_of (backend_read bytes ok) = bytes ∷ []
read_of _ = []

unfoldable pub reads : List RelayEvent → List Bytes
unfolding read_of
reads [] = []
reads (ev ∷ evs) = read_of ev ++ reads evs

abbrev pub is_data : Bytes → Bool
is_data [] = false
is_data (b ∷ bs) = true

-- How what was published stands to what was read: equal while the task runs; a prefix with the end
-- marker as its last part at a clean end; a prefix without any end marker at every other end.
unfoldable pub Published : Direction → List Bytes → List Bytes → Type 0
Published running puts rs = (puts ≡ rs) × (all is_data puts ≡ true)
Published (joined DirectionEnd.eof) puts rs =
    (front : List Bytes) × (rest : List Bytes) × (puts ≡ front ++ [] ∷ [])
    × (rs ≡ puts ++ rest)
    × (all is_data front ≡ true)
Published (joined DirectionEnd.reset) puts rs =
    (rest : List Bytes) × (rs ≡ puts ++ rest) × (all is_data puts ≡ true)
Published (joined DirectionEnd.error) puts rs =
    (rest : List Bytes) × (rs ≡ puts ++ rest) × (all is_data puts ≡ true)
Published aborted puts rs = (rest : List Bytes) × (rs ≡ puts ++ rest) × (all is_data puts ≡ true)

-- More is read after the end.
Published-more :
    (d : Direction) (ps rs more : List Bytes)
    → d ≢ running
    → Published d ps rs
    → Published d ps (rs ++ more)
unfolding Published
Published-more running ps rs more n h = absurd (n refl)
Published-more (joined DirectionEnd.eof) ps rs more n (front, rest, e, p, a) =
    (front, rest ++ more, e, ap (λ z. z ++ more) p ∙ append_assoc ps rest more, a)
Published-more (joined DirectionEnd.reset) ps rs more n (rest, p, a) =
    (rest ++ more, ap (λ z. z ++ more) p ∙ append_assoc ps rest more, a)
Published-more (joined DirectionEnd.error) ps rs more n (rest, p, a) =
    (rest ++ more, ap (λ z. z ++ more) p ∙ append_assoc ps rest more, a)
Published-more aborted ps rs more n (rest, p, a) =
    (rest ++ more, ap (λ z. z ++ more) p ∙ append_assoc ps rest more, a)

-- The other direction and the callbacks publish nothing.
SameDown : Relay → Relay → Type 0
SameDown s t = (t.puts ≡ s.puts) × (t.b2z ≡ s.b2z)

on_receive-SameDown : (s : Relay) (q : List Bytes) (ok : Bool) → SameDown s (on_receive s q ok)
unfolding SameDown
on_receive-SameDown s [] ok = (refl, refl)
on_receive-SameDown s ([] ∷ q) true = (refl, refl)
on_receive-SameDown s ([] ∷ q) false = (refl, refl)
on_receive-SameDown s ((b ∷ bs) ∷ q) true = (refl, refl)
on_receive-SameDown s ((b ∷ bs) ∷ q) false = (refl, refl)

z2b_step-SameDown :
    (d : Direction) (token : Bool) (s : Relay) (ev : RelayEvent)
    → SameDown s (z2b_step d token s ev)
unfolding z2b_step SameDown
z2b_step-SameDown d token s ev = ground (arith, on_receive-SameDown s s.rx.queue)

outside_step-SameDown :
    (capacity : ℕ) (mode : ReliabilityMode) (s : Relay) (ev : RelayEvent)
    → SameDown s (outside_step capacity mode s ev)
unfolding outside_step SameDown
outside_step-SameDown capacity mode s ev = ground arith

-- A read by the running task, and what becomes of it.
on_backend_read-Published :
    (s : Relay) (bytes : Bytes) (ok : Bool) (rs : List Bytes)
    → s.b2z ≡ running
    → s.puts ≡ rs
    → all is_data s.puts ≡ true
    → Published
        (on_backend_read s bytes ok).b2z
        (on_backend_read s bytes ok).puts
        (rs ++ bytes ∷ [])
unfolding Published
on_backend_read-Published s [] true rs r p a = (s.puts, [], refl, rw p (sym (append-nil _)), a)
on_backend_read-Published s [] false rs r p a = ([] ∷ [], rw p refl, a)
on_backend_read-Published s (b ∷ bs) true rs r p a =
    rw r (ap (λ z. z ++ (b ∷ bs) ∷ []) p, rw (all-append is_data s.puts ((b ∷ bs) ∷ []), a) refl)
on_backend_read-Published s (b ∷ bs) false rs r p a = ((b ∷ bs) ∷ [], rw p refl, a)

-- A step that the task does not take reads nothing.
keep-Published :
    (d : Direction) (ps rs : List Bytes) → Published d ps rs → Published d ps (rs ++ [])
keep-Published d ps rs h = subst (λ z. Published d ps z) (sym (append-nil rs)) h

b2z_step-Published :
    (d : Direction) (token : Bool) (s : Relay) (ev : RelayEvent) (rs : List Bytes)
    → s.b2z ≡ d
    → Published d s.puts rs
    → Published (b2z_step d token s ev).b2z (b2z_step d token s ev).puts (rs ++ read_of ev)
unfolding b2z_step read_of Published
b2z_step-Published (joined e) token s ev rs r h =
    rw r (Published-more (joined e) s.puts rs (read_of ev) (λ c. cc) h)
b2z_step-Published aborted token s ev rs r h =
    rw r (Published-more aborted s.puts rs (read_of ev) (λ c. cc) h)
b2z_step-Published running token s (backend_read bytes ok) rs r h =
    on_backend_read-Published s bytes ok rs r h.0 h.1
b2z_step-Published running token s backend_error rs r h =
    ([], rw h.0 (append-nil rs ∙ sym (append-nil rs)), h.1)
b2z_step-Published running true s b2z_sees_cancel rs r h = ([], rw h.0 refl, h.1)
b2z_step-Published running true s watchdog_aborts rs r h = ([], rw h.0 refl, h.1)
b2z_step-Published running false s b2z_sees_cancel rs r h =
    rw r (keep-Published running s.puts rs h)
b2z_step-Published running token s ev rs r h = rw r (keep-Published running s.puts rs h)

step-Published :
    (capacity : ℕ) (mode : ReliabilityMode) (s : Relay) (ev : RelayEvent) (rs : List Bytes)
    → Published s.b2z s.puts rs
    → Published
        (relay_step capacity mode s ev).b2z
        (relay_step capacity mode s ev).puts
        (rs ++ read_of ev)
unfolding relay_step SameDown
step-Published capacity mode s ev rs h =
    let s1 = b2z_step s.b2z s.rx.conn_cancel s ev in
    let s2 = z2b_step s1.z2b s1.rx.conn_cancel s1 ev in
    let (p, d) = z2b_step-SameDown s1.z2b s1.rx.conn_cancel s1 ev in
    let (p', d') = outside_step-SameDown capacity mode s2 ev in
    rw (p' ∙ p, d' ∙ d) (b2z_step-Published s.b2z s.rx.conn_cancel s ev rs refl h)

run-Published :
    (capacity : ℕ) (mode : ReliabilityMode) (s : Relay) (evs : List RelayEvent) (rs : List Bytes)
    → Published s.b2z s.puts rs
    → Published
        (relay_run capacity mode s evs).b2z
        (relay_run capacity mode s evs).puts
        (rs ++ reads evs)
unfolding relay_run reads
run-Published capacity mode s [] rs h = keep-Published s.b2z s.puts rs h
run-Published capacity mode s (ev ∷ evs) rs h =
    subst
      (λ z.
        Published (relay_run capacity mode (relay_step capacity mode s ev) evs).b2z
          (relay_run capacity mode (relay_step capacity mode s ev) evs).puts z)
      (append_assoc rs (read_of ev) (reads evs))
      (run-Published capacity mode (relay_step capacity mode s ev) evs (rs ++ read_of ev)
        (step-Published capacity mode s ev rs h))

-- In every interleaving, what is published to the client is what was read from the backend, in
-- order: all of it while the task runs, a prefix ended by the one end marker at a clean end of the
-- stream, and a prefix without an end marker where the direction failed, was reset or was aborted.
pub run_publishes :
    (capacity : ℕ) (mode : ReliabilityMode) (evs : List RelayEvent)
    → Published
        (relay_run capacity mode start_relay evs).b2z
        (relay_run capacity mode start_relay evs).puts
        (reads evs)
unfolding start_relay
run_publishes capacity mode evs =
    run-Published capacity mode start_relay evs [] (unfold Published in (refl, refl))
