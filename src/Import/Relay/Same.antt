-- ===== src/Import/Relay/Same.antt =====
-- The relay of the import side takes the steps of the export side's relay, with the reader and the
-- writer exchanged: what that one guarantees holds of this one.
use zenoh_bridge_tcp.Prelude.{
  ℕ, ◌≡◌, refl, subst, sym, append-nil, Bool, List, [], ◌∷◌, ◌++◌, Option, arith, append_assoc,
}
use zenoh_bridge_tcp.Config.{ReliabilityMode}
use zenoh_bridge_tcp.Export.Relay.{
  Bytes, Direction, joined, Relay, RelayEvent, b2z_step, z2b_step, outside_step, relay_step,
  relay_run, start_relay, on_receive, on_backend_read,
}
use zenoh_bridge_tcp.Import.Relay.{
  Task, running, done, aborted, ImportRelay, initial_puts, start_import, ImportEvent, client_read,
  client_error, c2z_sees_cancel, backend_sample, z2c_receives, channel_closed, z2c_sees_cancel,
  sample_missed, error_signal, torn_down, watchdog_aborts, on_client_read, on_sample, c2z_step,
  z2c_step, import_outside, import_step, import_run,
}

-- A task, without what it returns.
abbrev pub forget : Direction → Task
forget Direction.running = running
forget (joined e) = done
forget Direction.aborted = aborted

-- The step of the other side that an event corresponds to.
abbrev pub mirror : ImportEvent → RelayEvent
mirror (client_read bytes ok) = RelayEvent.backend_read bytes ok
mirror client_error = RelayEvent.backend_error
mirror c2z_sees_cancel = RelayEvent.b2z_sees_cancel
mirror (backend_sample payload) = RelayEvent.client_sample payload
mirror (z2c_receives ok) = RelayEvent.z2b_receives ok
mirror channel_closed = RelayEvent.channel_closed
mirror z2c_sees_cancel = RelayEvent.z2b_sees_cancel
mirror sample_missed = RelayEvent.sample_missed
mirror error_signal = RelayEvent.torn_down
mirror torn_down = RelayEvent.torn_down
mirror watchdog_aborts = RelayEvent.watchdog_aborts

abbrev pub mirrors : List ImportEvent → List RelayEvent
mirrors [] = []
mirrors (ev ∷ evs) = mirror ev ∷ mirrors evs

-- The two states agree, but for what was published in front.
abbrev pub IsSame : List Bytes → ImportRelay → Relay → Type 0
IsSame front s r =
    (s.rx ≡ r.rx)
    × (s.puts ≡ front ++ r.puts)
    × (s.writes ≡ r.writes)
    × (s.fin ≡ r.fin)
    × (s.writer_shut ≡ r.writer_shut)
    × (s.c2z ≡ forget r.b2z)
    × (s.z2c ≡ forget r.z2b)

module _ (front : List Bytes) where
  on_client_read-IsSame :
      (s : ImportRelay) (r : Relay) (bytes : Bytes) (ok : Bool)
      → IsSame front s r
      → IsSame front (on_client_read s bytes ok) (on_backend_read r bytes ok)
  on_client_read-IsSame s r bytes ok h = ground (arith, append_assoc front r.puts (bytes ∷ []))

  c2z_step-IsSame :
      (d : Direction) (token : Bool) (s : ImportRelay) (r : Relay) (ev : ImportEvent)
      → IsSame front s r
      → IsSame front (c2z_step (forget d) token s ev) (b2z_step d token r (mirror ev))
  unfolding c2z_step b2z_step
  c2z_step-IsSame Direction.running token s r (client_read bytes ok) h =
      on_client_read-IsSame s r bytes ok h
  c2z_step-IsSame d token s r ev h = ground arith

  on_sample-IsSame :
      (s : ImportRelay) (r : Relay) (q : List Bytes) (ok : Bool)
      → IsSame front s r
      → IsSame front (on_sample s q ok) (on_receive r q ok)
  on_sample-IsSame s r q ok h = ground arith

  z2c_step-IsSame :
      (d : Direction) (token : Bool) (s : ImportRelay) (r : Relay) (ev : ImportEvent)
      → IsSame front s r
      → IsSame front (z2c_step (forget d) token s ev) (z2b_step d token r (mirror ev))
  unfolding z2c_step z2b_step
  z2c_step-IsSame Direction.running token s r (z2c_receives ok) h =
      subst (λ z. IsSame front (on_sample s z.queue ok) (on_receive r r.rx.queue ok)) (sym h.0)
        (on_sample-IsSame s r r.rx.queue ok h)
  z2c_step-IsSame Direction.running token s r channel_closed h = ground arith
  z2c_step-IsSame d token s r ev h = ground arith

  import_outside-IsSame :
      (capacity : ℕ) (mode : ReliabilityMode) (s : ImportRelay) (r : Relay) (ev : ImportEvent)
      → IsSame front s r
      → IsSame front (import_outside capacity mode s ev) (outside_step capacity mode r (mirror ev))
  unfolding import_outside outside_step
  import_outside-IsSame capacity mode s r ev h = ground arith

  reader-IsSame :
      (s : ImportRelay) (r : Relay) (ev : ImportEvent)
      → IsSame front s r
      → IsSame front
          (c2z_step s.c2z s.rx.conn_cancel s ev)
          (b2z_step r.b2z r.rx.conn_cancel r (mirror ev))
  reader-IsSame s r ev h =
      let r1 = b2z_step r.b2z r.rx.conn_cancel r (mirror ev) in
      subst (λ z. IsSame front (c2z_step z s.rx.conn_cancel s ev) r1) (sym h.5)
        (subst (λ z. IsSame front (c2z_step (forget r.b2z) z.conn_cancel s ev) r1) (sym h.0)
          (c2z_step-IsSame r.b2z r.rx.conn_cancel s r ev h))

  writer-IsSame :
      (s : ImportRelay) (r : Relay) (ev : ImportEvent)
      → IsSame front s r
      → IsSame front
          (z2c_step s.z2c s.rx.conn_cancel s ev)
          (z2b_step r.z2b r.rx.conn_cancel r (mirror ev))
  writer-IsSame s r ev h =
      let r1 = z2b_step r.z2b r.rx.conn_cancel r (mirror ev) in
      subst (λ z. IsSame front (z2c_step z s.rx.conn_cancel s ev) r1) (sym h.6)
        (subst (λ z. IsSame front (z2c_step (forget r.z2b) z.conn_cancel s ev) r1) (sym h.0)
          (z2c_step-IsSame r.z2b r.rx.conn_cancel s r ev h))

  import_step-IsSame :
      (capacity : ℕ) (mode : ReliabilityMode) (s : ImportRelay) (r : Relay) (ev : ImportEvent)
      → IsSame front s r
      → IsSame front (import_step capacity mode s ev) (relay_step capacity mode r (mirror ev))
  unfolding import_step relay_step
  import_step-IsSame capacity mode s r ev h =
      let s1 = c2z_step s.c2z s.rx.conn_cancel s ev in
      let r1 = b2z_step r.b2z r.rx.conn_cancel r (mirror ev) in
      let s2 = z2c_step s1.z2c s1.rx.conn_cancel s1 ev in
      let r2 = z2b_step r1.z2b r1.rx.conn_cancel r1 (mirror ev) in
      let h1 = reader-IsSame s r ev h in
      let h2 = writer-IsSame s1 r1 ev h1 in import_outside-IsSame capacity mode s2 r2 ev h2

  import_run-IsSame :
      (capacity : ℕ) (mode : ReliabilityMode) (s : ImportRelay) (r : Relay) (evs : List ImportEvent)
      → IsSame front s r
      → IsSame front (import_run capacity mode s evs) (relay_run capacity mode r (mirrors evs))
  unfolding import_run relay_run
  import_run-IsSame capacity mode s r [] h = h
  import_run-IsSame capacity mode s r (ev ∷ evs) h =
      import_run-IsSame capacity mode (import_step capacity mode s ev)
        (relay_step capacity mode r (mirror ev)) evs (import_step-IsSame capacity mode s r ev h)

-- Every run of the importing side's relay is, step by step, a run of the exporting side's relay
-- with the reader and the writer exchanged: the channel with its token, what was published behind
-- the initial buffer, what was written, the end markers and the state of both tasks agree.
pub import_run-refines :
    (initial : Option Bytes) (capacity : ℕ) (mode : ReliabilityMode) (evs : List ImportEvent)
    → IsSame
        (initial_puts initial)
        (import_run capacity mode (start_import initial) evs)
        (relay_run capacity mode start_relay (mirrors evs))
unfolding start_import start_relay
import_run-refines initial capacity mode evs =
    import_run-IsSame (initial_puts initial) capacity mode (start_import initial) start_relay evs
      (refl, sym (append-nil (initial_puts initial)), refl, refl, refl, refl, refl)
