-- ===== src/Import/Relay/Whole.antt =====
-- What the import side of src/import/bridge.rs publishes of its client's stream, and what a
-- connection that it reports as completed has relayed.
use zenoh_bridge_tcp.Prelude.{
  ℕ, ◌≡◌, ◌≢◌, ◌⊎◌, inl, inr, refl, ◌∙◌, sym, subst, Bool, true, false, List, [], ◌∷◌, ◌++◌, Option,
  some, arith, all,
}
use zenoh_bridge_tcp.Config.{ReliabilityMode, stream}
use zenoh_bridge_tcp.Export.Outcome.{DirectionEnd, ConnectionOutcome, fold_outcome}
use zenoh_bridge_tcp.Export.Relay.{Bytes, Direction, joined, start_relay, relay_run, relay_outcome}
use zenoh_bridge_tcp.Export.Relay.Down.{is_data, read_of, reads, Published, run_publishes}
use zenoh_bridge_tcp.Export.Relay.Up.{Whole, Exact, sample_of, samples, run_delivers}
use zenoh_bridge_tcp.Export.Relay.Completed.{Relayed, completed_relays}
use zenoh_bridge_tcp.Import.Relay.{
  Task, running, done, aborted, completed, initial_puts, start_import, ImportEvent, client_read,
  backend_sample, import_run, import_outcome,
}
use zenoh_bridge_tcp.Import.Relay.Same.{forget, mirrors, import_run-refines}

-- What the client sent, the empty read at its end included.
unfoldable pub client_reads : List ImportEvent → List Bytes
client_reads [] = []
client_reads (client_read bytes ok ∷ evs) = bytes ∷ client_reads evs
client_reads (_ ∷ evs) = client_reads evs

-- What the subscriber's callback was called with.
unfoldable pub delivered : List ImportEvent → List Bytes
delivered [] = []
delivered (backend_sample payload ∷ evs) = payload ∷ delivered evs
delivered (_ ∷ evs) = delivered evs

reads-mirrors : (evs : List ImportEvent) → reads (mirrors evs) ≡ client_reads evs
unfolding reads read_of client_reads
reads-mirrors [] = refl
reads-mirrors (ev ∷ evs) = ground (arith, reads-mirrors evs)

samples-mirrors : (evs : List ImportEvent) → samples (mirrors evs) ≡ delivered evs
unfolding samples sample_of delivered
samples-mirrors [] = refl
samples-mirrors (ev ∷ evs) = ground (arith, samples-mirrors evs)

-- A prefix of what was read, without an end marker.
abbrev pub Cut : List Bytes → List Bytes → Type 0
Cut ps rs = (rest : List Bytes) × (rs ≡ ps ++ rest) × (all is_data ps ≡ true)

-- All that was read up to its first end, and the end marker.
abbrev pub Ended : List Bytes → List Bytes → Type 0
Ended ps rs =
    (front : List Bytes) × (rest : List Bytes) × (ps ≡ front ++ [] ∷ [])
    × (rs ≡ ps ++ rest)
    × (all is_data front ≡ true)

-- How what the task published stands to what was read.
unfoldable pub TaskPublished : Task → List Bytes → List Bytes → Type 0
TaskPublished running ps rs = (ps ≡ rs) × (all is_data ps ≡ true)
TaskPublished done ps rs = Ended ps rs ⊎ Cut ps rs
TaskPublished aborted ps rs = Cut ps rs

pub Published-forget :
    (d : Direction) (ps rs : List Bytes) → Published d ps rs → TaskPublished (forget d) ps rs
unfolding Published TaskPublished
Published-forget Direction.running ps rs h = h
Published-forget (joined DirectionEnd.eof) ps rs h = inl h
Published-forget (joined DirectionEnd.reset) ps rs h = inr h
Published-forget (joined DirectionEnd.error) ps rs h = inr h
Published-forget Direction.aborted ps rs h = h

-- In every interleaving and in both modes, what the importing side publishes is its initial buffer
-- and then what it read from its client, in order: all of it while the task runs, and afterwards
-- either all in front of the client's end of stream with one end marker, or a prefix without an
-- end marker; an aborted task leaves no end marker.
pub import_publishes :
    (initial : Option Bytes) (capacity : ℕ) (mode : ReliabilityMode) (evs : List ImportEvent)
    → (ps : List Bytes) × ((import_run capacity mode (start_import initial) evs).puts
        ≡ initial_puts initial ++ ps)
      × TaskPublished
          (import_run capacity mode (start_import initial) evs).c2z
          ps
          (client_reads evs)
import_publishes initial capacity mode evs =
    let r = relay_run capacity mode start_relay (mirrors evs) in
    let same = import_run-refines initial capacity mode evs in
    (
      r.puts,
      same.1,
      subst (λ z. TaskPublished z r.puts (client_reads evs)) (sym same.5)
          (Published-forget r.b2z r.puts (client_reads evs) (
            subst (λ z. Published r.b2z r.puts z) (reads-mirrors evs)
              (run_publishes capacity mode (mirrors evs)))),
    )

-- A direction of a connection that is not reset ends cleanly or not at all.
Whole-ended : (d : Direction) → Whole d → forget d ≢ running → d ≡ joined DirectionEnd.eof
unfolding Whole
Whole-ended Direction.running w n = absurd (n refl)
Whole-ended (joined DirectionEnd.eof) w n = refl
Whole-ended (joined DirectionEnd.reset) w n = absurd w
Whole-ended (joined DirectionEnd.error) w n = absurd w
Whole-ended Direction.aborted w n = absurd w

Exact-ended :
    (d : Direction) (alive fin : Bool) (ws q os : List Bytes)
    → Exact d alive fin ws q os
    → forget d ≢ running
    → d ≡ joined DirectionEnd.eof
unfolding Exact
Exact-ended Direction.running alive fin ws q os w n = absurd (n refl)
Exact-ended (joined DirectionEnd.eof) alive fin ws q os w n = refl
Exact-ended (joined DirectionEnd.reset) alive fin ws q os w n = absurd w
Exact-ended (joined DirectionEnd.error) alive fin ws q os w n = absurd w
Exact-ended Direction.aborted alive fin ws q os w n = absurd w

both_ended :
    (b2z z2b : Direction)
    → b2z ≡ joined DirectionEnd.eof
    → z2b ≡ joined DirectionEnd.eof
    → relay_outcome b2z z2b ≡ some ConnectionOutcome.completed
unfolding relay_outcome fold_outcome
both_ended b2z z2b e e' = rw (e, e') refl

Exact-fin :
    (d : Direction) (alive fin : Bool) (ws q os : List Bytes)
    → Exact d alive fin ws q os
    → d ≡ joined DirectionEnd.eof
    → fin ≡ true
unfolding Exact
Exact-fin d alive fin ws q os x e =
    let h : Exact (joined DirectionEnd.eof) alive fin ws q os =
      subst (λ z. Exact z alive fin ws q os) e x in
    h.2

import_outcome-completed :
    (c2z z2c : Task) (token : Bool)
    → import_outcome c2z z2c token ≡ some completed
    → (c2z ≢ running) × (z2c ≢ running) × (token ≡ false)
unfolding import_outcome
import_outcome-completed c2z z2c token e = ground arith

-- In the byte-exact mode, a connection that the importing side reports as completed has sent the
-- FIN to its client, has written all the samples that were delivered in front of the first end
-- marker, and has published its initial buffer and all the reads in front of the client's end of
-- stream, followed by one end marker.
pub import_completed_relays :
    (initial : Option Bytes) (capacity : ℕ) (evs : List ImportEvent)
    → import_outcome
        (import_run capacity stream (start_import initial) evs).c2z
        (import_run capacity stream (start_import initial) evs).z2c
        (import_run capacity stream (start_import initial) evs).rx.conn_cancel
      ≡ some completed
    → ((import_run capacity stream (start_import initial) evs).fin ≡ true)
      × ((ps : List Bytes) × ((import_run capacity stream (start_import initial) evs).puts
            ≡ initial_puts initial ++ ps)
          × Relayed
              (import_run capacity stream (start_import initial) evs).writes
              (delivered evs)
              ps
              (client_reads evs))
import_completed_relays initial capacity evs e =
    let s = import_run capacity stream (start_import initial) evs in
    let r = relay_run capacity stream start_relay (mirrors evs) in
    let same = import_run-refines initial capacity stream evs in
    let (ended, ended', live) = import_outcome-completed s.c2z s.z2c s.rx.conn_cancel e in
    let r_live : r.rx.conn_cancel ≡ false = subst (λ z. z.conn_cancel ≡ false) same.0 live in
    let (whole, exact) = run_delivers capacity (mirrors evs) r_live in
    let up_ended = Whole-ended r.b2z whole (λ c. ended (same.5 ∙ c)) in
    let down_ended =
      Exact-ended r.z2b r.rx.receiver_alive r.fin r.writes r.rx.queue (samples (mirrors evs)) exact
        (λ c. ended' (same.6 ∙ c)) in
    let relayed =
      completed_relays capacity (mirrors evs) (both_ended r.b2z r.z2b up_ended down_ended) r_live in
    (
      same.3
          ∙ Exact-fin r.z2b r.rx.receiver_alive r.fin r.writes r.rx.queue (samples (mirrors evs))
              exact down_ended,
      (
        r.puts,
        same.1,
        subst (λ z. Relayed z (delivered evs) r.puts (client_reads evs)) (sym same.2)
            (subst (λ z. Relayed r.writes z r.puts (client_reads evs)) (samples-mirrors evs)
              (subst (λ z. Relayed r.writes (samples (mirrors evs)) r.puts z) (reads-mirrors evs)
                relayed)),
      ),
    )
