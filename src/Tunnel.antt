-- ===== src/Tunnel.antt =====
-- The two relays together, src/import/bridge.rs in front of src/export/bridge.rs: one connection
-- from a client to a backend and back. The bus between them delivers a prefix of what is published,
-- in order, which is a hypothesis.
mod Tests
use zenoh_bridge_tcp.Prelude.{
  ℕ, ◌≡◌, ◌⊎◌, inl, inr, refl, subst, ap, ◌∙◌, sym, true, false, List, [], ◌∷◌, ◌++◌, Option, some,
  arith, append_assoc, all, all-append,
}
use zenoh_bridge_tcp.Config.{ReliabilityMode, stream}
use zenoh_bridge_tcp.Export.Outcome.{ConnectionOutcome}
use zenoh_bridge_tcp.Export.Relay.{
  Bytes, Direction, start_relay, RelayEvent, relay_run, relay_outcome,
}
use zenoh_bridge_tcp.Export.Relay.Down.{is_data, reads, Published, run_publishes}
use zenoh_bridge_tcp.Export.Relay.Up.{samples}
use zenoh_bridge_tcp.Export.Relay.Completed.{Relayed, completed_relays}
use zenoh_bridge_tcp.Import.Relay.{
  Task, running, done, aborted, completed, initial_puts, start_import, ImportEvent, import_run,
  import_outcome,
}
use zenoh_bridge_tcp.Import.Relay.Same.{forget}
use zenoh_bridge_tcp.Import.Relay.Whole.{
  Cut, Ended, TaskPublished, Published-forget, client_reads, delivered, import_publishes,
  import_completed_relays,
}

-- The first end marker cuts a list of parts in one way.
marker_unique :
    (a b x y : List Bytes)
    → all is_data a ≡ true
    → all is_data b ≡ true
    → a ++ [] ∷ x ≡ b ++ [] ∷ y
    → a ≡ b
marker_unique [] [] x y ha hb e = refl
marker_unique [] (v ∷ b) x y ha hb e = absurd (ground arith)
marker_unique (u ∷ a) [] x y ha hb e = absurd (ground arith)
marker_unique (u ∷ a) (v ∷ b) x y ha hb e = ground (arith, marker_unique a b x y)

no_marker : (a b y : List Bytes) → all is_data a ≡ true → a ≡ b ++ [] ∷ y → ⊥
no_marker a b y h e = absurd (ground (arith, all-append is_data b ([] ∷ y), ap (all is_data) e))

-- A stream that was read to its end, and all of it that is in front of the end.
abbrev pub Complete : List Bytes → List Bytes → Type 0
Complete front rs = (rest : List Bytes) × (rs ≡ front ++ [] ∷ rest) × (all is_data front ≡ true)

-- Where an end marker came through, the sender read its stream to the end, and the parts in front
-- of the marker are those that it read.
published_whole :
    (t : Task) (front ps rs ws more : List Bytes)
    → all is_data front ≡ true
    → all is_data ws ≡ true
    → TaskPublished t ps rs
    → front ++ ps ≡ ws ++ [] ∷ more
    → (sent : List Bytes) × (ws ≡ front ++ sent) × Complete sent rs
unfolding TaskPublished
published_whole running front ps rs ws more hf hw (same, clean) e =
    absurd (no_marker (front ++ ps) ws more (ground (arith, all-append is_data front ps)) e)
published_whole aborted front ps rs ws more hf hw (rest, cut, clean) e =
    absurd (no_marker (front ++ ps) ws more (ground (arith, all-append is_data front ps)) e)
published_whole done front ps rs ws more hf hw (inr (rest, cut, clean)) e =
    absurd (no_marker (front ++ ps) ws more (ground (arith, all-append is_data front ps)) e)
published_whole done front ps rs ws more hf hw (inl (sent, rest, ended, read, clean)) e = (
  sent,
  sym (
      marker_unique (front ++ sent) ws [] more (ground (arith, all-append is_data front sent)) hw
        (append_assoc front sent ([] ∷ []) ∙ (ap (λ z. front ++ z) (sym ended) ∙ e))),
  (rest, read ∙ (ap (λ z. z ++ rest) ended ∙ append_assoc sent ([] ∷ []) rest), clean),
)

-- The end marker is still in front where the bus lost a tail.
behind_marker :
    (ps os ws more lost : List Bytes)
    → ps ≡ os ++ lost
    → os ≡ ws ++ [] ∷ more
    → ps ≡ ws ++ [] ∷ (more ++ lost)
behind_marker ps os ws more lost e e' =
    e ∙ (ap (λ z. z ++ lost) e' ∙ append_assoc ws ([] ∷ more) lost)

-- If the bus delivers to the exporting side a prefix of what the importing side published, in
-- order, the initial buffer is not empty, and the exporting side, in the byte-exact mode, reports
-- the connection as completed without its token tripped, then the client closed its stream, and
-- the backend was written the initial buffer and all that was read from the client in front of
-- that close, and nothing else.
pub request_whole :
    (initial : Option Bytes) (capacity capacity' : ℕ) (mode : ReliabilityMode)
    (import_evs : List ImportEvent) (export_evs : List RelayEvent) (lost : List Bytes)
    → all is_data (initial_puts initial) ≡ true
    → (import_run capacity mode (start_import initial) import_evs).puts ≡ samples export_evs ++ lost
    → relay_outcome
        (relay_run capacity' stream start_relay export_evs).b2z
        (relay_run capacity' stream start_relay export_evs).z2b
      ≡ some ConnectionOutcome.completed
    → (relay_run capacity' stream start_relay export_evs).rx.conn_cancel ≡ false
    → (sent : List Bytes) × ((relay_run capacity' stream start_relay export_evs).writes
        ≡ initial_puts initial ++ sent)
      × Complete sent (client_reads import_evs)
unfolding Relayed
request_whole initial capacity capacity' mode import_evs export_evs lost hi bus e live =
    let s = import_run capacity mode (start_import initial) import_evs in
    let r = relay_run capacity' stream start_relay export_evs in
    let (more, _, _, os, whole, _, _, _) = completed_relays capacity' export_evs e live in
    let (ps, put, published) = import_publishes initial capacity mode import_evs in
    published_whole s.c2z (initial_puts initial) ps (client_reads import_evs) r.writes
      (more ++ lost) hi whole published
      (sym put ∙ behind_marker s.puts (samples export_evs) r.writes more lost bus os)

-- If the bus delivers to the importing side a prefix of what the exporting side published, in
-- order, and the importing side, in the byte-exact mode, reports the connection as completed, then
-- the backend closed its stream, and the client was written all that was read from the backend in
-- front of that close, and nothing else.
pub response_whole :
    (initial : Option Bytes) (capacity capacity' : ℕ) (mode : ReliabilityMode)
    (import_evs : List ImportEvent) (export_evs : List RelayEvent) (lost : List Bytes)
    → (relay_run capacity' mode start_relay export_evs).puts ≡ delivered import_evs ++ lost
    → import_outcome
        (import_run capacity stream (start_import initial) import_evs).c2z
        (import_run capacity stream (start_import initial) import_evs).z2c
        (import_run capacity stream (start_import initial) import_evs).rx.conn_cancel
      ≡ some completed
    → Complete
        (import_run capacity stream (start_import initial) import_evs).writes
        (reads export_evs)
unfolding Relayed
response_whole initial capacity capacity' mode import_evs export_evs lost bus e =
    let s = import_run capacity stream (start_import initial) import_evs in
    let r = relay_run capacity' mode start_relay export_evs in
    let (_, (_, _, relayed)) = import_completed_relays initial capacity import_evs e in
    let (more, _, _, os, whole, _, _, _) = relayed in
    let published =
      Published-forget r.b2z r.puts (reads export_evs) (run_publishes capacity' mode export_evs) in
    let (sent, same, complete) =
      published_whole (forget r.b2z) [] r.puts (reads export_evs) s.writes (more ++ lost) refl whole
        published (behind_marker r.puts (delivered import_evs) s.writes more lost bus os) in
    subst (λ z. Complete z (reads export_evs)) (sym same) complete
