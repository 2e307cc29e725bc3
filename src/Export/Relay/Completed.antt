-- ===== src/Export/Relay/Completed.antt =====
-- What a connection that is reported as completed has relayed.
use zenoh_bridge_tcp.Prelude.{
  true, all, ℕ, ◌≡◌, ◌∙◌, ap, subst, false, List, [], ◌∷◌, ◌++◌, some, arith, append_assoc,
}
use zenoh_bridge_tcp.Config.{stream}
use zenoh_bridge_tcp.Export.Outcome.{DirectionEnd, ConnectionOutcome, fold_outcome}
use zenoh_bridge_tcp.Export.Relay.{
  Bytes, Direction, joined, start_relay, RelayEvent, relay_run, relay_outcome,
}
use zenoh_bridge_tcp.Export.Relay.Down.{is_data, reads, Published, run_publishes}
use zenoh_bridge_tcp.Export.Relay.Up.{samples, Exact, run_delivers}

-- A completion is two clean ends.
pub completed_iff :
    (b2z z2b : Direction)
    → relay_outcome b2z z2b ≡ some ConnectionOutcome.completed
    → (b2z ≡ joined DirectionEnd.eof) × (z2b ≡ joined DirectionEnd.eof)
unfolding relay_outcome fold_outcome
completed_iff b2z z2b e = ground arith

-- What the client's side delivered up to its end marker, and what the backend sent up to its end.
unfoldable pub Relayed : List Bytes → List Bytes → List Bytes → List Bytes → Type 0
Relayed writes os puts rs =
    (more : List Bytes) × (front : List Bytes) × (more' : List Bytes) × (os ≡ writes ++ [] ∷ more)
    × (all is_data writes ≡ true)
    × (puts ≡ front ++ [] ∷ [])
    × (rs ≡ front ++ [] ∷ more')
    × (all is_data front ≡ true)

-- In the byte-exact mode, a connection that is reported as completed and whose token was not
-- tripped has written all the samples that the client's side delivered in front of its first end
-- marker, and published all the reads from the backend in front of its first end of stream,
-- followed by one end marker.
pub completed_relays :
    (capacity : ℕ) (evs : List RelayEvent)
    → relay_outcome
        (relay_run capacity stream start_relay evs).b2z
        (relay_run capacity stream start_relay evs).z2b
      ≡ some ConnectionOutcome.completed
    → (relay_run capacity stream start_relay evs).rx.conn_cancel ≡ false
    → Relayed
        (relay_run capacity stream start_relay evs).writes
        (samples evs)
        (relay_run capacity stream start_relay evs).puts
        (reads evs)
unfolding Relayed Exact Published
completed_relays capacity evs done live =
    let r = relay_run capacity stream start_relay evs in
    let (down, up) = completed_iff r.b2z r.z2b done in
    let (more, dead, sent, os, whole) =
      subst (λ z. Exact z r.rx.receiver_alive r.fin r.writes r.rx.queue (samples evs)) up
        (run_delivers capacity evs live).1 in
    let (front, more', ps, rs, clean) =
      subst (λ z. Published z r.puts (reads evs)) down (run_publishes capacity stream evs) in
    (
      more,
      front,
      more',
      os,
      whole,
      ps,
      rs ∙ ap (λ z. z ++ more') ps ∙ append_assoc front ([] ∷ []) more',
      clean,
    )
