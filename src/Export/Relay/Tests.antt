-- ===== src/Export/Relay/Tests.antt =====
-- The relay of src/export/bridge.rs at concrete runs.
use zenoh_bridge_tcp.Prelude.{◌≡◌, refl, true, List, [], ◌∷◌, some}
use zenoh_bridge_tcp.Config.{stream}
use zenoh_bridge_tcp.Backpressure.{rx_channel, callback}
use zenoh_bridge_tcp.Export.Outcome.{ConnectionOutcome, fold_outcome}
use zenoh_bridge_tcp.Export.Relay.{
  Relay, start_relay, RelayEvent, backend_read, client_sample, z2b_receives, b2z_step, z2b_step,
  outside_step, relay_step, relay_run, relay_outcome,
}
use zenoh_bridge_tcp.Export.Relay.Down.{reads, Published, run_publishes}
use zenoh_bridge_tcp.Export.Relay.Up.{samples, Exact, Whole, run_delivers}

-- A request, its response, and both ends.
abbrev exchange : List RelayEvent
exchange =
    client_sample (1 ∷ 2 ∷ [])
    ∷ z2b_receives true
    ∷ backend_read (3 ∷ []) true
    ∷ client_sample []
    ∷ z2b_receives true
    ∷ backend_read [] true
    ∷ []

abbrev exchanged : Relay
exchanged = relay_run 2 stream start_relay exchange

run_publishes_example : Published exchanged.b2z exchanged.puts (reads exchange)
run_publishes_example = run_publishes 2 stream exchange

run_delivers_example :
    Whole exchanged.b2z
    × Exact exchanged.z2b exchanged.rx.receiver_alive exchanged.fin exchanged.writes
        exchanged.rx.queue
        (samples exchange)
unfolding relay_run relay_step b2z_step z2b_step outside_step start_relay rx_channel callback
run_delivers_example = run_delivers 2 exchange refl

-- With room for one sample: the second is lost and the token tripped, but the writer sees the end
-- marker, which found room, before it sees the token.
abbrev overrun : List RelayEvent
overrun =
    backend_read [] true
    ∷ client_sample (1 ∷ [])
    ∷ client_sample (2 ∷ [])
    ∷ z2b_receives true
    ∷ client_sample []
    ∷ z2b_receives true
    ∷ []

-- A stream with a gap is reported as completed.
completed_with_gap :
    ((relay_run 1 stream start_relay overrun).writes ≡ (1 ∷ []) ∷ [])
    × (relay_outcome
          (relay_run 1 stream start_relay overrun).b2z
          (relay_run 1 stream start_relay overrun).z2b
        ≡ some ConnectionOutcome.completed)
unfolding relay_run relay_step b2z_step z2b_step outside_step start_relay rx_channel callback
    relay_outcome fold_outcome
completed_with_gap = (refl, refl)
