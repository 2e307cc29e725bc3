-- ===== src/Tunnel/Tests.antt =====
-- A whole connection through both relays.
use zenoh_bridge_tcp.Prelude.{◌≡◌, refl, true, List, [], ◌∷◌, ◌++◌, some}
use zenoh_bridge_tcp.Config.{stream}
use zenoh_bridge_tcp.Backpressure.{rx_channel, callback}
use zenoh_bridge_tcp.Export.Outcome.{fold_outcome}
use zenoh_bridge_tcp.Export.Relay.{
  Bytes, Relay, start_relay, RelayEvent, backend_read, client_sample, z2b_receives, b2z_step,
  z2b_step, outside_step, relay_step, relay_run, relay_outcome,
}
use zenoh_bridge_tcp.Export.Relay.Down.{reads}
use zenoh_bridge_tcp.Export.Relay.Up.{samples, sample_of}
use zenoh_bridge_tcp.Import.Relay.{
  ImportRelay, start_import, ImportEvent, client_read, backend_sample, z2c_receives, c2z_step,
  z2c_step, import_outside, import_step, import_run, import_outcome, initial_puts,
}
use zenoh_bridge_tcp.Import.Relay.Whole.{client_reads, delivered}
use zenoh_bridge_tcp.Tunnel.{Complete, request_whole, response_whole}

abbrev import_side : List ImportEvent
import_side =
    client_read (5 ∷ []) true
    ∷ client_read [] true
    ∷ backend_sample (3 ∷ 4 ∷ [])
    ∷ z2c_receives true
    ∷ backend_sample []
    ∷ z2c_receives true
    ∷ []

abbrev export_side : List RelayEvent
export_side =
    client_sample (1 ∷ 2 ∷ [])
    ∷ z2b_receives true
    ∷ client_sample (5 ∷ [])
    ∷ backend_read (3 ∷ 4 ∷ []) true
    ∷ z2b_receives true
    ∷ client_sample []
    ∷ z2b_receives true
    ∷ backend_read [] true
    ∷ []

abbrev importer : ImportRelay
importer = import_run 2 stream (start_import (some (1 ∷ 2 ∷ []))) import_side

abbrev exporter : Relay
exporter = relay_run 2 stream start_relay export_side

request_whole_example :
    (sent : List Bytes) × (exporter.writes ≡ initial_puts (some (1 ∷ 2 ∷ [])) ++ sent)
    × Complete sent (client_reads import_side)
unfolding import_run import_step c2z_step z2c_step import_outside start_import rx_channel callback
    relay_run relay_step b2z_step z2b_step outside_step start_relay relay_outcome fold_outcome
    samples sample_of
request_whole_example =
    request_whole (some (1 ∷ 2 ∷ [])) 2 2 stream import_side export_side [] refl refl refl refl

response_whole_example : Complete importer.writes (reads export_side)
unfolding import_run import_step c2z_step z2c_step import_outside start_import rx_channel callback
    relay_run relay_step b2z_step z2b_step outside_step start_relay import_outcome delivered
response_whole_example =
    response_whole (some (1 ∷ 2 ∷ [])) 2 2 stream import_side export_side [] refl refl
