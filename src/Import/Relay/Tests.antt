-- ===== src/Import/Relay/Tests.antt =====
-- The relay of src/import/bridge.rs at concrete runs.
use zenoh_bridge_tcp.Prelude.{◌≡◌, refl, true, List, [], ◌∷◌, ◌++◌, some}
use zenoh_bridge_tcp.Config.{stream}
use zenoh_bridge_tcp.Backpressure.{rx_channel, callback}
use zenoh_bridge_tcp.Export.Relay.{Bytes, start_relay, relay_run}
use zenoh_bridge_tcp.Import.Relay.{
  ImportRelay, start_import, ImportEvent, client_read, client_error, backend_sample, z2c_receives,
  c2z_step, z2c_step, import_outside, import_step, import_run, import_outcome, initial_puts, reset,
  z2c_sees_cancel,
}
use zenoh_bridge_tcp.Import.Relay.Same.{IsSame, mirrors, import_run-refines}
use zenoh_bridge_tcp.Import.Relay.Whole.{TaskPublished, client_reads, import_publishes}

-- A buffered head, the rest of the request, its response, and both ends.
abbrev request : List ImportEvent
request =
    client_read (5 ∷ []) true
    ∷ backend_sample (3 ∷ 4 ∷ [])
    ∷ z2c_receives true
    ∷ client_read [] true
    ∷ backend_sample []
    ∷ z2c_receives true
    ∷ []

abbrev requested : ImportRelay
requested = import_run 2 stream (start_import (some (1 ∷ 2 ∷ []))) request

import_run-refines_example :
    IsSame
      (initial_puts (some (1 ∷ 2 ∷ [])))
      requested
      (relay_run 2 stream start_relay (mirrors request))
import_run-refines_example = import_run-refines (some (1 ∷ 2 ∷ [])) 2 stream request

import_publishes_example :
    (ps : List Bytes) × (requested.puts ≡ initial_puts (some (1 ∷ 2 ∷ [])) ++ ps)
    × TaskPublished requested.c2z ps (client_reads request)
import_publishes_example = import_publishes (some (1 ∷ 2 ∷ [])) 2 stream request

-- A client that crashes publishes no end marker, and the connection is reset.
crashed :
    ((import_run 2 stream (start_import (some (1 ∷ []))) (client_error ∷ z2c_sees_cancel ∷ [])).puts
      ≡ (1 ∷ []) ∷ [])
    × (import_outcome
          (import_run 2 stream
            (start_import (some (1 ∷ [])))
            (client_error ∷ z2c_sees_cancel ∷ [])).c2z
          (import_run 2 stream
            (start_import (some (1 ∷ [])))
            (client_error ∷ z2c_sees_cancel ∷ [])).z2c
          (import_run 2 stream
            (start_import (some (1 ∷ [])))
            (client_error ∷ z2c_sees_cancel ∷ [])).rx.conn_cancel
        ≡ some reset)
unfolding import_run import_step c2z_step z2c_step import_outside start_import rx_channel callback
    import_outcome
crashed = (refl, refl)
