-- ===== src/Import/Relay.antt =====
-- src/import/bridge.rs, `bridge_import_connection` behind its setup: the two directions of one
-- client's connection as a machine of the steps that the tasks and the callbacks take, in any order.
pub mod Same
pub mod Whole
mod Tests
use zenoh_bridge_tcp.Prelude.{
  ℕ, ◌+◌, ◌%◌, ◌^◌, Bool, true, false, List, [], ◌∷◌, ◌++◌, Option, some, none, length,
  if◌then◌else◌,
}
use zenoh_bridge_tcp.Config.{ReliabilityMode, stream, telemetry}
use zenoh_bridge_tcp.Backpressure.{RxChannel, rx_channel, callback}
use zenoh_bridge_tcp.Export.Relay.{Bytes}

-- A direction's task: it runs, it returned, or the watchdog aborted it.
pub data Task : Type 0 where
  running done aborted : Task

-- `metrics::ConnOutcome`, as far as this side tells them apart.
pub data ImportOutcome : Type 0 where
  completed reset : ImportOutcome

-- The channel with the connection's token, what was published, what the client's writer took, what
-- the tap has seen, whether the FIN went out, the byte counters, and the tasks.
pub record ImportRelay : Type 0 where
  pub rx : RxChannel Bytes
  pub puts : List Bytes
  pub writes : List Bytes
  pub tapped : List Bytes
  pub fin : Bool
  pub writer_shut : Bool
  pub up : ℕ
  pub down : ℕ
  pub c2z : Task
  pub z2c : Task

abbrev pub initial_puts : Option Bytes → List Bytes
initial_puts none = []
initial_puts (some buffer) = buffer ∷ []

-- The state in which the tasks are spawned, behind the put of the initial buffer.
unfoldable pub start_import : Option Bytes → ImportRelay
start_import initial = record {
  rx = rx_channel false;
  puts = initial_puts initial;
  writes = [];
  tapped = [];
  fin = false;
  writer_shut = false;
  up = 0;
  down = 0;
  c2z = running;
  z2c = running;
}

-- What may happen next; a flag says whether the put, the write or the FIN that the step makes
-- succeeds.
pub data ImportEvent : Type 0 where
  client_read : Bytes → Bool → ImportEvent
  client_error c2z_sees_cancel : ImportEvent
  backend_sample : Bytes → ImportEvent
  z2c_receives : Bool → ImportEvent
  channel_closed z2c_sees_cancel : ImportEvent
  sample_missed error_signal torn_down : ImportEvent
  watchdog_aborts : ImportEvent

abbrev pub cancel_import : ImportRelay → ImportRelay
cancel_import s = record s { rx = record s.rx { conn_cancel = true } }

-- The task of the direction to the client returns: its receiver is dropped.
abbrev pub end_z2c : ImportRelay → ImportRelay
end_z2c s = record s { z2c = done; rx = record s.rx { receiver_alive = false; queue = [] } }

-- Client to Zenoh: one result of `read_data`, empty at the end of the stream.
abbrev pub on_client_read : ImportRelay → Bytes → Bool → ImportRelay
on_client_read s [] true = record s { puts = s.puts ++ [] ∷ []; c2z = done }
on_client_read s [] false = cancel_import (record s { c2z = done })
on_client_read s (b ∷ bs) true = record s {
  puts = s.puts ++ (b ∷ bs) ∷ [];
  up = (s.up + length (b ∷ bs)) % 2 ^ 64;
}
on_client_read s (b ∷ bs) false =
    cancel_import (record s { up = (s.up + length (b ∷ bs)) % 2 ^ 64; c2z = done })

-- The counter and the tap, which come before the write.
abbrev pub observe : ImportRelay → Bytes → ImportRelay
observe s payload = record s {
  down = (s.down + length payload) % 2 ^ 64;
  tapped = s.tapped ++ payload ∷ [];
}

-- Zenoh to client: the sample in front of the queue, if there is one.
abbrev pub on_sample : ImportRelay → List Bytes → Bool → ImportRelay
on_sample s [] ok = s
on_sample s ([] ∷ q) true = end_z2c (record s { fin = true })
on_sample s ([] ∷ q) false = cancel_import (end_z2c s)
on_sample s ((b ∷ bs) ∷ q) true =
    observe (record s { rx = record s.rx { queue = q }; writes = s.writes ++ (b ∷ bs) ∷ [] })
      (b ∷ bs)
on_sample s ((b ∷ bs) ∷ q) false = cancel_import (end_z2c (observe s (b ∷ bs)))

-- The channel is closed, which `recv` reports once the queue is empty.
abbrev pub on_rx_closed : ImportRelay → List Bytes → ImportRelay
on_rx_closed s [] = cancel_import (end_z2c s)
on_rx_closed s (x ∷ q) = s

-- The turns of the client's reader, while its task runs.
unfoldable pub c2z_step : Task → Bool → ImportRelay → ImportEvent → ImportRelay
c2z_step running token s (client_read bytes ok) = on_client_read s bytes ok
c2z_step running token s client_error = cancel_import (record s { c2z = done })
c2z_step running true s c2z_sees_cancel = record s { c2z = done }
c2z_step running true s watchdog_aborts = record s { c2z = aborted }
c2z_step _ _ s _ = s

-- The turns of the client's writer, while its task runs.
unfoldable pub z2c_step : Task → Bool → ImportRelay → ImportEvent → ImportRelay
z2c_step running token s (z2c_receives ok) = on_sample s s.rx.queue ok
z2c_step running token s channel_closed = on_rx_closed s s.rx.queue
z2c_step running true s z2c_sees_cancel = end_z2c (record s { writer_shut = true })
z2c_step running true s watchdog_aborts = record s {
  z2c = aborted;
  rx = record s.rx { receiver_alive = false; queue = [] };
}
z2c_step _ _ s _ = s

-- What happens outside the two tasks: the subscriber's callback, the listener for missed samples,
-- which only the byte-exact mode registers, the exporter's error signal, and the teardown.
unfoldable pub import_outside : ℕ → ReliabilityMode → ImportRelay → ImportEvent → ImportRelay
import_outside capacity mode s (backend_sample payload) = record s {
  rx = callback capacity mode s.rx payload;
}
import_outside capacity stream s sample_missed = cancel_import s
import_outside capacity mode s error_signal = cancel_import s
import_outside capacity mode s torn_down = cancel_import s
import_outside _ _ s _ = s

unfoldable pub import_step : ℕ → ReliabilityMode → ImportRelay → ImportEvent → ImportRelay
import_step capacity mode s ev =
    let s1 = c2z_step s.c2z s.rx.conn_cancel s ev in
    let s2 = z2c_step s1.z2c s1.rx.conn_cancel s1 ev in import_outside capacity mode s2 ev

unfoldable pub import_run : ℕ → ReliabilityMode → ImportRelay → List ImportEvent → ImportRelay
import_run capacity mode s [] = s
import_run capacity mode s (ev ∷ evs) =
    import_run capacity mode (import_step capacity mode s ev) evs

-- The outcome, once both tasks are joined: the token decides.
unfoldable pub import_outcome : Task → Task → Bool → Option ImportOutcome
import_outcome running _ _ = none
import_outcome _ running _ = none
import_outcome _ _ token = some (if token then reset else completed)
