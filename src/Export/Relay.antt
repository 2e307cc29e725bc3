-- ===== src/Export/Relay.antt =====
-- src/export/bridge.rs, `handle_client_bridge` behind its setup: the two directions of one client's
-- connection as a machine of the steps that the tasks and the callbacks take, in any order.
pub mod Down
pub mod Up
pub mod Completed
pub mod Tests
use zenoh_bridge_tcp.Prelude.{
  ℕ, ◌+◌, ◌%◌, ◌^◌, Bool, true, false, List, [], ◌∷◌, ◌++◌, Option, some, none, length,
}
use zenoh_bridge_tcp.Config.{ReliabilityMode, stream, telemetry}
use zenoh_bridge_tcp.Backpressure.{RxChannel, rx_channel, callback}
use zenoh_bridge_tcp.Export.Outcome.{DirectionEnd, ConnectionOutcome, fold_outcome}

-- The bytes of one read, or of one sample's payload.
abbrev pub Bytes : Type 0
Bytes = List ℕ

-- A direction's task: it runs, it returned, or the watchdog aborted it.
pub data Direction : Type 0 where
  running : Direction
  joined : DirectionEnd → Direction
  aborted : Direction

-- The channel with the connection's token, what was published and what the backend's writer took,
-- whether the FIN went out, the byte counters, and the tasks.
pub record Relay : Type 0 where
  pub rx : RxChannel Bytes
  pub puts : List Bytes
  pub writes : List Bytes
  pub fin : Bool
  pub writer_shut : Bool
  pub up : ℕ
  pub down : ℕ
  pub b2z : Direction
  pub z2b : Direction

unfoldable pub start_relay : Relay
start_relay = record {
  rx = rx_channel false;
  puts = [];
  writes = [];
  fin = false;
  writer_shut = false;
  up = 0;
  down = 0;
  b2z = running;
  z2b = running;
}

-- What may happen next; a flag says whether the put, the write or the FIN that the step makes
-- succeeds.
pub data RelayEvent : Type 0 where
  backend_read : Bytes → Bool → RelayEvent
  backend_error b2z_sees_cancel : RelayEvent
  client_sample : Bytes → RelayEvent
  z2b_receives : Bool → RelayEvent
  channel_closed z2b_sees_cancel : RelayEvent
  sample_missed torn_down : RelayEvent
  watchdog_aborts : RelayEvent

abbrev pub cancel : Relay → Relay
cancel s = record s { rx = record s.rx { conn_cancel = true } }

-- The task of the direction to the backend returns: its receiver is dropped.
abbrev pub end_z2b : DirectionEnd → Relay → Relay
end_z2b e s = record s { z2b = joined e; rx = record s.rx { receiver_alive = false; queue = [] } }

-- Backend to Zenoh: one result of `read_data`, empty at the end of the stream.
abbrev pub on_backend_read : Relay → Bytes → Bool → Relay
on_backend_read s [] true = record s { puts = s.puts ++ [] ∷ []; b2z = joined DirectionEnd.eof }
on_backend_read s [] false = cancel (record s { b2z = joined DirectionEnd.error })
on_backend_read s (b ∷ bs) true = record s {
  puts = s.puts ++ (b ∷ bs) ∷ [];
  down = (s.down + length (b ∷ bs)) % 2 ^ 64;
}
on_backend_read s (b ∷ bs) false =
    cancel
      (record s { down = (s.down + length (b ∷ bs)) % 2 ^ 64; b2z = joined DirectionEnd.error })

-- Zenoh to backend: the sample in front of the queue, if there is one.
abbrev pub on_receive : Relay → List Bytes → Bool → Relay
on_receive s [] ok = s
on_receive s ([] ∷ q) true = end_z2b DirectionEnd.eof (record s { fin = true })
on_receive s ([] ∷ q) false = cancel (end_z2b DirectionEnd.error s)
on_receive s ((b ∷ bs) ∷ q) true = record s {
  rx = record s.rx { queue = q };
  writes = s.writes ++ (b ∷ bs) ∷ [];
  up = (s.up + length (b ∷ bs)) % 2 ^ 64;
}
on_receive s ((b ∷ bs) ∷ q) false =
    cancel (end_z2b DirectionEnd.error (record s { up = (s.up + length (b ∷ bs)) % 2 ^ 64 }))

-- The channel is closed, which `recv` reports once the queue is empty.
abbrev pub on_closed : Relay → List Bytes → Relay
on_closed s [] = cancel (end_z2b DirectionEnd.error s)
on_closed s (x ∷ q) = s

-- The turns of the backend's reader, while its task runs.
unfoldable pub b2z_step : Direction → Bool → Relay → RelayEvent → Relay
b2z_step running token s (backend_read bytes ok) = on_backend_read s bytes ok
b2z_step running token s backend_error = cancel (record s { b2z = joined DirectionEnd.error })
b2z_step running true s b2z_sees_cancel = record s { b2z = joined DirectionEnd.reset }
b2z_step running true s watchdog_aborts = record s { b2z = aborted }
b2z_step _ _ s _ = s

-- The turns of the backend's writer, while its task runs.
unfoldable pub z2b_step : Direction → Bool → Relay → RelayEvent → Relay
z2b_step running token s (z2b_receives ok) = on_receive s s.rx.queue ok
z2b_step running token s channel_closed = on_closed s s.rx.queue
z2b_step running true s z2b_sees_cancel =
    end_z2b DirectionEnd.reset (record s { writer_shut = true })
z2b_step running true s watchdog_aborts = record s {
  z2b = aborted;
  rx = record s.rx { receiver_alive = false; queue = [] };
}
z2b_step _ _ s _ = s

-- What happens outside the two tasks: the subscriber's callback, the listener for missed samples,
-- which only the byte-exact mode registers, and the teardown.
unfoldable pub outside_step : ℕ → ReliabilityMode → Relay → RelayEvent → Relay
outside_step capacity mode s (client_sample payload) = record s {
  rx = callback capacity mode s.rx payload;
}
outside_step capacity stream s sample_missed = cancel s
outside_step capacity mode s torn_down = cancel s
outside_step _ _ s _ = s

unfoldable pub relay_step : ℕ → ReliabilityMode → Relay → RelayEvent → Relay
relay_step capacity mode s ev =
    let s1 = b2z_step s.b2z s.rx.conn_cancel s ev in
    let s2 = z2b_step s1.z2b s1.rx.conn_cancel s1 ev in outside_step capacity mode s2 ev

unfoldable pub relay_run : ℕ → ReliabilityMode → Relay → List RelayEvent → Relay
relay_run capacity mode s [] = s
relay_run capacity mode s (ev ∷ evs) = relay_run capacity mode (relay_step capacity mode s ev) evs

-- The end of a direction, as the join reports it: none if it did not join.
abbrev pub direction_end : Direction → Option DirectionEnd
direction_end running = none
direction_end (joined e) = some e
direction_end aborted = none

-- The outcome, once both tasks are done.
unfoldable pub relay_outcome : Direction → Direction → Option ConnectionOutcome
relay_outcome running _ = none
relay_outcome _ running = none
relay_outcome b2z z2b = some (fold_outcome (direction_end b2z) (direction_end z2b))
