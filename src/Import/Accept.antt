-- ===== src/Import/Accept.antt =====
-- src/import/accept.rs, `run_accept_loop`, and `drain_tasks` of src/import/mod.rs. A connection's task is
-- counted while it runs, when it holds a permit of the semaphore, and until it is reaped.
pub mod Permits
pub mod Draining
use zenoh_bridge_tcp.Prelude.{ℕ, zero, suc, Bool, true, false, List, [], ◌∷◌, Option, some, none}

-- Where the loop waits: for a permit, or with one for a connection; or it has stopped accepting.
pub data AcceptPhase : Type 0 where
  acquiring accepting stopped : AcceptPhase

-- The permits that are free, the tasks that run, those that ended and were not reaped.
pub record AcceptLoop : Type 0 where
  pub phase : AcceptPhase
  pub free : ℕ
  pub running : ℕ
  pub finished : ℕ

unfoldable pub start_loop : ℕ → AcceptLoop
start_loop max_connections = record {
  phase = acquiring;
  free = max_connections;
  running = 0;
  finished = 0;
}

pub data AcceptEvent : Type 0 where
  permit_acquired connection_accepted accept_failed task_reaped : AcceptEvent
  task_finished shutdown_requested : AcceptEvent

-- A permit, if one is free.
abbrev pub acquire : ℕ → AcceptLoop → AcceptLoop
acquire zero s = s
acquire (suc free) s = record s { phase = accepting; free = free }

-- A finished task is joined, if there is one; the permit goes back before the loop goes on.
abbrev pub reap : ℕ → AcceptLoop → AcceptLoop
reap zero s = s
reap (suc finished) s = record s { phase = acquiring; free = suc s.free; finished = finished }

-- A running task ends, if there is one, and its permit is dropped.
abbrev pub finish_task : ℕ → AcceptLoop → AcceptLoop
finish_task zero s = s
finish_task (suc running) s = record s {
  free = suc s.free;
  running = running;
  finished = suc s.finished;
}

-- The turns of the loop; behind an accept, failed or not, all finished tasks are reaped.
unfoldable pub loop_step : AcceptPhase → AcceptLoop → AcceptEvent → AcceptLoop
loop_step acquiring s permit_acquired = acquire s.free s
loop_step acquiring s shutdown_requested = record s { phase = stopped }
loop_step accepting s connection_accepted = record s {
  phase = acquiring;
  running = suc s.running;
  finished = 0;
}
loop_step accepting s accept_failed = record s {
  phase = acquiring;
  free = suc s.free;
  finished = 0;
}
loop_step accepting s task_reaped = reap s.finished s
loop_step accepting s shutdown_requested = record s { phase = stopped; free = suc s.free }
loop_step _ s task_finished = finish_task s.running s
loop_step _ s _ = s

unfoldable pub run_accept_loop : AcceptLoop → List AcceptEvent → AcceptLoop
run_accept_loop s [] = s
run_accept_loop s (ev ∷ evs) = run_accept_loop (loop_step s.phase s ev) evs

-- How a drain ended: whether the remaining connections were cancelled, and how many were aborted.
pub record Drained : Type 0 where
  pub cancelled : Bool
  pub aborted : ℕ

pub data DrainEvent : Type 0 where
  task_joined drain_deadline grace_over : DrainEvent

-- The wait behind the cancel, of the tasks that remain.
unfoldable pub drain_grace : ℕ → List DrainEvent → Option Drained
drain_grace zero es = some (record { cancelled = true; aborted = 0 })
drain_grace (suc n) [] = none
drain_grace (suc n) (task_joined ∷ es) = drain_grace n es
drain_grace (suc n) (drain_deadline ∷ es) = drain_grace (suc n) es
drain_grace (suc n) (grace_over ∷ es) = some (record { cancelled = true; aborted = suc n })

-- `drain_tasks`; no result while it waits.
unfoldable pub drain_tasks : ℕ → List DrainEvent → Option Drained
drain_tasks zero es = some (record { cancelled = false; aborted = 0 })
drain_tasks (suc n) [] = none
drain_tasks (suc n) (task_joined ∷ es) = drain_tasks n es
drain_tasks (suc n) (drain_deadline ∷ es) = drain_grace (suc n) es
drain_tasks (suc n) (grace_over ∷ es) = drain_tasks (suc n) es
