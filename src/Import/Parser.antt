-- ===== src/Import/Parser.antt =====
-- The incremental parsers that src/import drives, flowscope's, as a parameter, and the two loops
-- around them: `push_bytes` and `drain_events` of multiroute.rs, which connection.rs has inline.
pub mod Feed
pub mod Tests
use zenoh_bridge_tcp.Prelude.{
  ℕ, zero, suc, ◌+◌, ◌≡◌, ◌≤◌, ◌<◌, Bool, List, [], ◌∷◌, ◌++◌, Option, some, none, Result, length,
  take, drop, ◌==◌, if◌then◌else◌,
}
use zenoh_bridge_tcp.Text.{Text}
use zenoh_bridge_tcp.Export.Relay.{Bytes}

-- `FlowSide`.
pub data Side : Type 0 where
  initiator responder : Side

-- A parser takes a prefix of what it is offered, and queues events; `fed` is what it has taken from
-- a side since it was made, `queued` how many events it can give at most.
pub record StreamParser (Event : Type 0) : Type 1 where
  pub State : Type 0
  pub push : Side → State → Bytes → ℕ × State
  pub next_event : State → Option (Event × State)
  pub fed : Side → State → Bytes
  pub queued : State → ℕ
  pub push_le : (d : Side) (s : State) (b : Bytes) → (push d s b).0 ≤ length b
  pub push_fed :
      (d : Side) (s : State) (b : Bytes) → fed d (push d s b).1 ≡ fed d s ++ take (push d s b).0 b
  pub next_fed :
      (d : Side) (s : State) (e : Event) (s' : State)
      → next_event s ≡ some (e, s')
      → fed d s' ≡ fed d s
  pub next_queued :
      (s : State) (e : Event) (s' : State) → next_event s ≡ some (e, s') → queued s' < queued s

module _ {Event : Type 0} (parser : StreamParser Event) where
  open parser use {State, push, next_event, queued}

  -- The loop of `push_bytes`, which each turn that goes on makes shorter.
  unfoldable pub push_loop : ℕ → Side → State → Bytes → State × Bytes
  push_loop zero d s pending = (s, pending)
  push_loop (suc n) d s [] = (s, [])
  push_loop (suc n) d s (b ∷ bs) =
      let (accepted, s') = push d s (b ∷ bs) in
      let rest = push_loop n d s' (drop accepted (b ∷ bs)) in
      if accepted == 0 then (s', b ∷ bs) else rest

  -- `push_bytes`: the parser behind it, and the tail that it refused.
  unfoldable pub push_bytes : Side → State → Bytes → State × Bytes
  push_bytes d s bytes = push_loop (length bytes) d s bytes

  -- The loop of `drain_events`.
  unfoldable pub drain_loop : ℕ → State → List Event → State × List Event
  drain_loop zero s events = (s, events)
  drain_loop (suc n) s events = elim (next_event s) [
    | none ↦ (s, events)
    | some (e, s') ↦ drain_loop n s' (events ++ e ∷ [])
  ]

  -- `drain_events`: behind the events that there are.
  unfoldable pub drain_events : State → List Event → State × List Event
  drain_events s events = drain_loop (queued s) s events
