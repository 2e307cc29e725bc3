-- ===== src/Export/Task.antt =====
-- src/export/bridge.rs, `run_client`: the life of one client's task, from the dial to the cleanup.
use zenoh_bridge_tcp.Prelude.{ℕ, ◌≡◌, Bool, true, false, not, some, none, arith, ==_refl}
use zenoh_bridge_tcp.Text.{Text, text_eq_refl}
use zenoh_bridge_tcp.Export.Outcome.{ConnectionOutcome}
use zenoh_bridge_tcp.Export.Clients.{Clients, lookup, remove_if_current}
use zenoh_bridge_tcp.Export.Clients.Tracking.{lookup-remove_id}

-- How the dial ends.
pub data Dial : Type 0 where
  dialed dial_failed dial_cancelled : Dial

-- What `handle_client_bridge` returns: an outcome, or the failure of its setup.
pub data BridgeResult : Type 0 where
  bridged : ConnectionOutcome → BridgeResult
  setup_failed : BridgeResult

-- `run_bridge`: whether it ended cleanly.
abbrev pub run_bridge : BridgeResult → Bool
run_bridge (bridged ConnectionOutcome.completed) = true
run_bridge (bridged ConnectionOutcome.reset) = false
run_bridge (bridged ConnectionOutcome.failed) = false
run_bridge setup_failed = false

-- Whether the client is told by the error signal.
abbrev pub signals_error : Dial → BridgeResult → Bool
signals_error dialed r = not (run_bridge r)
signals_error dial_failed r = true
signals_error dial_cancelled r = false

-- `run_client`: the map behind it, and whether the error was signalled.
unfoldable pub run_client : Clients → Text → ℕ → Dial → BridgeResult → Clients × Bool
run_client c id own d r = ((remove_if_current c id own).0, signals_error d r)

-- Whatever its end, a task that still owns its client's entry frees it.
pub run_client-frees :
    (c : Clients) (id : Text) (own : ℕ) (d : Dial) (r : BridgeResult)
    → lookup id c.tracked ≡ some own
    → lookup id (run_client c id own d r).0.tracked ≡ none
unfolding run_client remove_if_current
run_client-frees c id own d r h =
    ground (arith, ==_refl own, lookup-remove_id id id c.tracked, text_eq_refl id)
