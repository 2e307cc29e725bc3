-- ===== src/Import/Tests.antt =====
-- The doors, the head readers and the routes at concrete inputs.
use zenoh_bridge_tcp.Prelude.{
  ℕ, ◌≡◌, refl, Bool, true, List, [], ◌∷◌, Option, some, none, Result, ok, leb, if◌then◌else◌,
}
use zenoh_bridge_tcp.Text.{Text, codes, text_eq}
use zenoh_bridge_tcp.Spec.Tests.{two_addresses, web_listener, listen_parsed, listen_text}
use zenoh_bridge_tcp.Export.Relay.{Bytes}
use zenoh_bridge_tcp.Import.{Door, dispatch, mode_spec, parse_import_spec}
use zenoh_bridge_tcp.Import.Doors.{parse_listen-dispatch}
use zenoh_bridge_tcp.Import.Head.{ReadEvent, chunk, deadline, parsed, read_until}
use zenoh_bridge_tcp.Prelude.{◌≤◌}
use zenoh_bridge_tcp.Import.Accept.{
  start_loop, AcceptEvent, permit_acquired, connection_accepted, task_finished, task_reaped,
  run_accept_loop, DrainEvent, task_joined, drain_deadline, grace_over, drain_grace, drain_tasks,
}
use zenoh_bridge_tcp.Import.Accept.Permits.{permits, permits_conserved}
use zenoh_bridge_tcp.Import.Accept.Draining.{joins, Accounted, drain_tasks-Accounted}

parse_listen-dispatch_example :
    ((d : Door) × (dispatch true web_listener.proto web_listener.tls web_listener.route ≡ some d))
    × (parse_import_spec two_addresses (mode_spec two_addresses web_listener)
        ≡ ok (web_listener.service, web_listener.addr))
parse_listen-dispatch_example =
    parse_listen-dispatch two_addresses listen_text web_listener listen_parsed

-- A parser that is done behind two reads, with their number.
abbrev count_to_two : ℕ → Bytes → ℕ × Result ℕ (Option ℕ)
count_to_two n bytes = if leb 1 n then (2, ok (some 2)) else (1, ok none)

abbrev two_reads : List ReadEvent
two_reads = chunk (1 ∷ 2 ∷ []) ∷ chunk (3 ∷ []) ∷ deadline ∷ []

both_kept : read_until count_to_two 16 0 [] two_reads ≡ some (ok (parsed 2 (1 ∷ 2 ∷ 3 ∷ [])))
unfolding read_until
both_kept = refl

-- Only the default backend of the service is there.
abbrev only_default : Text → Bool
only_default key = text_eq key (codes "svc/available")

-- Two connections of at most two, one of which ends.
abbrev two_connections : List AcceptEvent
two_connections =
    permit_acquired ∷ connection_accepted ∷ permit_acquired ∷ connection_accepted ∷ permit_acquired
    ∷ task_finished ∷ permit_acquired ∷ task_reaped ∷ []

permits_conserved_example :
    (permits (run_accept_loop (start_loop 2) two_connections) ≡ 2)
    × ((run_accept_loop (start_loop 2) two_connections).running ≤ 2)
permits_conserved_example = permits_conserved 2 two_connections

-- Of three tasks one ends in time, and one behind the cancel.
abbrev slow_drain : List DrainEvent
slow_drain = task_joined ∷ drain_deadline ∷ task_joined ∷ grace_over ∷ []

one_aborted : drain_tasks 3 slow_drain ≡ some (record { cancelled = true; aborted = 1 })
unfolding drain_tasks drain_grace
one_aborted = refl

drain_tasks-Accounted_example : Accounted 3 (joins slow_drain) (drain_tasks 3 slow_drain)
drain_tasks-Accounted_example = drain_tasks-Accounted 3 slow_drain
