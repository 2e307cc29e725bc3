-- ===== src/Export/Serve.antt =====
-- src/export/bridge.rs, `run_export_loop` and `serve_active`: an exporter stands by until it is
-- elected, serves its clients until it is demoted or shut down, and drains them.
pub mod Roles
use zenoh_bridge_tcp.Prelude.{
  Bool, true, false, List, [], ◌∷◌, Option, some, none, map, if◌then◌else◌,
}
use zenoh_bridge_tcp.Text.{Text}
use zenoh_bridge_tcp.Election.{
  Sample, Claim, WaitOutcome, WaitEvent, is_active, wait_until_active, changed_still_active,
}
use zenoh_bridge_tcp.Export.Clients.{
  Clients, on_sample, remove_if_current, drain_all_clients, client_steps, reply,
}
use zenoh_bridge_tcp.Prelude.{ℕ}

-- Why a serving phase ended.
pub data ServeEnd : Type 0 where
  shutdown demoted : ServeEnd

-- What may happen while it serves; a client's task may end at any time.
pub data ServeEvent : Type 0 where
  client_sample : Sample → ServeEvent
  subscriber_error : ServeEvent
  claim_changed : Option Sample → List Sample → ServeEvent
  task_done : Text → ℕ → ServeEvent
  shutdown_requested : ServeEvent

-- The claim, the clients, and the end if the phase is over.
pub record Serving : Type 0 where
  pub claim : Claim
  pub clients : Clients
  pub ended : Option ServeEnd

-- The main loop of `serve_active`.
unfoldable pub serve_loop : Claim → Clients → List ServeEvent → Serving
serve_loop cl c [] = record { claim = cl; clients = c; ended = none }
serve_loop cl c (client_sample s ∷ es) = serve_loop cl (on_sample c s) es
serve_loop cl c (subscriber_error ∷ es) = serve_loop cl c es
serve_loop cl c (claim_changed s pending ∷ es) =
    let (cl', still) = changed_still_active cl s pending in
    let rest = serve_loop cl' c es in
    if still then rest else record { claim = cl'; clients = c; ended = some ServeEnd.demoted }
serve_loop cl c (task_done id ch ∷ es) = serve_loop cl (remove_if_current c id ch).0 es
serve_loop cl c (shutdown_requested ∷ es) = record {
  claim = cl;
  clients = drain_all_clients c;
  ended = some ServeEnd.shutdown;
}

-- One pass of the role loop: the samples pending at its test, the events of its wait, whether the
-- subscription and the query succeed, the keys that the query replies, and the events while it
-- serves.
pub record Round : Type 0 where
  pub pending : List Sample
  pub wait_pending : List Sample
  pub waits : List WaitEvent
  pub setup_ok : Bool
  pub replies : List Text
  pub events : List ServeEvent

-- Where an exporter is.
pub data Phase : Type 0 where
  standing_by serving stopped setup_failed : Phase

pub record Exporter : Type 0 where
  pub claim : Claim
  pub clients : Clients
  pub phase : Phase

-- `serve_active`, behind its subscription and its query.
unfoldable pub serve_active : Claim → Clients → Round → Serving
unfolding serve_loop
serve_active cl c r = serve_loop cl (client_steps c (map reply r.replies)) r.events

-- The role that the wait ends with, if it ends.
unfoldable pub wait_role : Claim → Round → Claim × Option WaitOutcome
wait_role cl r =
    let (cl', now) = is_active cl r.pending in
    if now then (cl', some WaitOutcome.active) else wait_until_active cl' r.wait_pending r.waits

-- Behind a serving phase: the loop goes on only from a demotion.
abbrev pub after_serving : Option ServeEnd → Serving → Exporter → Exporter
after_serving none s rest = record { claim = s.claim; clients = s.clients; phase = serving }
after_serving (some ServeEnd.shutdown) s rest = record {
  claim = s.claim;
  clients = s.clients;
  phase = stopped;
}
after_serving (some ServeEnd.demoted) s rest = rest

-- Behind a wait, with what serving would lead to.
abbrev pub after_wait : Option WaitOutcome → Bool → Claim → Clients → Exporter → Exporter
after_wait none ok cl c served = record { claim = cl; clients = c; phase = standing_by }
after_wait (some WaitOutcome.shutdown) ok cl c served = record {
  claim = cl;
  clients = c;
  phase = stopped;
}
after_wait (some WaitOutcome.active) false cl c served = record {
  claim = cl;
  clients = c;
  phase = setup_failed;
}
after_wait (some WaitOutcome.active) true cl c served = served

-- `run_export_loop`, over the passes of its role loop.
unfoldable pub run_export_loop : Claim → Clients → List Round → Exporter
run_export_loop cl c [] = record { claim = cl; clients = c; phase = standing_by }
run_export_loop cl c (r ∷ rs) =
    let (cl', role) = wait_role cl r in
    let s = serve_active cl' c r in
    let rest = run_export_loop s.claim (drain_all_clients s.clients) rs in
    after_wait role r.setup_ok cl' c (after_serving s.ended s rest)
