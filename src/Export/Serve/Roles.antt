-- ===== src/Export/Serve/Roles.antt =====
-- An exporter keeps clients only while it serves.
use zenoh_bridge_tcp.Prelude.{
  ◌≡◌, ◌≢◌, refl, Bool, true, false, List, [], ◌∷◌, Option, some, none, arith, inl, inr, ◌⊎◌, map,
}
use zenoh_bridge_tcp.Election.{Claim, WaitOutcome, changed_still_active}
use zenoh_bridge_tcp.Export.Clients.{
  Clients, drain_all_clients, on_sample, remove_if_current, client_steps, reply,
}
use zenoh_bridge_tcp.Export.Serve.{
  ServeEnd, Serving, Round, serving, Exporter, serve_loop, serve_active, wait_role, after_serving,
  after_wait, run_export_loop, ServeEvent, client_sample, subscriber_error, claim_changed,
  task_done, shutdown_requested,
}

-- A phase that was shut down has drained its clients.
serve_loop-shutdown :
    (cl : Claim) (c : Clients) (es : List ServeEvent)
    → (serve_loop cl c es).ended ≡ some ServeEnd.shutdown
    → (serve_loop cl c es).clients.tracked ≡ []
unfolding serve_loop drain_all_clients
serve_loop-shutdown cl c [] h = absurd cc
serve_loop-shutdown cl c (client_sample s ∷ es) h = serve_loop-shutdown cl (on_sample c s) es h
serve_loop-shutdown cl c (subscriber_error ∷ es) h = serve_loop-shutdown cl c es h
serve_loop-shutdown cl c (claim_changed s pending ∷ es) h =
    ground (arith, serve_loop-shutdown (changed_still_active cl s pending).0 c es)
serve_loop-shutdown cl c (task_done id ch ∷ es) h =
    serve_loop-shutdown cl (remove_if_current c id ch).0 es h
serve_loop-shutdown cl c (shutdown_requested ∷ es) h = refl

-- An exporter serves, or tracks no client.
Idle : Exporter → Type 0
Idle e = (e.phase ≡ serving) ⊎ (e.clients.tracked ≡ [])

after_serving-Idle :
    (o : Option ServeEnd) (s : Serving) (rest : Exporter)
    → (o ≡ some ServeEnd.shutdown → s.clients.tracked ≡ [])
    → Idle rest
    → Idle (after_serving o s rest)
unfolding Idle
after_serving-Idle none s rest h i = inl refl
after_serving-Idle (some ServeEnd.shutdown) s rest h i = inr (h refl)
after_serving-Idle (some ServeEnd.demoted) s rest h i = i

after_wait-Idle :
    (o : Option WaitOutcome) (ok : Bool) (cl : Claim) (c : Clients) (served : Exporter)
    → c.tracked ≡ []
    → Idle served
    → Idle (after_wait o ok cl c served)
unfolding Idle
after_wait-Idle none ok cl c served h i = inr h
after_wait-Idle (some WaitOutcome.shutdown) ok cl c served h i = inr h
after_wait-Idle (some WaitOutcome.active) false cl c served h i = inr h
after_wait-Idle (some WaitOutcome.active) true cl c served h i = i

run-Idle :
    (cl : Claim) (c : Clients) (rs : List Round) → c.tracked ≡ [] → Idle (run_export_loop cl c rs)
unfolding run_export_loop serve_active
run-Idle cl c [] h = unfold Idle in inr h
run-Idle cl c (r ∷ rs) h =
    let (cl', role) = wait_role cl r in
    let c' = client_steps c (map reply r.replies) in
    let s = serve_loop cl' c' r.events in
    after_wait-Idle role r.setup_ok cl' c (after_serving s.ended s _) h (
      after_serving-Idle s.ended s _ (serve_loop-shutdown cl' c' r.events)
        (run-Idle s.claim (drain_all_clients s.clients) rs (unfold drain_all_clients in refl)))

-- An exporter that starts with no client tracked, and is standing by, stopped or failed in its
-- setup, tracks no client: every phase of serving that ended has drained its own.
pub idle_untracked :
    (cl : Claim) (c : Clients) (rs : List Round)
    → c.tracked ≡ []
    → (run_export_loop cl c rs).phase ≢ serving
    → (run_export_loop cl c rs).clients.tracked ≡ []
unfolding Idle
idle_untracked cl c rs h n = elim (run-Idle cl c rs h) [ inl e ↦ absurd (n e) | inr e ↦ e ]
