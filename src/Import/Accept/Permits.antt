-- ===== src/Import/Accept/Permits.antt =====
-- No permit is lost, and none is made.
use zenoh_bridge_tcp.Prelude.{ℕ, zero, suc, ◌+◌, ◌≤◌, ◌≡◌, ◌∙◌, refl, List, [], ◌∷◌, arith}
use zenoh_bridge_tcp.Import.Accept.{
  AcceptPhase, acquiring, accepting, stopped, AcceptLoop, start_loop, AcceptEvent, permit_acquired,
  connection_accepted, accept_failed, task_reaped, task_finished, shutdown_requested, acquire, reap,
  finish_task, loop_step, run_accept_loop,
}

-- The permit that the loop itself holds.
abbrev pub held : AcceptPhase → ℕ
held accepting = 1
held acquiring = 0
held stopped = 0

abbrev pub permits : AcceptLoop → ℕ
permits s = s.free + held s.phase + s.running

acquire-permits :
    (n : ℕ) (s : AcceptLoop) → n ≡ s.free → s.phase ≡ acquiring → permits (acquire n s) ≡ permits s
acquire-permits zero s e p = refl
acquire-permits (suc n) s e p = rw p (omega arith)

reap-permits : (n : ℕ) (s : AcceptLoop) → s.phase ≡ accepting → permits (reap n s) ≡ permits s
reap-permits zero s p = refl
reap-permits (suc n) s p = rw p (omega arith)

finish_task-permits :
    (n : ℕ) (s : AcceptLoop) → n ≡ s.running → permits (finish_task n s) ≡ permits s
finish_task-permits zero s e = refl
finish_task-permits (suc n) s e = omega arith

step-permits :
    (p : AcceptPhase) (s : AcceptLoop) (ev : AcceptEvent)
    → s.phase ≡ p
    → permits (loop_step p s ev) ≡ permits s
unfolding loop_step
step-permits acquiring s permit_acquired e = acquire-permits s.free s refl e
step-permits acquiring s shutdown_requested e = rw e refl
step-permits accepting s connection_accepted e = rw e (omega arith)
step-permits accepting s accept_failed e = rw e (omega arith)
step-permits accepting s task_reaped e = reap-permits s.finished s e
step-permits accepting s shutdown_requested e = rw e (omega arith)
step-permits p s task_finished e = finish_task-permits s.running s refl
step-permits p s ev e = refl

run-permits :
    (s : AcceptLoop) (evs : List AcceptEvent) → permits (run_accept_loop s evs) ≡ permits s
unfolding run_accept_loop
run-permits s [] = refl
run-permits s (ev ∷ evs) = run-permits (loop_step s.phase s ev) evs ∙ step-permits s.phase s ev refl

-- In every run of the accept loop, the permits that are free, held by the loop and held by running
-- connections are as many as the configured limit, so no more connections than that run at once.
pub permits_conserved :
    (max_connections : ℕ) (evs : List AcceptEvent)
    → (permits (run_accept_loop (start_loop max_connections) evs) ≡ max_connections)
      × ((run_accept_loop (start_loop max_connections) evs).running ≤ max_connections)
unfolding start_loop
permits_conserved max_connections evs =
    let h = run-permits (start_loop max_connections) evs in
    let e : permits (run_accept_loop (start_loop max_connections) evs) ≡ max_connections =
      h ∙ omega arith in
    (e, omega (arith, e))
