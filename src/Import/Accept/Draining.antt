-- ===== src/Import/Accept/Draining.antt =====
-- A drain ends, and accounts for every task.
use zenoh_bridge_tcp.Prelude.{
  ℕ, zero, suc, ◌+◌, ◌≡◌, ◌≢◌, refl, Bool, true, false, List, [], ◌∷◌, ◌++◌, Option, some, none,
  arith, ◌≤◌,
}
use zenoh_bridge_tcp.Import.Accept.{
  Drained, DrainEvent, task_joined, drain_deadline, grace_over, drain_grace, drain_tasks,
}

abbrev pub joins : List DrainEvent → ℕ
joins [] = 0
joins (task_joined ∷ es) = suc (joins es)
joins (drain_deadline ∷ es) = joins es
joins (grace_over ∷ es) = joins es

-- How a drain of `n` tasks may end: all joined without a cancel, or joined and aborted behind one.
abbrev pub Covered : Bool → ℕ → ℕ → ℕ → Type 0
Covered true n joined aborted = n ≤ joined + aborted
Covered false n joined aborted = (n ≤ joined) × (aborted ≡ 0)

-- A drain that ends has joined or aborted every task.
unfoldable pub Accounted : ℕ → ℕ → Option Drained → Type 0
Accounted n joined none = Unit
Accounted n joined (some d) = Covered d.cancelled n joined d.aborted

-- One task more, and its join in front.
joined-Covered :
    (c : Bool) (n joined aborted : ℕ)
    → Covered c n joined aborted
    → Covered c (suc n) (suc joined) aborted
joined-Covered true n joined aborted h = omega arith
joined-Covered false n joined aborted h = (omega arith, h.1)

joined-Accounted :
    (n joined : ℕ) (o : Option Drained) → Accounted n joined o → Accounted (suc n) (suc joined) o
unfolding Accounted
joined-Accounted n joined none h = tt
joined-Accounted n joined (some d) h = joined-Covered d.cancelled n joined d.aborted h

drain_grace-Accounted : (n : ℕ) (es : List DrainEvent) → Accounted n (joins es) (drain_grace n es)
unfolding drain_grace
drain_grace-Accounted zero es = unfold Accounted in omega arith
drain_grace-Accounted (suc n) [] = unfold Accounted in tt
drain_grace-Accounted (suc n) (task_joined ∷ es) =
    joined-Accounted n (joins es) (drain_grace n es) (drain_grace-Accounted n es)
drain_grace-Accounted (suc n) (drain_deadline ∷ es) = drain_grace-Accounted (suc n) es
drain_grace-Accounted (suc n) (grace_over ∷ es) = unfold Accounted in omega arith

-- A drain that has ended has accounted for every task: without a cancel each was joined and none
-- aborted, and behind a cancel each was joined or aborted.
pub drain_tasks-Accounted :
    (n : ℕ) (es : List DrainEvent) → Accounted n (joins es) (drain_tasks n es)
unfolding drain_tasks
drain_tasks-Accounted zero es = unfold Accounted in (omega arith, refl)
drain_tasks-Accounted (suc n) [] = unfold Accounted in tt
drain_tasks-Accounted (suc n) (task_joined ∷ es) =
    joined-Accounted n (joins es) (drain_tasks n es) (drain_tasks-Accounted n es)
drain_tasks-Accounted (suc n) (drain_deadline ∷ es) = drain_grace-Accounted (suc n) es
drain_tasks-Accounted (suc n) (grace_over ∷ es) = drain_tasks-Accounted (suc n) es

-- Both of the drain's timers.
abbrev pub timers : List DrainEvent
timers = drain_deadline ∷ grace_over ∷ []

drain_grace-ends : (n : ℕ) (es : List DrainEvent) → drain_grace n (es ++ timers) ≢ none
unfolding drain_grace
drain_grace-ends zero es = λ e. cc
drain_grace-ends (suc n) [] = λ e. cc
drain_grace-ends (suc n) (task_joined ∷ es) = drain_grace-ends n es
drain_grace-ends (suc n) (drain_deadline ∷ es) = drain_grace-ends (suc n) es
drain_grace-ends (suc n) (grace_over ∷ es) = λ e. cc

-- A drain ends, whatever happens before, once its deadline has passed and its grace is over.
pub drain_tasks_ends : (n : ℕ) (es : List DrainEvent) → drain_tasks n (es ++ timers) ≢ none
unfolding drain_tasks
drain_tasks_ends zero es = λ e. cc
drain_tasks_ends (suc n) [] = unfold drain_grace in λ e. cc
drain_tasks_ends (suc n) (task_joined ∷ es) = drain_tasks_ends n es
drain_tasks_ends (suc n) (drain_deadline ∷ es) = drain_grace-ends (suc n) es
drain_tasks_ends (suc n) (grace_over ∷ es) = drain_tasks_ends (suc n) es
