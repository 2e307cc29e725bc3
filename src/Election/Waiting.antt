-- ===== src/Election/Waiting.antt =====
-- How a standby's wait ends.
use zenoh_bridge_tcp.Prelude.{
  ◌≡◌, ◌⊎◌, refl, sym, ap, ◌∙◌, Bool, true, false, List, [], ◌∷◌, ◌++◌, Option, some, none,
  Bool-cases, inl, inr, all,
}
use zenoh_bridge_tcp.Election.{
  elect, Claim, Sample, apply, drain_pending, is_active, WaitEvent, received, subscriber_died,
  shutdown_requested, WaitOutcome, active, shutdown, wait_turns, wait_until_active,
}

abbrev Died : List WaitEvent → Type 0
Died [] = ⊥
Died (subscriber_died ∷ es) = Unit {0}
Died (e ∷ es) = Died es

abbrev Asked : List WaitEvent → Type 0
Asked [] = ⊥
Asked (shutdown_requested ∷ es) = Unit {0}
Asked (e ∷ es) = Asked es

-- How a wait ends: with the role when the own claim is elected in the view reached, or when the
-- subscriber has died; with a shutdown only when one was requested and the own claim is not elected;
-- and it goes on only while the own claim is not elected and neither of the two has come.
abbrev pub EndsWell : List WaitEvent → Claim × Option WaitOutcome → Type 0
EndsWell es (c, none) = (elect c.claims c.own ≡ false) × (¬ Died es) × ¬ Asked es
EndsWell es (c, some active) = (elect c.claims c.own ≡ true) ⊎ Died es
EndsWell es (c, some shutdown) = (elect c.claims c.own ≡ false) × Asked es

EndsWell-received :
    (s : Sample) (pending : List Sample) (es : List WaitEvent) (r : Claim × Option WaitOutcome)
    → EndsWell es r
    → EndsWell (received s pending ∷ es) r
EndsWell-received s pending es (c, none) h = h
EndsWell-received s pending es (c, some active) h = h
EndsWell-received s pending es (c, some shutdown) h = h

wait_turns-EndsWell :
    (c : Claim) (es : List WaitEvent) → elect c.claims c.own ≡ false → EndsWell es (wait_turns c es)
unfolding wait_turns is_active
wait_turns-EndsWell c [] n = (n, λ h. h, λ h. h)
wait_turns-EndsWell c (subscriber_died ∷ es) n = inr tt
wait_turns-EndsWell c (shutdown_requested ∷ es) n = (n, tt)
wait_turns-EndsWell c (received s pending ∷ es) n =
    let c' = drain_pending (apply c s) pending in
    elim (Bool-cases (elect c'.claims c'.own)) [
      | inl now ↦ rw now (inl now)
      | inr later ↦ rw later (EndsWell-received s pending es _ (wait_turns-EndsWell c' es later))
    ]

-- A wait for the active role that ends with the role has its claim elected in the view reached, or
-- the subscriber has died; one that ends with a shutdown was asked for it, and its claim is not
-- elected in the view reached; and one that goes on has seen neither of the two, and its claim is
-- not elected in the view reached.
pub wait-EndsWell :
    (c : Claim) (pending : List Sample) (es : List WaitEvent)
    → EndsWell es (wait_until_active c pending es)
unfolding wait_until_active is_active
wait-EndsWell c pending es =
    let c' = drain_pending c pending in
    elim (Bool-cases (elect c'.claims c'.own)) [
      | inl now ↦ rw now (inl now)
      | inr later ↦ rw later (wait_turns-EndsWell c' es later)
    ]

-- The samples that a stretch of the wait is told of, in order; none where it is told of something
-- else.
abbrev pub is_received : WaitEvent → Bool
is_received (received s pending) = true
is_received subscriber_died = false
is_received shutdown_requested = false

abbrev pub samples : List WaitEvent → List Sample
samples [] = []
samples (received s pending ∷ es) = s ∷ (pending ++ samples es)
samples (subscriber_died ∷ es) = samples es
samples (shutdown_requested ∷ es) = samples es

drain_pending-append :
    (c : Claim) (ss more : List Sample)
    → drain_pending c (ss ++ more) ≡ drain_pending (drain_pending c ss) more
unfolding drain_pending
drain_pending-append c [] more = refl
drain_pending-append c (s ∷ ss) more = drain_pending-append (apply c s) ss more

-- Whether a claim is elected in its own view.
abbrev pub is_elected : Claim → Bool
is_elected c = elect c.claims c.own

turns_take_over :
    (c : Claim) (seen rest : List WaitEvent)
    → all is_received seen ≡ true
    → is_elected c ≡ false
    → is_elected (drain_pending c (samples seen)) ≡ true
    → (wait_turns c (seen ++ rest)).1 ≡ some active
unfolding wait_turns is_active drain_pending
turns_take_over c [] rest r n h = absurd cc
turns_take_over c (subscriber_died ∷ seen) rest r n h = absurd cc
turns_take_over c (shutdown_requested ∷ seen) rest r n h = absurd cc
turns_take_over c (received s pending ∷ seen) rest r n h =
    let c' = drain_pending (apply c s) pending in
    elim (Bool-cases (is_elected c')) [
      | inl now ↦ rw now refl
      | inr later ↦ rw later (
          turns_take_over c' seen rest r later
            (sym (ap is_elected (drain_pending-append (apply c s) pending (samples seen))) ∙ h))
    ]

-- If the own claim is elected in the view that a standby has behind the samples that are pending
-- and those of any turns of its wait, then the wait ends with the active role, whatever comes
-- behind these turns.
pub wait_takes_over :
    (c : Claim) (pending : List Sample) (seen rest : List WaitEvent)
    → all is_received seen ≡ true
    → is_elected (drain_pending c (pending ++ samples seen)) ≡ true
    → (wait_until_active c pending (seen ++ rest)).1 ≡ some active
unfolding wait_until_active is_active
wait_takes_over c pending seen rest r h =
    let c' = drain_pending c pending in
    elim (Bool-cases (is_elected c')) [
      | inl now ↦ rw now refl
      | inr later ↦ rw later (
          turns_take_over c' seen rest r later
            (sym (ap is_elected (drain_pending-append c pending (samples seen))) ∙ h))
    ]
