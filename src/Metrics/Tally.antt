-- ===== src/Metrics/Tally.antt =====
-- The counters of a service are the tally of what its connections did.
use zenoh_bridge_tcp.Prelude.{
  ℕ, ◌+◌, ◌%◌, ◌^◌, ◌≡◌, refl, Bool, true, false, List, [], ◌∷◌, arith, if◌then◌else◌,
}
use zenoh_bridge_tcp.Text.{Text, text_eq, text_eq_iff}
use zenoh_bridge_tcp.Metrics.{
  Counters, ConnOutcome, ConnOp, conn_start, add_up, add_down, set_outcome, drop_guard,
  count_outcome, count, counters_of, with_service, metrics_run,
}

-- What an operation counts for.
abbrev pub starts : ConnOp → ℕ
starts conn_start = 1
starts _ = 0

abbrev pub drops : ConnOp → ℕ
drops drop_guard = 1
drops _ = 0

abbrev pub ups : ConnOp → ℕ
ups (add_up n) = n
ups _ = 0

abbrev pub downs : ConnOp → ℕ
downs (add_down n) = n
downs _ = 0

abbrev pub outcomes : ConnOp → ℕ
outcomes (set_outcome o) = 1
outcomes _ = 0

-- The sum of what a service's operations count for.
unfoldable pub tally : (ConnOp → ℕ) → Text → List (Text × ConnOp) → ℕ
tally w name [] = 0
tally w name ((n, op) ∷ ops) = (if text_eq name n then w op else 0) + tally w name ops

counters_of-with_service :
    (name a : Text) (op : ConnOp) (m : List (Text × Counters))
    → counters_of a (with_service name op m)
      ≡ (if text_eq a name then count op (counters_of a m) else counters_of a m)
unfolding counters_of with_service
counters_of-with_service name a op [] = ground arith
counters_of-with_service name a op ((n, c) ∷ m) = ground (
  arith,
  counters_of-with_service name a op m,
  text_eq_iff name n,
  text_eq_iff a n,
  text_eq_iff a name,
)

-- Counters that hold given tallies.
Tallied : Counters → ℕ → ℕ → ℕ → ℕ → ℕ → Type 0
Tallied c s d u v o =
    (c.total ≡ s % 2 ^ 64)
    × ((c.active + d) % 2 ^ 64 ≡ s % 2 ^ 64)
    × (c.bytes_up ≡ u % 2 ^ 64)
    × (c.bytes_down ≡ v % 2 ^ 64)
    × ((c.completed + c.reset + c.failed) % 2 ^ 64 ≡ o % 2 ^ 64)

count-Tallied :
    (op : ConnOp) (c : Counters) (s d u v o : ℕ)
    → Tallied c s d u v o
    → Tallied
        (count op c)
        (s + starts op)
        (d + drops op)
        (u + ups op)
        (v + downs op)
        (o + outcomes op)
unfolding Tallied count count_outcome
count-Tallied conn_start c s d u v o h =
    (omega arith, omega arith, omega arith, omega arith, omega arith)
count-Tallied (add_up n) c s d u v o h =
    (omega arith, omega arith, omega arith, omega arith, omega arith)
count-Tallied (add_down n) c s d u v o h =
    (omega arith, omega arith, omega arith, omega arith, omega arith)
count-Tallied (set_outcome ConnOutcome.completed) c s d u v o h =
    (omega arith, omega arith, omega arith, omega arith, omega arith)
count-Tallied (set_outcome ConnOutcome.reset) c s d u v o h =
    (omega arith, omega arith, omega arith, omega arith, omega arith)
count-Tallied (set_outcome ConnOutcome.failed) c s d u v o h =
    (omega arith, omega arith, omega arith, omega arith, omega arith)
count-Tallied drop_guard c s d u v o h =
    (omega arith, omega arith, omega arith, omega arith, omega arith)

-- Tallies are numbers: equal ones may be exchanged.
exchange :
    (c : Counters) {s s' d d' u u' v v' o o' : ℕ}
    → s ≡ s'
    → d ≡ d'
    → u ≡ u'
    → v ≡ v'
    → o ≡ o'
    → Tallied c s d u v o
    → Tallied c s' d' u' v' o'
exchange c es ed eu ev eo h = rw⁻¹ (es, ed, eu, ev, eo) h

-- An operation counts if it is the service's.
own-Tallied :
    (own : Bool) (op : ConnOp) (c : Counters) (s d u v o : ℕ)
    → Tallied c s d u v o
    → Tallied
        (if own then count op c else c)
        (s + (if own then starts op else 0))
        (d + (if own then drops op else 0))
        (u + (if own then ups op else 0))
        (v + (if own then downs op else 0))
        (o + (if own then outcomes op else 0))
own-Tallied true op c s d u v o h = count-Tallied op c s d u v o h
own-Tallied false op c s d u v o h =
    exchange c (omega arith) (omega arith) (omega arith) (omega arith) (omega arith) h

step-Tallied :
    (a name : Text) (op : ConnOp) (m : List (Text × Counters)) (s d u v o : ℕ)
    → Tallied (counters_of a m) s d u v o
    → Tallied
        (counters_of a (with_service name op m))
        (s + (if text_eq a name then starts op else 0))
        (d + (if text_eq a name then drops op else 0))
        (u + (if text_eq a name then ups op else 0))
        (v + (if text_eq a name then downs op else 0))
        (o + (if text_eq a name then outcomes op else 0))
step-Tallied a name op m s d u v o h =
    rw (counters_of-with_service name a op m)
      (own-Tallied (text_eq a name) op (counters_of a m) s d u v o h)

run-Tallied :
    (a : Text) (m : List (Text × Counters)) (ops : List (Text × ConnOp)) (s d u v o : ℕ)
    → Tallied (counters_of a m) s d u v o
    → Tallied
        (counters_of a (metrics_run m ops))
        (s + tally starts a ops)
        (d + tally drops a ops)
        (u + tally ups a ops)
        (v + tally downs a ops)
        (o + tally outcomes a ops)
unfolding metrics_run tally
run-Tallied a m [] s d u v o h =
    exchange (counters_of a m) (omega arith) (omega arith) (omega arith) (omega arith) (omega arith)
      h
run-Tallied a m ((name, op) ∷ ops) s d u v o h =
    exchange (counters_of a (metrics_run (with_service name op m) ops)) (omega arith) (omega arith)
      (omega arith) (omega arith) (omega arith)
      (run-Tallied a (with_service name op m) ops _ _ _ _ _ (step-Tallied a name op m s d u v o h))

-- After any operations of the connections of any services, modulo 2^64, a service's total is the
-- number of its starts, its active gauge and the number of its drops make up its starts, its byte
-- counters are the sums of its bytes, and its three outcome counters make up its outcomes.
pub metrics_tally :
    (a : Text) (ops : List (Text × ConnOp))
    → ((counters_of a (metrics_run [] ops)).total ≡ tally starts a ops % 2 ^ 64)
      × (((counters_of a (metrics_run [] ops)).active + tally drops a ops) % 2 ^ 64
          ≡ tally starts a ops % 2 ^ 64)
      × ((counters_of a (metrics_run [] ops)).bytes_up ≡ tally ups a ops % 2 ^ 64)
      × ((counters_of a (metrics_run [] ops)).bytes_down ≡ tally downs a ops % 2 ^ 64)
      × (((counters_of a (metrics_run [] ops)).completed
              + (counters_of a (metrics_run [] ops)).reset
              + (counters_of a (metrics_run [] ops)).failed)
            % 2 ^ 64
          ≡ tally outcomes a ops % 2 ^ 64)
unfolding Tallied
metrics_tally a ops =
    exchange (counters_of a (metrics_run [] ops)) (omega arith) (omega arith) (omega arith)
      (omega arith) (omega arith)
      (run-Tallied a [] ops 0 0 0 0 0 (unfold counters_of in (refl, refl, refl, refl, refl)))
