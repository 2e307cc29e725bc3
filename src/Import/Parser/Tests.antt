-- ===== src/Import/Parser/Tests.antt =====
-- A parser that takes at most two bytes at once and turns some bytes into events, and the loops of
-- src/import/multiroute.rs around it.
use zenoh_bridge_tcp.Prelude.{
  ℕ, ◌≡◌, ◌≤◌, ◌<◌, refl, ap, sym, List, [], ◌∷◌, ◌++◌, Option, some, none, length, take, arith,
}
use zenoh_bridge_tcp.Export.Relay.{Bytes}
use zenoh_bridge_tcp.Import.Parser.{Side, initiator, responder, StreamParser}

pub record Taken (Event : Type 0) : Type 0 where
  pub up : Bytes
  pub down : Bytes
  pub queue : List Event

abbrev pub first_two : Bytes → Bytes
first_two [] = []
first_two (a ∷ []) = a ∷ []
first_two (a ∷ b ∷ bs) = a ∷ b ∷ []

pub first_two_le : (bs : Bytes) → length (first_two bs) ≤ length bs
first_two_le [] = omega arith
first_two_le (a ∷ []) = omega arith
first_two_le (a ∷ b ∷ bs) = omega arith

take-first_two : (bs : Bytes) → take (length (first_two bs)) bs ≡ first_two bs
take-first_two [] = refl
take-first_two (a ∷ []) = refl
take-first_two (a ∷ b ∷ bs) = refl

module _ {Event : Type 0} (events_of : Side → ℕ → List Event) where
  abbrev pub events_in : Side → Bytes → List Event
  events_in d [] = []
  events_in d (b ∷ bs) = events_of d b ++ events_in d bs

  abbrev pub taken : Side → Taken Event → Bytes
  taken initiator s = s.up
  taken responder s = s.down

  abbrev pub take_in : Side → Taken Event → Bytes → Taken Event
  take_in initiator s bs = record s { up = s.up ++ bs; queue = s.queue ++ events_in initiator bs }
  take_in responder s bs = record s {
    down = s.down ++ bs;
    queue = s.queue ++ events_in responder bs;
  }

  abbrev pub push_two : Side → Taken Event → Bytes → ℕ × Taken Event
  push_two d s bs = (length (first_two bs), take_in d s (first_two bs))

  abbrev pub pop : List Event → Taken Event → Option (Event × Taken Event)
  pop [] s = none
  pop (e ∷ es) s = some (e, record s { queue = es })

  pub push_two_fed :
      (d : Side) (s : Taken Event) (bs : Bytes)
      → taken d (push_two d s bs).1 ≡ taken d s ++ take (push_two d s bs).0 bs
  push_two_fed initiator s bs = ap (λ z. s.up ++ z) (sym (take-first_two bs))
  push_two_fed responder s bs = ap (λ z. s.down ++ z) (sym (take-first_two bs))

  pub pop_fed :
      (d : Side) (s : Taken Event) (e : Event) (s' : Taken Event)
      → pop s.queue s ≡ some (e, s')
      → taken d s' ≡ taken d s
  pop_fed initiator s e s' h = ground arith
  pop_fed responder s e s' h = ground arith

  pub pop_queued :
      (s : Taken Event) (e : Event) (s' : Taken Event)
      → pop s.queue s ≡ some (e, s')
      → length s'.queue < length s.queue
  pop_queued s e s' h = ground arith

  abbrev pub two_at_once : StreamParser Event
  two_at_once = record {
    State = Taken Event;
    push = push_two;
    next_event = λ s. pop s.queue s;
    fed = taken;
    queued = λ s. length s.queue;
    push_le = λ d s bs. first_two_le bs;
    push_fed = push_two_fed;
    next_fed = pop_fed;
    next_queued = pop_queued;
  }

abbrev pub nothing_taken : {Event : Type 0} → Taken Event
nothing_taken = record { up = []; down = []; queue = [] }

-- Every byte is an event.
abbrev each_byte : Side → ℕ → List ℕ
each_byte d b = b ∷ []

abbrev two_queued : Taken ℕ
two_queued = record { up = []; down = []; queue = 1 ∷ 2 ∷ [] }
