-- ===== src/Backpressure/Drain.antt =====
-- What a receiver takes out of the channel of src/backpressure.rs, under every interleaving of
-- deliveries and receptions.
use zenoh_bridge_tcp.Prelude.{
  ℕ, suc, ◌+◌, ◌≡◌, ◌≤◌, ◌<◌, ◌^◌, true, false, List, [], ◌∷◌, ◌++◌, arith, length, length-append,
  append_assoc, append-nil, ◌∙◌, ap, subst, refl,
}
use zenoh_bridge_tcp.Config.{ReliabilityMode, stream, telemetry}
use zenoh_bridge_tcp.Backpressure.{RxChannel, callback, rx_channel}

-- A sample for the callback, a turn of the receiver, or the receiver's end.
pub data RxOp {ℓ} (A : Type ℓ) : Type ℓ where
  deliver : A → RxOp A
  recv drop_receiver : RxOp A

-- The channel, and what was taken out of it.
pub record Drain {ℓ} (A : Type ℓ) : Type ℓ where
  pub rx : RxChannel A
  pub taken : List A

abbrev pub take_first {ℓ} : {A : Type ℓ} → List A → Drain A → Drain A
take_first [] d = d
take_first (x ∷ xs) d = record { rx = record d.rx { queue = xs }; taken = d.taken ++ x ∷ [] }

abbrev pub rx_step {ℓ} : {A : Type ℓ} → ℕ → ReliabilityMode → Drain A → RxOp A → Drain A
rx_step capacity mode d (deliver x) = record d { rx = callback capacity mode d.rx x }
rx_step capacity mode d recv = take_first d.rx.queue d
rx_step capacity mode d drop_receiver = record d {
  rx = record d.rx { receiver_alive = false; queue = [] };
}

unfoldable pub rx_run {ℓ} : {A : Type ℓ} → ℕ → ReliabilityMode → Drain A → List (RxOp A) → Drain A
rx_run capacity mode d [] = d
rx_run capacity mode d (op ∷ ops) = rx_run capacity mode (rx_step capacity mode d op) ops

-- A fresh channel.
unfoldable pub start {ℓ} : {A : Type ℓ} → Drain A
start = record { rx = rx_channel false; taken = [] }

-- The samples that the callback was called with.
unfoldable pub offered {ℓ} : {A : Type ℓ} → List (RxOp A) → List A
offered [] = []
offered (deliver x ∷ ops) = x ∷ offered ops
offered (recv ∷ ops) = offered ops
offered (drop_receiver ∷ ops) = offered ops

module _ {ℓ} {A : Type ℓ} (capacity : ℕ) where
  take_first-bounded :
      (q : List A) (d : Drain A)
      → length q ≤ capacity
      → length d.rx.queue ≤ capacity
      → length (take_first q d).rx.queue ≤ capacity
  take_first-bounded [] d h h' = h'
  take_first-bounded (x ∷ q) d h h' = omega arith

  callback-bounded :
      (mode : ReliabilityMode) (rx : RxChannel A) (x : A)
      → length rx.queue ≤ capacity
      → length (callback capacity mode rx x).queue ≤ capacity
  unfolding callback
  callback-bounded stream rx x h = ground (arith, length-append rx.queue (x ∷ []))
  callback-bounded telemetry rx x h = ground (arith, length-append rx.queue (x ∷ []))

  step-bounded :
      (mode : ReliabilityMode) (d : Drain A) (op : RxOp A)
      → length d.rx.queue ≤ capacity
      → length (rx_step capacity mode d op).rx.queue ≤ capacity
  step-bounded mode d (deliver x) h = callback-bounded mode d.rx x h
  step-bounded mode d recv h = take_first-bounded d.rx.queue d h h
  step-bounded mode d drop_receiver h = omega arith

  -- No sequence of deliveries and receptions takes a queue that is within the capacity above it,
  -- in either mode.
  pub queue-bounded :
      (mode : ReliabilityMode) (d : Drain A) (ops : List (RxOp A))
      → length d.rx.queue ≤ capacity
      → length (rx_run capacity mode d ops).rx.queue ≤ capacity
  unfolding rx_run
  queue-bounded mode d [] h = h
  queue-bounded mode d (op ∷ ops) h =
      queue-bounded mode (rx_step capacity mode d op) ops (step-bounded mode d op h)

module _ {ℓ} {A : Type ℓ} (capacity : ℕ) where
  -- Nothing was lost: what was taken and what is queued is what was offered.
  Kept : Drain A → List A → Type ℓ
  Kept d o = d.rx.conn_cancel ≡ false → d.rx.receiver_alive ≡ true → d.taken ++ d.rx.queue ≡ o

  callback-Kept :
      (d : Drain A) (x : A) (o : List A)
      → Kept d o
      → Kept (rx_step capacity stream d (deliver x)) (o ++ x ∷ [])
  unfolding Kept callback
  callback-Kept d x o h = ground (arith, append_assoc d.taken d.rx.queue (x ∷ []))

  take_first-Kept :
      (q : List A) (d : Drain A) (o : List A) → q ≡ d.rx.queue → Kept d o → Kept (take_first q d) o
  unfolding Kept
  take_first-Kept [] d o e h = h
  take_first-Kept (x ∷ q) d o e h =
      λ c a. append_assoc d.taken (x ∷ []) q ∙ ap (λ z. d.taken ++ z) e ∙ h c a

  run-Kept :
      (d : Drain A) (ops : List (RxOp A)) (o : List A)
      → Kept d o
      → Kept (rx_run capacity stream d ops) (o ++ offered ops)
  unfolding rx_run offered
  run-Kept d [] o h = rw (append-nil o) h
  run-Kept d (deliver x ∷ ops) o h =
      subst (λ z. Kept (rx_run capacity stream (rx_step capacity stream d (deliver x)) ops) z)
        (append_assoc o (x ∷ []) (offered ops))
        (run-Kept (rx_step capacity stream d (deliver x)) ops (o ++ x ∷ []) (callback-Kept d x o h))
  run-Kept d (recv ∷ ops) o h =
      run-Kept (take_first d.rx.queue d) ops o (take_first-Kept d.rx.queue d o refl h)
  run-Kept d (drop_receiver ∷ ops) o h =
      run-Kept (rx_step capacity stream d drop_receiver) ops o (unfold Kept in λ c a. absurd cc)

  -- In the byte-exact mode, while the receiver lives and the token is not tripped, the samples
  -- taken followed by those queued are exactly the samples delivered, in order.
  pub stream_exact :
      (ops : List (RxOp A))
      → (rx_run capacity stream start ops).rx.conn_cancel ≡ false
      → (rx_run capacity stream start ops).rx.receiver_alive ≡ true
      → (rx_run capacity stream start ops).taken ++ (rx_run capacity stream start ops).rx.queue
        ≡ offered ops
  unfolding Kept rx_channel start
  stream_exact ops = run-Kept start ops [] (λ c a. refl)

  -- The samples taken, queued and shed are as many as were offered.
  Counted : Drain A → ℕ → Type 0
  Counted d n =
      (d.rx.conn_cancel ≡ false)
      × (d.rx.receiver_alive ≡ true → length d.taken + length d.rx.queue + d.rx.shed ≡ n)
      × (d.rx.shed ≤ n)

  callback-Counted :
      (d : Drain A) (x : A) (n : ℕ)
      → n + 1 < 2 ^ 64
      → Counted d n
      → Counted (rx_step capacity telemetry d (deliver x)) (n + 1)
  unfolding Counted callback
  callback-Counted d x n b h = ground (arith, length-append d.rx.queue (x ∷ []))

  take_first-Counted :
      (q : List A) (d : Drain A) (n : ℕ) → q ≡ d.rx.queue → Counted d n → Counted (take_first q d) n
  unfolding Counted
  take_first-Counted [] d n e h = h
  take_first-Counted (x ∷ q) d n e h =
      (h.0, (λ a. ground (arith, h.1 a, length-append d.taken (x ∷ []), ap length e)), h.2)

  run-Counted :
      (d : Drain A) (ops : List (RxOp A)) (n : ℕ)
      → n + length (offered ops) < 2 ^ 64
      → Counted d n
      → Counted (rx_run capacity telemetry d ops) (n + length (offered ops))
  unfolding rx_run offered
  run-Counted d [] n b h = let e : n ≡ n + 0 = omega arith in subst (λ z. Counted d z) e h
  run-Counted d (deliver x ∷ ops) n b h =
      let e : (n + 1) + length (offered ops) ≡ n + suc (length (offered ops)) = omega arith in
      subst
        (λ z. Counted (rx_run capacity telemetry (rx_step capacity telemetry d (deliver x)) ops) z)
        e
        (run-Counted (rx_step capacity telemetry d (deliver x)) ops (n + 1) (omega arith)
          (callback-Counted d x n (omega arith) h))
  run-Counted d (recv ∷ ops) n b h =
      run-Counted (take_first d.rx.queue d) ops n b (take_first-Counted d.rx.queue d n refl h)
  run-Counted d (drop_receiver ∷ ops) n b h =
      run-Counted (rx_step capacity telemetry d drop_receiver) ops n b
        (unfold Counted in (h.0, (λ a. absurd cc), h.2))

  -- In the loss-tolerant mode the callback never trips the token, and while the receiver lives the
  -- samples taken, queued and shed are as many as those delivered, if these are fewer than 2^64.
  pub telemetry_counts :
      (ops : List (RxOp A))
      → length (offered ops) < 2 ^ 64
      → (rx_run capacity telemetry start ops).rx.receiver_alive ≡ true
      → ((rx_run capacity telemetry start ops).rx.conn_cancel ≡ false)
        × (length (rx_run capacity telemetry start ops).taken
              + length (rx_run capacity telemetry start ops).rx.queue
              + (rx_run capacity telemetry start ops).rx.shed
            ≡ length (offered ops))
  unfolding Counted rx_channel start
  telemetry_counts ops b a =
      let h = run-Counted start ops 0 (omega arith) (refl, (λ a. refl), omega arith) in
      (h.0, omega (arith, h.1 a))
