-- ===== src/Backpressure.antt =====
-- src/backpressure.rs: the callback that never blocks and the bounded channel that it feeds. The
-- channel is tokio's `mpsc`, used by `try_send` and `recv`; the token is the connection's.
pub mod Drain
pub mod Tests
use zenoh_bridge_tcp.Prelude.{
  ℕ, ◌+◌, ◌%◌, ◌^◌, Bool, true, false, List, [], ◌∷◌, ◌++◌, ltb, if◌then◌else◌, length,
}
use zenoh_bridge_tcp.Config.{ReliabilityMode, stream, telemetry}

-- The channel with the state that the callback captures: the queue, whether the receiver lives, the
-- connection's reset token and the count of samples shed.
pub record RxChannel {ℓ} (A : Type ℓ) : Type ℓ where
  pub queue : List A
  pub receiver_alive : Bool
  pub conn_cancel : Bool
  pub shed : ℕ

-- `mpsc::channel` with the token as it stands.
unfoldable pub rx_channel {ℓ} : {A : Type ℓ} → Bool → RxChannel A
rx_channel token = record { queue = []; receiver_alive = true; conn_cancel = token; shed = 0 }

-- `TrySendError::Full` under either mode.
abbrev pub overflow {ℓ} : {A : Type ℓ} → ReliabilityMode → RxChannel A → RxChannel A
overflow stream rx = record rx { conn_cancel = true }
overflow telemetry rx = record rx { shed = (rx.shed + 1) % 2 ^ 64 }

-- The callback on one sample: `try_send`, and the policy where it fails.
unfoldable pub callback {ℓ} : {A : Type ℓ} → ℕ → ReliabilityMode → RxChannel A → A → RxChannel A
callback capacity mode rx sample =
    if rx.receiver_alive
    then if ltb (length rx.queue) capacity
      then record rx { queue = rx.queue ++ sample ∷ [] }
      else overflow mode rx
    else rx
