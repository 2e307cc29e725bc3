-- ===== src/Import/Head.antt =====
-- src/import/connection.rs, `read_until`: the shell of the head readers. What the socket does is a list
-- of results of its reads; the incremental parser is an argument.
pub mod Verbatim
use zenoh_bridge_tcp.Prelude.{
  ℕ, Bool, true, false, List, [], ◌∷◌, ◌++◌, Option, some, none, length, leb, if◌then◌else◌, Result,
  ok, err,
}
use zenoh_bridge_tcp.Export.Relay.{Bytes}

-- One turn at the socket: the bytes of a read, none at the end of the stream; a failure; or the
-- deadline.
pub data ReadEvent : Type 0 where
  chunk : Bytes → ReadEvent
  read_failed deadline : ReadEvent

pub data ReadHeadOutcome {ℓ} (T : Type ℓ) : Type ℓ where
  parsed : T → Bytes → ReadHeadOutcome T
  timeout : Bytes → ReadHeadOutcome T

pub data HeadError {ℓ} (E : Type ℓ) : Type ℓ where
  read_error closed_early oversized : HeadError E
  refused : E → HeadError E

module _ {σ T E : Type 0} (step : σ → Bytes → σ × Result E (Option T)) (max_header_size : ℕ) where
  -- What a turn of the parser leads to; `rest` is what reading on leads to.
  abbrev pub after_step :
      Result E (Option T)
      → Bytes
      → Option (Result (HeadError E) (ReadHeadOutcome T))
      → Option (Result (HeadError E) (ReadHeadOutcome T))
  after_step (err e) buffer rest = some (err (refused e))
  after_step (ok (some value)) buffer rest = some (ok (parsed value buffer))
  after_step (ok none) buffer rest =
      if leb max_header_size (length buffer) then some (err oversized) else rest

  -- No result while it still reads.
  unfoldable pub read_until :
      σ → Bytes → List ReadEvent → Option (Result (HeadError E) (ReadHeadOutcome T))
  read_until s buffer [] = none
  read_until s buffer (deadline ∷ es) = some (ok (timeout buffer))
  read_until s buffer (read_failed ∷ es) = some (err read_error)
  read_until s buffer (chunk [] ∷ es) = some (err closed_early)
  read_until s buffer (chunk (b ∷ bs) ∷ es) =
      let (s', answer) = step s (b ∷ bs) in
      let rest = read_until s' (buffer ++ b ∷ bs) es in after_step answer (buffer ++ b ∷ bs) rest
