-- ===== src/Backpressure/Tests.antt =====
-- The channel of src/backpressure.rs at concrete deliveries.
use zenoh_bridge_tcp.Prelude.{ℕ, ◌+◌, ◌≡◌, refl, false, List, [], ◌∷◌, ◌++◌, arith, length}
use zenoh_bridge_tcp.Config.{stream, telemetry}
use zenoh_bridge_tcp.Backpressure.{callback, rx_channel}
use zenoh_bridge_tcp.Backpressure.Drain.{
  RxOp, deliver, recv, start, rx_run, offered, stream_exact, telemetry_counts,
}

-- Room for one sample; the third delivery finds room again.
abbrev one_behind : List (RxOp ℕ)
one_behind = deliver 1 ∷ recv ∷ deliver 2 ∷ recv ∷ deliver 3 ∷ []

stream_exact_example :
    (rx_run 1 stream start one_behind).taken ++ (rx_run 1 stream start one_behind).rx.queue
    ≡ offered one_behind
unfolding rx_run callback start rx_channel
stream_exact_example = stream_exact 1 one_behind refl refl

abbrev burst : List (RxOp ℕ)
burst = deliver 1 ∷ deliver 2 ∷ recv ∷ deliver 3 ∷ recv ∷ []

telemetry_counts_example :
    ((rx_run 1 telemetry start burst).rx.conn_cancel ≡ false)
    × (length (rx_run 1 telemetry start burst).taken
          + length (rx_run 1 telemetry start burst).rx.queue
          + (rx_run 1 telemetry start burst).rx.shed
        ≡ length (offered burst))
unfolding rx_run callback start rx_channel offered
telemetry_counts_example = telemetry_counts 1 burst (omega arith) refl

-- The callback does not look at the token: behind an overflow a sample gets into the channel again,
-- and a receiver that has not yet seen the token takes it, with the lost one missing in between.
gap_behind_overflow : (rx_run 1 stream start burst).taken ≡ 1 ∷ 3 ∷ []
unfolding rx_run callback start rx_channel
gap_behind_overflow = refl
