-- ===== src/Config/Tests.antt =====
-- Configuration values at concrete texts.
use zenoh_bridge_tcp.Prelude.{◌≡◌, refl, some}
use zenoh_bridge_tcp.Text.{codes}
use zenoh_bridge_tcp.Config.{parse_reliability, telemetry}

telemetry_parsed : parse_reliability (codes "Telemetry") ≡ some telemetry
unfolding parse_reliability
telemetry_parsed = refl
