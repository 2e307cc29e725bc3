-- ===== src/Import/Readers/Framed.antt =====
-- What the reader of HTTP heads in src/import/connection.rs returns.
use zenoh_bridge_tcp.Prelude.{ℕ, ◌≡◌, ◌++◌, some}
use zenoh_bridge_tcp.Text.{Text}
use zenoh_bridge_tcp.Dns.{CaseMap}
use zenoh_bridge_tcp.Export.Relay.{Bytes}
use zenoh_bridge_tcp.Import.Parser.{initiator}
use zenoh_bridge_tcp.Import.Http.{RequestHead, HttpParser}
use zenoh_bridge_tcp.Import.Readers.{first_event, as_request_head}
use zenoh_bridge_tcp.Import.Readers.Gapless.{Unpicked}

module _ (cm : CaseMap) (http : HttpParser) (max_header_size : ℕ) where
  open http use {parser, with_config, with_config_fed}

  -- The first head that the parser gives since it was made, having taken these bytes but for the
  -- rest.
  abbrev pub FirstHead : RequestHead → Bytes → Type 0
  FirstHead h buffer =
      (s : parser.State) × (rest : Bytes) × Unpicked parser as_request_head
        (with_config max_header_size) s
      × (parser.fed initiator s ++ rest ≡ buffer)
      × ((first_event parser as_request_head (parser.queued s) s).0 ≡ some h)
