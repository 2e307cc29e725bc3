-- ===== src/Import/KeepAlive/Outcomes.antt =====
-- What src/import/multiroute.rs records of a connection, and what it answers by itself.
use zenoh_bridge_tcp.Prelude.{ℕ, ◌≡◌, ◌⊎◌, false, List, [], ◌∷◌, Option, some, none, ◌==◌}
use zenoh_bridge_tcp.Text.{Text}
use zenoh_bridge_tcp.Dns.{CaseMap}
use zenoh_bridge_tcp.Import.Http.{HttpParser, ReaderError}
use zenoh_bridge_tcp.Import.Requests.{NextRequest, Client, next_request_head}
use zenoh_bridge_tcp.Import.KeepAlive.{Turn, Connection, serve}
use zenoh_bridge_tcp.Import.KeepAlive.Turns.{RoutedHead}

module _ (cm : CaseMap) (http : HttpParser) (show_error : ReaderError → Text) (max : ℕ) where
  -- What `next_request_head` returns in a turn.
  abbrev pub head_of :
      (Turn cm http show_error max)
      → (Connection cm http show_error max)
      → Option (NextRequest × Client http)
  head_of t c = next_request_head http (c.request_num == 0) c.client t.reads

  -- Each turn that leaves the connection open had a request that was routed; `later` is what holds of
  -- the turns behind it.
  abbrev AfterTurn :
      ((Connection cm http show_error max) → Type 0)
      → Option (NextRequest × Client http)
      → Option (Connection cm http show_error max)
      → Type 0
  AfterTurn later o none = Unit {0}
  AfterTurn later o (some c) =
      ((c.open_still ≡ false) ⊎ RoutedHead cm http show_error max o) × later c

  pub AllRouted : List (Turn cm http show_error max) → (Connection cm http show_error max) → Type 0
  AllRouted [] c = Unit {0}
  AllRouted (t ∷ ts) c =
      (c.open_still ≡ false)
      ⊎ AfterTurn (AllRouted ts) (head_of t c) (serve cm http show_error max t c)
