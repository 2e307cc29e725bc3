-- ===== src/Import/Route.antt =====
-- src/import/connection.rs, `resolve_backend`: which backend a connection goes to. `token_alive` is an
-- argument; the two probes run at once and may be done in either order.
use zenoh_bridge_tcp.Prelude.{
  ◌≡◌, refl, Bool, Option, some, none, if◌then◌else◌, Result, ok, ◌>>=◌, arith,
}
use zenoh_bridge_tcp.Text.{Text}
use zenoh_bridge_tcp.Keys.{available_key}

pub data BackendRoute : Type 0 where
  host default_backend unavailable : BackendRoute

-- The probe that is done first; of the host's probe at once, where that is the only one.
pub data FirstDone : Type 0 where
  host_first default_first : FirstDone

abbrev pub default_route : Bool → BackendRoute
default_route alive = if alive then default_backend else unavailable

module _ {E : Type 0} (token_alive : Text → Result E Bool) where
  -- The host's probe is done before the other one: its success is enough.
  abbrev pub host_then_default : Text → Text → Result E BackendRoute
  host_then_default host_key default_key = do
    host_alive ← token_alive host_key
    if host_alive
        then ok host
        else do default_alive ← token_alive default_key; ok (default_route default_alive)

  -- The default's probe is done while the host's still runs: its failure ends both.
  abbrev pub default_then_host : Text → Text → Result E BackendRoute
  default_then_host host_key default_key = do
    default_alive ← token_alive default_key
    host_alive ← token_alive host_key
    ok (if host_alive then host else default_route default_alive)

  unfoldable pub resolve_backend : Text → Option Text → FirstDone → Result E BackendRoute
  resolve_backend service none first = do
    alive ← token_alive (available_key service none)
    ok (default_route alive)
  resolve_backend service (some dns) host_first =
      host_then_default (available_key service (some dns)) (available_key service none)
  resolve_backend service (some dns) default_first =
      default_then_host (available_key service (some dns)) (available_key service none)

-- The route that the tokens of a service call for.
abbrev pub route_of : (Text → Bool) → Text → Option Text → BackendRoute
route_of alive service none = default_route (alive (available_key service none))
route_of alive service (some dns) =
    if alive (available_key service (some dns))
    then host
    else default_route (alive (available_key service none))

-- Where no probe fails, a connection is routed to the host's backend if its availability token is
-- there, else to the service's default backend if that one is, and is refused otherwise, in
-- whichever order the two probes are done.
pub resolve_backend-route_of :
    {E : Type 0} (alive : Text → Bool) (service : Text) (dns : Option Text) (first : FirstDone)
    → resolve_backend {E = E} (λ key. ok (alive key)) service dns first
      ≡ ok (route_of alive service dns)
unfolding resolve_backend
resolve_backend-route_of alive service none first = refl
resolve_backend-route_of alive service (some dns) host_first = ground arith
resolve_backend-route_of alive service (some dns) default_first = ground arith
