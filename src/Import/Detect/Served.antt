-- ===== src/Import/Detect/Served.antt =====
-- Where src/import/auto.rs and src/import/connection.rs may take a connection: the tokens behind each
-- route, and the bytes that are handed on.
use zenoh_bridge_tcp.Prelude.{
  ℕ, ◌≡◌, ◌⊎◌, refl, subst, Bool, true, false, List, ◌++◌, Option, some, none, Result, ok, err,
  OkAll, OkAll-bind, if-cases, ◌>>=◌,
}
use zenoh_bridge_tcp.Text.{Text}
use zenoh_bridge_tcp.Keys.{available_key}
use zenoh_bridge_tcp.Export.Relay.{Bytes}
use zenoh_bridge_tcp.Import.Http.{ReaderError}
use zenoh_bridge_tcp.Import.Head.{ReadHeadOutcome, parsed, timeout, HeadError}
use zenoh_bridge_tcp.Import.Head.Verbatim.{Replay}
use zenoh_bridge_tcp.Import.Readers.{ReadFailure, no_timeout, map_result}
use zenoh_bridge_tcp.Import.Route.{
  BackendRoute, host, default_backend, unavailable, default_route, FirstDone, host_first,
  default_first, resolve_backend,
}
use zenoh_bridge_tcp.Import.Detect.{
  Classify, WireProtocol, ssh, raw, PeekEvent, unpeeked, bad_head, no_probe, no_backend,
  no_handshake, tcp, http2_relay, websocket, Fate, dropped, bridged, by_route, classify_loop,
}

-- What holds of a value where there is one.
abbrev pub SomeAll {ℓ κ} : {A : Type ℓ} → (A → Type κ) → Option A → Type κ
SomeAll P none = Unit
SomeAll P (some a) = P a

pub map_result-SomeAll {ℓ κ μ ν} :
    {A : Type ℓ} {B : Type κ} (P : A → Type μ) (Q : B → Type ν) (f : A → B) (m : Option A)
    → ((a : A) → P a → Q (f a))
    → SomeAll P m
    → SomeAll Q (map_result f m)
map_result-SomeAll P Q f none k h = tt
map_result-SomeAll P Q f (some a) k h = k a h

OkAll-self {ℓ κ} : {E : Type ℓ} {A : Type κ} (m : Result E A) → OkAll (λ a. m ≡ ok a) m
OkAll-self (ok a) = refl
OkAll-self (err e) = tt

-- The bytes are the first of those received.
abbrev pub StartOf : Bytes → Bytes → Type 0
StartOf total bytes = (unread : Bytes) × (total ≡ bytes ++ unread)

-- What a reader hands on.
abbrev pub Handed : (T : Type 0) → Bytes → Result ReadFailure (T × Bytes) → Type 0
Handed T total r = OkAll (λ (value, bytes). StartOf total bytes) r

pub no_timeout-Handed :
    {T : Type 0} (max : ℕ) (total : Bytes)
    (m : Option (Result (HeadError ReaderError) (ReadHeadOutcome T)))
    → Replay max total m
    → SomeAll (Handed T total) (map_result no_timeout m)
unfolding Replay
no_timeout-Handed max total none h = tt
no_timeout-Handed max total (some (err e)) h = tt
no_timeout-Handed max total (some (ok (timeout bytes))) h = tt
no_timeout-Handed max total (some (ok (parsed value bytes))) (unread, cut, small) = (unread, cut)

-- A connection that is opaque to the bridge: the loop over the peeks called it SSH, or raw.
abbrev pub IsOpaque : (Bytes → Classify) → List PeekEvent → Type 0
IsOpaque classify_first_bytes es =
    (p : WireProtocol) × (gave_up : Bool) × (classify_loop classify_first_bytes es
      ≡ some (ok (p, gave_up)))
    × ((p ≡ ssh) ⊎ (p ≡ raw))

module _ (token_alive : Text → Result Text Bool) (service : Text) where
  -- The tokens that a resolution has seen.
  abbrev RouteSeen : Option Text → BackendRoute → Type 0
  RouteSeen dns host = token_alive (available_key service dns) ≡ ok true
  RouteSeen dns default_backend = token_alive (available_key service none) ≡ ok true
  RouteSeen dns unavailable = token_alive (available_key service none) ≡ ok false

  default_route-RouteSeen :
      (dns : Option Text) (alive : Bool)
      → token_alive (available_key service none) ≡ ok alive
      → RouteSeen dns (default_route alive)
  default_route-RouteSeen dns true h = h
  default_route-RouteSeen dns false h = h

  -- What a probe says is what the token is.
  probed :
      (Q : BackendRoute → Type 0) (key : Text) (f : Bool → Result Text BackendRoute)
      → ((a : Bool) → token_alive key ≡ ok a → OkAll Q (f a))
      → OkAll Q (token_alive key >>= f)
  probed Q key f k =
      OkAll-bind (λ a. token_alive key ≡ ok a) Q (token_alive key) f (OkAll-self (token_alive key))
        k

  default-RouteSeen :
      (dns : Option Text)
      → OkAll
          (RouteSeen dns)
          (token_alive (available_key service none) >>= (λ alive. ok (default_route alive)))
  default-RouteSeen dns =
      probed (RouteSeen dns) (available_key service none) (λ alive. ok (default_route alive))
        (λ a h. default_route-RouteSeen dns a h)

  resolve_backend-RouteSeen :
      (dns : Option Text) (first : FirstDone)
      → OkAll (RouteSeen dns) (resolve_backend token_alive service dns first)
  unfolding resolve_backend
  resolve_backend-RouteSeen none first = default-RouteSeen none
  resolve_backend-RouteSeen (some dns) host_first =
      let R = RouteSeen (some dns) in
      let key = available_key service (some dns) in
      probed R key _ (λ a h.
        if-cases (OkAll R) a (λ t. subst (λ z. token_alive key ≡ ok z) t h)
          (λ _. default-RouteSeen (some dns)))
  resolve_backend-RouteSeen (some dns) default_first =
      let R = RouteSeen (some dns) in
      let key = available_key service (some dns) in
      probed R (available_key service none) _ (λ d seen. probed R key _ (λ a h.
        if-cases R a (λ t. subst (λ z. token_alive key ≡ ok z) t h)
          (λ _. default_route-RouteSeen (some dns) d seen)))

  module _ (total : Bytes) (Opaque : Type 0) where
    abbrev pub IsStart : Option Bytes → Type 0
    IsStart none = Unit
    IsStart (some bytes) = StartOf total bytes

    -- What stands behind each end of a connection.
    unfoldable pub IsServed : Fate → Type 0
    IsServed (bridged (some dns) initial c) =
        (token_alive (available_key service (some dns)) ≡ ok true) × IsStart initial
    IsServed (bridged none none tcp) = Opaque
    IsServed (bridged none none http2_relay) = token_alive (available_key service none) ≡ ok true
    IsServed (bridged none none websocket) = token_alive (available_key service none) ≡ ok true
    IsServed (bridged none (some bytes) c) =
        (token_alive (available_key service none) ≡ ok true) × StartOf total bytes
    IsServed (dropped answer no_backend) = token_alive (available_key service none) ≡ ok false
    IsServed (dropped answer (unpeeked e)) = Unit
    IsServed (dropped answer bad_head) = Unit
    IsServed (dropped answer (no_probe e)) = Unit
    IsServed (dropped answer no_handshake) = Unit

    route-IsServed :
        (dns : Option Text) (r : Result Text BackendRoute) (a b c : Fate)
        → (RouteSeen dns host → IsServed a)
        → (RouteSeen dns default_backend → IsServed b)
        → (RouteSeen dns unavailable → IsServed c)
        → OkAll (RouteSeen dns) r
        → IsServed (by_route r a b c)
    unfolding by_route IsServed
    route-IsServed dns (err e) a b c ha hb hc h = tt
    route-IsServed dns (ok host) a b c ha hb hc h = ha h
    route-IsServed dns (ok default_backend) a b c ha hb hc h = hb h
    route-IsServed dns (ok unavailable) a b c ha hb hc h = hc h

    pub by_route-IsServed :
        (dns : Option Text) (first : FirstDone) (a b c : Fate)
        → (RouteSeen dns host → IsServed a)
        → (RouteSeen dns default_backend → IsServed b)
        → (RouteSeen dns unavailable → IsServed c)
        → IsServed (by_route (resolve_backend token_alive service dns first) a b c)
    by_route-IsServed dns first a b c ha hb hc =
        route-IsServed dns (resolve_backend token_alive service dns first) a b c ha hb hc
          (resolve_backend-RouteSeen dns first)
