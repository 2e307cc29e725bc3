-- ===== src/Keys.antt =====
-- The layout of the key space that importers and exporters meet on: `scoped_key` of
-- src/import/bridge.rs, the same keys as src/export/bridge.rs spells them, and the liveliness keys.
-- Zenoh's matching of a key against `prefix/*` is a parameter, `KeyExpr`.
pub mod Plain
pub mod Layout
mod Tests
use zenoh_bridge_tcp.Prelude.{
  ℕ, ◌≡◌, ◌↔◌, Bool, true, false, not, ◌&&◌, ◌||◌, ◌==◌, [], ◌∷◌, ◌++◌, Option, some, none,
  if◌then◌else◌,
}
use zenoh_bridge_tcp.Text.{Text, codes, has}
use zenoh_bridge_tcp.Config.{IsServiceName}
use zenoh_bridge_tcp.Dns.Keys.{IsKey}

-- `import::bridge::scoped_key`.
unfoldable pub scoped_key : Text → Option Text → Text → Text
scoped_key service (some dns) tail = service ++ (b'/' ∷ (dns ++ (b'/' ∷ tail)))
scoped_key service none tail = service ++ (b'/' ∷ tail)

-- The exporter's spelling: the service, `/dns` if there is one, then the tail.
abbrev pub dns_part : Option Text → Text
dns_part (some dns) = b'/' ∷ dns
dns_part none = []

unfoldable pub export_key : Text → Option Text → Text → Text → Text
export_key service dns kind client = service ++ (dns_part dns ++ (b'/' ∷ (kind ++ (b'/' ∷ client))))

-- The scope of an election: the service, or the service and the host.
unfoldable pub scope : Text → Option Text → Text
scope service (some dns) = service ++ (b'/' ∷ dns)
scope service none = service

-- `{scope}/available`, as `run_export_loop` declares it.
unfoldable pub available_key : Text → Option Text → Text
available_key service (some dns) = service ++ (b'/' ∷ (dns ++ codes "/available"))
available_key service none = service ++ codes "/available"

-- What stands in front of the star in `{scope}/clients/*`.
unfoldable pub clients_prefix : Text → Option Text → Text
clients_prefix service (some dns) = service ++ (b'/' ∷ (dns ++ codes "/clients"))
clients_prefix service none = service ++ codes "/clients"

-- `Claim::establish`: what stands in front of the star, and one claim's key.
unfoldable pub claims_prefix : Text → Text
claims_prefix sc = sc ++ codes "/exporter-claim"

unfoldable pub claim_key : Text → Text → Text
claim_key sc own = sc ++ (codes "/exporter-claim/" ++ own)

-- A character that is no wildcard and no delimiter of a selector.
abbrev pub is_plain_char : ℕ → Bool
is_plain_char c = not (c == b'*' || (c == b'$' || (c == b'?' || c == b'#')))

-- A key whose chunks are not empty and plain: no wildcard in them, and no `@` in front, which makes a
-- chunk that only matches itself. The flag tells whether a chunk begins.
pub is_plain_from : Bool → Text → Bool
is_plain_from start [] = not start
is_plain_from start (c ∷ s) =
    let next = is_plain_from true s in
    let same = is_plain_from false s in
    if c == b'/' then not start && next else is_plain_char c && (not (start && c == b'@') && same)

abbrev pub is_plain_key : Text → Bool
is_plain_key s = is_plain_from true s

-- One plain chunk of a key.
abbrev pub IsChunk : Text → Type 0
IsChunk s = (is_plain_key s ≡ true) × (has b'/' s ≡ false)

-- Among plain keys, a star behind a prefix stands for exactly one chunk.
pub record KeyExpr : Type 0 where
  pub matches_star : Text → Text → Bool
  pub matches_star_iff :
      (prefix key : Text)
      → is_plain_key prefix ≡ true
      → is_plain_key key ≡ true
      → (matches_star prefix key ≡ true)
        ↔ ((chunk : Text) × IsChunk chunk × (key ≡ prefix ++ (b'/' ∷ chunk)))

-- The scope of a well-formed backend or connection.
pub record IsScope (service : Text) (dns : Option Text) : Type 0 where
  pub service_name : IsServiceName service
  pub host_key : (k : Text) → dns ≡ some k → IsKey k
