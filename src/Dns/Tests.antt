-- ===== src/Dns/Tests.antt =====
-- The routing keys of the unit tests of src/dns.rs, and the theorems at concrete hosts.
use zenoh_bridge_tcp.Prelude.{
  ℕ, ◌≡◌, refl, true, [], ◌∷◌, arith, ◌==◌, if◌then◌else◌, ok, err, all, map, not,
}
use zenoh_bridge_tcp.Text.{Text, codes, is_ascii_upper, ascii_lower, parse_u16}
use zenoh_bridge_tcp.Dns.{
  CaseMap, is_ascii, routing_key, spec_host_key, bare_host, has_explicit_port, carries_port,
  check_key, empty_host, stray_colon,
}
use zenoh_bridge_tcp.Dns.Keys.{IsKey}
use zenoh_bridge_tcp.Dns.Again.{routing_key_again}
use zenoh_bridge_tcp.Dns.Ports.{
  with_port, literal_with_port, spelling, routing_key-spelling, spec_host_key-port,
}

-- A case map that knows one letter beyond ASCII: the Kelvin sign, whose lower case is k.
abbrev pub lower_char : ℕ → ℕ
lower_char c = if c == 0x212A then b'k' else ascii_lower c

pub lower_ascii : (s : Text) → all is_ascii s ≡ true → map lower_char s ≡ map ascii_lower s
lower_ascii [] h = refl
lower_ascii (c ∷ s) h = ground (arith, lower_ascii s)

pub lower_no_capital : (s : Text) → all (λ c. not (is_ascii_upper c)) (map lower_char s) ≡ true
lower_no_capital [] = refl
lower_no_capital (c ∷ s) = ground (arith, lower_no_capital s)

abbrev pub kelvin_map : CaseMap
kelvin_map = record {
  to_lowercase = map lower_char;
  ascii_map = lower_ascii;
  no_capital = lower_no_capital;
}

normalize_examples :
    (bare_host (codes "host:99999") ≡ codes "host:99999")
    × (bare_host (codes "[::1]:8080") ≡ codes "::1")
    × (bare_host (codes "::ffff:127.0.0.1") ≡ codes "::ffff:127.0.0.1")
    × (bare_host (codes "[not.v6]") ≡ codes "[not.v6]")
    × (bare_host (codes ":80") ≡ [])
unfolding bare_host parse_u16
normalize_examples = (refl, refl, refl, refl, refl)

routing_examples :
    (routing_key kelvin_map (codes "API.local:8080") ≡ ok (codes "api.local"))
    × (routing_key kelvin_map (codes ":80") ≡ err empty_host)
    × (routing_key kelvin_map (codes "host:") ≡ err stray_colon)
unfolding routing_key check_key bare_host parse_u16
routing_examples = (refl, refl, refl)

-- A host outside ASCII is accepted when its lower case is a key.
pub routing_key_kelvin : routing_key kelvin_map (0x212A ∷ []) ≡ ok (codes "k")
unfolding routing_key check_key bare_host parse_u16
routing_key_kelvin = refl

local-IsKey : IsKey (codes "api.local")
local-IsKey = record { non_empty = λ e. cc; chars = refl; colons = omega arith }

v6-IsKey : IsKey (codes "2001:db8::1")
v6-IsKey = record { non_empty = λ e. cc; chars = refl; colons = omega arith }

routing_key_again_example :
    (routing_key kelvin_map (codes "api.local") ≡ ok (codes "api.local"))
    × (spec_host_key kelvin_map (codes "api.local") ≡ ok (codes "api.local"))
routing_key_again_example = routing_key_again kelvin_map (codes "API.local:8080") routing_examples.0

registered : spec_host_key kelvin_map (codes "API.local") ≡ ok (codes "api.local")
unfolding spec_host_key routing_key check_key bare_host has_explicit_port parse_u16
registered = refl

routing_key-spelling_example :
    routing_key kelvin_map (spelling (literal_with_port (codes "9090")) (codes "2001:DB8::1"))
    ≡ ok (codes "2001:db8::1")
unfolding parse_u16
routing_key-spelling_example =
    routing_key-spelling kelvin_map (literal_with_port (codes "9090")) (codes "2001:DB8::1")
      (codes "2001:db8::1") v6-IsKey refl refl (refl, refl)

spec_host_key-port_example :
    spec_host_key kelvin_map (spelling (with_port (codes "8443")) (codes "api.local"))
    ≡ err carries_port
unfolding parse_u16
spec_host_key-port_example =
    (spec_host_key-port kelvin_map (codes "api.local") (codes "8443") local-IsKey refl).0 refl
