-- ===== src/Dns.antt =====
-- src/dns.rs: host names as routing keys. `str::to_lowercase` goes by Unicode's tables, so it is a
-- parameter, `CaseMap`; all else is written out.
pub mod Keys
pub mod Again
pub mod Ports
pub mod Tests
use zenoh_bridge_tcp.Prelude.{
  ℕ, ◌≡◌, refl, Bool, true, false, ◌&&◌, ◌||◌, List, [], ◌∷◌, arith, ◌==◌, ltb, if◌then◌else◌,
  Result, ok, err, all, map, Option, some, none, not,
}
use zenoh_bridge_tcp.Text.{
  Text, is_ascii_alphanumeric, is_ascii_upper, ascii_lower, has, is_empty, strip_prefix, count_char,
  is_u16,
}
use zenoh_bridge_tcp.Text.Split.{split_once}

abbrev pub is_ascii : ℕ → Bool
is_ascii c = ltb c 128

-- `str::to_lowercase`: ASCII text goes letter by letter, and no ASCII capital is left in a result.
pub record CaseMap : Type 0 where
  pub to_lowercase : Text → Text
  pub ascii_map : (s : Text) → all is_ascii s ≡ true → to_lowercase s ≡ map ascii_lower s
  pub no_capital : (s : Text) → all (λ c. not (is_ascii_upper c)) (to_lowercase s) ≡ true

-- `tail.strip_prefix(':').is_some_and(|p| p.parse::<u16>().is_ok())`.
abbrev pub is_port_tail : Text → Bool
is_port_tail [] = false
is_port_tail (c ∷ p) = c == b':' && is_u16 p

-- The literal inside well-formed brackets, given what stands behind `[` cut at the first `]`.
pub bracket_inner : Option (Text × Text) → Option Text
bracket_inner none = none
bracket_inner (some (inner, tail)) =
    if has b':' inner && (is_empty tail || is_port_tail tail) then some inner else none

pub bracketed : Text → Option Text
unfolding bracket_inner split_once
bracketed [] = none
bracketed (c ∷ rest) = if c == b'[' then bracket_inner (split_once b']' rest) else none

-- The name in front of a port, given the host cut at its first colon.
pub strip_port : Text → Option (Text × Text) → Text
strip_port host none = host
strip_port host (some (name, port)) = if is_u16 port then name else host

-- What `normalize_dns` does with the lower-case host when it is no bracketed literal.
pub unbracketed_host : Text → Text
unfolding strip_port split_once
unbracketed_host host =
    if ltb 1 (count_char b':' host) then host else strip_port host (split_once b':' host)

-- `normalize_dns` behind its first line.
unfoldable pub bare_host : Text → Text
unfolding bracketed unbracketed_host
bare_host host = elim (bracketed host) [ some inner ↦ inner | none ↦ unbracketed_host host ]

pub port_behind : Option (Text × Text) → Bool
port_behind none = false
port_behind (some (_, port)) = is_u16 port

pub port_behind_bracket : Option (Text × Text) → Bool
port_behind_bracket none = false
port_behind_bracket (some (_, tail)) = is_port_tail tail

unfoldable pub has_explicit_port : Text → Bool
unfolding port_behind port_behind_bracket split_once
has_explicit_port [] = false
has_explicit_port (c ∷ rest) =
    if c == b'['
    then port_behind_bracket (split_once b']' rest)
    else count_char b':' (c ∷ rest) == 1 && port_behind (split_once b':' (c ∷ rest))

abbrev pub is_valid_key_char : ℕ → Bool
is_valid_key_char c =
    is_ascii_alphanumeric c || (c == b'-' || (c == b'_' || (c == b'.' || c == b':')))

pub data HostError : Type 0 where
  empty_host stray_colon : HostError
  invalid_char : ℕ → HostError
  carries_port : HostError

-- `chars().find(|&c| !is_valid_key_char(c))`.
pub find_invalid : Text → Option ℕ
find_invalid [] = none
find_invalid (c ∷ cs) =
    let rest = find_invalid cs in if not (is_valid_key_char c) then some c else rest

-- The checks of `routing_key` on the normalized host.
unfoldable pub check_key : Text → Result HostError Text
unfolding find_invalid
check_key dns =
    if is_empty dns
    then err empty_host
    else if count_char b':' dns == 1
    then err stray_colon
    else elim (find_invalid dns) [ some c ↦ err (invalid_char c) | none ↦ ok dns ]

module _ (cm : CaseMap) where
  unfoldable pub normalize_dns : Text → Text
  normalize_dns host = bare_host (cm.to_lowercase host)

  unfoldable pub routing_key : Text → Result HostError Text
  unfolding normalize_dns
  routing_key host = check_key (normalize_dns host)

  unfoldable pub spec_host_key : Text → Result HostError Text
  spec_host_key host = if has_explicit_port host then err carries_port else routing_key host
