-- ===== src/Dns/Ports.antt =====
-- The ways in which a client may write one host: capitals, a port, brackets. All give one key.
use mathlib.Core.List.{map-append}
use zenoh_bridge_tcp.Prelude.{
  ℕ, ◌≡◌, refl, sym, ap, subst, ◌∙◌, ◌++◌, true, false, ◌||◌, [], ◌∷◌, arith, ◌+◌, ok, err, all,
  map, all-append,
}
use zenoh_bridge_tcp.Text.{Text, ascii_lower, has, count_char, is_empty, is_u16}
use zenoh_bridge_tcp.Text.Decimal.{is_port_char, is_u16_chars}
use zenoh_bridge_tcp.Text.Split.{split_once-append}
use zenoh_bridge_tcp.Dns.{
  CaseMap, is_ascii, bare_host, normalize_dns, routing_key, spec_host_key, has_explicit_port,
  carries_port, is_port_tail,
}
use zenoh_bridge_tcp.Dns.Keys.{IsKey, check_key_lem, has-IsKey, bare_host-IsKey}

count-port : (s : Text) → all is_port_char s ≡ true → count_char b':' s ≡ 0
count-port [] h = refl
count-port (c ∷ s) h = ground (arith, count-port s)

ascii-port : (s : Text) → all is_port_char s ≡ true → all is_ascii s ≡ true
ascii-port [] h = refl
ascii-port (c ∷ s) h = ground (arith, ascii-port s)

lower-port : (s : Text) → all is_port_char s ≡ true → map ascii_lower s ≡ s
lower-port [] h = refl
lower-port (c ∷ s) h = ground (arith, lower-port s)

count-append : (c : ℕ) (a b : Text) → count_char c (a ++ b) ≡ count_char c a + count_char c b
count-append c [] b = omega arith
count-append c (x ∷ a) b = ground (arith, count-append c a b)

count-has : (c : ℕ) (a : Text) → has c a ≡ false → count_char c a ≡ 0
count-has c [] h = refl
count-has c (x ∷ a) h = ground (arith, count-has c a)

-- `name:port`.
bare_host-port :
    (k p : Text) → IsKey k → has b':' k ≡ false → is_u16 p ≡ true → bare_host (k ++ b':' ∷ p) ≡ k
unfolding bare_host
bare_host-port [] p key h u = absurd (key.non_empty refl)
bare_host-port (c ∷ k) p key h u = ground (
  arith,
  key.chars,
  split_once-append b':' (c ∷ k) p,
  count-append b':' k (b':' ∷ p),
  count-has b':' (c ∷ k),
  count-port p,
  is_u16_chars p,
)

-- `[v6]` and `[v6]:port`.
bare_host-bracketed :
    (k tail : Text)
    → IsKey k
    → has b':' k ≡ true
    → (is_empty tail || is_port_tail tail) ≡ true
    → bare_host (b'[' ∷ (k ++ b']' ∷ tail)) ≡ k
unfolding bare_host
bare_host-bracketed k tail key h t =
    ground (arith, split_once-append b']' k tail (has-IsKey k b']' key.chars refl))

-- The ways to write one host.
pub data Form : Type 0 where
  bare literal : Form
  with_port literal_with_port : Text → Form

abbrev pub spelling : Form → Text → Text
spelling bare h = h
spelling literal h = b'[' ∷ (h ++ b']' ∷ [])
spelling (with_port port) h = h ++ b':' ∷ port
spelling (literal_with_port port) h = b'[' ∷ (h ++ b']' ∷ b':' ∷ port)

-- Brackets stand round an IPv6 literal only, and a port behind another name or such brackets.
abbrev pub Fits : Form → Text → Type 0
Fits bare k = Unit {0}
Fits literal k = has b':' k ≡ true
Fits (with_port port) k = (has b':' k ≡ false) × (is_u16 port ≡ true)
Fits (literal_with_port port) k = (has b':' k ≡ true) × (is_u16 port ≡ true)

bare_host-spelling : (f : Form) (k : Text) → IsKey k → Fits f k → bare_host (spelling f k) ≡ k
bare_host-spelling bare k key fit = bare_host-IsKey k key
bare_host-spelling literal k key fit = bare_host-bracketed k [] key fit refl
bare_host-spelling (with_port port) k key fit = bare_host-port k port key fit.0 fit.1
bare_host-spelling (literal_with_port port) k key fit =
    bare_host-bracketed k (b':' ∷ port) key fit.0 fit.1

module _ (h : Text) where
  lower-spelling :
      (f : Form)
      → Fits f (map ascii_lower h)
      → map ascii_lower (spelling f h) ≡ spelling f (map ascii_lower h)
  lower-spelling bare fit = refl
  lower-spelling literal fit = ap (◌∷◌ b'[') (map-append ascii_lower h (b']' ∷ []))
  lower-spelling (with_port port) fit =
      map-append ascii_lower h (b':' ∷ port) ∙ rw (lower-port port (is_u16_chars port fit.1))
  lower-spelling (literal_with_port port) fit =
      ap (◌∷◌ b'[') (map-append ascii_lower h (b']' ∷ b':' ∷ port))
      ∙ rw (lower-port port (is_u16_chars port fit.1))

  ascii-spelling :
      (f : Form)
      → Fits f (map ascii_lower h)
      → all is_ascii h ≡ true
      → all is_ascii (spelling f h) ≡ true
  ascii-spelling bare fit a = a
  ascii-spelling literal fit a = ground (arith, all-append is_ascii h (b']' ∷ []))
  ascii-spelling (with_port port) fit a =
      ground (arith, all-append is_ascii h (b':' ∷ port), ascii-port port (is_u16_chars port fit.1))
  ascii-spelling (literal_with_port port) fit a =
      ground (
        arith,
        all-append is_ascii h (b']' ∷ b':' ∷ port),
        ascii-port port (is_u16_chars port fit.1),
      )

has_explicit_port-with_port :
    (h port : Text)
    → IsKey h
    → has b':' h ≡ false
    → is_u16 port ≡ true
    → has_explicit_port (h ++ b':' ∷ port) ≡ true
unfolding has_explicit_port
has_explicit_port-with_port [] port key c u = absurd (key.non_empty refl)
has_explicit_port-with_port (x ∷ h) port key c u = ground (
  arith,
  key.chars,
  split_once-append b':' (x ∷ h) port,
  count-append b':' h (b':' ∷ port),
  count-has b':' (x ∷ h),
  count-port port,
  is_u16_chars port,
)

has_explicit_port-literal :
    (h port : Text)
    → IsKey h
    → is_u16 port ≡ true
    → has_explicit_port (b'[' ∷ (h ++ b']' ∷ b':' ∷ port)) ≡ true
unfolding has_explicit_port
has_explicit_port-literal h port key u =
    ground (arith, split_once-append b']' h (b':' ∷ port) (has-IsKey h b']' key.chars refl))

module _ (cm : CaseMap) where
  -- Every ASCII spelling of a key's host, with capitals and, where the form fits the key, with a
  -- port or brackets, is routed by that one key.
  pub routing_key-spelling :
      (f : Form) (h k : Text)
      → IsKey k
      → all is_ascii h ≡ true
      → map ascii_lower h ≡ k
      → Fits f k
      → routing_key cm (spelling f h) ≡ ok k
  unfolding routing_key normalize_dns
  routing_key-spelling f h k key a e fit =
      let fit' = subst (Fits f) (sym e) fit in
      rw
        (
          cm.ascii_map (spelling f h) (ascii-spelling h f fit' a),
          lower-spelling h f fit',
          e,
          bare_host-spelling f k key fit,
        )
        (check_key_lem k key)

  -- An operator who writes a 16-bit port behind a host key is refused for the port: behind a name
  -- without a colon, and behind any bracketed key.
  pub spec_host_key-port :
      (h port : Text)
      → IsKey h
      → is_u16 port ≡ true
      → (has b':' h ≡ false → spec_host_key cm (spelling (with_port port) h) ≡ err carries_port)
        × (spec_host_key cm (spelling (literal_with_port port) h) ≡ err carries_port)
  unfolding spec_host_key
  spec_host_key-port h port key u = (
    λ c. rw (has_explicit_port-with_port h port key c u),
    rw (has_explicit_port-literal h port key u),
  )
