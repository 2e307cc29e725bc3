-- ===== src/Dns/Keys.antt =====
-- What a routing key is, and that minting one again changes nothing.
use zenoh_bridge_tcp.Prelude.{
  ℕ, ◌≡◌, ◌≢◌, ◌↔◌, refl, true, false, [], ◌∷◌, arith, ok, all, map, none, not,
}
use zenoh_bridge_tcp.Text.{Text, is_ascii_upper, ascii_lower, has, count_char}
use zenoh_bridge_tcp.Text.Split.{split_once-none}
use zenoh_bridge_tcp.Dns.{
  is_ascii, is_valid_key_char, bare_host, find_invalid, check_key, has_explicit_port,
}

-- A key as it may stand in a key expression: not empty, no character that a key expression or a
-- path gives a meaning, and a colon only as an IPv6 literal has it.
pub record IsKey (k : Text) : Type 0 where
  pub non_empty : k ≢ []
  pub chars : all is_valid_key_char k ≡ true
  pub colons : count_char b':' k ≢ 1

find_invalid_iff : (s : Text) → (find_invalid s ≡ none) ↔ (all is_valid_key_char s ≡ true)
unfolding find_invalid
find_invalid_iff [] = (λ _. refl, λ _. refl)
find_invalid_iff (c ∷ s) = ground (arith, find_invalid_iff s)

pub check_key_lem : (s : Text) → IsKey s → check_key s ≡ ok s
unfolding check_key
check_key_lem [] k = absurd (k.non_empty refl)
check_key_lem (c ∷ s) k = ground (arith, find_invalid_iff (c ∷ s))

pub check_key_sound : (s k : Text) → check_key s ≡ ok k → (k ≡ s) × IsKey k
unfolding check_key
check_key_sound [] k h = cc
check_key_sound (c ∷ s) k h = ground (arith, find_invalid_iff (c ∷ s))

pub has-IsKey :
    (k : Text) (c : ℕ)
    → all is_valid_key_char k ≡ true
    → is_valid_key_char c ≡ false
    → has c k ≡ false
has-IsKey [] c h n = refl
has-IsKey (x ∷ k) c h n = ground (arith, has-IsKey k c)

-- A text with as few colons as this has none.
has-count : (c : ℕ) (s : Text) → count_char c s ≡ 0 → has c s ≡ false
has-count c [] h = refl
has-count c (x ∷ s) h = ground (arith, has-count c s)

-- Normalizing leaves a key alone.
pub bare_host-IsKey : (k : Text) → IsKey k → bare_host k ≡ k
unfolding bare_host
bare_host-IsKey [] h = absurd (h.non_empty refl)
bare_host-IsKey (c ∷ k) h =
    ground (arith, h.chars, split_once-none b':' (c ∷ k), has-count b':' (c ∷ k))

-- Such a text carries no port to reject.
pub has_explicit_port-IsKey : (k : Text) → IsKey k → has_explicit_port k ≡ false
unfolding has_explicit_port
has_explicit_port-IsKey [] h = refl
has_explicit_port-IsKey (c ∷ k) h = ground (arith, h.chars)

-- ASCII text with no capital is its own lower case.
pub map-ascii_lower :
    (s : Text) → all (λ c. not (is_ascii_upper c)) s ≡ true → map ascii_lower s ≡ s
map-ascii_lower [] h = refl
map-ascii_lower (c ∷ s) h = ground (arith, map-ascii_lower s)

pub all-is_ascii : (s : Text) → all is_valid_key_char s ≡ true → all is_ascii s ≡ true
all-is_ascii [] h = refl
all-is_ascii (c ∷ s) h = ground (arith, all-is_ascii s)
