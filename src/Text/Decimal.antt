-- ===== src/Text/Decimal.antt =====
-- Which characters a number has.
use zenoh_bridge_tcp.Prelude.{
  ℕ, ◌+◌, ◌-◌, ◌*◌, ◌≡◌, refl, Bool, true, ◌||◌, [], ◌∷◌, some, inl, inr, arith, ◌==◌, all,
  Option-cases,
}
use zenoh_bridge_tcp.Text.{Text, is_ascii_digit, decimal, u16_digits, parse_u16, is_u16, unsigned}

-- The characters of a port: the digits and the plus sign.
abbrev pub is_port_char : ℕ → Bool
is_port_char c = is_ascii_digit c || c == b'+'

decimal_digits : (s : Text) (acc n : ℕ) → decimal acc s ≡ some n → all is_port_char s ≡ true
unfolding decimal
decimal_digits [] acc n h = refl
decimal_digits (c ∷ s) acc n h = ground (arith, decimal_digits s (acc * 10 + (c - b'0')) n)

u16_digits_digits : (s : Text) (n : ℕ) → u16_digits s ≡ some n → all is_port_char s ≡ true
unfolding u16_digits
u16_digits_digits [] n h = refl
u16_digits_digits (c ∷ s) n h = elim (Option-cases (decimal 0 (c ∷ s))) [
  | inl e ↦ ground arith
  | inr (m, e) ↦ decimal_digits (c ∷ s) 0 m e
]

unsigned_chars : (s : Text) → all is_port_char (unsigned s) ≡ true → all is_port_char s ≡ true
unsigned_chars [] h = refl
unsigned_chars (c ∷ s) h = ground arith

-- Whatever parses as a port is made of those.
pub is_u16_chars : (s : Text) → is_u16 s ≡ true → all is_port_char s ≡ true
unfolding parse_u16
is_u16_chars s h = elim (Option-cases (u16_digits (unsigned s))) [
  | inl e ↦ ground arith
  | inr (n, e) ↦ unsigned_chars s (u16_digits_digits (unsigned s) n e)
]
