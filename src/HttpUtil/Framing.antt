-- ===== src/HttpUtil/Framing.antt =====
-- What a client that frames responses by their length finds.
use zenoh_bridge_tcp.Prelude.{
  ℕ, zero, suc, ◌+◌, ◌-◌, ◌*◌, ◌/◌, ◌%◌, ◌≤◌, ◌≡◌, ◌∙◌, ap, refl, sym, Bool, true, false, [], ◌∷◌,
  ◌++◌, Option, some, none, arith, ◌==◌, if◌then◌else◌, append_assoc, length, Bool-cases, ==_iff,
  ◌<◌, inl, inr,
}
use zenoh_bridge_tcp.Text.{Text, codes, has, strip_prefix, is_ascii_digit}
use zenoh_bridge_tcp.Text.Split.{has-append}
use zenoh_bridge_tcp.Election.{digits}
use zenoh_bridge_tcp.HttpUtil.{
  show_len, with_body, head_400, head_502, head_504, http_400_response, http_504_response,
  http_502_body, connection_header,
}

-- The value of the digits in front of the first other character, and what stands from there.
unfoldable pub read_number : ℕ → Text → ℕ × Text
read_number acc [] = (acc, [])
read_number acc (c ∷ cs) =
    let more = read_number (acc * 10 + (c - b'0')) cs in
    if is_ascii_digit c then more else (acc, c ∷ cs)

last_digit :
    (q r n : ℕ) (t : Text)
    → r < 10
    → q * 10 + r ≡ n
    → read_number q ((b'0' + r) ∷ t) ≡ read_number n t
unfolding read_number
last_digit q r n t b e =
    let digit : is_ascii_digit (b'0' + r) ≡ true = ground arith in
    rw digit (ap (λ z. read_number z t) (omega arith))

read_number-digits :
    (fuel n : ℕ) (t : Text) → n ≤ fuel → read_number 0 (digits fuel n ++ t) ≡ read_number n t
unfolding digits
read_number-digits zero n t h = ap (λ z. read_number z t) (omega arith)
read_number-digits (suc fuel) n t h = elim (Bool-cases (n == 0)) [
  | inl e ↦ rw e (ap (λ z. read_number z t) (sym ((==_iff n 0).0 e)))
  | inr e ↦ rw e (
      ap (read_number 0) (append_assoc (digits fuel (n / 10)) ((b'0' + n % 10) ∷ []) t)
      ∙ read_number-digits fuel (n / 10) ((b'0' + n % 10) ∷ t) (ground arith)
      ∙ last_digit (n / 10) (n % 10) n t (omega arith) (omega arith))
]

-- A length is read back.
read_number-show_len : (n : ℕ) (t : Text) → read_number 0 (show_len n ++ t) ≡ read_number n t
unfolding show_len
read_number-show_len n t = elim (Bool-cases (n == 0)) [
  | inl e ↦ rw e (unfold read_number in ap (λ z. read_number z t) (sym ((==_iff n 0).0 e)))
  | inr e ↦ rw e (read_number-digits n n t (omega arith))
]

has-digits : (fuel n : ℕ) → has 0xD (digits fuel n) ≡ false
unfolding digits
has-digits zero n = refl
has-digits (suc fuel) n =
    ground (
      arith,
      has-append 0xD (digits fuel (n / 10)) ((b'0' + n % 10) ∷ []),
      has-digits fuel (n / 10),
    )

has-show_len : (n : ℕ) → has 0xD (show_len n) ≡ false
unfolding show_len
has-show_len n = ground (arith, has-digits n n)

-- What stands behind the first occurrence of a text.
unfoldable pub behind : Text → Text → Option Text
behind p [] = none
behind p (c ∷ s) =
    let later = behind p s in elim (strip_prefix p (c ∷ s)) [ none ↦ later | some rest ↦ some rest ]

abbrev pub blank_line : Text
blank_line = codes "\r\n\r\n"

-- A text without a carriage return is passed over.
behind-clean : (p a t : Text) → has 0xD a ≡ false → behind (0xD ∷ p) (a ++ t) ≡ behind (0xD ∷ p) t
unfolding behind
behind-clean p [] t h = refl
behind-clean p (c ∷ a) t h =
    let other : 0xD == c ≡ false = ground arith in
    let clean : has 0xD a ≡ false = ground arith in ground (arith, behind-clean p a t clean)

abbrev pub length_field : Text
length_field = codes "\r\nContent-Length: "

-- A client that looks for the length and for the blank line finds the body, and its length.
pub Framed : Text → Text → Type 0
Framed response body =
    (more : Text) × (behind length_field response ≡ some more)
    × ((read_number 0 more).0 ≡ length body)
    × (behind blank_line response ≡ some body)

with_body-Framed :
    (front connection body : Text)
    → ((t : Text) → behind length_field (front ++ t) ≡ some t)
    → ((t : Text) → behind blank_line (front ++ t) ≡ behind blank_line t)
    → ((t : Text)
        → behind blank_line (codes "\r\n" ++ (connection ++ (codes "\r\n" ++ t))) ≡ some t)
    → Framed (with_body front connection body) body
unfolding Framed
with_body-Framed front connection body field over ends =
    let rest = codes "\r\n" ++ (connection ++ (codes "\r\n" ++ body)) in
    let n = length body in
    (
      show_len n ++ rest,
      field (show_len n ++ rest),
      ap (λ z. z.0) (read_number-show_len n rest) ∙ unfold read_number in refl,
      over (show_len n ++ rest)
          ∙ behind-clean (codes "\n\r\n") (show_len n) rest (has-show_len n)
          ∙ ends body,
    )

connection-ends :
    (close : Bool) (t : Text)
    → behind blank_line (codes "\r\n" ++ (connection_header close ++ (codes "\r\n" ++ t))) ≡ some t
unfolding behind
connection-ends true t = refl
connection-ends false t = refl

-- For every host and either connection header, a client that reads the first Content-Length field
-- and the first blank line of a 502 response finds the body behind the blank line, with the length
-- that was announced.
pub http_502_body-Framed :
    (dns : Text) (close : Bool)
    → Framed (http_502_body dns close) (codes "502 Bad Gateway: No backend available for " ++ dns)
unfolding http_502_body behind
http_502_body-Framed dns close =
    with_body-Framed head_502 (connection_header close)
      (codes "502 Bad Gateway: No backend available for " ++ dns) (λ t. refl) (λ t. refl)
      (connection-ends close)

-- The 400 response, for every reason.
pub http_400_response-Framed :
    (reason : Text) → Framed (http_400_response reason) (codes "400 Bad Request: " ++ reason)
unfolding http_400_response behind
http_400_response-Framed reason =
    with_body-Framed head_400 (connection_header true) (codes "400 Bad Request: " ++ reason)
      (λ t. refl) (λ t. refl) (connection-ends true)

-- The 504 response.
pub http_504_response-Framed : Framed http_504_response (codes "504 Gateway Timeout")
unfolding http_504_response behind
http_504_response-Framed =
    with_body-Framed head_504 (connection_header true) (codes "504 Gateway Timeout") (λ t. refl)
      (λ t. refl) (connection-ends true)
