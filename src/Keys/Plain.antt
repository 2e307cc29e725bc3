-- ===== src/Keys/Plain.antt =====
-- Which keys of the layout are plain.
use zenoh_bridge_tcp.Prelude.{
  ℕ, ◌≡◌, ◌≢◌, ◌==◌, ==_iff, ◌&&◌, Bool-cases, inl, inr, ap, sym, ◌∙◌, refl, Bool, true, false, [],
  ◌∷◌, ◌++◌, Option, some, none, all, arith,
}
use zenoh_bridge_tcp.Text.{Text, codes}
use zenoh_bridge_tcp.Config.{is_name_char}
use zenoh_bridge_tcp.Dns.{is_valid_key_char}
use zenoh_bridge_tcp.Keys.{scoped_key, is_plain_from, is_plain_key, is_plain_char, IsScope}

both_true : (a : Bool) {b : Bool} → (a && b) ≡ true → (a ≡ true) × (b ≡ true)
both_true true h = (refl, h)
both_true false h = absurd cc

plain-join :
    (start : Bool) (a b : Text)
    → is_plain_from start a ≡ true
    → is_plain_key b ≡ true
    → is_plain_from start (a ++ (b'/' ∷ b)) ≡ true
unfolding is_plain_from
plain-join start [] b ha hb = ground arith
plain-join start (c ∷ a) b ha hb = ground (arith, plain-join true a b, plain-join false a b)

-- A character with a property is not one without it.
differs : (p : ℕ → Bool) (c d : ℕ) → p c ≡ true → p d ≡ false → (c == d) ≡ false
differs p c d hc hd = elim (Bool-cases (c == d)) [
  | inl e ↦ absurd (true_false (sym hc ∙ ap p ((==_iff c d).0 e) ∙ hd))
  | inr e ↦ e
]
  where
    true_false : ◌≡◌ {A = Bool} true false → ⊥
    true_false e = cc

-- What is made of characters that no key treats in its own way is plain.
module _ (p : ℕ → Bool) (slash : p b'/' ≡ false) (at_sign : p b'@' ≡ false) (star : p b'*' ≡ false)
    (dollar : p b'$' ≡ false) (question : p b'?' ≡ false) (hash : p b'#' ≡ false) where
  plain_char : (c : ℕ) → p c ≡ true → is_plain_char c ≡ true
  plain_char c h =
      rw
        (
          differs p c b'*' h star,
          differs p c b'$' h dollar,
          differs p c b'?' h question,
          differs p c b'#' h hash,
        )
        refl

  plain_rest : (s : Text) → all p s ≡ true → is_plain_from false s ≡ true
  unfolding is_plain_from
  plain_rest [] h = refl
  plain_rest (c ∷ s) h =
      let (hc, hs) = both_true (p c) h in
      rw (differs p c b'/' hc slash, plain_char c hc) (plain_rest s hs)

  plain_text : (s : Text) → s ≢ [] → all p s ≡ true → is_plain_key s ≡ true
  unfolding is_plain_from
  plain_text [] n h = absurd (n refl)
  plain_text (c ∷ s) n h =
      let (hc, hs) = both_true (p c) h in
      rw (differs p c b'/' hc slash, differs p c b'@' hc at_sign, plain_char c hc) (plain_rest s hs)

service-plain :
    (service : Text) (dns : Option Text) → IsScope service dns → is_plain_key service ≡ true
service-plain service dns sc =
    plain_text is_name_char refl refl refl refl refl refl service sc.service_name.0
      sc.service_name.1

pub scoped_key-plain :
    (service : Text) (dns : Option Text) (tail : Text)
    → IsScope service dns
    → is_plain_key tail ≡ true
    → is_plain_key (scoped_key service dns tail) ≡ true
unfolding scoped_key
scoped_key-plain service none tail sc h =
    plain-join true service tail (service-plain service none sc) h
scoped_key-plain service (some d) tail sc h =
    let key = sc.host_key d refl in
    plain-join true service (d ++ (b'/' ∷ tail)) (service-plain service (some d) sc) (
      plain-join true d tail
        (plain_text is_valid_key_char refl refl refl refl refl refl d key.non_empty key.chars) h)

-- Behind the fixed chunk `clients`.
pub clients-plain : (c : Text) → is_plain_key c ≡ true → is_plain_key (codes "clients/" ++ c) ≡ true
unfolding is_plain_from
clients-plain c h = plain-join true (codes "clients") c refl h
