-- ===== src/Election/Order.antt =====
-- The order of texts is a strict linear order.
use zenoh_bridge_tcp.Prelude.{◌≡◌, refl, true, false, [], ◌∷◌, ◌++◌, arith}
use zenoh_bridge_tcp.Text.{Text, text_eq}
use zenoh_bridge_tcp.Election.{text_ltb}

pub text_ltb_irrefl : (a : Text) → text_ltb a a ≡ false
text_ltb_irrefl [] = refl
text_ltb_irrefl (x ∷ a) = ground (arith, text_ltb_irrefl a)

pub text_ltb_trans :
    (a b c : Text) → text_ltb a b ≡ true → text_ltb b c ≡ true → text_ltb a c ≡ true
text_ltb_trans [] [] c h k = cc
text_ltb_trans [] (y ∷ b) [] h k = k
text_ltb_trans [] (y ∷ b) (z ∷ c) h k = refl
text_ltb_trans (x ∷ a) [] c h k = cc
text_ltb_trans (x ∷ a) (y ∷ b) [] h k = cc
text_ltb_trans (x ∷ a) (y ∷ b) (z ∷ c) h k = ground (arith, text_ltb_trans a b c)

-- Two texts that are not in order, either way, are equal.
pub text_ltb_total : (a b : Text) → text_ltb a b ≡ false → text_ltb b a ≡ false → text_eq a b ≡ true
text_ltb_total [] [] h k = refl
text_ltb_total [] (y ∷ b) h k = cc
text_ltb_total (x ∷ a) [] h k = cc
text_ltb_total (x ∷ a) (y ∷ b) h k = ground (arith, text_ltb_total a b)

pub text_ltb_asymm : (a b : Text) → text_ltb a b ≡ true → text_ltb b a ≡ false
text_ltb_asymm [] [] h = refl
text_ltb_asymm [] (y ∷ b) h = refl
text_ltb_asymm (x ∷ a) [] h = cc
text_ltb_asymm (x ∷ a) (y ∷ b) h = ground (arith, text_ltb_asymm a b)

-- A common beginning does not count.
pub text_ltb-append : (p a b : Text) → text_ltb (p ++ a) (p ++ b) ≡ text_ltb a b
text_ltb-append [] a b = refl
text_ltb-append (x ∷ p) a b = ground (arith, text_ltb-append p a b)
