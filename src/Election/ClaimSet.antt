-- ===== src/Election/ClaimSet.antt =====
-- The claim set: strictly ascending whatever is delivered, with the members that a set has.
use zenoh_bridge_tcp.Prelude.{
  ◌≡◌, refl, ap, Bool, true, false, not, ◌&&◌, ◌||◌, List, [], ◌∷◌, arith,
}
use zenoh_bridge_tcp.Text.{Text, text_eq, text_eq_iff}
use zenoh_bridge_tcp.Election.{text_ltb, insert, remove, update, put, delete, SampleKind}
use zenoh_bridge_tcp.Election.Order.{text_ltb_irrefl, text_ltb_trans, text_ltb_total}

abbrev pub contains : Text → List Text → Bool
contains a [] = false
contains a (x ∷ xs) = text_eq a x || contains a xs

abbrev pub Above : Text → List Text → Type 0
Above a [] = Unit {0}
Above a (x ∷ xs) = text_ltb a x ≡ true

-- Each element is below the next.
abbrev pub IsSorted : List Text → Type 0
IsSorted [] = Unit {0}
IsSorted (x ∷ xs) = Above x xs × IsSorted xs

Above-insert :
    (a b : Text) (xs : List Text) → Above a xs → text_ltb a b ≡ true → Above a (insert b xs)
unfolding insert
Above-insert a b [] h k = k
Above-insert a b (x ∷ xs) h k = ground arith

pub insert-IsSorted : (a : Text) (xs : List Text) → IsSorted xs → IsSorted (insert a xs)
unfolding insert
insert-IsSorted a [] s = (tt, tt)
insert-IsSorted a (x ∷ xs) s =
    ground (arith, insert-IsSorted a xs s.1, text_ltb_total a x, Above-insert x a xs s.0)

Above-skip : (a x : Text) (xs : List Text) → text_ltb a x ≡ true → Above x xs → Above a xs
Above-skip a x [] h k = tt
Above-skip a x (y ∷ xs) h k = text_ltb_trans a x y h k

Above-remove : (a b : Text) (xs : List Text) → Above a xs → IsSorted xs → Above a (remove b xs)
unfolding remove
Above-remove a b [] h s = tt
Above-remove a b (x ∷ xs) h s = ground (arith, Above-skip a x xs h s.0)

pub remove-IsSorted : (a : Text) (xs : List Text) → IsSorted xs → IsSorted (remove a xs)
unfolding remove
remove-IsSorted a [] s = tt
remove-IsSorted a (x ∷ xs) s = ground (arith, remove-IsSorted a xs s.1, Above-remove x a xs s.0 s.1)

pub update-IsSorted :
    (k : SampleKind) (a : Text) (xs : List Text) → IsSorted xs → IsSorted (update k a xs)
update-IsSorted put a xs s = insert-IsSorted a xs s
update-IsSorted delete a xs s = remove-IsSorted a xs s

-- What is below all of a sorted list is not in it.
pub contains_below : (a : Text) (xs : List Text) → Above a xs → IsSorted xs → contains a xs ≡ false
contains_below a [] h s = refl
contains_below a (x ∷ xs) h s = ground (
  arith,
  text_eq_iff a x,
  text_ltb_irrefl a,
  ap (text_ltb a),
  contains_below a xs (Above-skip a x xs h s.0) s.1,
)

pub contains-insert :
    (a b : Text) (xs : List Text) → contains b (insert a xs) ≡ (text_eq b a || contains b xs)
unfolding insert
contains-insert a b [] = refl
contains-insert a b (x ∷ xs) =
    ground (arith, contains-insert a b xs, text_eq_iff a x, text_eq_iff b a, text_eq_iff b x)

pub contains-remove :
    (a b : Text) (xs : List Text)
    → IsSorted xs
    → contains b (remove a xs) ≡ (not (text_eq b a) && contains b xs)
unfolding remove
contains-remove a b [] s = ground arith
contains-remove a b (x ∷ xs) s = ground (
  arith,
  contains-remove a b xs s.1,
  text_eq_iff a x,
  text_eq_iff b a,
  text_eq_iff b x,
  contains_below x xs s.0 s.1,
)
