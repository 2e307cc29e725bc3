-- ===== src/Export/Specs/Parts.antt =====
-- What the parts of a split text are.
use zenoh_bridge_tcp.Prelude.{
  List, ◌++◌, ℕ, ◌⊎◌, subst, ◌≡◌, ap, ◌∙◌, false, [], ◌∷◌, Option, some, none, arith, Option-cases,
  inl, inr,
}
use zenoh_bridge_tcp.Text.{Text, has}
use zenoh_bridge_tcp.Text.Split.{
  split, split_once, split_once-eq_some, split-append, split_once-Halves, Halves, split_none,
}
use zenoh_bridge_tcp.Export.Specs.{two_parts, three_parts}

-- A text with no separator is one part; another one is cut at its first.
split_cases :
    (c : ℕ) (s : Text)
    → ((has c s ≡ false) × (split c s ≡ (s, [])))
      ⊎ ((x : Text) × (y : Text) × (split_once c s ≡ some (x, y))
          × (split c s ≡ (x, (split c y).0 ∷ (split c y).1)))
split_cases c s = elim (Option-cases (split_once c s)) [
  | inl none_there ↦
      let clean : has c s ≡ false = subst (Halves c s) none_there (split_once-Halves c s) in
      inl (clean, split_none c s clean)
  | inr ((x, y), cut) ↦
      let (e, clean) = split_once-eq_some c s x y cut in
      inr (x, y, cut, ap (split c) e ∙ split-append c x y clean)
]

-- A text of two parts is cut once, and there is no other separator.
pub two_parts-split_once :
    (c : ℕ) (s a b : Text)
    → two_parts (split c s) ≡ some (a, b)
    → (split_once c s ≡ some (a, b)) × (has c b ≡ false)
two_parts-split_once c s a b e = elim (split_cases c s) [
  | inl (clean, one) ↦ absurd (ground arith)
  | inr (x, y, cut, parts) ↦ elim (split_cases c y) [
    | inl (clean, one) ↦
        let e' : Path (Option (Text × Text)) (some (x, y)) (some (a, b)) =
          subst (λ z. two_parts z ≡ some (a, b)) (parts ∙ ap (λ z. (x, z.0 ∷ z.1)) one) e in
        (cut ∙ e', ground arith)
    | inr (u, v, cut', more) ↦
        let e' : Path (Option (Text × Text)) none (some (a, b)) =
          subst (λ z. two_parts z ≡ some (a, b)) (parts ∙ ap (λ z. (x, z.0 ∷ z.1)) more) e in
        absurd cc
  ]
]

-- Three parts are a first one and two.
three_parts-two_parts :
    (x : Text) (p : Text × List Text) (a b d : Text)
    → three_parts (x, p.0 ∷ p.1) ≡ some (a, b, d)
    → (x ≡ a) × (two_parts p ≡ some (b, d))
three_parts-two_parts x (p, []) a b d e = absurd cc
three_parts-two_parts x (p, q ∷ []) a b d e = (ground arith, ground arith)
three_parts-two_parts x (p, q ∷ r ∷ rest) a b d e = absurd cc

pub three_parts-split_once :
    (c : ℕ) (s a b d : Text)
    → three_parts (split c s) ≡ some (a, b, d)
    → (s ≡ a ++ c ∷ (b ++ c ∷ d)) × (has c a ≡ false) × (has c b ≡ false) × (has c d ≡ false)
three_parts-split_once c s a b d e = elim (split_cases c s) [
  | inl (clean, one) ↦
      let e' : Path (Option (Text × Text × Text)) none (some (a, b, d)) =
        subst (λ z. three_parts z ≡ some (a, b, d)) one e in
      absurd cc
  | inr (x, y, cut, parts) ↦
      let (same, two) =
        three_parts-two_parts x (split c y) a b d
          (subst (λ z. three_parts z ≡ some (a, b, d)) parts e) in
      let (cut', last_clean) = two_parts-split_once c y b d two in
      let (join', b_clean) = split_once-eq_some c y b d cut' in
      let (join, a_clean) = split_once-eq_some c s x y cut in
      (
        join ∙ ap (λ z. z ++ c ∷ y) same ∙ ap (λ z. a ++ c ∷ z) join',
        subst (λ z. has c z ≡ false) same a_clean,
        b_clean,
        last_clean,
      )
]
