-- ===== src/Text/Split.antt =====
-- `str::split_once` and `str::split` with a character, and how they act on a text that is put
-- together from parts.
use zenoh_bridge_tcp.Prelude.{
  ℕ, ◌||◌, ◌≡◌, refl, ap, subst, not, true, false, List, [], ◌∷◌, ◌++◌, Option, none, some, inl,
  inr, arith, append-nil, ◌==◌, ==_refl, ==_iff, if◌then◌else◌, Bool-cases, all,
}
use zenoh_bridge_tcp.Text.{Text, has, strip_prefix}

-- One more character in front of the first half.
abbrev pub cons_first : ℕ → Option (Text × Text) → Option (Text × Text)
cons_first x none = none
cons_first x (some (a, b)) = some (x ∷ a, b)

-- `s.split_once(c)`: at the first occurrence.
unfoldable pub split_once : ℕ → Text → Option (Text × Text)
split_once c [] = none
split_once c (x ∷ xs) = if x == c then some ([], xs) else cons_first x (split_once c xs)

-- `s.split(c)`: the first part and the parts behind it; there is at least one.
unfoldable pub split : ℕ → Text → Text × List Text
split c [] = ([], [])
split c (x ∷ xs) = let (p, ps) = split c xs in if x == c then ([], p ∷ ps) else (x ∷ p, ps)

pub split_once-append :
    (c : ℕ) (a b : Text) → has c a ≡ false → split_once c (a ++ c ∷ b) ≡ some (a, b)
unfolding split_once
split_once-append c [] b h = rw ==_refl
split_once-append c (x ∷ a) b h = ground (arith, split_once-append c a b)

pub split_once-none : (c : ℕ) (a : Text) → has c a ≡ false → split_once c a ≡ none
unfolding split_once
split_once-none c [] h = refl
split_once-none c (x ∷ a) h = ground (arith, split_once-none c a)

-- What each outcome says of the text.
abbrev pub Halves : ℕ → Text → Option (Text × Text) → Type 0
Halves c s none = has c s ≡ false
Halves c s (some (a, b)) = (s ≡ a ++ c ∷ b) × (has c a ≡ false)

Halves-cons :
    (c x : ℕ) (s : Text) (o : Option (Text × Text))
    → (x == c) ≡ false
    → Halves c s o
    → Halves c (x ∷ s) (cons_first x o)
Halves-cons c x s none e h = ground arith
Halves-cons c x s (some (a, b)) e h = (ap (◌∷◌ x) h.0, ground arith)

pub split_once-Halves : (c : ℕ) (s : Text) → Halves c s (split_once c s)
unfolding split_once
split_once-Halves c [] = refl
split_once-Halves c (x ∷ s) = elim (Bool-cases (x == c)) [
  | inl e ↦ rw e (ap (λ y. y ∷ s) ((==_iff x c).0 e), refl)
  | inr e ↦ rw e (Halves-cons c x s (split_once c s) e (split_once-Halves c s))
]

pub split_once-eq_some :
    (c : ℕ) (s a b : Text) → split_once c s ≡ some (a, b) → (s ≡ a ++ c ∷ b) × (has c a ≡ false)
split_once-eq_some c s a b e = subst (Halves c s) e (split_once-Halves c s)

pub split_none : (c : ℕ) (a : Text) → has c a ≡ false → split c a ≡ (a, [])
unfolding split
split_none c [] h = refl
split_none c (x ∷ a) h = ground (arith, split_none c a)

pub split-append :
    (c : ℕ) (a b : Text)
    → has c a ≡ false
    → split c (a ++ c ∷ b) ≡ (a, (split c b).0 ∷ (split c b).1)
unfolding split
split-append c [] b h = rw ==_refl
split-append c (x ∷ a) b h = ground (arith, split-append c a b)

-- Parts behind a text, each behind a comma.
unfoldable pub suffix : List Text → Text
suffix [] = []
suffix (o ∷ os) = b',' ∷ (o ++ suffix os)

pub split-suffix :
    (a : Text) (os : List Text)
    → has b',' a ≡ false
    → all (λ o. not (has b',' o)) os ≡ true
    → split b',' (a ++ suffix os) ≡ (a, os)
unfolding suffix
split-suffix a [] h hs = rw append-nil (split_none b',' a h)
split-suffix a (o ∷ os) h hs =
    ground (arith, split-append b',' a (o ++ suffix os) h, split-suffix o os)

-- No part of a split holds the separator.
pub split_clean :
    (c : ℕ) (s : Text)
    → (has c (split c s).0 ≡ false) × (all (λ p. not (has c p)) (split c s).1 ≡ true)
unfolding split
split_clean c [] = (refl, refl)
split_clean c (x ∷ s) = ground (arith, split_clean c s)

pub has-append : (c : ℕ) (a b : Text) → has c (a ++ b) ≡ (has c a || has c b)
has-append c [] b = refl
has-append c (x ∷ a) b = ground (arith, has-append c a b)

-- A character of the second half is one of the text.
pub has-second :
    (c d : ℕ) (s a b : Text) → split_once c s ≡ some (a, b) → has d s ≡ false → has d b ≡ false
has-second c d s a b e h =
    let (cut, _) = split_once-eq_some c s a b e in
    ground (arith, has-append d a (c ∷ b), ap (has d) cut)

-- `strip_prefix` finds what was put in front, and nothing else.
pub strip_prefix-eq_some : (p s r : Text) → strip_prefix p s ≡ some r → s ≡ p ++ r
strip_prefix-eq_some [] s r e = ground arith
strip_prefix-eq_some (x ∷ p) [] r e = cc
strip_prefix-eq_some (x ∷ p) (c ∷ s) r e = ground (arith, strip_prefix-eq_some p s r)

pub strip_prefix-append : (p s : Text) → strip_prefix p (p ++ s) ≡ some s
strip_prefix-append [] s = refl
strip_prefix-append (x ∷ p) s = rw (==_refl x) (strip_prefix-append p s)
