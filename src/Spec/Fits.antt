-- ===== src/Spec/Fits.antt =====
-- What the options of a listener hold once they were taken.
use zenoh_bridge_tcp.Prelude.{
  ◌≡◌, true, false, not, List, [], ◌∷◌, Option, some, none, ok, bind-eq-ok, Option-cases, inl, inr,
  all, arith,
}
use zenoh_bridge_tcp.Text.{Text, has, is_empty}
use zenoh_bridge_tcp.Text.Split.{split_once, has-second}
use zenoh_bridge_tcp.Spec.{Options, set_option, apply_option, apply_options}

-- A path that an option can carry.
abbrev pub IsOptionValue : Text → Type 0
IsOptionValue v = (is_empty v ≡ false) × (has b',' v ≡ false)

-- The options read so far hold usable paths only.
abbrev pub PathFits : Option Text → Type 0
PathFits none = Unit {0}
PathFits (some v) = IsOptionValue v

abbrev pub OptionsFit : Options → Type 0
OptionsFit o = PathFits o.cert × PathFits o.key

set_option-OptionsFit :
    (o : Options) (name v : Text) {o' : Options}
    → IsOptionValue v
    → OptionsFit o
    → set_option o name v ≡ ok o'
    → OptionsFit o'
unfolding set_option
set_option-OptionsFit o name v fv fo e = ground arith

-- An option that is taken has a name and a value.
apply_option_cases :
    (o : Options) (opt : Text) {o' : Options}
    → apply_option o opt ≡ ok o'
    → (name : Text) × (v : Text) × (split_once b'=' opt ≡ some (name, v))
      × (is_empty v ≡ false)
      × (set_option o name v ≡ ok o')
unfolding apply_option
apply_option_cases o opt e = elim (Option-cases (split_once b'=' opt)) [
  | inl none_found ↦ absurd (ground arith)
  | inr ((name, v), found) ↦ (name, v, found, ground arith, ground arith)
]

apply_option-OptionsFit :
    (o : Options) (opt : Text) {o' : Options}
    → has b',' opt ≡ false
    → OptionsFit o
    → apply_option o opt ≡ ok o'
    → OptionsFit o'
apply_option-OptionsFit o opt c fo e =
    let (name, v, found, full, set) = apply_option_cases o opt e in
    set_option-OptionsFit o name v (full, has-second b'=' b',' opt name v found c) fo set

pub apply_options-OptionsFit :
    (o : Options) (opts : List Text) {o' : Options}
    → all (λ p. not (has b',' p)) opts ≡ true
    → OptionsFit o
    → apply_options o opts ≡ ok o'
    → OptionsFit o'
unfolding apply_options
apply_options-OptionsFit o [] c fo e = ground arith
apply_options-OptionsFit o (opt ∷ opts) c fo e =
    let (o₁, first, rest) = bind-eq-ok (apply_option o opt) (λ o₁. apply_options o₁ opts) e in
    apply_options-OptionsFit o₁ opts (ground arith)
      (apply_option-OptionsFit o opt (ground arith) fo first) rest
