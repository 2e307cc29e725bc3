-- ===== src/Metrics/Labels.antt =====
-- A label value is read back from the quotes that it is written in.
use zenoh_bridge_tcp.Prelude.{
  ℕ, ◌≡◌, ◌∙◌, ap, refl, sym, Bool, true, false, [], ◌∷◌, ◌++◌, Option, some, none, ◌==◌,
  if◌then◌else◌, append_assoc, Bool-cases, ==_iff, inl, inr, subst,
}
use zenoh_bridge_tcp.Text.{Text, codes}
use zenoh_bridge_tcp.Metrics.{replace, escape_label}

abbrev pub unescaped : ℕ → ℕ
unescaped c = if c == b'n' then 0xA else c

abbrev pub prepend : ℕ → Option (Text × Text) → Option (Text × Text)
prepend c none = none
prepend c (some (v, rest)) = some (c ∷ v, rest)

-- A reader of label values, behind the opening quote, as the exposition format defines them: a
-- backslash escapes the next character, a quote ends the value, and a line does not end in it.
unfoldable pub read_label : Bool → Text → Option (Text × Text)
read_label escaped [] = none
read_label true (c ∷ s) = prepend (unescaped c) (read_label false s)
read_label false (c ∷ s) =
    let behind = read_label true s in
    let more = prepend c (read_label false s) in
    if c == b'"'
    then some ([], s)
    else if c == b'\\'
    then behind
    else if c == 0xA
    then none
    else more

replace-append : (c : ℕ) (by a b : Text) → replace c by (a ++ b) ≡ replace c by a ++ replace c by b
unfolding replace
replace-append c by [] b = refl
replace-append c by (x ∷ a) b =
    ap (λ z. (if x == c then by else x ∷ []) ++ z) (replace-append c by a b)
    ∙ sym (append_assoc (if x == c then by else x ∷ []) (replace c by a) (replace c by b))

escape_label-append : (a b : Text) → escape_label (a ++ b) ≡ escape_label a ++ escape_label b
unfolding escape_label
escape_label-append a b =
    let bs = replace b'\\' (codes "\\\\") in
    let qs = replace b'"' (codes "\\\"") in
    let ns = replace 0xA (codes "\\n") in
    ap (λ z. ns (qs z)) (replace-append b'\\' (codes "\\\\") a b)
    ∙ ap ns (replace-append b'"' (codes "\\\"") (bs a) (bs b))
    ∙ replace-append 0xA (codes "\\n") (qs (bs a)) (qs (bs b))

-- One character, escaped, is read as itself.
read_label-char :
    (c : ℕ) (t : Text)
    → read_label false (escape_label (c ∷ []) ++ t) ≡ prepend c (read_label false t)
unfolding escape_label replace read_label
read_label-char c t = elim (Bool-cases (c == b'\\')) [
  | inl e ↦
      subst (λ z. read_label false (escape_label (z ∷ []) ++ t) ≡ prepend z (read_label false t))
        (sym ((==_iff c b'\\').0 e)) refl
  | inr e ↦ elim (Bool-cases (c == b'"')) [
    | inl q ↦
        subst (λ z. read_label false (escape_label (z ∷ []) ++ t) ≡ prepend z (read_label false t))
          (sym ((==_iff c b'"').0 q)) refl
    | inr q ↦ elim (Bool-cases (c == 0xA)) [
      | inl n ↦
          subst
            (λ z. read_label false (escape_label (z ∷ []) ++ t) ≡ prepend z (read_label false t))
            (sym ((==_iff c 0xA).0 n)) refl
      | inr n ↦ rw (e, q, n) (rw (e, q, n) refl)
    ]
  ]
]

-- A reader of label values that stops at the first quote without a backslash in front, and refuses
-- a newline, reads an escaped label value back whole, whatever stands behind the closing quote.
pub read_label-escape_label :
    (v rest : Text) → read_label false (escape_label v ++ b'"' ∷ rest) ≡ some (v, rest)
read_label-escape_label [] rest = unfold escape_label replace read_label in refl
read_label-escape_label (c ∷ v) rest =
    ap (λ z. read_label false (z ++ b'"' ∷ rest)) (escape_label-append (c ∷ []) v)
    ∙ ap (read_label false) (append_assoc (escape_label (c ∷ [])) (escape_label v) (b'"' ∷ rest))
    ∙ read_label-char c (escape_label v ++ b'"' ∷ rest)
    ∙ ap (prepend c) (read_label-escape_label v rest)
