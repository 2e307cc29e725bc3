-- ===== src/Election/Winner.antt =====
-- One claimant is active, the smallest; who that is depends on the members of the view only.
use zenoh_bridge_tcp.Prelude.{
  ◌≡◌, ◌↔◌, refl, sym, ◌∙◌, subst, true, false, not, List, [], ◌∷◌, some, arith,
}
use zenoh_bridge_tcp.Text.{Text, text_eq, text_eq_iff, text_eq_refl}
use zenoh_bridge_tcp.Election.{
  text_ltb, insert, elect, Claim, Sample, put, apply, last_segment, drain_pending, is_active,
  changed_still_active,
}
use zenoh_bridge_tcp.Election.Order.{text_ltb_irrefl, text_ltb_trans, text_ltb_total}
use zenoh_bridge_tcp.Election.ClaimSet.{contains, IsSorted, update-IsSorted}

eq-not-ltb : (x a : Text) → text_eq x a ≡ true → text_ltb x a ≡ false
eq-not-ltb x a e = rw ((text_eq_iff x a).0 e) (text_ltb_irrefl a)

-- The head of a sorted list is its least member.
head_least :
    (a x : Text) (xs : List Text)
    → IsSorted (a ∷ xs)
    → contains x (a ∷ xs) ≡ true
    → text_ltb x a ≡ false
head_least a x [] s h = ground (arith, eq-not-ltb x a)
head_least a x (y ∷ xs) s h =
    ground (arith, eq-not-ltb x a, head_least y x xs s.1, text_ltb_trans x a y)

-- In a sorted view that holds the own claim, that claim is elected exactly when no claim of the
-- view is smaller.
pub elect_iff :
    (cs : List Text) (own : Text)
    → IsSorted cs
    → contains own cs ≡ true
    → (elect cs own ≡ true) ↔ ((x : Text) → contains x cs ≡ true → text_ltb x own ≡ false)
unfolding elect
elect_iff [] own s h = cc
elect_iff (a ∷ cs) own s h = (
  λ e x hx. subst (λ t. text_ltb x t ≡ false) ((text_eq_iff a own).0 e) (head_least a x cs s hx),
  λ least. text_ltb_total a own (least a (rw (text_eq_refl a))) (head_least a own cs s h),
)

-- Whoever is elected has its claim in the view.
pub contains-elect : (cs : List Text) (own : Text) → elect cs own ≡ true → contains own cs ≡ true
unfolding elect
contains-elect [] own e = cc
contains-elect (a ∷ cs) own e = rw ((text_eq_iff a own).0 e) (ground (arith, text_eq_refl own))

-- Two exporters with sorted views of the same members that are both elected have the same claim.
pub one_active :
    (xs ys : List Text) (a b : Text)
    → IsSorted xs
    → IsSorted ys
    → ((x : Text) → contains x xs ≡ contains x ys)
    → elect xs a ≡ true
    → elect ys b ≡ true
    → a ≡ b
one_active xs ys a b sx sy same ea eb = (text_eq_iff a b).0 (
    text_ltb_total a b
      ((elect_iff ys b sy (contains-elect ys b eb)).0 eb a (sym (same a) ∙ contains-elect xs a ea))
      ((elect_iff xs a sx (contains-elect xs a ea)).0 ea b (same b ∙ contains-elect ys b eb)))

-- And somebody serves: the first claim of a view is elected.
pub someone_active : (a : Text) (cs : List Text) → elect (a ∷ cs) a ≡ true
unfolding elect
someone_active a cs = text_eq_refl a

apply-IsSorted : (c : Claim) (s : Sample) → IsSorted c.claims → IsSorted (apply c s).claims
unfolding apply
apply-IsSorted c s h = update-IsSorted s.kind (last_segment s.key) c.claims h

-- Whatever samples are delivered to a sorted view, it stays a sorted set, and the own claim's name
-- stays.
pub drain-IsSorted :
    (c : Claim) (ss : List Sample)
    → IsSorted c.claims
    → IsSorted (drain_pending c ss).claims × ((drain_pending c ss).own ≡ c.own)
unfolding drain_pending
drain-IsSorted c [] h = (h, refl)
drain-IsSorted c (s ∷ ss) h =
    let (sorted, same) = drain-IsSorted (apply c s) ss (apply-IsSorted c s h) in
    (sorted, same ∙ unfold apply in refl)

elect-insert :
    (cs : List Text) (segment own : Text)
    → elect cs own ≡ true
    → elect (insert segment cs) own ≡ not (text_ltb segment own)
unfolding elect insert
elect-insert [] segment own e = cc
elect-insert (a ∷ cs) segment own e = ground (arith, text_eq_iff a own, eq-not-ltb segment own)

-- An exporter that is elected, and to which the appearance of a claim is delivered, stays active
-- exactly when that claim is not smaller than its own.
pub put_changes :
    (c : Claim) (s : Sample)
    → elect c.claims c.own ≡ true
    → s.kind ≡ put
    → (changed_still_active c (some s) []).1 ≡ not (text_ltb (last_segment s.key) c.own)
unfolding changed_still_active is_active drain_pending apply
put_changes c s e k = rw k (elect-insert c.claims (last_segment s.key) c.own e)
