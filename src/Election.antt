-- ===== src/Election.antt =====
-- src/export/election.rs: which of the exporters of one scope is active. The claim set is a
-- `BTreeSet`, here the strictly ascending list of its elements; the liveliness samples that a
-- subscriber delivers are arguments.
pub mod Order
pub mod ClaimSet
pub mod Winner
pub mod Waiting
pub mod Padding
mod Tests
use zenoh_bridge_tcp.Prelude.{
  ℕ, zero, suc, ◌+◌, ◌/◌, ◌%◌, ◌≡◌, Bool, true, false, ◌&&◌, ◌||◌, List, [], ◌∷◌, ◌++◌, Option,
  some, none, ◌==◌, ltb, if◌then◌else◌,
}
use zenoh_bridge_tcp.Text.{Text, codes, text_eq, has}

-- `Ord` of strings.
abbrev pub text_ltb : Text → Text → Bool
text_ltb [] [] = false
text_ltb [] (y ∷ ys) = true
text_ltb (x ∷ xs) [] = false
text_ltb (x ∷ xs) (y ∷ ys) = ltb x y || (x == y && text_ltb xs ys)

-- `BTreeSet::insert`, `remove` and `first`.
unfoldable pub insert : Text → List Text → List Text
insert a [] = a ∷ []
insert a (x ∷ xs) =
    if text_ltb a x then a ∷ x ∷ xs else if text_eq a x then x ∷ xs else x ∷ insert a xs

unfoldable pub remove : Text → List Text → List Text
remove a [] = []
remove a (x ∷ xs) = if text_eq a x then xs else x ∷ remove a xs

abbrev pub first : List Text → Option Text
first [] = none
first (x ∷ xs) = some x

-- `rsplit('/').next()`: what stands behind the last slash.
unfoldable pub last_segment : Text → Text
last_segment [] = []
last_segment (c ∷ cs) = if has b'/' cs then last_segment cs else if c == b'/' then cs else c ∷ cs

pub data SampleKind : Type 0 where
  put delete : SampleKind

pub record Sample : Type 0 where
  pub key : Text
  pub kind : SampleKind

-- This exporter's claim and its view of the scope.
pub record Claim : Type 0 where
  pub own : Text
  pub claims : List Text

-- The digits of a number, none for zero.
unfoldable pub digits : ℕ → ℕ → Text
digits zero n = []
digits (suc fuel) n =
    let front = digits fuel (n / 10) in if n == 0 then [] else front ++ (b'0' + n % 10) ∷ []

-- `{n:0w}`: the digits of `n`, with zeros in front up to the width `w`.
unfoldable pub padded : ℕ → ℕ → Text
unfolding digits
padded zero n = digits n n
padded (suc w) n = padded w (n / 10) ++ (b'0' + n % 10) ∷ []

-- The name of a claim: `{ts:020}-{zid}-{uuid}`.
unfoldable pub claim_name : ℕ → Text → Text → Text
claim_name ts zid uuid = padded 20 ts ++ (b'-' ∷ (zid ++ (b'-' ∷ uuid)))

-- `Claim::establish`: the view starts with the own claim.
unfoldable pub establish : ℕ → Text → Text → Claim
establish ts zid uuid =
    let own = claim_name ts zid uuid in record { own = own; claims = insert own [] }

-- `Claim::apply`.
abbrev pub update : SampleKind → Text → List Text → List Text
update put segment cs = insert segment cs
update delete segment cs = remove segment cs

unfoldable pub apply : Claim → Sample → Claim
apply c s = record c { claims = update s.kind (last_segment s.key) c.claims }

-- `Claim::drain_pending`, on the samples that the channel holds.
unfoldable pub drain_pending : Claim → List Sample → Claim
drain_pending c [] = c
drain_pending c (s ∷ ss) = drain_pending (apply c s) ss

-- `elect`: the smallest claim wins.
abbrev pub is_some_of : Option Text → Text → Bool
is_some_of none own = false
is_some_of (some a) own = text_eq a own

unfoldable pub elect : List Text → Text → Bool
elect claims own = is_some_of (first claims) own

-- `Claim::is_active`, with the samples pending.
unfoldable pub is_active : Claim → List Sample → Claim × Bool
is_active c pending = let c' = drain_pending c pending in (c', elect c'.claims c'.own)

-- `Claim::current_active`: the smallest claim in view, with the samples pending.
unfoldable pub current_active : Claim → List Sample → Claim × Option Text
current_active c pending = let c' = drain_pending c pending in (c', first c'.claims)

pub data WaitOutcome : Type 0 where
  active shutdown : WaitOutcome

-- What ends one turn of a wait: a sample with those that are pending by the next turn, the death of
-- the subscriber, or a shutdown.
pub data WaitEvent : Type 0 where
  received : Sample → List Sample → WaitEvent
  subscriber_died shutdown_requested : WaitEvent

-- `Claim::wait_until_active` behind the first test, over the events of its turns; no outcome while
-- it still waits.
pub wait_turns : Claim → List WaitEvent → Claim × Option WaitOutcome
wait_turns c [] = (c, none)
wait_turns c (subscriber_died ∷ es) = (c, some active)
wait_turns c (shutdown_requested ∷ es) = (c, some shutdown)
wait_turns c (received s pending ∷ es) =
    let (c', now) = is_active (apply c s) pending in
    let rest = wait_turns c' es in if now then (c', some active) else rest

unfoldable pub wait_until_active : Claim → List Sample → List WaitEvent → Claim × Option WaitOutcome
unfolding wait_turns
wait_until_active c pending es =
    let (c', now) = is_active c pending in
    let rest = wait_turns c' es in if now then (c', some active) else rest

-- `Claim::changed_still_active`: a dead claim view falls back to serving.
unfoldable pub changed_still_active : Claim → Option Sample → List Sample → Claim × Bool
changed_still_active c none pending = (c, true)
changed_still_active c (some s) pending = is_active (apply c s) pending
