-- ===== src/Keys/Tests.antt =====
-- The key layout at concrete scopes, with star matching written out.
use zenoh_bridge_tcp.Prelude.{
  ◌≡◌, ◌↔◌, refl, Bool, true, false, not, ◌&&◌, [], ◌∷◌, ◌++◌, Option, some, none, arith, inl, inr,
  Option-cases, append_assoc, ◌∙◌, subst,
}
use zenoh_bridge_tcp.Text.{Text, codes, has, strip_prefix}
use zenoh_bridge_tcp.Text.Split.{strip_prefix-eq_some, strip_prefix-append}
use zenoh_bridge_tcp.Dns.Keys.{IsKey}
use zenoh_bridge_tcp.Keys.{is_plain_key, is_plain_from, KeyExpr, IsChunk, IsScope, clients_prefix}
use zenoh_bridge_tcp.Keys.Layout.{client_key, client_seen_iff}

abbrev one_chunk : Option Text → Bool
one_chunk none = false
one_chunk (some c) = is_plain_key c && not (has b'/' c)

abbrev pub star : Text → Text → Bool
star prefix key = one_chunk (strip_prefix (prefix ++ (b'/' ∷ [])) key)

abbrev Found : Text → Text → Type 0
Found prefix key = (chunk : Text) × IsChunk chunk × (key ≡ prefix ++ (b'/' ∷ chunk))

star_sound : (prefix key : Text) → star prefix key ≡ true → Found prefix key
star_sound prefix key h = elim (Option-cases (strip_prefix (prefix ++ (b'/' ∷ [])) key)) [
  | inl missing ↦ absurd (ground arith)
  | inr (c, found) ↦ (
    c,
    (ground arith, ground arith),
    strip_prefix-eq_some (prefix ++ (b'/' ∷ [])) key c found ∙ append_assoc prefix (b'/' ∷ []) c,
  )
]

star_complete : (prefix key : Text) → Found prefix key → star prefix key ≡ true
star_complete prefix key (c, (plain, clean), e) = rw (
  e,
  ← append_assoc prefix (b'/' ∷ []) c,
  strip_prefix-append (prefix ++ (b'/' ∷ [])) c,
  plain,
  clean,
)

pub star_iff :
    (prefix key : Text)
    → is_plain_key prefix ≡ true
    → is_plain_key key ≡ true
    → (star prefix key ≡ true) ↔ Found prefix key
star_iff prefix key p k = (star_sound prefix key, star_complete prefix key)

abbrev pub star_keys : KeyExpr
star_keys = record { matches_star = star; matches_star_iff = star_iff }

local-IsKey : IsKey (codes "api.local")
local-IsKey = record { non_empty = λ e. cc; chars = refl; colons = omega arith }

clients-IsKey : IsKey (codes "clients")
clients-IsKey = record { non_empty = λ e. cc; chars = refl; colons = omega arith }

plain-IsScope : IsScope (codes "svc") none
plain-IsScope = record { service_name = ((λ e. cc), refl); host_key = λ k e. cc }

host-IsScope : (d : Text) → IsKey d → IsScope (codes "svc") (some d)
host-IsScope d h = record { service_name = ((λ e. cc), refl); host_key = λ k e. subst IsKey (cc) h }

client_seen_iff_example :
    star
      (clients_prefix (codes "svc") (some (codes "api.local")))
      (client_key (codes "svc") (some (codes "api.local")) (codes "client_1"))
    ≡ true
unfolding is_plain_from
client_seen_iff_example =
    (client_seen_iff star_keys (codes "svc") (some (codes "api.local")) (codes "client_1")
        (codes "svc") (some (codes "api.local")) (host-IsScope (codes "api.local") local-IsKey)
        (host-IsScope (codes "api.local") local-IsKey) (refl, refl)).1
      (refl, refl)
