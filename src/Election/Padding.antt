-- ===== src/Election/Padding.antt =====
-- Zero-padded time stamps order as the numbers do, so the oldest claim wins.
use native.Mathlib.Nat.{pow-suc}
use zenoh_bridge_tcp.Prelude.{
  ℕ, zero, suc, ◌+◌, ◌/◌, ◌%◌, ◌^◌, ◌<◌, ◌≡◌, true, false, List, [], ◌∷◌, ◌++◌, arith, ltb, ltb→lt,
  append_assoc, Bool-cases, inl, inr,
}
use zenoh_bridge_tcp.Text.{Text}
use zenoh_bridge_tcp.Election.{text_ltb, padded, claim_name, elect}
use zenoh_bridge_tcp.Election.Order.{text_ltb-append}
use zenoh_bridge_tcp.Election.ClaimSet.{contains, IsSorted}
use zenoh_bridge_tcp.Election.Winner.{elect_iff, contains-elect}

front_bound : (w n : ℕ) → n < 10 ^ suc w → n / 10 < 10 ^ w
front_bound w n b = omega (arith, pow-suc 10 w)

padded-ltb :
    (w m n : ℕ) (x y : Text)
    → m < n
    → n < 10 ^ w
    → text_ltb (padded w m ++ x) (padded w n ++ y) ≡ true
unfolding padded
padded-ltb zero m n x y h b = absurd (omega arith)
padded-ltb (suc w) m n x y h b = elim (Bool-cases (ltb (m / 10) (n / 10))) [
  | inl below ↦
      rw
        (
          append_assoc (padded w (m / 10)) ((b'0' + m % 10) ∷ []) x,
          append_assoc (padded w (n / 10)) ((b'0' + n % 10) ∷ []) y,
        )
        (padded-ltb w (m / 10) (n / 10) ((b'0' + m % 10) ∷ x) ((b'0' + n % 10) ∷ y)
          (ltb→lt _ _ below) (front_bound w n b))
  | inr same ↦
      let front : m / 10 ≡ n / 10 = ground arith in
      let last : m % 10 < n % 10 = omega arith in
      rw
        (
          append_assoc (padded w (m / 10)) ((b'0' + m % 10) ∷ []) x,
          append_assoc (padded w (n / 10)) ((b'0' + n % 10) ∷ []) y,
          front,
          text_ltb-append (padded w (n / 10)) ((b'0' + m % 10) ∷ x) ((b'0' + n % 10) ∷ y),
        )
        (ground arith)
]

-- Of two claim names whose time stamps differ and are below 10^20, the one of the earlier stamp is
-- the smaller, whoever made them.
pub claim_name-ltb :
    (t u : ℕ) (zid zid' uuid uuid' : Text)
    → t < u
    → u < 10 ^ 20
    → text_ltb (claim_name t zid uuid) (claim_name u zid' uuid') ≡ true
unfolding claim_name
claim_name-ltb t u zid zid' uuid uuid' h b = padded-ltb 20 t u _ _ h b

-- Where a sorted view holds a claim of an earlier time stamp, a claim of a later one, below 10^20,
-- is not elected.
pub oldest_wins :
    (cs : List Text) (t u : ℕ) (zid zid' uuid uuid' : Text)
    → IsSorted cs
    → contains (claim_name t zid uuid) cs ≡ true
    → t < u
    → u < 10 ^ 20
    → elect cs (claim_name u zid' uuid') ≡ false
oldest_wins cs t u zid zid' uuid uuid' s h lt b =
    elim (Bool-cases (elect cs (claim_name u zid' uuid'))) [
      | inl e ↦
          let least = (elect_iff cs _ s (contains-elect cs _ e)).0 e (claim_name t zid uuid) h in
          absurd (ground (arith, claim_name-ltb t u zid zid' uuid uuid' lt b))
      | inr e ↦ e
    ]
