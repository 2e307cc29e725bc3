-- ===== src/Dns/Again.antt =====
-- Normalizing keeps only part of the host, so a key that was minted is minted again unchanged.
use zenoh_bridge_tcp.Prelude.{
  ℕ, ◌≡◌, ◌≢◌, ap, subst, refl, ◌∙◌, Bool, true, false, [], ◌∷◌, arith, ok, all, Option, some, none,
  not, Option-cases, inl, inr, all-append,
}
use zenoh_bridge_tcp.Text.{Text, is_ascii_upper}
use zenoh_bridge_tcp.Text.Split.{split_once, Halves, split_once-Halves}
use zenoh_bridge_tcp.Dns.{
  CaseMap, bare_host, bracketed, bracket_inner, strip_port, normalize_dns, routing_key,
  spec_host_key, has_explicit_port, check_key, unbracketed_host, port_behind,
}
use zenoh_bridge_tcp.Dns.Keys.{
  IsKey, check_key_lem, check_key_sound, bare_host-IsKey, has_explicit_port-IsKey, map-ascii_lower,
  all-is_ascii,
}

-- What holds of every character of a host holds of every character of its normal form.
module _ (p : ℕ → Bool) where
  all-bracket_inner :
      (rest : Text) (o : Option (Text × Text)) (inner : Text)
      → Halves b']' rest o
      → all p rest ≡ true
      → bracket_inner o ≡ some inner
      → all p inner ≡ true
  unfolding bracket_inner
  all-bracket_inner rest none inner h a e = cc
  all-bracket_inner rest (some (x, y)) inner h a e =
      ground (arith, all-append p x (b']' ∷ y), ap (all p) h.0)

  all-bracketed : (s inner : Text) → all p s ≡ true → bracketed s ≡ some inner → all p inner ≡ true
  unfolding bracketed
  all-bracketed [] inner a e = cc
  all-bracketed (c ∷ s) inner a e =
      ground (arith, all-bracket_inner s (split_once b']' s) inner (split_once-Halves b']' s))

  all-strip_port :
      (s : Text) (o : Option (Text × Text))
      → Halves b':' s o
      → all p s ≡ true
      → all p (strip_port s o) ≡ true
  unfolding strip_port
  all-strip_port s none h a = a
  all-strip_port s (some (x, y)) h a = ground (arith, all-append p x (b':' ∷ y), ap (all p) h.0)

  all-bare_host : (s : Text) → all p s ≡ true → all p (bare_host s) ≡ true
  unfolding bare_host
  all-bare_host s a = elim (Option-cases (bracketed s)) [
    | inl e ↦
        rw (e, bare_host)
          (ground (arith, all-strip_port s (split_once b':' s) (split_once-Halves b':' s)))
    | inr (inner, e) ↦ rw (e, bare_host) (all-bracketed s inner a e)
  ]

module _ (cm : CaseMap) where
  -- Whatever key a host is given is not empty, has key characters only, does not have exactly one
  -- colon, and may stand in a key expression.
  pub routing_key-IsKey : (host : Text) {k : Text} → routing_key cm host ≡ ok k → IsKey k
  unfolding routing_key
  routing_key-IsKey host {k} h = (check_key_sound (normalize_dns cm host) k h).1

  -- A key is its own lower case.
  to_lowercase-key : (host k : Text) → routing_key cm host ≡ ok k → cm.to_lowercase k ≡ k
  unfolding routing_key
  to_lowercase-key host k h =
      let (e, key) = check_key_sound (normalize_dns cm host) k h in
      let no_capital = all-bare_host (λ c. not (is_ascii_upper c)) _ (cm.no_capital host) in
      cm.ascii_map k (all-is_ascii k key.chars)
      ∙ map-ascii_lower k (rw e (unfold normalize_dns in no_capital))

  -- A key that was minted for a host is minted again from itself, by a client and by an operator.
  pub routing_key_again :
      (host : Text) {k : Text}
      → routing_key cm host ≡ ok k
      → (routing_key cm k ≡ ok k) × (spec_host_key cm k ≡ ok k)
  unfolding spec_host_key
  routing_key_again host {k} h = (minted, rw (has_explicit_port-IsKey k key) minted)
    where
      key : IsKey k
      key = routing_key-IsKey host h

      minted : routing_key cm k ≡ ok k
      minted =
          unfold routing_key normalize_dns in
          rw (to_lowercase-key host k h, bare_host-IsKey k key) (check_key_lem k key)

  -- The two branches of `spec_host_key`.
  pub routing_key-spec_host_key :
      (host : Text) {k : Text}
      → spec_host_key cm host ≡ ok k
      → (routing_key cm host ≡ ok k) × (has_explicit_port host ≡ false)
  unfolding spec_host_key
  routing_key-spec_host_key host {k} h = ground arith

  -- No key is made of nothing.
  pub spec_host_key-empty : {k : Text} → spec_host_key cm [] ≢ ok k
  unfolding spec_host_key routing_key normalize_dns has_explicit_port port_behind check_key
      bare_host bracketed unbracketed_host strip_port split_once
  spec_host_key-empty {k} e =
      let e' : check_key (bare_host []) ≡ ok k =
        subst (λ z. check_key (bare_host z) ≡ ok k) (cm.ascii_map [] refl) e in
      absurd cc
