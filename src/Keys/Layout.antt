-- ===== src/Keys/Layout.antt =====
-- Who sees whose keys.
use zenoh_bridge_tcp.Prelude.{
  ◌≡◌, ◌↔◌, refl, sym, ap, ◌∙◌, true, false, [], ◌∷◌, ◌++◌, Option, some, none, arith, append_assoc,
}
use zenoh_bridge_tcp.Text.{Text, codes, has}
use zenoh_bridge_tcp.Text.Split.{split_once, split_once-append}
use zenoh_bridge_tcp.Config.{has-IsServiceName}
use zenoh_bridge_tcp.Dns.Keys.{has-IsKey}
use zenoh_bridge_tcp.Keys.{
  scoped_key, export_key, available_key, clients_prefix, IsChunk, KeyExpr, IsScope, is_plain_key,
  is_plain_from,
}
use zenoh_bridge_tcp.Keys.Plain.{scoped_key-plain, clients-plain}

-- Equal keys have equal first chunks.
pub first_chunk :
    (a b x y : Text)
    → has b'/' a ≡ false
    → has b'/' b ≡ false
    → a ++ (b'/' ∷ x) ≡ b ++ (b'/' ∷ y)
    → (a ≡ b) × (x ≡ y)
first_chunk a b x y ha hb e =
    let cuts =
      sym (split_once-append b'/' a x ha)
      ∙ ap (split_once b'/') e
      ∙ split_once-append b'/' b y hb in
    (cc cuts, cc cuts)

has-slash : (a b : Text) → has b'/' (a ++ (b'/' ∷ b)) ≡ true
has-slash [] b = refl
has-slash (x ∷ a) b = ground (arith, has-slash a b)

-- Both sides spell a connection's keys alike.
pub export-scoped_key :
    (service : Text) (dns : Option Text) (kind client : Text)
    → export_key service dns kind client ≡ scoped_key service dns (kind ++ (b'/' ∷ client))
unfolding export_key scoped_key
export-scoped_key service none kind client = refl
export-scoped_key service (some d) kind client = refl

-- The key of a client, and the text that a pattern's star completes to.
abbrev pub client_key : Text → Option Text → Text → Text
client_key service dns client = scoped_key service dns (codes "clients/" ++ client)

clients_prefix-client_key :
    (service : Text) (dns : Option Text) (c : Text)
    → clients_prefix service dns ++ (b'/' ∷ c) ≡ client_key service dns c
unfolding clients_prefix scoped_key
clients_prefix-client_key service none c = append_assoc service (codes "/clients") (b'/' ∷ c)
clients_prefix-client_key service (some d) c =
    append_assoc service (b'/' ∷ (d ++ codes "/clients")) (b'/' ∷ c)
    ∙ ap (λ t. service ++ (b'/' ∷ t)) (append_assoc d (codes "/clients") (b'/' ∷ c))

abbrev HostClean : Option Text → Type 0
HostClean none = Unit {0}
HostClean (some d) = has b'/' d ≡ false

host_clean : (service : Text) (dns : Option Text) → IsScope service dns → HostClean dns
host_clean service none sc = tt
host_clean service (some d) sc = has-IsKey d b'/' (sc.host_key d refl).chars refl

service_clean :
    (service : Text) (dns : Option Text) → IsScope service dns → has b'/' service ≡ false
service_clean service dns sc = has-IsServiceName service b'/' sc.service_name.1 refl

-- The tails behind the service agree only within one scope.
client_tail : Option Text → Text → Text
client_tail none c = codes "clients/" ++ c
client_tail (some d) c = d ++ (b'/' ∷ (codes "clients/" ++ c))

client_key-tail :
    (service : Text) (dns : Option Text) (c : Text)
    → client_key service dns c ≡ service ++ (b'/' ∷ client_tail dns c)
unfolding scoped_key client_tail
client_key-tail service none c = refl
client_key-tail service (some d) c = refl

client_tail_injective :
    (d d' : Option Text) (c c' : Text)
    → HostClean d
    → HostClean d'
    → has b'/' c ≡ false
    → has b'/' c' ≡ false
    → client_tail d c ≡ client_tail d' c'
    → d ≡ d'
unfolding client_tail
client_tail_injective none none c c' hd hd' hc hc' e = refl
client_tail_injective none (some d') c c' hd hd' hc hc' e =
    let cut = (first_chunk (codes "clients") d' c (codes "clients/" ++ c') refl hd' e).1 in
    absurd (ground (arith, ap (has b'/') cut))
client_tail_injective (some d) none c c' hd hd' hc hc' e =
    let cut = (first_chunk d (codes "clients") (codes "clients/" ++ c) c' hd refl e).1 in
    absurd (ground (arith, ap (has b'/') cut))
client_tail_injective (some d) (some d') c c' hd hd' hc hc' e =
    ap some (first_chunk d d' (codes "clients/" ++ c) (codes "clients/" ++ c') hd hd' e).0

available_tail : Option Text → Text
available_tail none = codes "available"
available_tail (some d) = d ++ (b'/' ∷ codes "available")

available_key-tail :
    (service : Text) (dns : Option Text)
    → available_key service dns ≡ service ++ (b'/' ∷ available_tail dns)
unfolding available_key available_tail
available_key-tail service none = refl
available_key-tail service (some d) = refl

available_tail-client_tail :
    (d d' : Option Text) (c : Text)
    → HostClean d
    → HostClean d'
    → available_tail d ≡ client_tail d' c
    → (d ≡ some (codes "clients")) × (d' ≡ none)
unfolding available_tail client_tail
available_tail-client_tail none none c hd hd' e = absurd (ground arith)
available_tail-client_tail none (some d') c hd hd' e =
    absurd (ground (arith, ap (has b'/') e, has-slash d' (codes "clients/" ++ c)))
available_tail-client_tail (some d) none c hd hd' e =
    (ap some (first_chunk d (codes "clients") (codes "available") c hd refl e).0, refl)
available_tail-client_tail (some d) (some d') c hd hd' e =
    let cut = (first_chunk d d' (codes "available") (codes "clients/" ++ c) hd hd' e).1 in
    absurd (ground (arith, cut))

clients_prefix-plain :
    (service : Text) (dns : Option Text)
    → IsScope service dns
    → is_plain_key (clients_prefix service dns) ≡ true
unfolding clients_prefix scoped_key is_plain_from
clients_prefix-plain service none sc = scoped_key-plain service none (codes "clients") sc refl
clients_prefix-plain service (some d) sc =
    scoped_key-plain service (some d) (codes "clients") sc refl

available_key-plain :
    (service : Text) (dns : Option Text)
    → IsScope service dns
    → is_plain_key (available_key service dns) ≡ true
unfolding available_key scoped_key is_plain_from
available_key-plain service none sc = scoped_key-plain service none (codes "available") sc refl
available_key-plain service (some d) sc =
    scoped_key-plain service (some d) (codes "available") sc refl

module _ (kx : KeyExpr) where
  -- For well-formed scopes and a client id of one plain chunk, with no wildcard and no `@` in
  -- front, an exporter's subscription matches the client's token exactly when the client asks for
  -- the exporter's own service and host.
  pub client_seen_iff :
      (service : Text) (dns : Option Text) (client service' : Text) (dns' : Option Text)
      → IsScope service dns
      → IsScope service' dns'
      → IsChunk client
      → (kx.matches_star (clients_prefix service' dns') (client_key service dns client) ≡ true)
        ↔ ((service ≡ service') × (dns ≡ dns'))
  client_seen_iff service dns client service' dns' sc sc' chunk = (seen, told)
    where
      law :
          (kx.matches_star (clients_prefix service' dns') (client_key service dns client) ≡ true)
          ↔ ((c : Text) × IsChunk c
              × (client_key service dns client ≡ clients_prefix service' dns' ++ (b'/' ∷ c)))
      law =
          kx.matches_star_iff (clients_prefix service' dns') (client_key service dns client)
            (clients_prefix-plain service' dns' sc')
            (scoped_key-plain service dns (codes "clients/" ++ client) sc
              (clients-plain client chunk.0))

      seen :
          kx.matches_star (clients_prefix service' dns') (client_key service dns client) ≡ true
          → (service ≡ service') × (dns ≡ dns')
      seen m =
          let (c, c_chunk, e) = law.0 m in
          let spelled =
            sym (client_key-tail service dns client)
            ∙ e
            ∙ clients_prefix-client_key service' dns' c
            ∙ client_key-tail service' dns' c in
          let (same, tails) =
            first_chunk service service' (client_tail dns client) (client_tail dns' c)
              (service_clean service dns sc) (service_clean service' dns' sc') spelled in
          (
            same,
            client_tail_injective dns dns' client c (host_clean service dns sc)
                (host_clean service' dns' sc') chunk.1 c_chunk.1 tails,
          )

      told :
          (service ≡ service') × (dns ≡ dns')
          → kx.matches_star (clients_prefix service' dns') (client_key service dns client) ≡ true
      told (same_service, same_host) = law.1 (
        client,
        chunk,
        rw (same_service, same_host) (sym (clients_prefix-client_key service' dns' client)),
      )

  -- For well-formed scopes, the availability token of a backend matches an exporter's subscription
  -- to clients exactly when the backend's host is `clients` and the exporter serves the same
  -- service without a host.
  pub available_seen_iff :
      (service : Text) (dns : Option Text) (service' : Text) (dns' : Option Text)
      → IsScope service dns
      → IsScope service' dns'
      → (kx.matches_star (clients_prefix service' dns') (available_key service dns) ≡ true)
        ↔ ((service ≡ service') × (dns ≡ some (codes "clients")) × (dns' ≡ none))
  unfolding available_key scoped_key is_plain_from
  available_seen_iff service dns service' dns' sc sc' = (seen, told)
    where
      law : (kx.matches_star (clients_prefix service' dns') (available_key service dns) ≡ true) ↔ (
          (c : Text) × IsChunk c
          × (available_key service dns ≡ clients_prefix service' dns' ++ (b'/' ∷ c)))
      law =
          kx.matches_star_iff (clients_prefix service' dns') (available_key service dns)
            (clients_prefix-plain service' dns' sc') (available_key-plain service dns sc)

      seen :
          kx.matches_star (clients_prefix service' dns') (available_key service dns) ≡ true
          → (service ≡ service') × (dns ≡ some (codes "clients")) × (dns' ≡ none)
      seen m =
          let (c, c_chunk, e) = law.0 m in
          let spelled =
            sym (available_key-tail service dns)
            ∙ e
            ∙ clients_prefix-client_key service' dns' c
            ∙ client_key-tail service' dns' c in
          let (same, tails) =
            first_chunk service service' (available_tail dns) (client_tail dns' c)
              (service_clean service dns sc) (service_clean service' dns' sc') spelled in
          let (clients, default) =
            available_tail-client_tail dns dns' c (host_clean service dns sc)
              (host_clean service' dns' sc') tails in
          (same, clients, default)

      told :
          (service ≡ service') × (dns ≡ some (codes "clients")) × (dns' ≡ none)
          → kx.matches_star (clients_prefix service' dns') (available_key service dns) ≡ true
      told (same_service, clients, default) = law.1 (
        codes "available",
        (refl, refl),
        rw (same_service, clients, default)
            (sym (clients_prefix-client_key service' none (codes "available"))),
      )
