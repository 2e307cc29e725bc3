-- ===== src/Spec/Backend.antt =====
-- Backend specs: what the parser accepts is well formed, and is read back from what is shown.
use zenoh_bridge_tcp.Prelude.{
  ℕ, ◌≡◌, refl, true, false, [], ◌∷◌, ◌++◌, Option, some, none, ok, Option-cases, Result-cases, inl,
  inr, arith, append-nil, append_assoc,
}
use zenoh_bridge_tcp.Text.{Text, codes, has, strip_prefix, starts_with}
use zenoh_bridge_tcp.Text.Split.{
  split_once, split_once-append, split_once-none, has-append, strip_prefix-eq_some,
}
use zenoh_bridge_tcp.Config.{
  IsServiceName, validate_service_name, validate_service_name_iff, has-IsServiceName,
}
use zenoh_bridge_tcp.Dns.{CaseMap, spec_host_key}
use zenoh_bridge_tcp.Dns.Keys.{IsKey, has-IsKey}
use zenoh_bridge_tcp.Dns.Again.{routing_key-IsKey, routing_key_again, routing_key-spec_host_key}
use zenoh_bridge_tcp.Spec.{
  SocketText, BackendSpec, BackendTarget, tcp, ws, parse_backend, parse_head, parse_target,
  check_host, show_backend, show_host, show_target, is_ws_url,
}

has-starts_with : (p s : Text) (c : ℕ) → starts_with p s ≡ true → has c p ≡ true → has c s ≡ true
has-starts_with p s c e h = elim (Option-cases (strip_prefix p s)) [
  | inl missing ↦ absurd (ground arith)
  | inr (r, found) ↦ rw (strip_prefix-eq_some p s r found, has-append c p r, h)
]

-- A text without a slash is no WebSocket URL.
pub is_ws_url-no_slash : (t : Text) → has b'/' t ≡ false → is_ws_url t ≡ false
unfolding is_ws_url
is_ws_url-no_slash t h =
    ground (arith, has-starts_with (codes "ws://") t b'/', has-starts_with (codes "wss://") t b'/')

module _ (net : SocketText) (cm : CaseMap) where
  -- A host that is registered under its own name.
  abbrev pub HostFits : Option Text → Type 0
  HostFits none = Unit {0}
  HostFits (some k) = IsKey k × (spec_host_key cm k ≡ ok k)

  abbrev pub TargetFits : BackendTarget net → Type 0
  TargetFits (tcp addr) = Unit {0}
  TargetFits (ws url) = is_ws_url url ≡ true

  pub record IsValid (s : BackendSpec net) : Type 0 where
    pub service_name : IsServiceName s.service
    pub host_key : HostFits s.host
    pub target_fits : TargetFits s.target

  parse-show_target :
      (t : BackendTarget net) → TargetFits t → parse_target net (show_target net t) ≡ ok t
  parse-show_target (tcp addr) f =
      rw (is_ws_url-no_slash (net.show_addr addr) (net.show_no_slash addr), net.parse-show addr)
  parse-show_target (ws url) f = rw f

  parse-show_head :
      (service : Text) (host : Option Text)
      → IsServiceName service
      → HostFits host
      → parse_head net cm (service ++ show_host host) (split_once b'@' (service ++ show_host host))
        ≡ ok (service, host)
  unfolding parse_head
  parse-show_head service none n f =
      rw (append-nil, split_once-none b'@' service (has-IsServiceName service b'@' n.1 refl))
  parse-show_head service (some k) n f =
      rw (split_once-append b'@' service k (has-IsServiceName service b'@' n.1 refl))
        (ground (arith, f.0.non_empty, f.1))

  head_no_slash :
      (service : Text) (host : Option Text)
      → IsServiceName service
      → HostFits host
      → has b'/' (service ++ show_host host) ≡ false
  head_no_slash service none n f = rw append-nil (has-IsServiceName service b'/' n.1 refl)
  head_no_slash service (some k) n f =
      rw (has-append b'/' service (b'@' ∷ k), has-IsServiceName service b'/' n.1 refl)
        (has-IsKey k b'/' f.0.chars refl)

  pub check_host-fits : (host : Option Text) → HostFits host → check_host host ≡ ok tt
  check_host-fits none f = refl
  check_host-fits (some []) f = absurd (f.0.non_empty refl)
  check_host-fits (some (c ∷ k)) f = refl

  -- A well-formed spec is read back from its text.
  parse-show_valid :
      (s : BackendSpec net) → IsValid s → parse_backend net cm (show_backend net s) ≡ ok s
  unfolding parse_backend show_backend
  parse-show_valid s v = rw (
    ← append_assoc s.service (show_host s.host) (b'/' ∷ show_target net s.target),
    split_once-append b'/' (s.service ++ show_host s.host) (show_target net s.target)
        (head_no_slash s.service s.host v.service_name v.host_key),
    parse-show_head s.service s.host v.service_name v.host_key,
    (validate_service_name_iff s.service).1 v.service_name,
    check_host-fits s.host v.host_key,
    parse-show_target s.target v.target_fits,
  )

  pub host_key-fits : (host : Text) {k : Text} → spec_host_key cm host ≡ ok k → HostFits (some k)
  host_key-fits host e =
      let (routed, _) = routing_key-spec_host_key cm host e in
      (routing_key-IsKey cm host routed, (routing_key_again cm host routed).1)

  parse_head-HostFits :
      (head : Text) (o : Option (Text × Text)) {service : Text} (host : Option Text)
      → parse_head net cm head o ≡ ok (service, host)
      → HostFits host
  unfolding parse_head
  parse_head-HostFits head o none e = tt
  parse_head-HostFits head none (some k) e = absurd (ground arith)
  parse_head-HostFits head (some (s, h)) (some k) e =
      host_key-fits h (ground (arith, Result-cases (spec_host_key cm h)))

  parse_target-fits :
      (t : Text) (target : BackendTarget net) → parse_target net t ≡ ok target → TargetFits target
  parse_target-fits t (tcp addr) e = tt
  parse_target-fits t (ws url) e = ground (arith, Option-cases (net.parse_addr t))

  -- The parts of a text that is accepted.
  parse_backend_cases :
      (text : Text) {s : BackendSpec net}
      → parse_backend net cm text ≡ ok s
      → (head : Text) × (t : Text) × (parse_head net cm head (split_once b'@' head)
          ≡ ok (s.service, s.host))
        × (validate_service_name s.service ≡ ok tt)
        × (parse_target net t ≡ ok s.target)
  unfolding parse_backend
  parse_backend_cases text e = elim (Option-cases (split_once b'/' text)) [
    | inl missing ↦ absurd (ground arith)
    | inr ((head, t), cut) ↦ elim (Result-cases (parse_head net cm head (split_once b'@' head))) [
      | inr (why, refused) ↦ absurd (ground arith)
      | inl ((service, host), read) ↦ elim (Result-cases (parse_target net t)) [
        | inr (why, refused) ↦ absurd (
            ground
              (arith, Result-cases (validate_service_name service), Result-cases (check_host host)))
        | inl (target, found) ↦
            let named = Result-cases (validate_service_name service) in
            let hosted = Result-cases (check_host host) in
            (
              head,
              t,
              ground (arith, named, hosted),
              ground (arith, named, hosted),
              ground (arith, named, hosted),
            )
      ]
    ]
  ]

  -- Whatever backend spec the parser returns has a service name that is a literal key segment, a
  -- host that may stand in a key if it has one, and a WebSocket target exactly where the text
  -- starts as a WebSocket URL does.
  pub parse_backend-IsValid :
      (text : Text) {s : BackendSpec net} → parse_backend net cm text ≡ ok s → IsValid s
  parse_backend-IsValid text {s} e =
      let (head, t, read, named, found) = parse_backend_cases text e in
      record {
        service_name = (validate_service_name_iff s.service).0 named;
        host_key = parse_head-HostFits head (split_once b'@' head) s.host read;
        target_fits = parse_target-fits t s.target found;
      }

  -- A backend spec that the parser returned is returned again, unchanged, when the text that is
  -- displayed for it is parsed.
  pub parse-show_backend :
      (text : Text) {s : BackendSpec net}
      → parse_backend net cm text ≡ ok s
      → parse_backend net cm (show_backend net s) ≡ ok s
  parse-show_backend text {s} e = parse-show_valid s (parse_backend-IsValid text e)
