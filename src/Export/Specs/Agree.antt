-- ===== src/Export/Specs/Agree.antt =====
-- What the older parsers accept, the parser of `--backend` accepts with the same meaning.
use zenoh_bridge_tcp.Prelude.{
  ◌++◌, ◌≡◌, refl, true, false, [], ◌∷◌, some, none, ok, arith, Option-cases, Result-cases, inl,
  inr,
}
use zenoh_bridge_tcp.Text.{Text, has}
use zenoh_bridge_tcp.Text.Split.{split, split_once, split_once-none}
use zenoh_bridge_tcp.Config.{validate_service_name, validate_service_name_iff, has-IsServiceName}
use zenoh_bridge_tcp.Dns.{CaseMap}
use zenoh_bridge_tcp.Spec.{SocketText, tcp, ws, parse_backend, parse_head, is_ws_url}
use zenoh_bridge_tcp.Spec.Backend.{is_ws_url-no_slash, check_host-fits, host_key-fits}
use zenoh_bridge_tcp.Dns.{spec_host_key}
use zenoh_bridge_tcp.Dns.Again.{spec_host_key-empty}
use zenoh_bridge_tcp.Text.Split.{split_once-append, has-append}
use zenoh_bridge_tcp.Export.Specs.{
  two_parts, three_parts, parse_http_export_spec, parse_export_spec, parse_ws_export_spec,
}
use zenoh_bridge_tcp.Export.Specs.Parts.{two_parts-split_once, three_parts-split_once}

pub parse_export_spec_cases :
    (net : SocketText) (s : Text) {service : Text} {addr : net.SocketAddr}
    → parse_export_spec net s ≡ ok (service, addr)
    → (target : Text) × (two_parts (split b'/' s) ≡ some (service, target))
      × (validate_service_name service ≡ ok tt)
      × (net.parse_addr target ≡ some addr)
unfolding parse_export_spec
parse_export_spec_cases net s e = elim (Option-cases (two_parts (split b'/' s))) [
  | inl bad ↦ absurd (ground arith)
  | inr ((service, target), parts) ↦
      let named = Result-cases (validate_service_name service) in
      let found = Option-cases (net.parse_addr target) in
      (
        target,
        ground (arith, named, found),
        ground (arith, named, found),
        ground (arith, named, found),
      )
]

-- A service name has no `@`, so it is read as a head without a host.
plain-head :
    (net : SocketText) (cm : CaseMap) (service : Text)
    → validate_service_name service ≡ ok tt
    → parse_head net cm service (split_once b'@' service) ≡ ok (service, none)
unfolding parse_head
plain-head net cm service named =
    rw
      (split_once-none b'@' service
        (has-IsServiceName service b'@' ((validate_service_name_iff service).0 named).1 refl))
      refl

-- A text that the older TCP export parser accepts is accepted by the backend parser, with the same
-- service, no host, and the same address as its TCP target.
pub parse_export_spec-parse_backend :
    (net : SocketText) (cm : CaseMap) (s service : Text) (addr : net.SocketAddr)
    → parse_export_spec net s ≡ ok (service, addr)
    → parse_backend net cm s ≡ ok (record { service = service; host = none; target = tcp addr })
unfolding parse_backend
parse_export_spec-parse_backend net cm s service addr e =
    let (target, parts, named, found) = parse_export_spec_cases net s e in
    let (cut, clean) = two_parts-split_once b'/' s service target parts in
    rw (cut, plain-head net cm service named, named, is_ws_url-no_slash target clean, found) refl

-- A text that the older WebSocket export parser accepts is accepted by the backend parser, with
-- the same service, no host, and the same URL as its WebSocket target.
pub parse_ws_export_spec-parse_backend :
    (net : SocketText) (cm : CaseMap) (s service url : Text)
    → parse_ws_export_spec s ≡ ok (service, url)
    → parse_backend net cm s ≡ ok (record { service = service; host = none; target = ws url })
unfolding parse_backend parse_ws_export_spec
parse_ws_export_spec-parse_backend net cm s service url e =
    elim (Option-cases (split_once b'/' s)) [
      | inl bad ↦ absurd (ground arith)
      | inr ((a, b), cut) ↦ elim (Result-cases (validate_service_name a)) [
        | inr (why, refused) ↦ absurd (ground arith)
        | inl (unit, named) ↦
            let same : (a ≡ service) × (b ≡ url) = (ground arith, ground arith) in
            let url_ok : is_ws_url b ≡ true = ground arith in
            rw (cut, plain-head net cm a named, named, url_ok, same.0, same.1) refl
      ]
    ]

-- The parts of a text that the HTTP parser accepts.
parse_http_export_spec_cases :
    (net : SocketText) (cm : CaseMap) (s : Text) {service dns : Text} {addr : net.SocketAddr}
    → parse_http_export_spec net cm s ≡ ok (service, dns, addr)
    → (host : Text) × (target : Text) × (three_parts (split b'/' s) ≡ some (service, host, target))
      × (validate_service_name service ≡ ok tt)
      × (spec_host_key cm host ≡ ok dns)
      × (net.parse_addr target ≡ some addr)
unfolding parse_http_export_spec
parse_http_export_spec_cases net cm s e = elim (Option-cases (three_parts (split b'/' s))) [
  | inl bad ↦ absurd (ground arith)
  | inr ((service, host, target), parts) ↦
      let named = Result-cases (validate_service_name service) in
      let minted = Result-cases (spec_host_key cm host) in
      let found = Option-cases (net.parse_addr target) in
      (
        host,
        target,
        ground (arith, named, minted, found),
        ground (arith, named, minted, found),
        ground (arith, named, minted, found),
        ground (arith, named, minted, found),
      )
]

-- A host in front of the slash is read as one.
host-head :
    (net : SocketText) (cm : CaseMap) (service host dns : Text)
    → validate_service_name service ≡ ok tt
    → spec_host_key cm host ≡ ok dns
    → parse_head net cm (service ++ b'@' ∷ host) (split_once b'@' (service ++ b'@' ∷ host))
      ≡ ok (service, some dns)
unfolding parse_head
host-head net cm service [] dns named minted = absurd (spec_host_key-empty cm minted)
host-head net cm service (c ∷ host) dns named minted =
    rw
      (
        split_once-append b'@' service (c ∷ host)
            (has-IsServiceName service b'@' ((validate_service_name_iff service).0 named).1 refl),
        minted,
      )
      refl

-- A text that the older HTTP export parser accepts is a service, a host and a target joined by
-- slashes, and the backend parser accepts the service and the host joined by `@`, with the same
-- service, the same host key, and the same address as its TCP target.
pub parse_http_export_spec-parse_backend :
    (net : SocketText) (cm : CaseMap) (s service dns : Text) (addr : net.SocketAddr)
    → parse_http_export_spec net cm s ≡ ok (service, dns, addr)
    → (host : Text) × (target : Text) × (s ≡ service ++ b'/' ∷ (host ++ b'/' ∷ target))
      × (parse_backend net cm ((service ++ b'@' ∷ host) ++ b'/' ∷ target)
          ≡ ok (record { service = service; host = some dns; target = tcp addr }))
parse_http_export_spec-parse_backend net cm s service dns addr e =
    let (host, target, parts, named, minted, found) = parse_http_export_spec_cases net cm s e in
    let (join, service_clean, host_clean, target_clean) =
      three_parts-split_once b'/' s service host target parts in
    let head_clean : has b'/' (service ++ b'@' ∷ host) ≡ false =
      rw (has-append b'/' service (b'@' ∷ host), service_clean) host_clean in
    (
      host,
      target,
      join,
      unfold parse_backend in
          rw
            (
              split_once-append b'/' (service ++ b'@' ∷ host) target head_clean,
              host-head net cm service host dns named minted,
              named,
              check_host-fits net cm (some dns) (host_key-fits net cm host minted),
              is_ws_url-no_slash target target_clean,
              found,
            )
            refl,
    )
