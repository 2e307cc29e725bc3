-- ===== src/Spec/Listen.antt =====
-- Listener specs: what the parser accepts is well formed, and is read back from what is shown.
use zenoh_bridge_tcp.Prelude.{
  ◌≡◌, refl, true, not, List, [], ◌∷◌, ◌++◌, some, ok, ◌>>=◌, Option-cases, Result-cases, inl, inr,
  all, arith, append-nil, append_assoc,
}
use zenoh_bridge_tcp.Text.{Text, codes, has}
use zenoh_bridge_tcp.Text.Split.{
  split_once, split, split_once-append, split_clean, suffix, split-suffix,
}
use zenoh_bridge_tcp.Config.{
  IsServiceName, validate_service_name, validate_service_name_iff, has-IsServiceName,
}
use zenoh_bridge_tcp.Spec.{
  SocketText, ProtoMode, auto, raw, RouteMode, connection, request, TlsMode, passthrough, terminate,
  Options, no_options, set_option, apply_option, apply_options, check_modes, ListenSpec,
  finish_listen, parse_listen, show_proto, show_tls, show_route, show_listen,
}
use zenoh_bridge_tcp.Spec.Fits.{IsOptionValue, OptionsFit, apply_options-OptionsFit}

abbrev pub TlsFits : TlsMode → Type 0
TlsFits passthrough = Unit {0}
TlsFits (terminate cert key) = IsOptionValue cert × IsOptionValue key

-- What run-time code may rely on: a literal key segment for the service, usable paths, and no
-- contradictory modes.
pub record IsValid (net : SocketText) (s : ListenSpec net) : Type 0 where
  pub service_name : IsServiceName s.service
  pub paths : TlsFits s.tls
  pub modes : check_modes s.proto s.tls s.route ≡ ok tt

-- The options that are shown for a spec, and how they stand behind the address.
options_of : ProtoMode → TlsMode → RouteMode → List Text
options_of raw t r = codes "proto=raw" ∷ []
options_of auto (terminate cert key) r = (codes "cert=" ++ cert) ∷ (codes "key=" ++ key) ∷ []
options_of auto passthrough request = codes "route=request" ∷ []
options_of auto passthrough connection = []

show-options :
    (p : ProtoMode) (t : TlsMode) (r : RouteMode)
    → check_modes p t r ≡ ok tt
    → show_proto p ++ (show_tls t ++ show_route r) ≡ suffix (options_of p t r)
unfolding suffix options_of
show-options auto passthrough connection m = refl
show-options auto passthrough request m = refl
show-options auto (terminate cert key) connection m = simp (append_assoc, append-nil)
show-options auto (terminate cert key) request m = cc
show-options raw passthrough connection m = refl
show-options raw (terminate cert key) connection m = cc
show-options raw t request m = cc

options_clean :
    (p : ProtoMode) (t : TlsMode) (r : RouteMode)
    → TlsFits t
    → all (λ o. not (has b',' o)) (options_of p t r) ≡ true
unfolding options_of
options_clean raw t r f = refl
options_clean auto (terminate cert key) r f = ground arith
options_clean auto passthrough request f = refl
options_clean auto passthrough connection f = refl

-- The options shown are read as the modes that they were shown for.
module _ (net : SocketText) where
  apply-options_of :
      (s : ListenSpec net)
      → IsValid net s
      → (apply_options no_options (options_of s.proto s.tls s.route) >>= λ o.
          finish_listen net s.service s.addr o)
        ≡ ok s
  unfolding options_of apply_options apply_option set_option split_once
  apply-options_of s v = go s.proto s.tls s.route refl refl refl v.paths v.modes
    where
      go :
          (p : ProtoMode) (t : TlsMode) (r : RouteMode)
          → p ≡ s.proto
          → t ≡ s.tls
          → r ≡ s.route
          → TlsFits t
          → check_modes p t r ≡ ok tt
          → (apply_options no_options (options_of p t r) >>= λ o.
              finish_listen net s.service s.addr o)
            ≡ ok s
      go auto passthrough connection ep et er f m = ground arith
      go auto passthrough request ep et er f m = ground arith
      go auto (terminate cert key) connection ep et er f m = ground arith
      go auto (terminate cert key) request ep et er f m = cc
      go raw passthrough connection ep et er f m = ground arith
      go raw (terminate cert key) connection ep et er f m = cc
      go raw t request ep et er f m = cc

  parse-show_rest :
      (s : ListenSpec net)
      → IsValid net s
      → split b','
          (net.show_addr s.addr ++ (show_proto s.proto ++ (show_tls s.tls ++ show_route s.route)))
        ≡ (net.show_addr s.addr, options_of s.proto s.tls s.route)
  parse-show_rest s v = rw (show-options s.proto s.tls s.route v.modes) (
      split-suffix (net.show_addr s.addr) (options_of s.proto s.tls s.route)
        (net.show_no_comma s.addr) (options_clean s.proto s.tls s.route v.paths))

  -- A well-formed spec is read back from its text.
  parse-show_valid :
      (s : ListenSpec net) → IsValid net s → parse_listen net (show_listen net s) ≡ ok s
  unfolding parse_listen show_listen
  parse-show_valid s v =
      rw
        (
          split_once-append b'/' s.service
              (net.show_addr s.addr
                ++ (show_proto s.proto ++ (show_tls s.tls ++ show_route s.route)))
              (has-IsServiceName s.service b'/' v.service_name.1 refl),
          (validate_service_name_iff s.service).1 v.service_name,
          parse-show_rest s v,
          net.parse-show s.addr,
        )
        (apply-options_of s v)

module _ (net : SocketText) where
  finish_listen-IsValid :
      (service : Text) (addr : net.SocketAddr) (o : Options) {s : ListenSpec net}
      → IsServiceName service
      → OptionsFit o
      → finish_listen net service addr o ≡ ok s
      → IsValid net s
  finish_listen-IsValid service addr o {s} n f e = ground arith

  -- The parts of a text that is accepted.
  parse_listen_cases :
      (text : Text) {s : ListenSpec net}
      → parse_listen net text ≡ ok s
      → (service : Text) × (rest : Text) × (addr : net.SocketAddr) × (o : Options) × (split_once
            b'/' text
          ≡ some (service, rest))
        × (validate_service_name service ≡ ok tt)
        × (apply_options no_options (split b',' rest).1 ≡ ok o)
        × (finish_listen net service addr o ≡ ok s)
  unfolding parse_listen
  parse_listen_cases text e = elim (Option-cases (split_once b'/' text)) [
    | inl missing ↦ absurd (ground arith)
    | inr ((service, rest), cut) ↦ elim (Option-cases (net.parse_addr (split b',' rest).0)) [
      | inl bad ↦ absurd (ground (arith, Result-cases (validate_service_name service)))
      | inr (addr, good) ↦ elim (Result-cases (apply_options no_options (split b',' rest).1)) [
        | inr (why, refused) ↦ absurd (ground (arith, Result-cases (validate_service_name service)))
        | inl (o, taken) ↦ (
          service,
          rest,
          addr,
          o,
          cut,
          ground (arith, Result-cases (validate_service_name service)),
          taken,
          ground (arith, Result-cases (validate_service_name service)),
        )
      ]
    ]
  ]

  -- Whatever listen spec the parser returns has a service name that is a literal key segment, no
  -- empty path and no comma in a path, and no contradictory combination of protocol, TLS and
  -- route.
  pub parse_listen-IsValid :
      (text : Text) {s : ListenSpec net} → parse_listen net text ≡ ok s → IsValid net s
  parse_listen-IsValid text e =
      let (service, rest, addr, o, cut, named, taken, done) = parse_listen_cases text e in
      finish_listen-IsValid service addr o ((validate_service_name_iff service).0 named)
        (apply_options-OptionsFit no_options (split b',' rest).1 (split_clean b',' rest).1 (tt, tt)
          taken)
        done

  -- A listen spec that the parser returned is returned again, unchanged, when the text that is
  -- displayed for it is parsed.
  pub parse-show_listen :
      (text : Text) {s : ListenSpec net}
      → parse_listen net text ≡ ok s
      → parse_listen net (show_listen net s) ≡ ok s
  parse-show_listen text {s} e = parse-show_valid net s (parse_listen-IsValid text e)
