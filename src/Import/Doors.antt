-- ===== src/Import/Doors.antt =====
-- Every spec that was parsed has a runner, and is understood by it.
use zenoh_bridge_tcp.Prelude.{◌≡◌, refl, true, some, ok}
use zenoh_bridge_tcp.Text.{Text}
use zenoh_bridge_tcp.Text.Split.{split-append, split_none}
use zenoh_bridge_tcp.Config.{validate_service_name_iff, has-IsServiceName}
use zenoh_bridge_tcp.Spec.{
  SocketText, ListenSpec, ProtoMode, auto, raw, TlsMode, passthrough, terminate, RouteMode,
  connection, request, check_modes, parse_listen,
}
use zenoh_bridge_tcp.Spec.Listen
use zenoh_bridge_tcp.Import.{
  Door, tunnel, auto_detect, per_request, terminated, dispatch, mode_spec, parse_import_spec,
}

-- Modes that do not contradict each other have a door.
dispatch-check_modes :
    (p : ProtoMode) (t : TlsMode) (r : RouteMode)
    → check_modes p t r ≡ ok tt
    → (d : Door) × (dispatch true p t r ≡ some d)
dispatch-check_modes raw passthrough connection h = (tunnel, refl)
dispatch-check_modes raw (terminate cert key) connection h = cc
dispatch-check_modes raw t request h = cc
dispatch-check_modes auto passthrough connection h = (auto_detect, refl)
dispatch-check_modes auto passthrough request h = (per_request, refl)
dispatch-check_modes auto (terminate cert key) connection h = (terminated cert key, refl)
dispatch-check_modes auto (terminate cert key) request h = cc

module _ (net : SocketText) where
  -- In a build with TLS termination, every listen spec that the parser returned is dispatched to a
  -- runner, and the text handed to that runner is parsed to the spec's own service and address.
  pub parse_listen-dispatch :
      (text : Text) (s : ListenSpec net)
      → parse_listen net text ≡ ok s
      → ((d : Door) × (dispatch true s.proto s.tls s.route ≡ some d))
        × (parse_import_spec net (mode_spec net s) ≡ ok (s.service, s.addr))
  unfolding parse_import_spec mode_spec
  parse_listen-dispatch text s e =
      let v = Listen.parse_listen-IsValid net text e in
      (
        dispatch-check_modes s.proto s.tls s.route v.modes,
        rw
            (
              split-append b'/' s.service (net.show_addr s.addr)
                  (has-IsServiceName s.service b'/' v.service_name.1 refl),
              split_none b'/' (net.show_addr s.addr) (net.show_no_slash s.addr),
              (validate_service_name_iff s.service).1 v.service_name,
              net.parse-show s.addr,
            )
            refl,
      )
