-- ===== src/Import/Detect/Routed.antt =====
-- `handle_auto_import_connection` of src/import/auto.rs as a whole.
use zenoh_bridge_tcp.Prelude.{
  ◌≡◌, inl, inr, refl, subst, Bool, true, false, Option, some, none, Result, ok, err, all, if-elim,
}
use zenoh_bridge_tcp.Text.{Text}
use zenoh_bridge_tcp.Import.Http.{RequestHead, routing_key_from_head}
use zenoh_bridge_tcp.Import.Head.Verbatim.{received, is_small, read_until-Replay}
use zenoh_bridge_tcp.Import.Readers.{read_http_head, read_h2_head, read_tls_sni, map_result}
use zenoh_bridge_tcp.Import.Detect.{
  WireProtocol, tls, http1, http2_preface, ssh, raw, PeekEvent, peek, peek_failed, peek_timeout,
  PeekError, Fate, World, after_short_peek, Handler, is_tls, handle_import_connection,
  peek_full_http_head, with_head, handle_auto_http_connection, handle_h2c_connection, by_protocol,
  after_classification, handle_auto_import_connection, classify_loop,
}
use zenoh_bridge_tcp.Import.Detect.Served.{
  SomeAll, map_result-SomeAll, Handed, no_timeout-Handed, IsOpaque, IsServed,
}
use zenoh_bridge_tcp.Import.Detect.Ends.{
  tls_end, http_end, h2c_end, H2Handed, Replay-H2Handed, tls_fate-IsServed, http_fate-IsServed,
  websocket_fate-IsServed, h2c_fate-IsServed,
}

module _ (env : Handler) where
  open env use {
    cm, http, http2, tls_parser, classify_first_bytes, max_header_size, token_alive, service,
  }

  abbrev Routed : World → Fate → Type 0
  Routed w fate =
      IsServed token_alive service (received w.reads) (IsOpaque classify_first_bytes w.first_peeks)
        fate

  tls-Routed :
      (w : World)
      → all is_small w.reads ≡ true
      → SomeAll (Routed w) (
          map_result
            (λ r. tls_end env r w.first)
            (read_tls_sni cm tls_parser max_header_size w.reads))
  unfolding read_tls_sni
  tls-Routed w small =
      let total = received w.reads in
      map_result-SomeAll (Handed (Option Text) total) (Routed w) (λ r. tls_end env r w.first) _
        (λ r h.
          tls_fate-IsServed env total (IsOpaque classify_first_bytes w.first_peeks) w.first r h)
        (no_timeout-Handed max_header_size total _
          (read_until-Replay _ max_header_size _ w.reads small))

  http-Routed :
      (w : World)
      → all is_small w.reads ≡ true
      → SomeAll (Routed w) (
          map_result (λ r. http_end env r w.first) (read_http_head cm http max_header_size w.reads))
  unfolding read_http_head
  http-Routed w small =
      let total = received w.reads in
      map_result-SomeAll (Handed Text total) (Routed w) (λ r. http_end env r w.first) _
        (λ r h.
          http_fate-IsServed env total (IsOpaque classify_first_bytes w.first_peeks) w.first r h)
        (no_timeout-Handed max_header_size total _
          (read_until-Replay _ max_header_size _ w.reads small))

  short_peek-Routed :
      (w : World) (peek : PeekEvent)
      → all is_small w.reads ≡ true
      → SomeAll (Routed w) (after_short_peek env peek w)
  unfolding IsServed
  short_peek-Routed w peek_failed small = tt
  short_peek-Routed w peek_timeout small = tt
  short_peek-Routed w (peek bytes late) small =
      if-elim (SomeAll (Routed w)) (is_tls env (classify_first_bytes bytes)) (tls-Routed w small)
        (http-Routed w small)

  keyed-Routed :
      (w : World)
      → all is_small w.reads ≡ true
      → SomeAll (Routed w) (handle_import_connection env true w)
  unfolding handle_import_connection
  keyed-Routed w small = short_peek-Routed w w.short_peek small

  opaque-Routed :
      (w : World)
      → IsOpaque classify_first_bytes w.first_peeks
      → SomeAll (Routed w) (handle_import_connection env false w)
  unfolding handle_import_connection IsServed
  opaque-Routed w h = h

  with_head-Routed :
      (w : World) (found : Option (Option RequestHead))
      → all is_small w.reads ≡ true
      → SomeAll (Routed w) (with_head env found w)
  with_head-Routed w none small = tt
  with_head-Routed w (some none) small = keyed-Routed w small
  with_head-Routed w (some (some h)) small =
      if-elim (SomeAll (Routed w)) h.is_websocket_upgrade
        (websocket_fate-IsServed env (received w.reads)
          (IsOpaque classify_first_bytes w.first_peeks) w.first w.handshake
          (routing_key_from_head cm h))
        (keyed-Routed w small)

  h2c-Routed :
      (w : World) → all is_small w.reads ≡ true → SomeAll (Routed w) (handle_h2c_connection env w)
  unfolding handle_h2c_connection read_h2_head
  h2c-Routed w small =
      let total = received w.reads in
      map_result-SomeAll (H2Handed env total) (Routed w) (λ r. h2c_end env r w.first) _
        (λ r h.
          h2c_fate-IsServed env total (IsOpaque classify_first_bytes w.first_peeks) w.first r h)
        (Replay-H2Handed env total _ (read_until-Replay _ max_header_size _ w.reads small))

  protocol-Routed :
      (w : World) (p : WireProtocol) (gave_up : Bool)
      → all is_small w.reads ≡ true
      → classify_loop classify_first_bytes w.first_peeks ≡ some (ok (p, gave_up))
      → SomeAll (Routed w) (by_protocol env p w)
  unfolding handle_auto_http_connection
  protocol-Routed w tls g small e = keyed-Routed w small
  protocol-Routed w http1 g small e =
      with_head-Routed w (peek_full_http_head env 0 w.head_peeks) small
  protocol-Routed w http2_preface g small e = h2c-Routed w small
  protocol-Routed w ssh g small e = opaque-Routed w (ssh, g, e, inl refl)
  protocol-Routed w raw g small e = opaque-Routed w (raw, g, e, inr refl)

  classified-Routed :
      (w : World) (found : Option (Result PeekError (WireProtocol × Bool)))
      → all is_small w.reads ≡ true
      → classify_loop classify_first_bytes w.first_peeks ≡ found
      → SomeAll (Routed w) (after_classification env found w)
  unfolding IsServed
  classified-Routed w none small e = tt
  classified-Routed w (some (err cause)) small e = tt
  classified-Routed w (some (ok (p, gave_up))) small e = protocol-Routed w p gave_up small e

  -- Where each read is at most 4096 bytes, whatever a client sends and in whichever order the
  -- probes are done: a connection that is bridged under a host has a live token of that host's
  -- backend, one that is bridged without a host has a live token of the service's default backend
  -- or was classified as SSH or raw, the bytes handed on are the first that were read, and a
  -- connection is dropped for want of a backend only where the default backend has no token.
  pub handle_auto_import_connection-IsServed :
      (w : World) {fate : Fate}
      → all is_small w.reads ≡ true
      → handle_auto_import_connection env w ≡ some fate
      → IsServed token_alive service
          (received w.reads)
          (IsOpaque classify_first_bytes w.first_peeks)
          fate
  unfolding handle_auto_import_connection
  handle_auto_import_connection-IsServed w {fate} small e =
      subst (SomeAll (Routed w)) e
        (classified-Routed w (classify_loop classify_first_bytes w.first_peeks) small refl)
