-- ===== src/Export/Tests.antt =====
-- The clients and the roles of an exporter at concrete runs.
use zenoh_bridge_tcp.Prelude.{ok, ◌≡◌, ◌≢◌, refl, true, false, List, [], ◌∷◌, some, map, arith}
use zenoh_bridge_tcp.Text.{Text, codes}
use zenoh_bridge_tcp.Election.{
  Sample, put, delete, last_segment, Claim, claim_name, establish, insert, elect, is_active,
  drain_pending, padded,
}
use zenoh_bridge_tcp.Export.Clients.{
  Clients, no_clients, lookup, remove_id, dispatch_client_connect, handle_client_disconnect,
  remove_if_current, on_sample, sample, client_step, client_steps,
}
use zenoh_bridge_tcp.Export.Clients.Tracking.{tracks, live, tracks_last, stale_cleanup}
use zenoh_bridge_tcp.Export.Serve.{
  Round, stopped, serve_loop, serve_active, wait_role, run_export_loop, client_sample,
  shutdown_requested,
}
use zenoh_bridge_tcp.Export.Serve.Roles.{idle_untracked}
use zenoh_bridge_tcp.Text.Split.{split, split_once}
use zenoh_bridge_tcp.Config.{validate_service_name}
use zenoh_bridge_tcp.Dns.Tests.{kelvin_map}
use zenoh_bridge_tcp.Spec.{is_ws_url}
use zenoh_bridge_tcp.Spec.Tests.{two_addresses, v4}
use zenoh_bridge_tcp.Prelude.{some}
use zenoh_bridge_tcp.Text.{parse_u16}
use zenoh_bridge_tcp.Dns.{bare_host, check_key, routing_key, spec_host_key, has_explicit_port}
use zenoh_bridge_tcp.Export.Specs.{parse_http_export_spec}
use zenoh_bridge_tcp.Export.Specs.{parse_export_spec, parse_ws_export_spec}

abbrev joins : Sample
joins = record { key = codes "svc/clients/c1"; kind = put }

abbrev leaves : Sample
leaves = record { key = codes "svc/clients/c1"; kind = delete }

tracks_last_example :
    tracks (client_steps no_clients (map sample (joins ∷ joins ∷ leaves ∷ joins ∷ []))) (codes "c1")
    ≡ live (codes "c1") (tracks no_clients (codes "c1")) (joins ∷ joins ∷ leaves ∷ joins ∷ [])
tracks_last_example = tracks_last no_clients (joins ∷ joins ∷ leaves ∷ joins ∷ []) (codes "c1") refl

-- A client that left; its task was the owner of channel 0.
abbrev left : Clients
left = client_steps no_clients (sample joins ∷ sample leaves ∷ [])

left-Gone : lookup (codes "c1") left.tracked ≢ some 0
unfolding client_steps client_step on_sample dispatch_client_connect handle_client_disconnect lookup
    remove_id no_clients last_segment
left-Gone = λ e. cc

stale_cleanup_example :
    remove_if_current (client_steps left (sample joins ∷ [])) (codes "c1") 0
    ≡ (client_steps left (sample joins ∷ []), false)
unfolding client_steps client_step on_sample dispatch_client_connect handle_client_disconnect lookup
    remove_id no_clients last_segment
stale_cleanup_example =
    stale_cleanup left (sample joins ∷ []) (codes "c1") 0 left-Gone (omega arith)

abbrev own : Claim
own = establish 1754800000500 (codes "zid") (codes "uuid")

-- Elected at once, one client, then a shutdown.
abbrev one_round : List Round
one_round =
    record {
      pending = [];
      wait_pending = [];
      waits = [];
      setup_ok = true;
      replies = codes "svc/clients/c0" ∷ [];
      events = client_sample joins ∷ shutdown_requested ∷ [];
    }
    ∷ []

stopped_after : (run_export_loop own no_clients one_round).phase ≡ stopped
unfolding run_export_loop serve_active serve_loop wait_role is_active drain_pending elect establish
    claim_name padded insert
stopped_after = refl

idle_untracked_example : (run_export_loop own no_clients one_round).clients.tracked ≡ []
unfolding run_export_loop serve_active serve_loop wait_role is_active drain_pending elect establish
    claim_name padded insert no_clients
idle_untracked_example = idle_untracked own no_clients one_round refl (λ e. cc)

abbrev tcp_text : Text
tcp_text = codes "db/127.0.0.1:80"

tcp_accepted : parse_export_spec two_addresses tcp_text ≡ ok (codes "db", v4)
unfolding parse_export_spec split validate_service_name
tcp_accepted = refl

abbrev ws_text : Text
ws_text = codes "chat/wss://a.b/@c"

ws_accepted : parse_ws_export_spec ws_text ≡ ok (codes "chat", codes "wss://a.b/@c")
unfolding parse_ws_export_spec split_once validate_service_name is_ws_url
ws_accepted = refl

abbrev http_text : Text
http_text = codes "web/API.local/127.0.0.1:80"

http_accepted :
    parse_http_export_spec two_addresses kelvin_map http_text
    ≡ ok (codes "web", codes "api.local", v4)
unfolding parse_http_export_spec split split_once validate_service_name spec_host_key routing_key
    check_key bare_host has_explicit_port parse_u16
http_accepted = refl
