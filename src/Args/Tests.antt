-- ===== src/Args/Tests.antt =====
-- Command lines of the unit tests of src/args.rs, and the theorem at one of them.
use zenoh_bridge_tcp.Prelude.{◌≡◌, refl, List, [], ◌∷◌, none, ok, err, true, false}
use zenoh_bridge_tcp.Text.{Text, codes, parse_u16}
use zenoh_bridge_tcp.Text.Split.{split, split_once}
use zenoh_bridge_tcp.Config.{validate_service_name, parse_reliability}
use zenoh_bridge_tcp.Dns.{bare_host, check_key, routing_key, spec_host_key, has_explicit_port}
use zenoh_bridge_tcp.Dns.Tests.{kelvin_map}
use zenoh_bridge_tcp.Spec.{
  parse_listen, set_option, apply_option, apply_options, parse_backend, is_ws_url,
}
use zenoh_bridge_tcp.Spec.Tests.{two_addresses}
use zenoh_bridge_tcp.Logging.{
  parse_log_target, read_options, read_option, finish_target, finish_file, file_options,
  file_option, rotation_value, parse_format, parse_color,
}
use zenoh_bridge_tcp.Args.{
  Args, validate, listen_specs, backend_specs, parse_all, check_scopes, check_tls, check_bounds,
  check_log, log_options, sinks, duplicate_scope, no_specs, no_tls_feature, no_read_timeout,
}
use zenoh_bridge_tcp.Args.Validated

-- `Args::default` of the unit tests, with these specs.
abbrev args_with : List Text → List Text → Args two_addresses
args_with listen backend = record {
  listen = listen;
  backend = backend;
  zenoh_config = none;
  zenoh_mode = codes "peer";
  zenoh_connect = none;
  zenoh_listen = none;
  buffer_size = 65536;
  read_timeout = 10;
  drain_timeout = 5;
  reliability = codes "stream";
  max_connections = 1024;
  cache_size = 256;
  max_header_size = 16384;
  heartbeat_interval_ms = 500;
  availability_timeout_ms = 1000;
  max_response_size = 10485760;
  rx_channel_capacity = 256;
  metrics_addr = none;
  log_level = codes "info";
  log_format = codes "pretty";
  log_target = codes "stderr" ∷ codes "file=/b.log,rotation=daily" ∷ [];
  log_color = codes "auto";
}

abbrev edge_args : Args two_addresses
edge_args =
    args_with (codes "web/127.0.0.1:80,cert=/c,key=/k" ∷ [])
      (codes "api/127.0.0.1:80" ∷ codes "api@h/[::1]:8080" ∷ [])

edge_validated : validate two_addresses kelvin_map true edge_args ≡ ok tt
unfolding validate listen_specs backend_specs parse_all check_scopes check_tls check_bounds
    check_log log_options sinks parse_listen split split_once apply_options apply_option set_option
    validate_service_name parse_backend is_ws_url spec_host_key routing_key check_key bare_host
    has_explicit_port parse_u16 parse_log_target read_options read_option finish_target finish_file
    file_options file_option rotation_value parse_format parse_color parse_reliability
edge_validated = refl

refused :
    (validate two_addresses kelvin_map false edge_args ≡ err no_tls_feature)
    × (validate two_addresses kelvin_map true (args_with [] []) ≡ err no_specs)
    × (validate two_addresses kelvin_map true
          (args_with [] (codes "a/127.0.0.1:80" ∷ codes "a/[::1]:8080" ∷ []))
        ≡ err (duplicate_scope (codes "a") none))
    × (validate two_addresses kelvin_map true (record edge_args { read_timeout = 0 })
        ≡ err no_read_timeout)
unfolding validate listen_specs backend_specs parse_all check_scopes check_tls check_bounds
    check_log log_options sinks parse_listen split split_once apply_options apply_option set_option
    validate_service_name parse_backend is_ws_url spec_host_key routing_key check_key bare_host
    has_explicit_port parse_u16 parse_log_target read_options read_option finish_target finish_file
    file_options file_option rotation_value parse_format parse_color parse_reliability
refused = (refl, refl, refl, refl)

validate-IsValidated_example : Validated.IsValidated two_addresses kelvin_map true edge_args
validate-IsValidated_example =
    Validated.validate-IsValidated two_addresses kelvin_map true edge_args edge_validated
