-- ===== src/Spec/Tests.antt =====
-- The specs of the unit tests of src/spec.rs, and the theorems at concrete texts.
use zenoh_bridge_tcp.Prelude.{◌≡◌, refl, false, ok, err, Option, some, none, if◌then◌else◌}
use zenoh_bridge_tcp.Text.{Text, codes, text_eq, has, parse_u16}
use zenoh_bridge_tcp.Text.Split.{split, split_once}
use zenoh_bridge_tcp.Config.{validate_service_name}
use zenoh_bridge_tcp.Dns.{bare_host, check_key, routing_key, spec_host_key, has_explicit_port}
use zenoh_bridge_tcp.Dns.Tests.{kelvin_map}
use zenoh_bridge_tcp.Spec.{
  SocketText, auto, connection, terminate, ListenSpec, parse_listen, show_listen, set_option,
  apply_option, apply_options, BackendSpec, ws, parse_backend, show_backend, raw_request,
  cert_without_key, duplicate_option, is_ws_url,
}
use zenoh_bridge_tcp.Spec.Listen
use zenoh_bridge_tcp.Spec.Backend

-- A network of two addresses.
pub data Address : Type 0 where
  v4 v6 : Address

abbrev pub show_address : Address → Text
show_address v4 = codes "127.0.0.1:80"
show_address v6 = codes "[::1]:8080"

abbrev pub parse_address : Text → Option Address
parse_address t =
    if text_eq t (show_address v4)
    then some v4
    else if text_eq t (show_address v6)
    then some v6
    else none

pub parse-show_address : (a : Address) → parse_address (show_address a) ≡ some a
parse-show_address v4 = refl
parse-show_address v6 = refl

pub address_no_comma : (a : Address) → has b',' (show_address a) ≡ false
address_no_comma v4 = refl
address_no_comma v6 = refl

pub address_no_slash : (a : Address) → has b'/' (show_address a) ≡ false
address_no_slash v4 = refl
address_no_slash v6 = refl

abbrev pub two_addresses : SocketText
two_addresses = record {
  SocketAddr = Address;
  parse_addr = parse_address;
  show_addr = show_address;
  parse-show = parse-show_address;
  show_no_comma = address_no_comma;
  show_no_slash = address_no_slash;
}

abbrev pub listen_text : Text
listen_text = codes "web/[::1]:8080,key=/k=1.pem,cert=/c.pem"

abbrev pub web_listener : ListenSpec two_addresses
web_listener = record {
  service = codes "web";
  addr = v6;
  proto = auto;
  tls = terminate (codes "/c.pem") (codes "/k=1.pem");
  route = connection;
}

pub listen_parsed : parse_listen two_addresses listen_text ≡ ok web_listener
unfolding parse_listen split split_once apply_options apply_option set_option validate_service_name
listen_parsed = refl

listen_refused :
    (parse_listen two_addresses (codes "web/127.0.0.1:80,proto=raw,route=request")
      ≡ err raw_request)
    × (parse_listen two_addresses (codes "web/127.0.0.1:80,cert=/c.pem") ≡ err cert_without_key)
    × (parse_listen two_addresses (codes "web/127.0.0.1:80,key=/a,key=/b")
        ≡ err (duplicate_option (codes "key")))
unfolding parse_listen split split_once apply_options apply_option set_option validate_service_name
listen_refused = (refl, refl, refl)

parse-show_listen_example :
    parse_listen two_addresses (show_listen two_addresses web_listener) ≡ ok web_listener
parse-show_listen_example = Listen.parse-show_listen two_addresses listen_text listen_parsed

abbrev backend_text : Text
backend_text = codes "api@API.local/ws://10.0.0.1:9000/a@b"

abbrev api_backend : BackendSpec two_addresses
api_backend = record {
  service = codes "api";
  host = some (codes "api.local");
  target = ws (codes "ws://10.0.0.1:9000/a@b");
}

backend_parsed : parse_backend two_addresses kelvin_map backend_text ≡ ok api_backend
unfolding parse_backend split_once validate_service_name spec_host_key routing_key check_key
    bare_host has_explicit_port parse_u16 is_ws_url
backend_parsed = refl

parse-show_backend_example :
    parse_backend two_addresses kelvin_map (show_backend two_addresses api_backend) ≡ ok api_backend
parse-show_backend_example =
    Backend.parse-show_backend two_addresses kelvin_map backend_text backend_parsed
