-- ===== src/Lib.antt =====
-- zenoh-bridge-tcp carries TCP connections over a Zenoh bus. An importing bridge listens on ports
-- (`--listen`), reads the head of each connection to find the host that it is for, and relays its
-- bytes under keys of the service and the host; an exporting bridge (`--backend`) watches the clients
-- of its service, dials its backend for each, and relays between the two.
--
-- The parts, and the files that model them:
-- - Prelude, Text: Booleans, lists and results shared by all; texts as lists of code points, with the
--   splitting and the number parsing of the Rust standard library.
-- - Config: src/config.rs. The configuration record with its defaults, and `validate_service_name`.
-- - Dns: src/dns.rs. From a host to a routing key: `normalize_dns`, `routing_key` for what a client
--   sends, `spec_host_key` for what an operator registers. The lower case of a letter beyond ASCII is a
--   parameter (CaseMap).
-- - Spec: src/spec.rs. `ListenSpec` and `BackendSpec`: `from_str` is `parse_listen` and `parse_backend`,
--   and `Display` is `show_listen` and `show_backend`. Parsing and printing a socket address are
--   parameters (SocketText).
-- - Logging: src/logging.rs. `LogTarget`, with `from_str` as `parse_log_target` and `Display` as
--   `show_log_target`, the other options of the log, and the default filter.
-- - Args: src/args.rs. `Args::validate`, `log_options` and `bridge_config`; whether the build has TLS
--   termination is an argument. Validated says what holds behind it.
-- - Keys: the keys that src/import/bridge.rs, src/export/bridge.rs and src/export/election.rs declare
--   and subscribe to. Matching a star is a
--   parameter (KeyExpr), for plain keys: those without wildcards and without chunks that begin with `@`
--   (Plain).
-- - Election: src/export/election.rs. One exporter of each scope is active: the one of the smallest
--   claim in view. The claim set, a `BTreeSet`, is the ascending list of its members; the samples that
--   the liveliness subscriber delivers are arguments.
-- - Backpressure: src/backpressure.rs. The callback of a subscriber and the bounded channel behind it.
-- - Export: src/export. Specs has the older spec parsers of mod.rs, Clients the map from clients to
--   their tasks, Task the life of one of these, Serve the role loop `run_export_loop` with
--   `serve_active`, Relay the two directions of `handle_client_bridge`, and Outcome how their ends are
--   folded.
-- - Import: src/import. The dispatch of a listener (mod.rs), the accept loop and its drain (Accept, for
--   accept.rs and mod.rs), and the two directions of `bridge_import_connection` (Relay, for bridge.rs).
--   From connection.rs: the parsers of flowscope as parameters with the loop that pushes bytes into them
--   (Parser), what they report (Http), the readers of a head (Readers, and Head for the shell that they
--   share), and the choice of a backend (Route). Detect has what becomes of a new connection: auto.rs,
--   and `handle_import_connection` of connection.rs. From multiroute.rs: the two directions of one
--   exchange (Exchange), the reading of the next request and the dropping of a body (Requests), and the
--   turns of a connection that routes each request (KeepAlive).
-- - Tunnel: the two relays on either side of the bus. That the bus delivers a prefix of what is
--   published, in order, is a hypothesis.
-- - Metrics: src/metrics.rs. Counters, the guard of a connection, the escaping of labels, and the reader
--   of the endpoint (Endpoint).
-- - HttpUtil: src/http_util.rs. The responses that the bridge writes itself.
--
-- How the parts interact: Spec uses Config and Dns for the names and hosts in a spec; Import and Export
-- take parsed specs; Keys has what one side declares and the other one sees; Serve is driven by
-- Election and drives Clients; Relay has Backpressure's channel and the token that it trips.
--
-- Concurrency is interleaving: a task, a callback or a timer is an event, and a run is a list of events
-- in any order. A select that may take either of two ready branches is thereby both orders. An event
-- that is not enabled, like a step of a task that has ended, changes nothing. A loop over events is
-- recursion on their list, so a run that has not ended yet has no outcome (`none`), never a wrong one.
-- The fuel of the other loops is a number that the code itself bounds: the digits of a number have the
-- number; `push_loop` has the length of the bytes, each round of which consumes one at least; the loops
-- that drain a parser have the events that it holds (`queued`), each round of which takes one; and
-- `settle` has the length of the leftover.
--
-- Counters wrap at 2^64 as the atomics do. Log lines, spans and the text of error messages are left
-- out; an error keeps its cause. Not modelled: the Zenoh session, tokio, rustls and flowscope's
-- parsers, which are libraries; the splice after a switch of protocols, the reading of a certificate,
-- transport and helpers of Zenoh, the layers behind a log sink, the rest of the endpoint of the
-- metrics and the start-up, which have no definition in this library.
pub mod Prelude
pub mod Text
pub mod Config
pub mod Dns
pub mod Spec
pub mod Logging
pub mod Args
pub mod Keys
pub mod Election
pub mod Backpressure
pub mod HttpUtil
pub mod Metrics
pub mod Export
pub mod Import
pub mod Tunnel
