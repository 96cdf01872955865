-- ===== src/Start/Tests.antt =====
-- The properties of the server's wiring at concrete configurations and a relay with two requests open.
use dicode_relay.Common.{true, [], ◌∷◌, ◌⊎◌, none, some, get, string_eq, ◌≡◌, refl}
use dicode_relay.Shared.Platform.{Platform}
use dicode_relay.Relay.State.{Server, Options, ConnectedClient, start}
use dicode_relay.Relay.Events.{run}
use dicode_relay.Relay.Forwards.Books.{Inv}
use dicode_relay.Relay.Forwards.Invariant.{run-start-Inv}
use dicode_relay.Status.Metrics.{Collector, record_request}
use dicode_relay.Common.{ℕ, List, put, delete, pos, false, ◌++◌, replicate, is_some, count, refl}
use Prim.Native.String.{◌++◌ as join}
use dicode_relay.Shared.Certs.{p256_spki_header, extract_p256_point_from_cert, uuid_from_p256_point}
use dicode_relay.Shared.Samples.{crypto}
use dicode_relay.Relay.State.{
  ServerMessage, connected, sends, issues, request, welcome, hello, envelope,
}
use dicode_relay.Relay.Pending.{ok, forward}
use dicode_relay.Relay.Connection.{handle_connection, on_message, register}
use dicode_relay.Relay.Events.{Event, connects, receives, step}
use dicode_relay.Broker.Auth.{refuses, handle_auth}
use dicode_relay.Broker.E2eMock.{is_e2e_mock_enabled}
use dicode_relay.Config.Interpolation.{object, end}
use dicode_relay.Config.Schema.{
  RelayConfig, lookup, fields_of, section, with_default, as_filled, base_url_of, server_of,
  parse_server, parse_status, parse_relay, parse_broker, parse_config,
}
use dicode_relay.Start.Listeners.{hear, Heard, at_start, hears, records, Heard-run}
use dicode_relay.Start.Wiring.{
  revalidate, relay_options, broker_providers, handle_auth-production, forward-relay_options,
}
use dicode_relay.Start.Forwarding.{fails, forward_to_client, Handled, forward_to_client_cases}

abbrev platform : Platform
platform = record {
  sha256_hex = λ bytes. "u1";
  decode_base64 = λ t. [];
  encode_base64 = λ bytes. "";
  is_public_key = λ key. true;
}

abbrev options : Options
options = record {
  base_url = "wss://relay";
  max_pending_per_client = 2;
  max_buffered_bytes = 100;
  broker_pubkey = none;
}

abbrev metrics : Collector
metrics = record {
  entries = [];
  peak = record {
    rates = record { connected_clients = 0; req_per_sec = 0; req_per_hour = 0; req_per_day = 0 };
    rss_bytes = 0;
    heap_used_bytes = 0;
    cpu_percent = 0;
  };
}

abbrev daemon : ConnectedClient
daemon = record { ws = 0; uuid = "u1"; pubkey = []; decrypt_pubkey = [] }

abbrev server : Server
server = record (start options) { clients = ("u1", daemon) ∷ [] }

server-Inv : Inv server
unfolding start run
server-Inv =
    let v : Inv (start options) = run-start-Inv platform options [] tt in
    record { agrees = v.agrees; capped = v.capped }

forward_to_client_cases_example :
    let r = forward_to_client platform "r1" 5000 "u1" "GET" "/hooks/a" [] [] metrics server in
    ((get "u1" server.clients ≡ none)
      × (r ≡ record {
        reply = fails 502 "daemon not connected";
        metrics = metrics;
        server = server;
      }))
    ⊎ ((c : ConnectedClient) × (get "u1" server.clients ≡ some c)
        × (r.metrics ≡ record_request "u1" 5000 metrics)
        × Handled "r1" "u1" server c r)
forward_to_client_cases_example =
    forward_to_client_cases platform "r1" 5000 "u1" "GET" "/hooks/a" [] [] metrics server server-Inv

handle_auth-production_example :
    handle_auth crypto server
      (broker_providers (is_e2e_mock_enabled (λ t. t) (λ t. t) (some "production") (some "1")) [])
      30
      (some "mock")
      []
      1000
    ≡ refuses 404 "unknown provider: mock"
unfolding get
handle_auth-production_example =
    handle_auth-production (λ t. t) (λ t. t) "production" (some "1") crypto server [] 30 [] 1000
      refl refl

abbrev point : List ℕ
point = 4 ∷ replicate 64 1

abbrev joins : List Event
joins =
    connects 0 (some (some (p256_spki_header ++ point))) ∷ receives 0 (envelope (hello "key")) ∷ []

-- A platform that decodes every key to the point.
abbrev decoding : Platform
decoding = record platform { decode_base64 = λ t. point }

abbrev greeting : ServerMessage
greeting = welcome "wss://relay/u/u1/hooks/" 4 none

-- The metrics after the registration and a request.
abbrev heard_metrics : Collector
heard_metrics =
    record_request "u1" 3000 (hear 1000 (connected "u1") (hear 900 (sends 0 greeting) metrics))

heard_metrics-Heard : Heard (run decoding (start options) joins).log heard_metrics
unfolding start step run handle_connection on_message register extract_p256_point_from_cert
    uuid_from_p256_point get put delete
heard_metrics-Heard =
    records "u1" 3000 (connected "u1" ∷ sends 0 greeting ∷ [])
      (hear 1000 (connected "u1") (hear 900 (sends 0 greeting) metrics))
      (hears 1000 (connected "u1") (sends 0 greeting ∷ []) (hear 900 (sends 0 greeting) metrics)
        (hears 900 (sends 0 greeting) [] metrics (at_start metrics refl)))

Heard-run_example :
    is_some (get "u1" heard_metrics.entries)
    ≡ is_some (get "u1" (run decoding (start options) joins).clients)
Heard-run_example =
    Heard-run decoding options joins heard_metrics "u1" (tt, (tt, tt)) heard_metrics-Heard

-- The configuration of an empty object.
abbrev config : RelayConfig
config = record {
  server = record {
    port = pos 5553;
    multi_instance = false;
    base_url = "http://localhost:5553";
    tls = record { cert_file = ""; key_file = "" };
    mtls = record { port = pos 5554; cert_file = ""; key_file = "" };
  };
  status = record { password = none };
  relay = record {
    timestamp_tolerance_s = pos 30;
    ping_interval_ms = pos 30000;
    pong_timeout_ms = pos 10000;
    request_timeout_ms = pos 30000;
    max_pending_per_client = pos 256;
    max_buffered_bytes = pos 16777216;
    max_body_bytes = pos 5242880;
  };
  broker = record { session_ttl_ms = pos 300000; signing_key_file = ""; providers = [] };
}

abbrev configured : Server
configured = record (start (relay_options config "K")) {
  clients = ("u1", daemon) ∷ [];
  sockets = (0, record { is_open = true; buffered_amount = 0 }) ∷ [];
}

configured-Inv : Inv configured
unfolding start run
configured-Inv =
    let v : Inv (start (relay_options config "K")) =
      run-start-Inv platform (relay_options config "K") [] tt in
    record { agrees = v.agrees; capped = v.capped }

forward-relay_options_example :
    (t : Server) × (forward platform "r1" "u1" "GET" "/hooks/a" [] [] configured ≡ ok t)
    × (get "r1" t.pending ≡ some (record { uuid = "u1" }))
    × (t.log
        ≡ sends daemon.ws (
            request (record {
              id = "r1";
              method = "GET";
              path = "/hooks/a";
              headers = [];
              body = platform.encode_base64 [];
            }))
          ∷ issues "r1"
          ∷ configured.log)
unfolding revalidate parse_config fields_of section lookup parse_server parse_status parse_relay
    parse_broker with_default as_filled base_url_of server_of start get count
forward-relay_options_example =
    forward-relay_options (λ n. "5553") (object end) config "K" platform "r1" "u1" "GET" "/hooks/a"
      [] [] configured daemon refl refl configured-Inv refl refl refl refl
