-- ===== src/Client/Tests.antt =====
-- The properties of the client at concrete configurations and histories.
use dicode_relay.Common.{
  ℕ, ◌*◌, ◌^◌, ◌≤◌, min, String, List, [], ◌∷◌, none, some, true, false, ◌≡◌, ◌⊎◌, arith, All,
}
use dicode_relay.Client.Backoff.{delay, cur_after}
use dicode_relay.Client.Backoff.Bounds.{delay-cur_after}
use dicode_relay.Client.Mailbox.{Input, arrives, breaks, awaits, run}
use dicode_relay.Common.{Bool, replicate, not}
use dicode_relay.Shared.Platform.{Platform}
use dicode_relay.Shared.Certs.{uncompressed_p256_to_spki, uuid_from_p256_point}
use dicode_relay.Relay.State.{Options, ServerMessage, hello, envelope, start}
use dicode_relay.Relay.Connection.{hooks_url, validate_decrypt_pubkey}
use dicode_relay.Relay.Events.{connects, receives, step}
use dicode_relay.Client.Handshake.{greeted, run_handshake}
use dicode_relay.Client.Handshake.Greeting.{received, last_sent, run_handshake-hello}
use dicode_relay.Client.Endpoint.{
  RelayEndpointStatus, Attempt, refused, served, new_connection, run as attempts,
}
use dicode_relay.Common.{get, if◌then◌else◌, ◌==◌, string_eq, refl}
use dicode_relay.Relay.State.{Request}
use dicode_relay.Client.Forwarder.{Host, ForwardCtx}
use dicode_relay.Client.Urls.{resolve_server_urls, resolve_list, check_urls, resolved, mem}
use dicode_relay.Client.Supervisor.{run_client, shown, initial_status, run_client-shown}
use dicode_relay.Client.Aggregate.{aggregate_status}
use dicode_relay.Client.Aggregate.Recency.{IsIn, NotAfter}
use dicode_relay.Client.Aggregate.Laws.{Shows, aggregate_status_cases}

delay-cur_after_example :
    (4 * min (1000 * 2 ^ 3) 60000 ≤ 5 * delay (cur_after 3) 1 4)
    × (5 * delay (cur_after 3) 1 4 ≤ 6 * min (1000 * 2 ^ 3) 60000)
delay-cur_after_example = delay-cur_after 3 1 4 (omega arith)

abbrev inputs : List Input
inputs = awaits 0 ∷ arrives "welcome" ∷ arrives "request" ∷ breaks "closed" ∷ awaits 1 ∷ []

-- A text stands in another: true of all here, as of each text in one that holds it.
abbrev includes : String → String → Bool
includes t part = true

abbrev point : List ℕ
point = 4 ∷ replicate 64 1

abbrev relay_options : Options
relay_options = record {
  base_url = "wss://relay";
  max_pending_per_client = 2;
  max_buffered_bytes = 100;
  broker_pubkey = some "K";
}

abbrev daemon_platform : Platform
daemon_platform = record {
  sha256_hex = λ m. "u1";
  decode_base64 = λ t. point;
  encode_base64 = λ bytes. "";
  is_public_key = λ key. true;
}

run_handshake-hello_example :
    let p = daemon_platform in
    let s = start relay_options in
    let cert = some (some (uncompressed_p256_to_spki point)) in
    let t = step p (step p s (connects 0 cert)) (receives 0 (envelope (hello "key"))) in
    (get "u1" t.clients
      ≡ some (record { ws = 0; uuid = "u1"; pubkey = point; decrypt_pubkey = point }))
    × (m : ServerMessage) × (last_sent 0 t.log ≡ some m)
    × (run_handshake includes "u1" (received m) ≡ greeted (hooks_url s "u1") "K")
unfolding start get uuid_from_p256_point validate_decrypt_pubkey uncompressed_p256_to_spki
run_handshake-hello_example =
    run_handshake-hello daemon_platform includes 0 point "key" (start relay_options) (λ a b c. refl)
      (refl, refl) refl (λ k e. absurd (ground arith))

abbrev history : List (Attempt × ℕ × ℕ)
history =
    (refused "dial timeout" 15000, 1, 2)
    ∷ (served "wss://a/u/u1/hooks/" "key" 1700000000 none 20000, 1, 3)
    ∷ []

abbrev down : RelayEndpointStatus
down = (attempts history (new_connection "wss://a")).status

abbrev up : RelayEndpointStatus
up = record down { connected = true; server_url = "wss://b" }

abbrev endpoints : List RelayEndpointStatus
endpoints = down ∷ up ∷ []

aggregate_status_cases_example :
    let s = aggregate_status endpoints true in
    ((s.connected ≡ true)
      × ((e : RelayEndpointStatus) × IsIn e endpoints × (e.connected ≡ true) × Shows s e none))
    ⊎ ((s.connected ≡ false)
        × All (λ e. e.connected ≡ false) endpoints
        × ((e : RelayEndpointStatus) × IsIn e endpoints
            × All (λ x. NotAfter x.last_connected_at e.last_connected_at) endpoints
            × Shows s e e.last_error))
aggregate_status_cases_example = aggregate_status_cases endpoints true (λ e. ground arith)

abbrev two_urls : List String
two_urls = "wss://a" ∷ "wss://b" ∷ []

abbrev reports : List RelayEndpointStatus
reports =
    record (initial_status "wss://b") { connected = true; last_connected_at = some 7 }
    ∷ record (initial_status "wss://a") { reconnect_attempts = 1; last_error = some "dial timeout" }
    ∷ []

run_client-shown_example : run_client two_urls reports ≡ shown two_urls true initial_status reports
unfolding resolve_server_urls resolve_list check_urls resolved mem initial_status
run_client-shown_example =
    run_client-shown none (some two_urls) two_urls reports refl (refl, (refl, tt))

-- A host whose texts are in lower case but for the header that the client stamps.
abbrev host : Host
host = record {
  decode_uri = λ t. some t;
  normalize = λ t. t;
  to_lower = λ t. if t == "X-Relay-Base" then "x-relay-base" else t;
  decode_base64 = λ t. 1 ∷ 2 ∷ [];
  encode_base64 = λ bytes. "";
  accepts_header = λ k v. not (v == "bad");
  fetch = λ call.
      if call.method == "GET"
      then some (record { status = 200; headers = []; chunks = (1 ∷ []) ∷ []; breaks = true })
      else none;
}

abbrev ctx : ForwardCtx
ctx = record { local_port = 8080; daemon_uuid = "u1" }

abbrev hook : Request
hook = record {
  id = "r1";
  method = "POST";
  path = "/hooks/a?b=1";
  headers = ("cookie", "x" ∷ []) ∷ ("accept", "y" ∷ []) ∷ ("x-relay-base", "z" ∷ []) ∷ [];
  body = "AQI=";
}

-- A request whose response breaks off.
abbrev broken : Request
broken = record hook { id = "r2"; method = "GET" }
