-- ===== src/Relay/Tests.antt =====
-- The relay's properties at concrete servers.
use dicode_relay.Common.{
  ℕ, String, List, [], ◌∷◌, ◌++◌, some, true, get, put, delete, ◌≡◌, ◌↔◌, refl, arith, pos,
  ne_of_beq, string_eq, nat_eq, is_some, replicate, ◌+◌, none,
}
use dicode_relay.Shared.Platform.{Platform}
use dicode_relay.Shared.Certs.{
  p256_spki_header, extract_p256_point_from_cert, uncompressed_p256_to_spki, uuid_from_p256_point,
}
use dicode_relay.Shared.Certs.Laws.{IsPoint, extract_p256_point_from_cert_iff}
use dicode_relay.Relay.State.{
  Effect, resolves, Server, Options, Conn, ConnectedClient, Response, start, hello, response,
  envelope,
}
use dicode_relay.Relay.Pending.{issue, forward, request_timeout, close}
use dicode_relay.Relay.Connection.{
  flatten_response, handle_connection, on_message, on_pong, ping_tick, on_close, register,
}
use dicode_relay.Relay.Events.{
  Event, connects, receives, forwards, expires, shuts_down, step, run, ArePossible,
}
use dicode_relay.Relay.Forwards.Books.{Inv}
use dicode_relay.Relay.Forwards.Invariant.{run-start-Inv}
use dicode_relay.Relay.Registry.Handlers.{IsRegistry}
use dicode_relay.Relay.Registry.Identity.{run-start-IsRegistry}
use dicode_relay.Relay.Settling.Ledger.{issued, settled, one}
use dicode_relay.Common.{map, length}
use dicode_relay.Broker.Callback.Answer.{answered, callback_page, mock_answer, callback_page-run}
use dicode_relay.Relay.Settling.Once.{run-start-IsBalanced}
use dicode_relay.Relay.Keepalive.{timers_at, is_in, on_pong-ping_tick_twice}
use dicode_relay.Relay.Admission.{Answers, get-on_close_stale, forward_cases, on_message_any_daemon}

relay : Unit {0}
unfolding start step run forward request_timeout close handle_connection on_message on_pong
    ping_tick on_close register extract_p256_point_from_cert uuid_from_p256_point get put delete
relay = tt

abbrev point : List ℕ
point = 4 ∷ replicate 64 1

abbrev platform : Platform
platform = record {
  sha256_hex = λ bytes. "u1";
  decode_base64 = λ text. point;
  encode_base64 = λ bytes. "";
  is_public_key = λ key. true;
}

abbrev options : Options
options = record {
  base_url = "wss://relay";
  max_pending_per_client = 2;
  max_buffered_bytes = 100;
  broker_pubkey = none;
}

abbrev answer : String → Response
answer id = record { id = id; status = pos 200; headers = []; body = "" }

abbrev joined : List Event
joined =
    connects 0 (some (some (p256_spki_header ++ point))) ∷ receives 0 (envelope (hello "key")) ∷ []

abbrev asked : List Event
asked = forwards "r1" "u1" "GET" "/hooks/a" [] [] ∷ forwards "r2" "u1" "GET" "/hooks/b" [] [] ∷ []

abbrev history : List Event
history =
    joined
    ++ (asked ++ (receives 0 (envelope (response (answer "r1"))) ∷ expires "r2" ∷ shuts_down ∷ []))

history-ArePossible : ArePossible platform (start options) history
unfolding relay
history-ArePossible = (refl, (tt, (refl, (refl, (tt, (refl, (tt, tt)))))))

busy : Server
busy = run platform (start options) (joined ++ asked)

busy-ArePossible : ArePossible platform (start options) (joined ++ asked)
unfolding relay
busy-ArePossible = (refl, (tt, (refl, (refl, tt))))

extract_p256_point_from_cert_iff_example :
    (extract_p256_point_from_cert (some (p256_spki_header ++ point)) ≡ some point)
    ↔ ((p256_spki_header ++ point ≡ uncompressed_p256_to_spki point) × IsPoint point)
extract_p256_point_from_cert_iff_example =
    extract_p256_point_from_cert_iff (p256_spki_header ++ point) point

run-start-Inv_example : Inv (run platform (start options) history)
run-start-Inv_example = run-start-Inv platform options history history-ArePossible

run-start-IsRegistry_example : IsRegistry platform (run platform (start options) history)
run-start-IsRegistry_example = run-start-IsRegistry platform options history history-ArePossible

run-start-IsBalanced_example :
    let s = run platform (start options) history in
    issued "r2" s.log ≡ settled "r2" s.log + one (is_some (get "r2" s.pending))
run-start-IsBalanced_example =
    run-start-IsBalanced platform options history "r2" history-ArePossible

callback_page-run_example :
    let s = run platform (start options) (joined ++ asked) in
    let fired = run platform s (map expires s.timers) in
    ArePossible platform s (map expires s.timers)
    × (length (answered (callback_page "r1") fired.log) ≡ issued "r1" s.log)
    × (length (answered (mock_answer "r1") fired.log) ≡ issued "r1" s.log)
callback_page-run_example =
    callback_page-run platform options (joined ++ asked) "r1" busy-ArePossible

abbrev daemon : ConnectedClient
daemon = record { ws = 0; uuid = "u1"; pubkey = point; decrypt_pubkey = point }

abbrev conn : Conn
conn = record {
  uuid = "u1";
  cert_point = point;
  registered_uuid = some "u1";
  ping_timer = true;
  pong_timer = none;
  live_pongs = [];
}

get-on_close_stale_example : get "u1" (on_close 7 busy).clients ≡ some daemon
unfolding busy relay
get-on_close_stale_example = get-on_close_stale 7 "u1" daemon busy refl (λ e. omega arith)

-- A second daemon beside the first, and a request that is forwarded to the first.
two_daemons : Server
two_daemons =
    let s = run platform (start options) joined in
    record s { conns = put 1 (record conn { uuid = "u2"; registered_uuid = some "u2" }) s.conns }

asked_first : Server
asked_first =
    issue (record { id = "r9"; method = "GET"; path = "/hooks/a"; headers = []; body = "" }) daemon
      "u1" two_daemons

on_message_any_daemon_example :
    let t = on_message platform 1 (envelope (response (answer "r9"))) asked_first in
    (get "r9" t.pending ≡ none)
    × ((rest : List Effect) × (t.log ≡ resolves "r9" (flatten_response (answer "r9")) ∷ rest))
unfolding two_daemons asked_first relay issue
on_message_any_daemon_example =
    on_message_any_daemon platform 1 (record conn { uuid = "u2"; registered_uuid = some "u2" }) "u2"
      "u1" "GET" "/hooks/a" [] [] (answer "r9") two_daemons asked_first refl refl
      (ne_of_beq "u2" "u1" refl) refl refl

on_pong-ping_tick_twice_example :
    is_in 0 (timers_at 0 (on_pong 0 (ping_tick 0 (ping_tick 0 busy)))) ≡ true
unfolding busy relay
on_pong-ping_tick_twice_example = on_pong-ping_tick_twice 0 conn busy refl refl

forward_cases_example :
    Answers "r3" "u1" busy (forward platform "r3" "u1" "GET" "/hooks/c" [] [] busy)
unfolding busy run
forward_cases_example =
    forward_cases platform "r3" "u1" "GET" "/hooks/c" [] [] busy
      (run-start-Inv platform options (joined ++ asked) busy-ArePossible)
