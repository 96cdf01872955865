-- ===== src/Relay/Events.antt =====
-- relay/server.ts as a state machine: the events that Node's loop delivers one at a time, and the
-- server after a sequence of them.
use dicode_relay.Common.{
  ℕ, String, List, [], ◌∷◌, Option, Bool, true, false, put, ◌≡◌, ◌==◌, ◌||◌, string_eq, nat_eq,
  none, get,
}
use dicode_relay.Shared.Platform.{Platform}
use dicode_relay.Relay.State.{Server, Headers, Incoming, socket, shut}
use dicode_relay.Relay.Pending.{Result, ok, throw, forward, request_timeout, close}
use dicode_relay.Relay.Connection.{
  handle_connection, on_message, on_pong, on_close, on_error, ping_tick, pong_timeout,
}

pub data Event : Type 0 where
  connects : ℕ → Option (Option (List ℕ)) → Event
  receives : ℕ → Incoming → Event
  pongs closed errs ticks : ℕ → Event
  pong_expires : ℕ → ℕ → Event
  forwards : (id uuid method path : String) (headers : Headers) (body : List ℕ) → Event
  expires : String → Event
  drains : ℕ → ℕ → Event
  shuts_down : Event

-- A `forward` that throws leaves the server as it was.
abbrev pub after : Server → Result Server → Server
after s (ok t) = t
after s (throw e) = s

-- A new socket is open and has sent nothing.
abbrev pub accept : ℕ → Server → Server
accept ws s = record s {
  sockets = put ws (record { is_open = true; buffered_amount = 0 }) s.sockets;
}

unfoldable pub step : Platform → Server → Event → Server
step p s (connects ws peer) = handle_connection p ws peer (accept ws s)
step p s (receives ws frame) = on_message p ws frame s
step p s (pongs ws) = on_pong ws s
step p s (closed ws) = on_close ws (shut ws s)
step p s (errs ws) = on_error ws s
step p s (ticks ws) = ping_tick ws s
step p s (pong_expires ws t) = pong_timeout ws t s
step p s (forwards id uuid method path headers body) =
    after s (forward p id uuid method path headers body s)
step p s (expires id) = request_timeout id s
step p s (drains ws n) = record s {
  sockets = put ws (record (socket ws s) { buffered_amount = n }) s.sockets;
}
step p s shuts_down = close s

unfoldable pub run : Platform → Server → List Event → Server
run p s [] = s
run p s (e ∷ es) = run p (step p s e) es

abbrev pub is_armed : String → List String → Bool
is_armed id [] = false
is_armed id (x ∷ xs) = x == id || is_armed id xs

-- What the platform guarantees of the next event: sockets and `uuidv4()` ids are new, and a timeout
-- fires only while its timer is armed.
abbrev pub IsPossible : Server → Event → Type 0
IsPossible s (connects ws peer) = get ws s.conns ≡ none
IsPossible s (forwards id uuid method path headers body) = get id s.pending ≡ none
IsPossible s (expires id) = is_armed id s.timers ≡ true
IsPossible s _ = Unit

abbrev pub ArePossible : Platform → Server → List Event → Type 0
ArePossible p s [] = Unit
ArePossible p s (e ∷ es) = IsPossible s e × ArePossible p (step p s e) es
