-- ===== src/Client/Endpoint.antt =====
-- `Connection` of client/connection.ts: the status of one broker URL and the back-off, over the attempts
-- of its run loop. An attempt is what `runOnce` does: it throws before it is connected, or it connects
-- at a second of the clock, serves, and ends in a close or in an error. `ms` is the duration of the
-- attempt, and the random number of the back-off is p / q.
pub mod History
pub mod Abort
pub mod Frames
pub mod Sockets
mod Tests
use dicode_relay.Common.{
  ℕ, String, List, [], ◌∷◌, ◌++◌, ◌+◌, Option, none, some, Bool, true, false, leb, if◌then◌else◌,
}
use dicode_relay.Client.Backoff.{initial_ms, next_cur, delay}

abbrev pub stable_ms : ℕ
stable_ms = 10000

pub record RelayEndpointStatus : Type 0 where
  pub server_url : String
  pub connected : Bool
  pub hook_base_url : Option String
  pub broker_pubkey : Option String
  pub reconnect_attempts : ℕ
  pub last_error : Option String
  pub last_connected_at : Option ℕ

pub data Attempt : Type 0 where
  refused : (err : String) (ms : ℕ) → Attempt
  served :
      (hook_base_url broker_pubkey : String) (at_second : ℕ) (err : Option String) (ms : ℕ)
      → Attempt

-- `reports` are the snapshots given to `onStatus`, and `waits` the sleeps.
pub record Connection : Type 0 where
  pub status : RelayEndpointStatus
  pub cur : ℕ
  pub reports : List RelayEndpointStatus
  pub waits : List ℕ

unfoldable pub new_connection : String → Connection
new_connection url = record {
  status = record {
    server_url = url;
    connected = false;
    hook_base_url = none;
    broker_pubkey = none;
    reconnect_attempts = 0;
    last_error = none;
    last_connected_at = none;
  };
  cur = initial_ms;
  reports = [];
  waits = [];
}

unfoldable pub report : Connection → Connection
report c = record c { reports = c.reports ++ (c.status ∷ []) }

-- The end of the handshake in `runOnce`.
unfoldable pub on_welcome : String → String → ℕ → Connection → Connection
on_welcome url pubkey second c = report (record c {
  status = record c.status {
    connected = true;
    hook_base_url = some url;
    broker_pubkey = some pubkey;
    last_error = none;
    last_connected_at = some second;
  };
})

unfoldable pub on_clean : ℕ → Connection → Connection
on_clean ms c = report (record c {
  status = record c.status { connected = false };
  cur = if leb stable_ms ms then initial_ms else c.cur;
})

unfoldable pub on_failure : String → Connection → Connection
on_failure err c = report (record c {
  status = record c.status {
    connected = false;
    last_error = some err;
    reconnect_attempts = c.status.reconnect_attempts + 1;
  };
})

unfoldable pub on_end : Option String → ℕ → Connection → Connection
on_end none ms c = on_clean ms c
on_end (some err) ms c = on_failure err c

unfoldable pub run_once : Attempt → Connection → Connection
run_once (refused err ms) c = on_failure err c
run_once (served url pubkey second err ms) c = on_end err ms (on_welcome url pubkey second c)

-- `bo.next()` and the sleep.
unfoldable pub back_off : ℕ → ℕ → Connection → Connection
back_off p q c = record c { cur = next_cur c.cur; waits = c.waits ++ (delay c.cur p q ∷ []) }

-- The run loop over the attempts, each with the random number of the sleep after it.
unfoldable pub run : List (Attempt × ℕ × ℕ) → Connection → Connection
run [] c = c
run ((a, p, q) ∷ rest) c = run rest (back_off p q (run_once a c))
