-- ===== src/Client/Endpoint/Abort.antt =====
-- The run loop of client/connection.ts with its abort signal, which is aborted at the time `stop`.
-- Attempt i takes the course `courses i`, and the random number of the sleep after it is that of
-- `random i`. The sleep is a race of the back-off against the abort.
use dicode_relay.Common.{
  ℕ, zero, suc, ◌+◌, ◌-◌, ◌≤◌, ◌<◌, String, Option, none, some, Bool, true, false, leb, ltb, min,
  if◌then◌else◌, ◌≡◌,
}
use dicode_relay.Client.Backoff.{delay, cur_after}
use dicode_relay.Client.Endpoint.{Attempt, refused, served, Connection, run_once, back_off}

-- What becomes of an attempt without the abort. Its dial fails; or the socket is open after `dial_ms` and
-- the handshake fails, at its timeout at the latest; or, `greet_ms` after the open, it has shaken hands and stored the broker's key, and
-- serves. It then serves for ever, or ends clean or in an error after some time. `closing` is the time from
-- `terminate` to the close event.
pub data Course : Type 0 where
  undialled : (err : String) (ms : ℕ) → Course
  ungreeted : (dial_ms : ℕ) (err : String) (ms : ℕ) → Course
  serves :
      (hook_base_url broker_pubkey : String) (at_second dial_ms greet_ms : ℕ)
      (ending : Option (Option String × ℕ)) (closing : ℕ)
      → Course

-- The attempt that a course from `start` comes to, none where `runOnce` does not end. The dial listens for
-- the abort, and so does the serving from its beginning on; the handshake does not, and a listener that is
-- added after the abort is not called.
unfoldable pub serve_until :
    ℕ → ℕ → String → String → ℕ → ℕ → Bool → Option (Option String × ℕ) → ℕ → Option Attempt
serve_until start stop url pubkey second ready true none closing = none
serve_until start stop url pubkey second ready true (some (err, ms)) closing =
    some (served url pubkey second err (ready - start + ms))
serve_until start stop url pubkey second ready false none closing =
    some (served url pubkey second none (stop - start + closing))
serve_until start stop url pubkey second ready false (some (err, ms)) closing =
    if leb (ready + ms) stop
    then some (served url pubkey second err (ready - start + ms))
    else some (served url pubkey second none (stop - start + closing))

unfoldable pub come_to : ℕ → ℕ → Course → Option Attempt
come_to start stop (undialled err ms) =
    if ltb stop (start + ms)
    then some (refused "Error: aborted" (stop - start))
    else some (refused err ms)
come_to start stop (ungreeted dial_ms err ms) =
    if ltb stop (start + dial_ms)
    then some (refused "Error: aborted" (stop - start))
    else some (refused err (dial_ms + ms))
come_to start stop (serves url pubkey second dial_ms greet_ms ending closing) =
    let ready = start + dial_ms + greet_ms in
    if ltb stop (start + dial_ms)
    then some (refused "Error: aborted" (stop - start))
    else serve_until start stop url pubkey second ready (ltb stop ready) ending closing

unfoldable pub ms_of : Attempt → ℕ
ms_of (refused err ms) = ms
ms_of (served url pubkey second err ms) = ms

-- When the loop looks at the signal again: at the end of the attempt where that is after the abort, else
-- at the end of the sleep or at the abort.
unfoldable pub wakes : ℕ → ℕ → ℕ → ℕ
wakes stop clock wait = if leb stop clock then clock else min stop (clock + wait)

-- How the loop ends: it returns at a time, or hangs in attempt i.
pub data Ending : Type 0 where
  returns : Connection → ℕ → Ending
  hangs : (i : ℕ) → Ending
  out_of_fuel : Ending

-- The loop goes on after an attempt that ends.
unfoldable pub after_attempt : ℕ → Option Attempt → (Attempt → Ending) → Ending
after_attempt i none next = hangs i
after_attempt i (some a) next = next a

module _ (courses : ℕ → Course) (random : ℕ → ℕ × ℕ) where
  -- The loop from attempt i at a time.
  unfoldable pub run_until : ℕ → ℕ → ℕ → ℕ → Connection → Ending
  run_until zero stop clock i c = out_of_fuel
  run_until (suc fuel) stop clock i c =
      let rest = after_attempt i (come_to clock stop (courses i)) (λ a.
        let once = run_once a c in
        let p = (random i).0 in
        let q = (random i).1 in
        run_until fuel stop (wakes stop (clock + ms_of a) (delay once.cur p q)) (suc i)
          (back_off p q once)) in
      if leb stop clock then returns c clock else rest

-- A back-off that is one of those after some number of waits.
abbrev pub IsBackoff : ℕ → Type 0
IsBackoff cur = (n : ℕ) × (cur ≡ cur_after n)

-- The abort came after the socket was open and before it was served, and the peer never ends the
-- connection.
abbrev pub IsDeaf : ℕ → ℕ → Course → Type 0
IsDeaf start stop (serves url pubkey second dial_ms greet_ms none closing) =
    (start + dial_ms ≤ stop) × (stop < start + dial_ms + greet_ms)
IsDeaf start stop _ = ⊥
