-- ===== src/Client/Endpoint/Tests.antt =====
-- The run loop of a connection with an abort signal, at concrete attempts.
use dicode_relay.Common.{ℕ, none, ◌≡◌}
use dicode_relay.Client.Backoff.{delay, round, next_cur}
use dicode_relay.Common.{zero, suc}
use dicode_relay.Client.Endpoint.Abort.{
  Course, undialled, serves, returns, hangs, after_attempt, come_to, serve_until, wakes, ms_of,
  run_until,
}
use dicode_relay.Client.Endpoint.{
  Connection, new_connection, run_once, on_failure, on_end, on_clean, on_welcome, report, back_off,
}
use dicode_relay.Common.{string_eq, refl}

-- A connection that is served for ever after a failed dial.
abbrev courses : ℕ → Course
courses zero = undialled "down" 5
courses (suc i) = serves "wss://a/u/u1/hooks/" "key" 1700000000 20 30 none 10

abbrev random : ℕ → ℕ × ℕ
random i = (i, suc i)

-- The loop returns here: the abort comes while the second attempt serves.
run_until_aborted :
    (d : Connection) × (run_until courses random 11 8000 0 0 (new_connection "wss://a")
      ≡ returns d 8010)
unfolding new_connection run_until after_attempt come_to serve_until wakes ms_of run_once on_failure
    on_end on_clean on_welcome report back_off delay round next_cur
run_until_aborted = (_, refl)

-- And it hangs where the abort comes while the second attempt shakes hands.
run_until_deaf : run_until courses random 11 830 0 0 (new_connection "wss://a") ≡ hangs 1
unfolding new_connection run_until after_attempt come_to serve_until wakes ms_of run_once on_failure
    on_end on_clean on_welcome report back_off delay round next_cur
run_until_deaf = refl
