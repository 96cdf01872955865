-- ===== src/Client/Backoff.antt =====
-- client/backoff.ts. `Math.random()` is a fraction p / q, an argument, and the product of the jitter is
-- exact where the source rounds a double.
pub mod Bounds
use dicode_relay.Common.{ℕ, zero, suc, ◌+◌, ◌*◌, ◌/◌, min}

abbrev pub initial_ms : ℕ
initial_ms = 1000

abbrev pub max_ms : ℕ
max_ms = 60000

-- `Math.round` of a fraction that is not negative.
unfoldable pub round : ℕ → ℕ → ℕ
round a b = (2 * a + b) / (2 * b)

-- `next()` at a `cur`: v · (1 + (2 · p / q - 1) · 0.2) is v · (4 · q + 2 · p) over 5 · q.
unfoldable pub delay : ℕ → ℕ → ℕ → ℕ
delay cur p q = round (min (cur * (4 * q + 2 * p)) (72000 * (5 * q))) (5 * q)

unfoldable pub next_cur : ℕ → ℕ
next_cur cur = min (cur * 2) max_ms

-- `cur` after `next` has been called so many times since a reset.
unfoldable pub cur_after : ℕ → ℕ
cur_after zero = initial_ms
cur_after (suc n) = next_cur (cur_after n)
