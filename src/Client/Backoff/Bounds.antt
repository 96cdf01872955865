-- ===== src/Client/Backoff/Bounds.antt =====
-- How long the client waits.
use dicode_relay.Common.{ℕ, zero, suc, ◌+◌, ◌*◌, ◌^◌, ◌≤◌, ◌<◌, min, ◌≡◌, refl, arith}
use native.Mathlib.Nat.{le-div_iff_mul-le, div-lt_iff_lt-mul}
use dicode_relay.Client.Backoff.{round, delay, next_cur, cur_after}

cur_after_lem : (n : ℕ) → cur_after n ≡ min (1000 * 2 ^ n) 60000
unfolding cur_after next_cur
cur_after_lem zero = refl
cur_after_lem (suc n) = omega (arith, cur_after_lem n)

round_lower : (k a b : ℕ) → 0 < b → k * b ≤ a → k ≤ round a b
unfolding round
round_lower k a b h le =
    (le-div_iff_mul-le {k = 2 * b} {x = k} {y = 2 * a + b} (omega arith)).1 (omega arith)

round_upper : (k a b : ℕ) → 0 < b → a ≤ k * b → round a b ≤ k
unfolding round
round_upper k a b h le = omega (
  arith,
  (div-lt_iff_lt-mul {k = 2 * b} {x = 2 * a + b} {y = suc k} (omega arith)).1 (omega arith),
)

mul_le : (a b k : ℕ) → a ≤ b → k * a ≤ k * b
mul_le a b zero h = omega arith
mul_le a b (suc k) h = omega (arith, mul_le a b k h)

-- A wait at `cur = 5 · w`.
delay_bounds :
    (w p q : ℕ) → p < q → w ≤ 12000 → (4 * w ≤ delay (5 * w) p q) × (delay (5 * w) p q ≤ 6 * w)
unfolding delay
delay_bounds w p q h k =
    let a : w * p ≤ w * q = mul_le p q w (omega arith) in
    let b : q * w ≤ q * 12000 = mul_le w 12000 q k in
    (
      round_lower (4 * w) _ (5 * q) (omega arith) (omega (arith, a, b)),
      round_upper (6 * w) _ (5 * q) (omega arith) (omega (arith, a, b)),
    )

-- The wait after n attempts since a reset is within a fifth of 1000 · 2^n ms, or of a minute where that
-- is less, whatever the random number.
pub delay-cur_after :
    (n p q : ℕ)
    → p < q
    → let base = min (1000 * 2 ^ n) 60000 in
      (4 * base ≤ 5 * delay (cur_after n) p q) × (5 * delay (cur_after n) p q ≤ 6 * base)
delay-cur_after n p q h =
    let w = min (200 * 2 ^ n) 12000 in
    let e : cur_after n ≡ 5 * w = omega (arith, cur_after_lem n) in
    rw e (
      omega (arith, (delay_bounds w p q h (omega arith)).0),
      omega (arith, (delay_bounds w p q h (omega arith)).1),
    )
