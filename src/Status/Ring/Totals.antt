-- ===== src/Status/Ring/Totals.antt =====
-- The total of a ring, `sumUint32Array` of status/metrics.ts, against the times it has counted.
use dicode_relay.Common.{
  ℕ, zero, suc, ◌+◌, ◌-◌, ◌^◌, ◌≤◌, ◌<◌, List, [], ◌∷◌, get_or, length, ◌≡◌, refl, sym, arith, ltb,
  if◌then◌else◌, ap, ◌∙◌, ◌==◌, nat_eq, All, subst,
}
use native.Mathlib.Nat.{mod-eq_of_lt}
use dicode_relay.Status.Ring.{Ring, sum}
use dicode_relay.Status.Ring.Zeroing.{mod_once}
use dicode_relay.Status.Ring.Sums.{sum_to, sum_to-ext, sum_to-add, sum_to-rev, sum-sum_to}
use dicode_relay.Status.Ring.Window.{Holds, aged, slot}

-- The times of each age below a size, added up, are the times not older than the size.
abbrev pub recent : ℕ → ℕ → List ℕ → ℕ
recent epoch size [] = 0
recent epoch size (t ∷ ts) = (if ltb epoch (t + size) then 1 else 0) + recent epoch size ts

indicator :
    (epoch t size : ℕ)
    → t ≤ epoch
    → sum_to size (λ age. if t + age == epoch then 1 else 0)
      ≡ (if ltb epoch (t + size) then 1 else 0)
unfolding sum_to
indicator epoch t zero h = ground arith
indicator epoch t (suc size) h = ground (arith, indicator epoch t size h)

sum_to-plus : (n : ℕ) (f g : ℕ → ℕ) → sum_to n (λ i. f i + g i) ≡ sum_to n f + sum_to n g
unfolding sum_to
sum_to-plus zero f g = omega arith
sum_to-plus (suc n) f g = omega (arith, sum_to-plus n f g)

sum_to-nothing : (n : ℕ) → sum_to n (λ i. 0) ≡ 0
unfolding sum_to
sum_to-nothing zero = refl
sum_to-nothing (suc n) = omega (arith, sum_to-nothing n)

sum_to-aged :
    (epoch size : ℕ) (ts : List ℕ)
    → All (λ t. t ≤ epoch) ts
    → sum_to size (λ age. aged epoch age ts) ≡ recent epoch size ts
sum_to-aged epoch size [] p = sum_to-nothing size
sum_to-aged epoch size (t ∷ ts) p =
    sum_to-plus size (λ age. if t + age == epoch then 1 else 0) (λ age. aged epoch age ts)
    ∙ omega (arith, indicator epoch t size p.0, sum_to-aged epoch size ts p.1)

pub aged_le_length : (epoch age : ℕ) (ts : List ℕ) → aged epoch age ts ≤ length ts
aged_le_length epoch age [] = omega arith
aged_le_length epoch age (t ∷ ts) = ground (arith, aged_le_length epoch age ts)

-- A sum over the positions of a ring is a sum over the ages.
sum_to-slot :
    (index n : ℕ) (g : ℕ → ℕ)
    → sum_to (n + suc index) (λ age. g (slot (n + suc index) index age)) ≡ sum_to (n + suc index) g
sum_to-slot index n g =
    let m = suc index in
    let low : (age : ℕ) → age < m → g (slot (n + m) index age) ≡ g (m - suc age) =
      λ age h. ap g (ground (arith, mod_once (index + (n + m) - age) (n + m) (omega arith))) in
    let high : (x : ℕ) → x < n → g (slot (n + m) index (m + x)) ≡ g (m + (n - suc x)) =
      λ x h. ap g (ground (arith, mod_once (index + (n + m) - (m + x)) (n + m) (omega arith))) in
    omega (
      arith,
      sum_to-add m n (λ age. g (slot (n + m) index age)),
      sum_to-ext m (λ age. g (slot (n + m) index age)) (λ age. g (m - suc age)) low,
      sum_to-rev m g,
      sum_to-ext n (λ x. g (slot (n + m) index (m + x))) (λ x. g (m + (n - suc x))) high,
      sum_to-rev n (λ y. g (m + y)),
      sum_to-add m n g,
    )

-- The sum of a ring that holds fewer than 2^32 times is the number of those that are younger than its
-- size.
pub sum-Holds :
    (size : ℕ) (r : Ring) (times : List ℕ)
    → Holds size r times
    → length times < 2 ^ 32
    → sum r.buckets ≡ recent r.epoch size times
sum-Holds size r times v few =
    let n = size - suc r.index in
    let e : n + suc r.index ≡ size = omega (arith, v.within) in
    let g : ℕ → ℕ = λ j. get_or r.buckets j 0 in
    let each : (age : ℕ) → age < size → g (slot size r.index age) ≡ aged r.epoch age times =
      λ age h. v.bucket age h ∙ mod-eq_of_lt (omega (arith, aged_le_length r.epoch age times)) in
    let turned : sum_to size (λ age. g (slot size r.index age)) ≡ sum_to size g =
      subst (λ k. sum_to k (λ age. g (slot k r.index age)) ≡ sum_to k g) e
        (sum_to-slot r.index n g) in
    sum-sum_to r.buckets
    ∙ ap (λ k. sum_to k g) v.long
    ∙ sym turned
    ∙ sum_to-ext size (λ age. g (slot size r.index age)) (λ age. aged r.epoch age times) each
    ∙ sum_to-aged r.epoch size times v.past
