-- ===== src/Status/Ring/Sums.antt =====
-- Finite sums over positions, and the sum of a list.
use dicode_relay.Common.{
  ℕ, zero, suc, ◌+◌, ◌-◌, ◌<◌, List, [], ◌∷◌, get_or, length, ◌≡◌, refl, arith, ap,
}
use dicode_relay.Status.Ring.{sum}

unfoldable pub sum_to : ℕ → (ℕ → ℕ) → ℕ
sum_to zero g = 0
sum_to (suc n) g = sum_to n g + g n

pub sum_to-ext : (n : ℕ) (f g : ℕ → ℕ) → ((i : ℕ) → i < n → f i ≡ g i) → sum_to n f ≡ sum_to n g
unfolding sum_to
sum_to-ext zero f g h = refl
sum_to-ext (suc n) f g h =
    omega (arith, sum_to-ext n f g (λ i p. h i (omega arith)), h n (omega arith))

pub sum_to-add : (m n : ℕ) (g : ℕ → ℕ) → sum_to (n + m) g ≡ sum_to m g + sum_to n (λ i. g (m + i))
unfolding sum_to
sum_to-add m zero g = omega (arith, ap (λ k. sum_to k g) (let e : 0 + m ≡ m = omega arith in e))
sum_to-add m (suc n) g =
    let e : suc n + m ≡ suc (n + m) = omega arith in
    let f : n + m ≡ m + n = omega arith in
    omega (arith, ap (λ k. sum_to k g) e, sum_to-add m n g, ap g f)

sum_to-first : (n : ℕ) (g : ℕ → ℕ) → sum_to (suc n) g ≡ g 0 + sum_to n (λ i. g (suc i))
unfolding sum_to
sum_to-first zero g = omega arith
sum_to-first (suc n) g = omega (arith, sum_to-first n g)

pub sum_to-rev : (n : ℕ) (g : ℕ → ℕ) → sum_to n (λ i. g (n - suc i)) ≡ sum_to n g
unfolding sum_to
sum_to-rev zero g = refl
sum_to-rev (suc n) g =
    let last : suc n - 1 ≡ n = omega arith in
    let shifted : sum_to n (λ i. g (suc n - suc (suc i))) ≡ sum_to n (λ i. g (n - suc i)) =
      sum_to-ext n (λ i. g (suc n - suc (suc i))) (λ i. g (n - suc i))
        (λ i h. let e : suc n - suc (suc i) ≡ n - suc i = omega arith in ap g e) in
    omega (arith, sum_to-first n (λ i. g (suc n - suc i)), shifted, sum_to-rev n g, ap g last)

pub sum-sum_to : (xs : List ℕ) → sum xs ≡ sum_to (length xs) (λ i. get_or xs i 0)
unfolding sum sum_to
sum-sum_to [] = refl
sum-sum_to (x ∷ xs) =
    omega (arith, sum-sum_to xs, sum_to-first (length xs) (λ i. get_or (x ∷ xs) i 0))
