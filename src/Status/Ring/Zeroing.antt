-- ===== src/Status/Ring/Zeroing.antt =====
-- What the zeroing loop does to each bucket.
use dicode_relay.Common.{
  ℕ, zero, suc, ◌+◌, ◌-◌, ◌%◌, ◌≤◌, ◌<◌, List, [], ◌∷◌, set, get_or, length, length-set, ◌≡◌, ◌≢◌,
  refl, arith, get_or-set_ne, ltb, if◌then◌else◌, ◌∙◌, inl, inr, ◌==◌, nat_eq, Bool-cases,
}
use native.Mathlib.Nat.{mod-eq_of_lt, mod-eq-sub-mod}
use dicode_relay.Status.Ring.{zero_buckets}

-- A sum of two positions below the size wraps at most once.
pub mod_once : (a size : ℕ) → a < size + size → a % size ≡ (if ltb a size then a else a - size)
mod_once a size h = elim (Bool-cases (ltb a size)) [
  | inl lt ↦ rw lt (mod-eq_of_lt (ground arith))
  | inr ge ↦ rw ge (mod-eq-sub-mod (ground arith) ∙ mod-eq_of_lt (ground arith))
]

set_zero : (xs : List ℕ) (i j : ℕ) → get_or xs j 0 ≡ 0 → get_or (set xs i 0) j 0 ≡ 0
set_zero [] i j h = refl
set_zero (x ∷ xs) zero zero h = refl
set_zero (x ∷ xs) zero (suc j) h = h
set_zero (x ∷ xs) (suc i) zero h = h
set_zero (x ∷ xs) (suc i) (suc j) h = set_zero xs i j h

set_zero_self : (xs : List ℕ) (i : ℕ) → get_or (set xs i 0) i 0 ≡ 0
set_zero_self [] i = refl
set_zero_self (x ∷ xs) zero = refl
set_zero_self (x ∷ xs) (suc i) = set_zero_self xs i

module _ (size index : ℕ) where
  pub length-zero_buckets :
      (i rounds : ℕ) (xs : List ℕ) → length (zero_buckets size index i rounds xs) ≡ length xs
  unfolding zero_buckets
  length-zero_buckets i zero xs = refl
  length-zero_buckets i (suc rounds) xs =
      length-zero_buckets (i + 1) rounds _ ∙ length-set xs ((index + i) % size) 0

  stays_zero :
      (i rounds j : ℕ) (xs : List ℕ)
      → get_or xs j 0 ≡ 0
      → get_or (zero_buckets size index i rounds xs) j 0 ≡ 0
  unfolding zero_buckets
  stays_zero i zero j xs h = h
  stays_zero i (suc rounds) j xs h =
      stays_zero (i + 1) rounds j _ (set_zero xs ((index + i) % size) j h)

  pub zeroed :
      (i rounds x : ℕ) (xs : List ℕ)
      → i ≤ x
      → x < i + rounds
      → get_or (zero_buckets size index i rounds xs) ((index + x) % size) 0 ≡ 0
  unfolding zero_buckets
  zeroed i zero x xs h k = absurd (omega arith)
  zeroed i (suc rounds) x xs h k = elim (Bool-cases (i == x)) [
    | inl here ↦
        let e : i ≡ x = ground arith in
        stays_zero (i + 1) rounds ((index + x) % size) _
          (rw e (set_zero_self xs ((index + x) % size)))
    | inr later ↦ zeroed (i + 1) rounds x _ (ground arith) (omega arith)
  ]

  pub kept :
      (i rounds j : ℕ) (xs : List ℕ)
      → ((x : ℕ) → i ≤ x → x < i + rounds → (index + x) % size ≢ j)
      → get_or (zero_buckets size index i rounds xs) j 0 ≡ get_or xs j 0
  unfolding zero_buckets
  kept i zero j xs h = refl
  kept i (suc rounds) j xs h =
      kept (i + 1) rounds j _ (λ x p q. h x (omega arith) (omega arith))
      ∙ get_or-set_ne xs ((index + i) % size) j 0 0 (h i (omega arith) (omega arith))
