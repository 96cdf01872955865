-- ===== src/Status/Ring.antt =====
-- status/metrics.ts: a ring of counters with the bucket of the present at `index` and the time of that
-- bucket in `epoch`. `advanceSecondBuckets` and `advanceHourBuckets` are the same loop at two sizes.
pub mod Zeroing
pub mod Sums
pub mod Window
pub mod Totals
use dicode_relay.Common.{
  ℕ, zero, suc, ◌+◌, ◌-◌, ◌%◌, ◌^◌, min, List, [], ◌∷◌, leb, if◌then◌else◌, set, get_or, replicate,
}

pub record Ring : Type 0 where
  pub buckets : List ℕ
  pub index : ℕ
  pub epoch : ℕ

unfoldable pub fresh : ℕ → ℕ → Ring
fresh size now = record { buckets = replicate size 0; index = 0; epoch = now }

-- `for (let i = 1; i <= toZero; i++)`, from `i` on for the rounds that are left.
unfoldable pub zero_buckets : ℕ → ℕ → ℕ → ℕ → List ℕ → List ℕ
zero_buckets size index i zero buckets = buckets
zero_buckets size index i (suc rounds) buckets =
    zero_buckets size index (i + 1) rounds (set buckets ((index + i) % size) 0)

-- A clock that stands still or goes back changes nothing.
unfoldable pub advance : ℕ → ℕ → Ring → Ring
unfolding zero_buckets
advance size now r =
    let elapsed = now - r.epoch in
    if leb now r.epoch then r else record {
      buckets = zero_buckets size r.index 1 (min elapsed size) r.buckets;
      index = (r.index + elapsed) % size;
      epoch = now;
    }

-- An element of a `Uint32Array` wraps.
unfoldable pub bump : Ring → Ring
bump r = record r { buckets = set r.buckets r.index ((get_or r.buckets r.index 0 + 1) % 2 ^ 32) }

unfoldable pub sum : List ℕ → ℕ
sum [] = 0
sum (x ∷ xs) = x + sum xs
