-- ===== src/Status/Ring/Window.antt =====
-- The ring against its specification: the times of all that was counted.
use dicode_relay.Common.{
  ℕ, ◌+◌, ◌-◌, ◌%◌, ◌^◌, ◌≤◌, ◌<◌, min, List, [], ◌∷◌, get_or, length, length-set, ◌≡◌, ◌≢◌, refl,
  sym, arith, get_or-set_ne, get_or-set_self, get_or-replicate, length-replicate, ltb, leb,
  if◌then◌else◌, ap, ◌∙◌, ◌==◌, nat_eq, Bool-cases, inl, inr, All,
}
use native.Mathlib.Nat.{mod-lt}
use dicode_relay.Status.Ring.{Ring, fresh, zero_buckets, advance, bump}
use dicode_relay.Status.Ring.Zeroing.{mod_once, length-zero_buckets, zeroed, kept}

-- How many of the times lie `age` before the epoch.
abbrev pub aged : ℕ → ℕ → List ℕ → ℕ
aged epoch age [] = 0
aged epoch age (t ∷ ts) = (if t + age == epoch then 1 else 0) + aged epoch age ts

-- The bucket for an age.
abbrev pub slot : ℕ → ℕ → ℕ → ℕ
slot size index age = (index + size - age) % size

-- A ring of a size holds the times: each bucket is the number of times of its age, as a 32-bit word.
pub record Holds (size : ℕ) (r : Ring) (times : List ℕ) : Type 0 where
  pub long : length r.buckets ≡ size
  pub within : r.index < size
  pub past : All (λ t. t ≤ r.epoch) times
  pub bucket :
      (age : ℕ)
      → age < size
      → get_or r.buckets (slot size r.index age) 0 ≡ aged r.epoch age times % 2 ^ 32

aged_later :
    (epoch d age : ℕ) (ts : List ℕ) → d ≤ age → aged (epoch + d) age ts ≡ aged epoch (age - d) ts
aged_later epoch d age [] h = refl
aged_later epoch d age (t ∷ ts) h = ground (arith, aged_later epoch d age ts h)

aged_new :
    (epoch d age : ℕ) (ts : List ℕ)
    → age < d
    → All (λ t. t ≤ epoch) ts
    → aged (epoch + d) age ts ≡ 0
aged_new epoch d age [] h p = refl
aged_new epoch d age (t ∷ ts) h p = ground (arith, aged_new epoch d age ts h p.1)

past_later :
    (epoch now : ℕ) (ts : List ℕ) → epoch ≤ now → All (λ t. t ≤ epoch) ts → All (λ t. t ≤ now) ts
past_later epoch now [] h p = tt
past_later epoch now (t ∷ ts) h p = (omega arith, past_later epoch now ts h p.1)

-- Where the ring is shifted by less than its size, an age that remains has its old bucket.
slot_later :
    (size index d age : ℕ)
    → index < size
    → d ≤ age
    → age < size
    → slot size ((index + d) % size) age ≡ slot size index (age - d)
slot_later size index d age i h k = ground (
  arith,
  mod_once (index + d) size (omega arith),
  mod_once ((index + d) % size + size - age) size
      (ground (arith, mod_once (index + d) size (omega arith))),
  mod_once (index + size - (age - d)) size (omega arith),
)

slot_new :
    (size index d age : ℕ)
    → index < size
    → age < d
    → d < size
    → slot size ((index + d) % size) age ≡ (index + (d - age)) % size
slot_new size index d age i h k = ground (
  arith,
  mod_once (index + d) size (omega arith),
  mod_once ((index + d) % size + size - age) size
      (ground (arith, mod_once (index + d) size (omega arith))),
  mod_once (index + (d - age)) size (omega arith),
)

-- Each position is reached by a round of a full turn.
abbrev round_of : ℕ → ℕ → ℕ → ℕ
round_of size index j = if ltb index j then j - index else j + size - index

round_of_lem :
    (size index j : ℕ)
    → index < size
    → j < size
    → (1 ≤ round_of size index j)
      × (round_of size index j ≤ size)
      × ((index + round_of size index j) % size ≡ j)
round_of_lem size index j i h = (
  ground arith,
  ground arith,
  ground (arith, mod_once (index + round_of size index j) size (ground arith)),
)

slot_kept :
    (size index d age x : ℕ)
    → index < size
    → d ≤ age
    → age < size
    → 1 ≤ x
    → x < 1 + d
    → (index + x) % size ≢ slot size index (age - d)
slot_kept size index d age x i h k l m e = ground (
  arith,
  mod_once (index + x) size (omega arith),
  mod_once (index + size - (age - d)) size (omega arith),
)

module _ (size : ℕ) (r : Ring) (times : List ℕ) (v : Holds size r times) where
  bucket_old :
      (d age : ℕ)
      → d < size
      → d ≤ age
      → age < size
      → get_or (zero_buckets size r.index 1 d r.buckets) (slot size ((r.index + d) % size) age) 0
        ≡ aged (r.epoch + d) age times % 2 ^ 32
  bucket_old d age small h k =
      rw (slot_later size r.index d age v.within h k, aged_later r.epoch d age times h)
        (kept size r.index 1 d (slot size r.index (age - d)) r.buckets
            (λ x p q. slot_kept size r.index d age x v.within h k p q)
          ∙ v.bucket (age - d) (omega arith))

  bucket_new :
      (d age : ℕ)
      → d < size
      → age < d
      → get_or (zero_buckets size r.index 1 d r.buckets) (slot size ((r.index + d) % size) age) 0
        ≡ aged (r.epoch + d) age times % 2 ^ 32
  bucket_new d age small h =
      rw (slot_new size r.index d age v.within h small, aged_new r.epoch d age times h v.past)
        (zeroed size r.index 1 d (d - age) r.buckets (omega arith) (omega arith))

  bucket_turned :
      (d age : ℕ)
      → size ≤ d
      → age < size
      → get_or (zero_buckets size r.index 1 size r.buckets) (slot size ((r.index + d) % size) age) 0
        ≡ aged (r.epoch + d) age times % 2 ^ 32
  bucket_turned d age full h =
      let j = slot size ((r.index + d) % size) age in
      let x = round_of_lem size r.index j v.within (mod-lt _ (omega arith)) in
      rw (aged_new r.epoch d age times (omega arith) v.past) (
        ap (λ k. get_or (zero_buckets size r.index 1 size r.buckets) k 0) (sym x.2)
        ∙ zeroed size r.index 1 size (round_of size r.index j) r.buckets x.0 (omega arith))

  -- Advancing to a time changes no count: each bucket then holds the times of its new age, and the
  -- ages that the ring has no bucket for are forgotten.
  pub advance-Holds : (now : ℕ) → Holds size (advance size now r) times
  unfolding advance
  advance-Holds now = elim (Bool-cases (leb now r.epoch)) [
    | inl still ↦ rw (still, advance) v
    | inr later ↦
        let d = now - r.epoch in
        let e : now ≡ r.epoch + d = ground arith in
        rw (later, advance)
          (record {
            long = length-zero_buckets size r.index 1 (min d size) r.buckets ∙ v.long;
            within = mod-lt _ (omega (arith, v.within));
            past = past_later r.epoch now times (ground arith) v.past;
            bucket = λ age h. elim (Bool-cases (ltb d size)) [
              | inl small ↦
                  let m : min d size ≡ d = ground arith in
                  elim (Bool-cases (ltb age d)) [
                    | inl new ↦ rw m (
                        bucket_new d age (ground arith) (ground arith)
                        ∙ ap (λ k. aged k age times % 2 ^ 32) (sym e))
                    | inr old ↦ rw m (
                        bucket_old d age (ground arith) (ground arith) h
                        ∙ ap (λ k. aged k age times % 2 ^ 32) (sym e))
                  ]
              | inr full ↦
                  let m : min d size ≡ size = ground arith in
                  rw m (
                    bucket_turned d age (ground arith) h
                    ∙ ap (λ k. aged k age times % 2 ^ 32) (sym e))
            ];
          })
  ]

  pub slot_now : slot size r.index 0 ≡ r.index
  slot_now = ground (arith, v.within, mod_once (r.index + size - 0) size (omega (arith, v.within)))

  bump_now :
      (age : ℕ)
      → age ≡ 0
      → (get_or r.buckets r.index 0 + 1) % 2 ^ 32
        ≡ ((if r.epoch + 0 == r.epoch then 1 else 0) + aged r.epoch age times) % 2 ^ 32
  bump_now age e =
      let stored : get_or r.buckets r.index 0 ≡ aged r.epoch 0 times % 2 ^ 32 =
        ap (λ k. get_or r.buckets k 0) (sym slot_now) ∙ v.bucket 0 (omega (arith, v.within)) in
      ground (arith, stored, ap (λ k. aged r.epoch k times) e)

  slot_ne_now : (age : ℕ) → 0 < age → age < size → r.index ≢ slot size r.index age
  slot_ne_now age h k e =
      ground (arith, v.within, mod_once (r.index + size - age) size (omega (arith, v.within)))

  -- Counting once more at the present adds the present to the times.
  pub bump-Holds : Holds size (bump r) (r.epoch ∷ times)
  unfolding bump
  bump-Holds = record {
    long = length-set r.buckets r.index _ ∙ v.long;
    within = v.within;
    past = (omega arith, v.past);
    bucket = λ age h. elim (Bool-cases (age == 0)) [
      | inl now ↦
          let e : age ≡ 0 = ground arith in
          rw (e, slot_now)
            (get_or-set_self r.buckets r.index _ 0 (omega (arith, v.long, v.within))
              ∙ bump_now age e)
      | inr old ↦
          get_or-set_ne r.buckets r.index (slot size r.index age) _ 0
            (slot_ne_now age (ground arith) h)
          ∙ (v.bucket age h ∙ ground arith)
    ];
  }

-- A new ring holds nothing.
pub fresh-Holds : (size now : ℕ) → 0 < size → Holds size (fresh size now) []
unfolding fresh
fresh-Holds size now h = record {
  long = length-replicate size 0;
  within = h;
  past = tt;
  bucket = λ age k. get_or-replicate size (slot size 0 age) 0;
}
