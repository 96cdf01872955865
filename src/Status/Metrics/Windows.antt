-- ===== src/Status/Metrics/Windows.antt =====
-- An entry against the times of its requests: the three rates of a report count the requests of the
-- present second, of the last 3600 seconds and of the last 24 hours.
use dicode_relay.Common.{
  ℕ, ◌≤◌, ◌<◌, ◌^◌, List, [], ◌∷◌, map, length, ◌≡◌, refl, ap, sym, ◌∙◌, arith, get_or, subst,
  String,
}
use native.Mathlib.Nat.{mod-eq_of_lt}
use dicode_relay.Status.Ring.{Ring, fresh, advance, bump, sum}
use dicode_relay.Status.Ring.Window.{Holds, aged, fresh-Holds, advance-Holds, bump-Holds, slot_now}
use dicode_relay.Status.Ring.Totals.{recent, sum-Holds, aged_le_length}
use dicode_relay.Status.Metrics.{
  ClientMetricsEntry, now_sec, now_hour, new_entry, advance_buckets, record_entry, refresh, report,
  req_per_sec, req_per_hour, req_per_day,
}

length-map : (f : ℕ → ℕ) (ts : List ℕ) → length (map f ts) ≡ length ts
length-map f [] = refl
length-map f (t ∷ ts) = omega (arith, length-map f ts)

-- The entry after requests at the times, the last one first.
unfoldable pub recorded : List ℕ → ClientMetricsEntry → ClientMetricsEntry
recorded [] e = e
recorded (t ∷ ts) e = record_entry t (recorded ts e)

-- The time of the last request, or of the registration.
abbrev pub latest : ℕ → List ℕ → ℕ
latest start [] = start
latest start (t ∷ ts) = t

-- A clock that does not go back.
abbrev pub IsClock : ℕ → List ℕ → Type 0
IsClock start [] = Unit
IsClock start (t ∷ ts) = (latest start ts ≤ t) × IsClock start ts

advance_epoch : (size now : ℕ) (r : Ring) → r.epoch ≤ now → (advance size now r).epoch ≡ now
unfolding advance
advance_epoch size now r h = ground arith

sec_le : (a b : ℕ) → a ≤ b → now_sec a ≤ now_sec b
unfolding now_sec
sec_le a b h = omega arith

hour_le : (a b : ℕ) → a ≤ b → now_hour a ≤ now_hour b
unfolding now_hour now_sec
hour_le a b h = omega arith

-- A ring that counts requests at the times, in seconds or in hours.
module _ (size start : ℕ) (unit : ℕ → ℕ) where
  unfoldable ring_at : List ℕ → Ring
  ring_at [] = fresh size (unit start)
  ring_at (t ∷ ts) = bump (advance size (unit t) (ring_at ts))

  module _ (pos : 0 < size) (mono : (a b : ℕ) → a ≤ b → unit a ≤ unit b) where
    ring_at_epoch : (ts : List ℕ) → IsClock start ts → (ring_at ts).epoch ≡ unit (latest start ts)
    unfolding ring_at fresh bump
    ring_at_epoch [] h = refl
    ring_at_epoch (t ∷ ts) h =
        advance_epoch size (unit t) (ring_at ts)
          (omega (arith, ring_at_epoch ts h.1, mono (latest start ts) t h.0))

    ring_at-Holds : (ts : List ℕ) → IsClock start ts → Holds size (ring_at ts) (map unit ts)
    unfolding ring_at
    ring_at-Holds [] h = fresh-Holds size (unit start) pos
    ring_at-Holds (t ∷ ts) h =
        let r = advance size (unit t) (ring_at ts) in
        let e : r.epoch ≡ unit t =
          advance_epoch size (unit t) (ring_at ts)
            (omega (arith, ring_at_epoch ts h.1, mono (latest start ts) t h.0)) in
        subst (λ k. Holds size (bump r) (k ∷ map unit ts)) e
          (bump-Holds size r (map unit ts)
            (advance-Holds size (ring_at ts) (map unit ts) (ring_at-Holds ts h.1) (unit t)))

    -- The ring read at a present not before the last time.
    ring_at_read :
        (now : ℕ) (ts : List ℕ)
        → IsClock start (now ∷ ts)
        → length ts < 2 ^ 32
        → let r = advance size (unit now) (ring_at ts) in
          (get_or r.buckets r.index 0 ≡ aged (unit now) 0 (map unit ts))
          × (sum r.buckets ≡ recent (unit now) size (map unit ts))
    ring_at_read now ts h few =
        let r = advance size (unit now) (ring_at ts) in
        let v : Holds size r (map unit ts) =
          advance-Holds size (ring_at ts) (map unit ts) (ring_at-Holds ts h.1) (unit now) in
        let e : r.epoch ≡ unit now =
          advance_epoch size (unit now) (ring_at ts)
            (omega (arith, ring_at_epoch ts h.1, mono (latest start ts) now h.0)) in
        let few_units : length (map unit ts) < 2 ^ 32 = omega (arith, length-map unit ts) in
        (
          ap (λ k. get_or r.buckets k 0) (sym (slot_now size r (map unit ts) v))
              ∙ v.bucket 0 pos
              ∙ mod-eq_of_lt (omega (arith, aged_le_length r.epoch 0 (map unit ts)))
              ∙ ap (λ k. aged k 0 (map unit ts)) e,
          sum-Holds size r (map unit ts) v few_units ∙ ap (λ k. recent k size (map unit ts)) e,
        )

module _ (uuid : String) (start : ℕ) where
  recorded_rings :
      (ts : List ℕ)
      → ((recorded ts (new_entry uuid start)).second ≡ ring_at 3600 start now_sec ts)
        × ((recorded ts (new_entry uuid start)).hour ≡ ring_at 24 start now_hour ts)
        × ((recorded ts (new_entry uuid start)).total_requests ≡ length ts)
  unfolding recorded record_entry new_entry ring_at advance_buckets
  recorded_rings [] = (refl, refl, refl)
  recorded_rings (t ∷ ts) = (
    ap (λ r. bump (advance 3600 (now_sec t) r)) (recorded_rings ts).0,
    ap (λ r. bump (advance 24 (now_hour t) r)) (recorded_rings ts).1,
    omega (arith, (recorded_rings ts).2),
  )

  -- A client that registers at a start and makes requests at the times, on a clock that does not go
  -- back and fewer than 2^32 of them, is reported with the number of requests in the present second,
  -- in the last 3600 seconds and in the last 24 hours (counted by the clock's seconds and hours), and
  -- with all of them as the total.
  pub report-recorded :
      (now : ℕ) (ts : List ℕ)
      → IsClock start (now ∷ ts)
      → length ts < 2 ^ 32
      → let r = report now (refresh now (recorded ts (new_entry uuid start))) in
        (r.req_per_sec ≡ aged (now_sec now) 0 (map now_sec ts))
        × (r.req_per_hour ≡ recent (now_sec now) 3600 (map now_sec ts))
        × (r.req_per_day ≡ recent (now_hour now) 24 (map now_hour ts))
        × (r.total_requests ≡ length ts)
  unfolding report refresh advance_buckets req_per_sec req_per_hour req_per_day
  report-recorded now ts h few =
      let e = recorded_rings ts in
      let seconds = ring_at_read 3600 start now_sec (omega arith) sec_le now ts h few in
      let hours = ring_at_read 24 start now_hour (omega arith) hour_le now ts h few in
      let at : Ring → Ring = advance 3600 (now_sec now) in
      (
        ap (λ r. get_or (at r).buckets (at r).index 0) e.0 ∙ seconds.0,
        ap (λ r. sum (at r).buckets) e.0 ∙ seconds.1,
        ap (λ r. sum (advance 24 (now_hour now) r).buckets) e.1 ∙ hours.1,
        e.2,
      )
