-- ===== src/Status/Duration.antt =====
-- formatDuration of status/metrics.ts: the duration by its two or three leading units.
use dicode_relay.Common.{ℕ, ◌+◌, ◌*◌, ◌/◌, ◌%◌, ◌≤◌, ◌<◌, ltb, if◌then◌else◌, arith}

-- The four templates of the source.
pub data Duration : Type 0 where
  dhm : ℕ → ℕ → ℕ → Duration
  hm : ℕ → ℕ → Duration
  ms : ℕ → ℕ → Duration
  s : ℕ → Duration

unfoldable pub format_duration : ℕ → Duration
format_duration t =
    let total_seconds = t / 1000 in
    let days = total_seconds / 86400 in
    let hours = (total_seconds % 86400) / 3600 in
    let minutes = (total_seconds % 3600) / 60 in
    let seconds = total_seconds % 60 in
    if ltb 0 days
    then dhm days hours minutes
    else if ltb 0 hours
    then hm hours minutes
    else if ltb 0 minutes
    then ms minutes seconds
    else s seconds

-- The seconds that a duration names, and the seconds that its last unit stands for.
unfoldable pub seconds_of : Duration → ℕ
seconds_of (dhm d h m) = 86400 * d + 3600 * h + 60 * m
seconds_of (hm h m) = 3600 * h + 60 * m
seconds_of (ms m x) = 60 * m + x
seconds_of (s x) = x

unfoldable pub unit_of : Duration → ℕ
unit_of (dhm d h m) = 60
unit_of (hm h m) = 60
unit_of (ms m x) = 1
unit_of (s x) = 1

-- Each unit is below the next one, and the leading unit is not 0.
unfoldable pub IsProper : Duration → Type 0
IsProper (dhm d h m) = (0 < d) × (h < 24) × (m < 60)
IsProper (hm h m) = (0 < h) × (h < 24) × (m < 60)
IsProper (ms m x) = (0 < m) × (m < 60) × (x < 60)
IsProper (s x) = x < 60

-- The formatted duration has units in their ranges and names the duration rounded down to its last
-- unit: a minute from an hour on, a second below.
pub format_duration_lem :
    (t : ℕ)
    → IsProper (format_duration t)
      × (seconds_of (format_duration t) ≤ t / 1000)
      × (t / 1000 < seconds_of (format_duration t) + unit_of (format_duration t))
unfolding format_duration seconds_of unit_of IsProper
format_duration_lem t = ground arith
