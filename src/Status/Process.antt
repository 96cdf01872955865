-- ===== src/Status/Process.antt =====
-- processSnapshot of status/metrics.ts: the CPU is measured at most once a second, and the last measure is
-- cached in between. What Node reports of the process is the argument `Reading`.
use native.Mathlib.Nat.{le-div_iff_mul-le, div-lt_iff_lt-mul}
use dicode_relay.Common.{ℕ, suc, ◌≤◌, ◌+◌, ◌-◌, ◌*◌, ◌/◌, ◌<◌, leb, if◌then◌else◌, ◌≡◌, true, arith}
use dicode_relay.Status.Metrics.{Collector, ProcessSnapshot, StatusSnapshot, snapshot}

-- process.cpuUsage(), in microseconds.
pub record CpuUsage : Type 0 where
  pub user : ℕ
  pub system : ℕ

-- `again` is the second call of process.cpuUsage(), and `uptime_ms` is process.uptime() in thousandths.
pub record Reading : Type 0 where
  pub now : ℕ
  pub usage : CpuUsage
  pub again : CpuUsage
  pub uptime_ms : ℕ
  pub rss : ℕ
  pub heap_used : ℕ
  pub heap_total : ℕ

-- The cached percentage is the fraction `used_us / (elapsed_ms * 1000) * 100`.
pub record CpuClock : Type 0 where
  pub last_cpu_usage : CpuUsage
  pub last_cpu_time : ℕ
  pub used_us : ℕ
  pub elapsed_ms : ℕ

unfoldable pub new_clock : CpuUsage → ℕ → CpuClock
new_clock usage now = record {
  last_cpu_usage = usage;
  last_cpu_time = now;
  used_us = 0;
  elapsed_ms = 1;
}

-- The usage since an earlier one, user and system together.
unfoldable pub used_since : CpuUsage → CpuUsage → ℕ
used_since last usage = (usage.user - last.user) + (usage.system - last.system)

unfoldable pub measure : Reading → CpuClock → CpuClock
measure r c =
    if leb 1000 (r.now - c.last_cpu_time)
    then record {
      last_cpu_usage = r.again;
      last_cpu_time = r.now;
      used_us = used_since c.last_cpu_usage r.usage;
      elapsed_ms = r.now - c.last_cpu_time;
    }
    else c

-- Math.round of the percentage times 100: the nearest whole number, and the upper of two.
unfoldable pub hundredths : CpuClock → ℕ
hundredths c = (20 * c.used_us + c.elapsed_ms) / (2 * c.elapsed_ms)

unfoldable pub process_snapshot : Reading → CpuClock → ProcessSnapshot × CpuClock
process_snapshot r c =
    let d = measure r c in
    (
      record {
        uptime_seconds = r.uptime_ms / 1000;
        rss_bytes = r.rss;
        heap_used_bytes = r.heap_used;
        heap_total_bytes = r.heap_total;
        cpu_percent = hundredths d;
      },
      d,
    )

-- `snapshot` with its reading of the process.
unfoldable pub take_snapshot :
    Reading → CpuClock → Collector → StatusSnapshot × Collector × CpuClock
take_snapshot r c m =
    let p = process_snapshot r c in let s = snapshot r.now p.0 m in (s.0, s.1, p.1)

-- A snapshot less than a second after the one that measured the CPU reports the same percentage, and
-- leaves the time of the measurement as it is.
pub process_snapshot_cached :
    (r q : Reading) (c : CpuClock)
    → q.now < (process_snapshot r c).1.last_cpu_time + 1000
    → let d = (process_snapshot r c).1 in
      ((process_snapshot q d).0.cpu_percent ≡ (process_snapshot r c).0.cpu_percent)
      × ((process_snapshot q d).1 ≡ d)
unfolding process_snapshot measure
process_snapshot_cached r q c h = ground arith

hundredths_nearest :
    (u k : ℕ)
    → let h = (20 * u + suc k) / (2 * suc k) in
      (h * (2 * suc k) ≤ 20 * u + suc k) × (20 * u + suc k < suc h * (2 * suc k))
hundredths_nearest u k =
    let h = (20 * u + suc k) / (2 * suc k) in
    (
      (le-div_iff_mul-le {k = 2 * suc k} {x = h} {y = 20 * u + suc k} (omega arith)).0
          (omega arith),
      (div-lt_iff_lt-mul {k = 2 * suc k} {x = 20 * u + suc k} {y = suc h} (omega arith)).0
          (omega arith),
    )

measure_due :
    (r : Reading) (c : CpuClock) (elapsed : ℕ)
    → 1000 ≤ elapsed
    → r.now - c.last_cpu_time ≡ elapsed
    → measure r c ≡ record {
      last_cpu_usage = r.again;
      last_cpu_time = r.now;
      used_us = used_since c.last_cpu_usage r.usage;
      elapsed_ms = elapsed;
    }
unfolding measure
measure_due r c elapsed h e = let due : leb 1000 elapsed ≡ true = ground arith in rw (e, due)

-- A snapshot at least a second after the last measurement reports, in hundredths, the percentage of one
-- core that the process has used in between: with `used` microseconds in `elapsed` milliseconds, it is at
-- most half a hundredth from `used / (elapsed * 1000) * 100`.
pub process_snapshot_nearest :
    (r : Reading) (c : CpuClock) (k : ℕ)
    → 1000 ≤ suc k
    → c.last_cpu_time + suc k ≡ r.now
    → let used = used_since c.last_cpu_usage r.usage in
      let cpu = (process_snapshot r c).0.cpu_percent in
      (cpu * (2 * suc k) ≤ 20 * used + suc k) × (20 * used + suc k < suc cpu * (2 * suc k))
unfolding process_snapshot hundredths
process_snapshot_nearest r c k h e =
    rw (measure_due r c (suc k) h (omega arith))
      (hundredths_nearest (used_since c.last_cpu_usage r.usage) k)
