-- ===== src/Status/Metrics.antt =====
-- status/metrics.ts, MetricsCollector: an entry for each registered daemon, with a ring of 3600 seconds
-- and one of 24 hours. The process part of a snapshot, made in Status/Process, is an argument.
pub mod Windows
pub mod Order
use dicode_relay.Common.{
  ℕ, String, List, [], ◌∷◌, ◌+◌, ◌-◌, ◌/◌, max, leb, if◌then◌else◌, Dict, get, put, delete, length,
  map, values, none, some, string_eq, get_or,
}
use dicode_relay.Status.Ring.{Ring, fresh, advance, bump, sum}
use dicode_relay.Status.Duration.{Duration, format_duration}

abbrev pub seconds_per_hour : ℕ
seconds_per_hour = 3600

abbrev pub hours_per_day : ℕ
hours_per_day = 24

pub record ClientMetricsEntry : Type 0 where
  pub uuid : String
  pub connected_at : ℕ
  pub second : Ring
  pub hour : Ring
  pub total_requests : ℕ
  pub peak_req_per_sec : ℕ
  pub peak_req_per_hour : ℕ
  pub peak_req_per_day : ℕ

pub record ClientSnapshot : Type 0 where
  pub uuid : String
  pub connected_at : ℕ
  pub connected_duration : Duration
  pub req_per_sec : ℕ
  pub req_per_hour : ℕ
  pub req_per_day : ℕ
  pub total_requests : ℕ
  pub peak_req_per_sec : ℕ
  pub peak_req_per_hour : ℕ
  pub peak_req_per_day : ℕ

-- `cpu_percent` in hundredths, as it is rounded.
pub record ProcessSnapshot : Type 0 where
  pub uptime_seconds : ℕ
  pub rss_bytes : ℕ
  pub heap_used_bytes : ℕ
  pub heap_total_bytes : ℕ
  pub cpu_percent : ℕ

pub record Rates : Type 0 where
  pub connected_clients : ℕ
  pub req_per_sec : ℕ
  pub req_per_hour : ℕ
  pub req_per_day : ℕ

pub record PeakValues : Type 0 where
  pub rates : Rates
  pub rss_bytes : ℕ
  pub heap_used_bytes : ℕ
  pub cpu_percent : ℕ

pub record StatusSnapshot : Type 0 where
  pub global : Rates
  pub peak : PeakValues
  pub process : ProcessSnapshot
  pub clients : List ClientSnapshot

pub record Collector : Type 0 where
  pub entries : Dict String ClientMetricsEntry
  pub peak : PeakValues

unfoldable pub now_sec : ℕ → ℕ
now_sec now = now / 1000

unfoldable pub now_hour : ℕ → ℕ
now_hour now = now_sec now / 3600

unfoldable pub new_entry : String → ℕ → ClientMetricsEntry
new_entry uuid now = record {
  uuid = uuid;
  connected_at = now;
  second = fresh seconds_per_hour (now_sec now);
  hour = fresh hours_per_day (now_hour now);
  total_requests = 0;
  peak_req_per_sec = 0;
  peak_req_per_hour = 0;
  peak_req_per_day = 0;
}

unfoldable pub register_client : String → ℕ → Collector → Collector
register_client uuid now c = record c { entries = put uuid (new_entry uuid now) c.entries }

unfoldable pub remove_client : String → Collector → Collector
remove_client uuid c = record c { entries = delete uuid c.entries }

unfoldable pub advance_buckets : ℕ → ClientMetricsEntry → ClientMetricsEntry
advance_buckets now e = record e {
  second = advance seconds_per_hour (now_sec now) e.second;
  hour = advance hours_per_day (now_hour now) e.hour;
}

-- `record` on the entry it finds.
unfoldable pub record_entry : ℕ → ClientMetricsEntry → ClientMetricsEntry
record_entry now e =
    let a = advance_buckets now e in
    record a { second = bump a.second; hour = bump a.hour; total_requests = a.total_requests + 1 }

unfoldable pub record_request : String → ℕ → Collector → Collector
record_request uuid now c = elim (get uuid c.entries) [
  | none ↦ c
  | some e ↦ record c { entries = put uuid (record_entry now e) c.entries }
]

unfoldable pub req_per_sec : ClientMetricsEntry → ℕ
req_per_sec e = get_or e.second.buckets e.second.index 0

unfoldable pub req_per_hour : ClientMetricsEntry → ℕ
req_per_hour e = sum e.second.buckets

unfoldable pub req_per_day : ClientMetricsEntry → ℕ
req_per_day e = sum e.hour.buckets

-- The body of the loop of `snapshot`: the entry brought to the present, with its peaks.
unfoldable pub refresh : ℕ → ClientMetricsEntry → ClientMetricsEntry
refresh now e =
    let a = advance_buckets now e in
    record a {
      peak_req_per_sec = max a.peak_req_per_sec (req_per_sec a);
      peak_req_per_hour = max a.peak_req_per_hour (req_per_hour a);
      peak_req_per_day = max a.peak_req_per_day (req_per_day a);
    }

-- The loop of `snapshot` over `this.entries.values()`, which updates each entry in place.
unfoldable pub refresh_all : ℕ → Dict String ClientMetricsEntry → Dict String ClientMetricsEntry
refresh_all now [] = []
refresh_all now ((uuid, e) ∷ es) = (uuid, refresh now e) ∷ refresh_all now es

unfoldable pub report : ℕ → ClientMetricsEntry → ClientSnapshot
report now e = record {
  uuid = e.uuid;
  connected_at = e.connected_at;
  connected_duration = format_duration (now - e.connected_at);
  req_per_sec = req_per_sec e;
  req_per_hour = req_per_hour e;
  req_per_day = req_per_day e;
  total_requests = e.total_requests;
  peak_req_per_sec = e.peak_req_per_sec;
  peak_req_per_hour = e.peak_req_per_hour;
  peak_req_per_day = e.peak_req_per_day;
}

-- `clients.sort`, a stable sort from the largest total down.
unfoldable pub insert : ClientSnapshot → List ClientSnapshot → List ClientSnapshot
insert x [] = x ∷ []
insert x (y ∷ ys) = if leb y.total_requests x.total_requests then x ∷ y ∷ ys else y ∷ insert x ys

unfoldable pub sort : List ClientSnapshot → List ClientSnapshot
sort [] = []
sort (x ∷ xs) = insert x (sort xs)

unfoldable pub total : (ClientMetricsEntry → ℕ) → Dict String ClientMetricsEntry → ℕ
total f [] = 0
total f ((k, e) ∷ es) = f e + total f es

unfoldable pub raise_peak : Rates → ProcessSnapshot → PeakValues → PeakValues
raise_peak g proc p = record {
  rates = record {
    connected_clients = max p.rates.connected_clients g.connected_clients;
    req_per_sec = max p.rates.req_per_sec g.req_per_sec;
    req_per_hour = max p.rates.req_per_hour g.req_per_hour;
    req_per_day = max p.rates.req_per_day g.req_per_day;
  };
  rss_bytes = max p.rss_bytes proc.rss_bytes;
  heap_used_bytes = max p.heap_used_bytes proc.heap_used_bytes;
  cpu_percent = max p.cpu_percent proc.cpu_percent;
}

unfoldable pub snapshot : ℕ → ProcessSnapshot → Collector → StatusSnapshot × Collector
snapshot now proc c =
    let entries = refresh_all now c.entries in
    let global : Rates = record {
      connected_clients = length entries;
      req_per_sec = total req_per_sec entries;
      req_per_hour = total req_per_hour entries;
      req_per_day = total req_per_day entries;
    } in
    let peak = raise_peak global proc c.peak in
    (
      record {
        global = global;
        peak = peak;
        process = proc;
        clients = sort (map (report now) (values entries));
      },
      record { entries = entries; peak = peak },
    )
