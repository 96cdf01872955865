-- ===== src/Status/Tests.antt =====
-- The properties of the status page at concrete collectors.
use dicode_relay.Common.{ℕ, List, [], ◌∷◌, map, length, ◌≡◌, arith, string_eq}
use dicode_relay.Status.Ring.Window.{aged}
use dicode_relay.Status.Ring.Totals.{recent}
use dicode_relay.Status.Metrics.{
  Collector, ProcessSnapshot, Rates, now_sec, now_hour, new_entry, register_client, record_request,
  refresh, report,
}
use dicode_relay.Status.Metrics.Windows.{recorded, report-recorded}

abbrev times : List ℕ
times = 5000 ∷ 1000 ∷ []

report-recorded_example :
    let r = report 5500 (refresh 5500 (recorded times (new_entry "u1" 0))) in
    (r.req_per_sec ≡ aged (now_sec 5500) 0 (map now_sec times))
    × (r.req_per_hour ≡ recent (now_sec 5500) 3600 (map now_sec times))
    × (r.req_per_day ≡ recent (now_hour 5500) 24 (map now_hour times))
    × (r.total_requests ≡ length times)
report-recorded_example =
    report-recorded "u1" 0 5500 times (omega arith, (omega arith, (omega arith, tt))) (omega arith)

abbrev process : ProcessSnapshot
process = record {
  uptime_seconds = 9;
  rss_bytes = 100;
  heap_used_bytes = 50;
  heap_total_bytes = 80;
  cpu_percent = 150;
}

abbrev no_rates : Rates
no_rates = record { connected_clients = 0; req_per_sec = 0; req_per_hour = 0; req_per_day = 0 }

abbrev collector : Collector
collector = record_request "u2" 1500 (
    register_client "u2" 1000 (
      register_client "u1" 0 (record {
        entries = [];
        peak = record { rates = no_rates; rss_bytes = 0; heap_used_bytes = 0; cpu_percent = 0 };
      })))
