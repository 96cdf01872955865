-- ===== src/Status/Metrics/Order.antt =====
-- The list of clients and the peaks of a snapshot.
use dicode_relay.Common.{
  ℕ, String, List, [], ◌∷◌, ◌+◌, ◌≤◌, map, values, length, Dict, get, if◌then◌else◌, Bool, ◌≡◌,
  refl, arith, All, get-put, string_eq, ◌==◌, none, some, Option, Option-cases, inl, inr,
}
use dicode_relay.Status.Metrics.{
  ClientMetricsEntry, ClientSnapshot, Collector, Rates, ProcessSnapshot, insert, sort, snapshot,
  raise_peak, refresh_all, report, record_request, record_entry,
}

abbrev pub IsSorted : List ClientSnapshot → Type 0
IsSorted [] = Unit
IsSorted (x ∷ xs) = All (λ y. y.total_requests ≤ x.total_requests) xs × IsSorted xs

abbrev pub tally : (ClientSnapshot → Bool) → List ClientSnapshot → ℕ
tally p [] = 0
tally p (x ∷ xs) = (if p x then 1 else 0) + tally p xs

below :
    (a b : ℕ) (xs : List ClientSnapshot)
    → a ≤ b
    → All (λ y. y.total_requests ≤ a) xs
    → All (λ y. y.total_requests ≤ b) xs
below a b [] h p = tt
below a b (x ∷ xs) h p = (omega (arith, p.0), below a b xs h p.1)

insert_below :
    (b : ℕ) (x : ClientSnapshot) (xs : List ClientSnapshot)
    → x.total_requests ≤ b
    → All (λ y. y.total_requests ≤ b) xs
    → All (λ y. y.total_requests ≤ b) (insert x xs)
unfolding insert
insert_below b x [] h p = (h, tt)
insert_below b x (y ∷ ys) h p = ground (arith, insert_below b x ys h p.1)

insert-IsSorted :
    (x : ClientSnapshot) (xs : List ClientSnapshot) → IsSorted xs → IsSorted (insert x xs)
unfolding insert
insert-IsSorted x [] h = (tt, tt)
insert-IsSorted x (y ∷ ys) h = ground (
  arith,
  insert-IsSorted x ys h.1,
  insert_below y.total_requests x ys,
  below y.total_requests x.total_requests ys,
)

tally-insert :
    (p : ClientSnapshot → Bool) (x : ClientSnapshot) (xs : List ClientSnapshot)
    → tally p (insert x xs) ≡ tally p (x ∷ xs)
unfolding insert
tally-insert p x [] = refl
tally-insert p x (y ∷ ys) = ground (arith, tally-insert p x ys)

pub sort-IsSorted : (xs : List ClientSnapshot) → IsSorted (sort xs)
unfolding sort
sort-IsSorted [] = tt
sort-IsSorted (x ∷ xs) = insert-IsSorted x (sort xs) (sort-IsSorted xs)

pub tally-sort :
    (p : ClientSnapshot → Bool) (xs : List ClientSnapshot) → tally p (sort xs) ≡ tally p xs
unfolding sort
tally-sort p [] = refl
tally-sort p (x ∷ xs) = omega (arith, tally-insert p x (sort xs), tally-sort p xs)

-- A snapshot lists the clients by falling totals, and each client's report as often as the registry
-- has it (once for each entry, brought to the present).
pub snapshot_clients :
    (now : ℕ) (proc : ProcessSnapshot) (c : Collector)
    → IsSorted (snapshot now proc c).0.clients
      × ((p : ClientSnapshot → Bool)
          → tally p (snapshot now proc c).0.clients
            ≡ tally p (map (report now) (values (refresh_all now c.entries))))
unfolding snapshot
snapshot_clients now proc c = (sort-IsSorted _, λ p. tally-sort p _)

length-refresh_all :
    (now : ℕ) (es : Dict String ClientMetricsEntry) → length (refresh_all now es) ≡ length es
unfolding refresh_all
length-refresh_all now [] = refl
length-refresh_all now ((uuid, e) ∷ es) = omega (arith, length-refresh_all now es)

-- Rates below rates, in each field.
unfoldable pub AtMost : Rates → Rates → Type 0
AtMost a b =
    (a.connected_clients ≤ b.connected_clients)
    × (a.req_per_sec ≤ b.req_per_sec)
    × (a.req_per_hour ≤ b.req_per_hour)
    × (a.req_per_day ≤ b.req_per_day)

-- The peaks of a snapshot are the collector's new ones; those of the four rates are at least the
-- snapshot's rates and at least the old peaks, that of the resident memory is at least the present
-- one, and the number of connected clients is that of the entries.
pub snapshot_peaks :
    (now : ℕ) (proc : ProcessSnapshot) (c : Collector)
    → let r = snapshot now proc c in
      AtMost r.0.global r.0.peak.rates
      × AtMost c.peak.rates r.1.peak.rates
      × (r.0.peak ≡ r.1.peak)
      × (r.0.global.connected_clients ≡ length c.entries)
      × (proc.rss_bytes ≤ r.0.peak.rss_bytes)
unfolding snapshot raise_peak AtMost
snapshot_peaks now proc c = ground (arith, length-refresh_all now c.entries)

abbrev pub recorded_at : ℕ → Option ClientMetricsEntry → Option ClientMetricsEntry
recorded_at now none = none
recorded_at now (some e) = some (record_entry now e)

-- A request counts for the client that makes it and for no other; it counts nothing where no client
-- of that name is registered.
pub get-record_request :
    (uuid other : String) (now : ℕ) (c : Collector)
    → (get other (record_request uuid now c).entries
        ≡ (if uuid == other then recorded_at now (get other c.entries) else get other c.entries))
      × ((record_request uuid now c).peak ≡ c.peak)
unfolding record_request
get-record_request uuid other now c = elim (Option-cases (get uuid c.entries)) [
  | inl e ↦ ground (arith, string_eq.beq_iff uuid other)
  | inr f ↦
      ground
        (arith, string_eq.beq_iff uuid other, get-put uuid other (record_entry now f.0) c.entries)
]
