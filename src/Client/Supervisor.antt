-- ===== src/Client/Supervisor.antt =====
-- The class RelayClient of client/client.ts: one connection for each URL, and the status that is published
-- whenever a connection reports one. The connections run side by side, so the reports are a list in the
-- order in which they arrive.
use dicode_relay.Common.{
  String, List, [], ◌∷◌, ◌++◌, map, Option, none, Bool, true, inl, inr, Bool-cases, false, ltb,
  if◌then◌else◌, ◌==◌, string_eq, Dict, get, put, values, length, ◌≡◌, refl, ap, ◌∙◌, arith, sym,
  append_nil, get-put, append_assoc,
}
use dicode_relay.Client.Endpoint.{RelayEndpointStatus}
use dicode_relay.Client.Aggregate.{RelayStatus, aggregate_status}
use dicode_relay.Client.Urls.{urls, mem, AreUsable, resolve_server_urls, resolve_server_urls_iff}

unfoldable pub initial_status : String → RelayEndpointStatus
initial_status url = record {
  server_url = url;
  connected = false;
  hook_base_url = none;
  broker_pubkey = none;
  reconnect_attempts = 0;
  last_error = none;
  last_connected_at = none;
}

-- The loop that fills the map of the endpoints.
unfoldable pub enter :
    List String → Dict String RelayEndpointStatus → Dict String RelayEndpointStatus
enter [] endpoints = endpoints
enter (u ∷ us) endpoints = enter us (put u (initial_status u) endpoints)

unfoldable pub on_status :
    Bool
    → RelayEndpointStatus
    → Dict String RelayEndpointStatus
    → RelayStatus × Dict String RelayEndpointStatus
on_status multi s endpoints =
    let next = put s.server_url s endpoints in (aggregate_status (values next) multi, next)

-- What is published for the reports.
unfoldable pub publish :
    Bool → List RelayEndpointStatus → Dict String RelayEndpointStatus → List RelayStatus
publish multi [] endpoints = []
publish multi (s ∷ ss) endpoints = let r = on_status multi s endpoints in r.0 ∷ publish multi ss r.1

unfoldable pub run_client : List String → List RelayEndpointStatus → List RelayStatus
run_client us reports = publish (ltb 1 (length us)) reports (enter us [])

-- The last report of each URL, as a function.
abbrev pub reported :
    RelayEndpointStatus → (String → RelayEndpointStatus) → String → RelayEndpointStatus
reported s f u = if u == s.server_url then s else f u

-- The statuses of the URLs in the order of the configuration, aggregated after each report.
abbrev pub shown :
    List String
    → Bool
    → (String → RelayEndpointStatus)
    → List RelayEndpointStatus
    → List RelayStatus
shown us multi f [] = []
shown us multi f (s ∷ ss) =
    aggregate_status (map (reported s f) us) multi ∷ shown us multi (reported s f) ss

-- Each report is one of a configured URL.
abbrev pub AreFrom : List String → List RelayEndpointStatus → Type 0
AreFrom us [] = Unit
AreFrom us (s ∷ ss) = (mem s.server_url us ≡ true) × AreFrom us ss

abbrev tabulate : (String → RelayEndpointStatus) → List String → Dict String RelayEndpointStatus
tabulate f [] = []
tabulate f (u ∷ us) = (u, f u) ∷ tabulate f us

values-tabulate :
    (f : String → RelayEndpointStatus) (us : List String) → values (tabulate f us) ≡ map f us
values-tabulate f [] = refl
values-tabulate f (u ∷ us) = ap (◌∷◌ (f u)) (values-tabulate f us)

tabulate-reported_absent :
    (s : RelayEndpointStatus) (f : String → RelayEndpointStatus) (us : List String)
    → mem s.server_url us ≡ false
    → tabulate (reported s f) us ≡ tabulate f us
unfolding mem
tabulate-reported_absent s f [] h = refl
tabulate-reported_absent s f (u ∷ us) h = ground (arith, tabulate-reported_absent s f us)

put-tabulate :
    (s : RelayEndpointStatus) (f : String → RelayEndpointStatus) (us : List String)
    → AreUsable us
    → mem s.server_url us ≡ true
    → put s.server_url s (tabulate f us) ≡ tabulate (reported s f) us
unfolding mem put
put-tabulate s f [] h m = cc
put-tabulate s f (u ∷ us) h m = elim (Bool-cases (u == s.server_url)) [
  | inl e ↦ ground (arith, string_eq.beq_iff u s.server_url, tabulate-reported_absent s f us)
  | inr e ↦ ground (arith, put-tabulate s f us)
]

publish-tabulate :
    (us : List String) (multi : Bool) (f : String → RelayEndpointStatus)
    (ss : List RelayEndpointStatus)
    → AreUsable us
    → AreFrom us ss
    → publish multi ss (tabulate f us) ≡ shown us multi f ss
unfolding publish on_status
publish-tabulate us multi f [] h a = refl
publish-tabulate us multi f (s ∷ ss) h a = rw (
  put-tabulate s f us h a.0,
  values-tabulate (reported s f) us,
  publish-tabulate us multi (reported s f) ss h a.1,
)

-- None of the URLs is a key.
abbrev AreAbsent : Dict String RelayEndpointStatus → List String → Type 0
AreAbsent m [] = Unit
AreAbsent m (u ∷ us) = (get u m ≡ none) × AreAbsent m us

absent_nil : (us : List String) → AreAbsent [] us
unfolding get
absent_nil [] = tt
absent_nil (u ∷ us) = (refl, absent_nil us)

AreAbsent-put :
    (u : String) (v : RelayEndpointStatus) (m : Dict String RelayEndpointStatus) (us : List String)
    → mem u us ≡ false
    → AreAbsent m us
    → AreAbsent (put u v m) us
unfolding mem
AreAbsent-put u v m [] h a = tt
AreAbsent-put u v m (w ∷ us) h a =
    ground
      (arith, get-put u w v m, string_eq.beq_iff u w, string_eq.beq_iff w u, AreAbsent-put u v m us)

put_absent :
    (u : String) (v : RelayEndpointStatus) (m : Dict String RelayEndpointStatus)
    → get u m ≡ none
    → put u v m ≡ m ++ ((u, v) ∷ [])
unfolding get put
put_absent u v [] h = refl
put_absent u v ((w, x) ∷ m) h = ground (arith, put_absent u v m)

enter-tabulate :
    (us : List String) (m : Dict String RelayEndpointStatus)
    → AreUsable us
    → AreAbsent m us
    → enter us m ≡ m ++ tabulate initial_status us
unfolding enter
enter-tabulate [] m h a = sym (append_nil m)
enter-tabulate (u ∷ us) m h a =
    enter-tabulate us (put u (initial_status u) m) h.2
      (AreAbsent-put u (initial_status u) m us h.1 a.1)
    ∙ rw (
      put_absent u (initial_status u) m a.0,
      append_assoc m ((u, initial_status u) ∷ []) (tabulate initial_status us),
    )

-- For a list of URLs that the constructor accepts, and reports of these URLs, the status that is published
-- on each report is the aggregate of the last report of each URL, the URLs in their configured order, with
-- the initial status for a URL that has not reported.
pub run_client-shown :
    (one : Option String) (many : Option (List String)) (us : List String)
    (reports : List RelayEndpointStatus)
    → resolve_server_urls one many ≡ urls us
    → AreFrom us reports
    → run_client us reports ≡ shown us (ltb 1 (length us)) initial_status reports
unfolding run_client
run_client-shown one many us reports h a =
    let usable = (resolve_server_urls_iff one many us).0 h in
    ap (publish (ltb 1 (length us)) reports) (enter-tabulate us [] usable.2 (absent_nil us))
    ∙ publish-tabulate us (ltb 1 (length us)) initial_status reports usable.2 a
