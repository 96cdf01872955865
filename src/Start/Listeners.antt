-- ===== src/Start/Listeners.antt =====
-- The listeners that startServer of start.ts attaches to the relay's `client:connected` and
-- `client:disconnected`, and what the metrics hold while the server runs.
use dicode_relay.Common.{
  ℕ, String, List, [], ◌∷◌, string_eq, get, ◌≡◌, refl, ap, ◌∙◌, arith, is_some, eq_iff, get-put,
  get-delete, Option-cases, inl, inr,
}
use dicode_relay.Shared.Platform.{Platform}
use dicode_relay.Relay.State.{Server, Options, Effect, connected, disconnected, start}
use dicode_relay.Relay.Events.{Event, step, run}
use dicode_relay.Relay.Registry.Announcements.{announced, IsAnnounced, IsRunning, step-IsAnnounced}
use dicode_relay.Status.Metrics.{
  Collector, new_entry, register_client, remove_client, record_entry, record_request,
}

-- What the listeners do on an effect of the relay.
unfoldable pub hear : ℕ → Effect → Collector → Collector
hear now (connected uuid) m = register_client uuid now m
hear now (disconnected uuid) m = remove_client uuid m
hear now _ m = m

-- The collectors that a log of the relay can lead to, from one without entries: each effect is heard at
-- some time, and requests are recorded in between.
pub data Heard : List Effect → Collector → Type 0 where
  at_start : (m : Collector) → m.entries ≡ [] → Heard [] m
  hears :
      (now : ℕ) (e : Effect) (log : List Effect) (m : Collector)
      → Heard log m
      → Heard (e ∷ log) (hear now e m)
  records :
      (uuid : String) (now : ℕ) (log : List Effect) (m : Collector)
      → Heard log m
      → Heard log (record_request uuid now m)

hear_lem :
    (u : String) (now : ℕ) (e : Effect) (log : List Effect) (m : Collector)
    → is_some (get u m.entries) ≡ announced u log
    → is_some (get u (hear now e m).entries) ≡ announced u (e ∷ log)
unfolding hear register_client remove_client
hear_lem u now (connected v) log m h =
    ground (arith, get-put v u (new_entry v now) m.entries, eq_iff v u)
hear_lem u now (disconnected v) log m h = ground (arith, get-delete v u m.entries, eq_iff v u)
hear_lem u now _ log m h = h

record_request_lem :
    (u uuid : String) (now : ℕ) (m : Collector)
    → is_some (get u (record_request uuid now m).entries) ≡ is_some (get u m.entries)
unfolding record_request
record_request_lem u uuid now m = elim (Option-cases (get uuid m.entries)) [
  | inl n ↦ ground arith
  | inr e ↦ ground (arith, get-put uuid u (record_entry now e.0) m.entries, eq_iff uuid u)
]

Heard-announced :
    (u : String) (log : List Effect) (m : Collector)
    → Heard log m
    → is_some (get u m.entries) ≡ announced u log
unfolding get
Heard-announced u _ _ (at_start m e) = ap (λ k. is_some (get u k)) e
Heard-announced u _ _ (hears now e log m h) = hear_lem u now e log m (Heard-announced u log m h)
Heard-announced u _ _ (records uuid now log m h) =
    record_request_lem u uuid now m ∙ Heard-announced u log m h

abbrev pub AreRunning : List Event → Type 0
AreRunning [] = Unit
AreRunning (e ∷ es) = IsRunning e × AreRunning es

run-IsAnnounced :
    (p : Platform) (s : Server) (es : List Event)
    → AreRunning es
    → IsAnnounced s
    → IsAnnounced (run p s es)
unfolding run
run-IsAnnounced p s [] r v = v
run-IsAnnounced p s (e ∷ es) r v =
    run-IsAnnounced p (step p s e) es r.1 (step-IsAnnounced p s e r.0 v)

-- While the server runs, the status page knows exactly the registered daemons: whatever happened since
-- the start and whatever requests were recorded in between, the metrics have an entry for a uuid
-- exactly where the relay has a registered connection for it.
pub Heard-run :
    (p : Platform) (o : Options) (es : List Event) (m : Collector) (uuid : String)
    → AreRunning es
    → Heard (run p (start o) es).log m
    → is_some (get uuid m.entries) ≡ is_some (get uuid (run p (start o) es).clients)
unfolding start get
Heard-run p o es m uuid r h =
    Heard-announced uuid (run p (start o) es).log m h
    ∙ run-IsAnnounced p (start o) es r (λ u. refl) uuid
