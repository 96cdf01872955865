-- ===== src/Start/Wiring.antt =====
-- What startServer of start.ts makes of its options and of the configuration: where the configuration
-- comes from, the options of the relay, and the providers of the broker with the mock.
use dicode_relay.Common.{
  ℕ, ◌<◌, String, List, [], ◌∷◌, Option, none, some, Bool, true, ◌&&◌, not, if◌then◌else◌, ◌==◌,
  string_eq, Dict, get, put, has, ℤ, pos, negsuc, ◌≡◌, arith, count, inl, inr, Option-cases,
}
use dicode_relay.Shared.Platform.{Platform}
use dicode_relay.Shared.Preimage.{Crypto}
use dicode_relay.Relay.State.{
  Server, Options, ConnectedClient, Headers, Request, socket, sends, issues, request,
}
use dicode_relay.Relay.Pending.{ok, forward, issue}
use dicode_relay.Relay.Forwards.Counts.{issued_to}
use dicode_relay.Relay.Forwards.Books.{Inv}
use dicode_relay.Relay.Admission.{forward_room, issue-pending, issue-log}
use dicode_relay.Broker.Query.{Query}
use dicode_relay.Broker.Providers.{ProviderConfig}
use dicode_relay.Broker.E2eMock.{mock_provider_key, is_e2e_mock_enabled}
use dicode_relay.Broker.Auth.{refuses, handle_auth}
use dicode_relay.Config.Interpolation.{Yaml}
use dicode_relay.Config.Schema.{Tls, RelayConfig, parse_config}
use dicode_relay.Config.Schema.Soundness.{IsPositive, IsSound, parse_config-IsSound}
use dicode_relay.Config.Load.{LoadResult, loaded, bad_config, load_config}

-- The configuration of a start: `both_given` where the options carry a path and a value.
pub data ConfigResult : Type 0 where
  both_given : ConfigResult
  gives : LoadResult → ConfigResult

unfoldable pub revalidate : (ℤ → String) → Yaml → LoadResult
revalidate decimal v = elim (parse_config decimal v) [
  | none ↦ bad_config
  | some config ↦ loaded config
]

unfoldable pub config_of :
    (ℤ → String)
    → (String → Option Yaml)
    → Dict String String
    → Dict String String
    → (path : Option String) → (config : Option Yaml) → ConfigResult
config_of decimal yaml_load env files (some path) (some config) = both_given
config_of decimal yaml_load env files none (some config) = gives (revalidate decimal config)
config_of decimal yaml_load env files path none =
    gives (load_config decimal yaml_load env path files)

-- A number of the configuration as a count.
unfoldable pub magnitude : ℤ → ℕ
magnitude (pos n) = n
magnitude (negsuc n) = 0

unfoldable pub relay_options : RelayConfig → String → Options
relay_options config broker_pubkey = record {
  base_url = config.server.base_url;
  max_pending_per_client = magnitude config.relay.max_pending_per_client;
  max_buffered_bytes = magnitude config.relay.max_buffered_bytes;
  broker_pubkey = some broker_pubkey;
}

-- The public listener has TLS of its own.
unfoldable pub is_https : Tls → Bool
is_https tls = not (tls.cert_file == "") && not (tls.key_file == "")

abbrev pub mock_config : ProviderConfig
mock_config = record {
  grant_key = mock_provider_key;
  client_id = "mock-e2e-not-a-real-credential";
  client_secret = none;
  pkce = true;
  scopes = [];
}

-- The providers that the broker's router takes; grant gets the real ones.
unfoldable pub broker_providers :
    (enabled : Bool) → Dict String ProviderConfig → Dict String ProviderConfig
broker_providers enabled real = if enabled then put mock_provider_key mock_config real else real

-- In production the mock provider does not exist, whatever the flag says: its start route answers that
-- the provider is unknown, where no provider of that name is configured.
pub handle_auth-production :
    (trim lower : String → String) (node_env : String) (flag : Option String) (c : Crypto)
    (s : Server) (real : Dict String ProviderConfig) (tolerance : ℕ) (q : Query) (now_ms : ℕ)
    → lower (trim node_env) ≡ "production"
    → get "mock" real ≡ none
    → handle_auth c s
        (broker_providers (is_e2e_mock_enabled trim lower (some node_env) flag) real)
        tolerance
        (some "mock")
        q
        now_ms
      ≡ refuses 404 "unknown provider: mock"
unfolding handle_auth broker_providers is_e2e_mock_enabled has
handle_auth-production trim lower node_env flag c s real tolerance q now_ms production absent =
    rw (production, absent)

positive_lem : (n : ℤ) → IsPositive n → 0 < magnitude n
unfolding magnitude
positive_lem (pos n) h = h
positive_lem (negsuc n) h = absurd h

revalidate-IsSound :
    (decimal : ℤ → String) (v : Yaml) (config : RelayConfig)
    → revalidate decimal v ≡ loaded config
    → IsSound config
unfolding revalidate
revalidate-IsSound decimal v config h = elim (Option-cases (parse_config decimal v)) [
  | inl n ↦ absurd (ground arith)
  | inr k ↦ parse_config-IsSound decimal v config (ground (arith, k.1))
]

-- A start under a configuration that the schema accepts has a relay that can serve: a registered daemon
-- with no request pending, whose socket is open and has nothing in its buffer, is sent the next request,
-- whole and under its id, and the request is pending for it.
pub forward-relay_options :
    (decimal : ℤ → String) (v : Yaml) (config : RelayConfig) (broker_pubkey : String) (p : Platform)
    (id uuid method path : String) (headers : Headers) (body : List ℕ) (s : Server)
    (client : ConnectedClient)
    → revalidate decimal v ≡ loaded config
    → s.options ≡ relay_options config broker_pubkey
    → Inv s
    → get uuid s.clients ≡ some client
    → count (issued_to uuid) s.pending ≡ 0
    → (socket client.ws s).buffered_amount ≡ 0
    → (socket client.ws s).is_open ≡ true
    → (t : Server) × (forward p id uuid method path headers body s ≡ ok t)
      × (get id t.pending ≡ some (record { uuid = uuid }))
      × (t.log
          ≡ sends client.ws (
              request (record {
                id = id;
                method = method;
                path = path;
                headers = headers;
                body = p.encode_base64 body;
              }))
            ∷ issues id
            ∷ s.log)
unfolding relay_options
forward-relay_options decimal v config broker_pubkey p id uuid method path headers body s client
      accepted options inv registered idle drained opened =
    let sound = revalidate-IsSound decimal v config accepted in
    let room : 0 < s.max_pending_per_client =
      rw options (positive_lem config.relay.max_pending_per_client sound.2.0) in
    let req : Request = record {
      id = id;
      method = method;
      path = path;
      headers = headers;
      body = p.encode_base64 body;
    } in
    (
      issue req client uuid s,
      forward_room p id uuid method path headers body s client inv registered
          (omega (arith, drained)) (omega (arith, idle, room)),
      issue-pending req client uuid s,
      issue-log req client uuid s opened,
    )
