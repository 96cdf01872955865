-- ===== src/Config/Schema.antt =====
-- ConfigSchema of config.ts: what zod's parse makes of a value, none where it throws. A missing field is
-- `none`; `decimal` is `String` of a number.
pub mod Soundness
use Prim.Native.String.{◌++◌ as join}
use dicode_relay.Common.{
  ℕ, String, List, [], ◌∷◌, Option, none, some, or_else, Bool, true, false, if◌then◌else◌, ◌==◌,
  string_eq, ℤ, pos, negsuc, Dict, ◌>>=◌, ltb,
}
use dicode_relay.Broker.Providers.{ProviderEntry}
use dicode_relay.Config.Interpolation.{
  Yaml, null, string, bool, whole, seq, object, Items, nil, item, Fields, end, field,
}

pub record Tls : Type 0 where
  pub cert_file : String
  pub key_file : String

pub record Mtls : Type 0 where
  pub port : ℤ
  pub cert_file : String
  pub key_file : String

pub record ServerConfig : Type 0 where
  pub port : ℤ
  pub multi_instance : Bool
  pub base_url : String
  pub tls : Tls
  pub mtls : Mtls

pub record StatusConfig : Type 0 where
  pub password : Option String

pub record RelaySection : Type 0 where
  pub timestamp_tolerance_s : ℤ
  pub ping_interval_ms : ℤ
  pub pong_timeout_ms : ℤ
  pub request_timeout_ms : ℤ
  pub max_pending_per_client : ℤ
  pub max_buffered_bytes : ℤ
  pub max_body_bytes : ℤ

pub record BrokerConfig : Type 0 where
  pub session_ttl_ms : ℤ
  pub signing_key_file : String
  pub providers : Dict String ProviderEntry

pub record RelayConfig : Type 0 where
  pub server : ServerConfig
  pub status : StatusConfig
  pub relay : RelaySection
  pub broker : BrokerConfig

-- The value of a key; the last one, where a key stands twice.
unfoldable pub lookup : String → Fields → Option Yaml
lookup k end = none
lookup k (field j v fs) = elim (lookup k fs) [
  | none ↦ if j == k then some v else none
  | some w ↦ some w
]

-- z.object
unfoldable pub fields_of : Yaml → Option Fields
fields_of (object fs) = some fs
fields_of _ = none

-- z.string()
unfoldable pub as_string : Yaml → Option String
as_string (string s) = some s
as_string _ = none

-- z.boolean()
unfoldable pub as_boolean : Yaml → Option Bool
as_boolean (bool b) = some b
as_boolean _ = none

-- z.number().int()
unfoldable pub as_int : Yaml → Option ℤ
as_int (whole n) = some n
as_int _ = none

-- z.number().int().positive()
unfoldable pub as_positive : Yaml → Option ℤ
as_positive (whole (pos n)) = if ltb 0 n then some (pos n) else none
as_positive _ = none

-- z.string().min(1).nullish(), then `v ?? undefined`.
unfoldable pub as_filled : Option Yaml → Option (Option String)
as_filled none = some none
as_filled (some null) = some none
as_filled (some (string s)) = if s == "" then none else some (some s)
as_filled (some _) = none

-- z.array(z.string())
unfoldable pub as_strings : Items → Option (List String)
as_strings nil = some []
as_strings (item v vs) = do s ← as_string v; ss ← as_strings vs; some (s ∷ ss)

unfoldable pub as_list : Yaml → Option (List String)
as_list (seq vs) = as_strings vs
as_list _ = none

-- `.default(d)`
unfoldable pub with_default {ℓ} : {A : Type ℓ} → A → (Yaml → Option A) → Option Yaml → Option A
with_default d parse none = some d
with_default d parse (some v) = parse v

-- `.optional()`
unfoldable pub optional {ℓ} : {A : Type ℓ} → (Yaml → Option A) → Option Yaml → Option (Option A)
optional parse none = some none
optional parse (some v) = do a ← parse v; some (some a)

unfoldable pub parse_provider : Yaml → Option ProviderEntry
parse_provider v = do
  fs ← fields_of v
  client_id ← with_default "" as_string (lookup "client_id" fs)
  client_secret ← optional as_string (lookup "client_secret" fs)
  pkce ← with_default true as_boolean (lookup "pkce" fs)
  scopes ← with_default [] as_list (lookup "scopes" fs)
  some (record {
    client_id = client_id;
    client_secret = client_secret;
    pkce = pkce;
    scopes = scopes;
  })

unfoldable pub parse_tls : Yaml → Option Tls
parse_tls v = do
  fs ← fields_of v
  cert_file ← with_default "" as_string (lookup "cert_file" fs)
  key_file ← with_default "" as_string (lookup "key_file" fs)
  some (record { cert_file = cert_file; key_file = key_file })

unfoldable pub parse_mtls : Yaml → Option Mtls
parse_mtls v = do
  fs ← fields_of v
  port ← with_default (pos 5554) as_int (lookup "port" fs)
  cert_file ← with_default "" as_string (lookup "cert_file" fs)
  key_file ← with_default "" as_string (lookup "key_file" fs)
  some (record { port = port; cert_file = cert_file; key_file = key_file })

abbrev pub tls_default : Tls
tls_default = record { cert_file = ""; key_file = "" }

abbrev pub mtls_default : Mtls
mtls_default = record { port = pos 5554; cert_file = ""; key_file = "" }

-- The outer transform of ServerSchema.
unfoldable pub base_url_of : (ℤ → String) → ℤ → Option String → String
base_url_of decimal port none = join "http://localhost:" (decimal port)
base_url_of decimal port (some url) =
    if url == "" then join "http://localhost:" (decimal port) else url

module _ (decimal : ℤ → String) where
  unfoldable pub server_of : ℤ → Bool → Option String → Tls → Mtls → ServerConfig
  server_of port multi_instance base_url tls mtls = record {
    port = port;
    multi_instance = multi_instance;
    base_url = base_url_of decimal port base_url;
    tls = tls;
    mtls = mtls;
  }

  unfoldable pub parse_server : Yaml → Option ServerConfig
  parse_server v = do
    fs ← fields_of v
    port ← with_default (pos 5553) as_int (lookup "port" fs)
    multi_instance ← with_default false as_boolean (lookup "multi_instance" fs)
    base_url ← as_filled (lookup "base_url" fs)
    tls ← with_default tls_default parse_tls (lookup "tls" fs)
    mtls ← with_default mtls_default parse_mtls (lookup "mtls" fs)
    some (server_of port multi_instance base_url tls mtls)

unfoldable pub parse_status : Yaml → Option StatusConfig
parse_status v = do
  fs ← fields_of v
  password ← as_filled (lookup "password" fs)
  some (record { password = password })

unfoldable pub parse_relay : Yaml → Option RelaySection
parse_relay v = do
  fs ← fields_of v
  tolerance ← with_default (pos 30) as_int (lookup "timestamp_tolerance_s" fs)
  ping ← with_default (pos 30000) as_int (lookup "ping_interval_ms" fs)
  pong ← with_default (pos 10000) as_int (lookup "pong_timeout_ms" fs)
  request ← with_default (pos 30000) as_int (lookup "request_timeout_ms" fs)
  pending ← with_default (pos 256) as_positive (lookup "max_pending_per_client" fs)
  buffered ← with_default (pos 16777216) as_positive (lookup "max_buffered_bytes" fs)
  body ← with_default (pos 5242880) as_positive (lookup "max_body_bytes" fs)
  some (record {
    timestamp_tolerance_s = tolerance;
    ping_interval_ms = ping;
    pong_timeout_ms = pong;
    request_timeout_ms = request;
    max_pending_per_client = pending;
    max_buffered_bytes = buffered;
    max_body_bytes = body;
  })

-- z.record(z.string(), ProviderSchema)
unfoldable pub parse_entries : Fields → Option (Dict String ProviderEntry)
parse_entries end = some []
parse_entries (field k v fs) = do
  entry ← parse_provider v
  entries ← parse_entries fs
  some ((k, entry) ∷ entries)

unfoldable pub parse_providers : Yaml → Option (Dict String ProviderEntry)
parse_providers v = do fs ← fields_of v; parse_entries fs

unfoldable pub parse_broker : Yaml → Option BrokerConfig
parse_broker v = do
  fs ← fields_of v
  ttl ← with_default (pos 300000) as_int (lookup "session_ttl_ms" fs)
  key_file ← with_default "" as_string (lookup "signing_key_file" fs)
  providers ← with_default [] parse_providers (lookup "providers" fs)
  some (record { session_ttl_ms = ttl; signing_key_file = key_file; providers = providers })

-- What a section that is missing parses to: the schema of an empty object, which never throws.
unfoldable pub section {ℓ} : {A : Type ℓ} → (Yaml → Option A) → Option Yaml → Option A
section parse none = parse (object end)
section parse (some v) = parse v

unfoldable pub parse_config : (ℤ → String) → Yaml → Option RelayConfig
parse_config decimal v = do
  fs ← fields_of v
  server ← section (parse_server decimal) (lookup "server" fs)
  status ← section parse_status (lookup "status" fs)
  relay ← section parse_relay (lookup "relay" fs)
  broker ← section parse_broker (lookup "broker" fs)
  some (record { server = server; status = status; relay = relay; broker = broker })

unfoldable pub default_config : (ℤ → String) → Option RelayConfig
default_config decimal = parse_config decimal (object end)
