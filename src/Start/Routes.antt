-- ===== src/Start/Routes.antt =====
-- The routes of start.ts around forwardToClient: the path that is forwarded, the HTTP answer of a settled
-- forward, GET /providers, the TLS choice and the closing of the listeners.
use Prim.Native.Char.{Char, code}
use Prim.Native.String.{◌++◌ as join}
use Prim.Native.String.append
use dicode_relay.Common.{
  ℕ, String, List, [], ◌∷◌, ◌++◌, Option, none, some, Bool, true, false, not, if◌then◌else◌, ◌==◌,
  nat_eq, string_eq, Dict, ℤ,
}
use dicode_relay.Relay.State.{ForwardResponse, Headers}
use dicode_relay.Broker.Providers.{ProviderConfig}

-- `originalUrl` from the first `?` on.
unfoldable pub raw_query : String → String
raw_query String.[] = ""
raw_query (String.◌∷◌ c s) = let rest = raw_query s in if code c == 63 then String.◌∷◌ c s else rest

-- `join("/")` of the segments of a wildcard. Express 5 gives them percent-decoded, so that a segment may
-- hold any character.
unfoldable pub join_path : List String → String
join_path [] = ""
join_path (x ∷ []) = x
join_path (x ∷ y ∷ rest) = join x (join "/" (join_path (y ∷ rest)))

unfoldable pub sdk_path : String → String
sdk_path original_url = join "/dicode.js" (raw_query original_url)

unfoldable pub hook_path : List String → String → String
hook_path path original_url = join "/hooks/" (join (join_path path) (raw_query original_url))

-- The headers of a request: those without a value are left out.
unfoldable pub header_lists : List (String × Option (List String)) → Headers
header_lists [] = []
header_lists ((k, none) ∷ rest) = header_lists rest
header_lists ((k, some vs) ∷ rest) = (k, vs) ∷ header_lists rest

unfoldable pub append_all : String → List String → List (String × String)
append_all k [] = []
append_all k (v ∷ vs) = (k, v) ∷ append_all k vs

unfoldable pub flatten_headers : Headers → List (String × String)
flatten_headers [] = []
flatten_headers ((k, vs) ∷ rest) = append_all k vs ++ flatten_headers rest

pub record HttpAnswer : Type 0 where
  pub status : ℤ
  pub headers : List (String × String)
  pub body : List ℕ

-- The `then` of the forward.
unfoldable pub answer_of : (String → List ℕ) → ForwardResponse → HttpAnswer
answer_of from_base64 r = record {
  status = r.status;
  headers = flatten_headers r.headers;
  body = if r.body == "" then [] else from_base64 r.body;
}

pub record PublicProviderInfo : Type 0 where
  pub key : String
  pub pkce : Bool
  pub scopes : List String
  pub secret_required : Bool
  pub configured : Bool

unfoldable pub has_secret : Option String → Bool
has_secret none = false
has_secret (some s) = true

unfoldable pub public_info : String → ProviderConfig → PublicProviderInfo
public_info key cfg = record {
  key = key;
  pkce = cfg.pkce;
  scopes = cfg.scopes;
  secret_required = has_secret cfg.client_secret;
  configured = not (cfg.client_id == "");
}

unfoldable pub list_providers : Dict String ProviderConfig → List PublicProviderInfo
list_providers [] = []
list_providers ((key, cfg) ∷ rest) = public_info key cfg ∷ list_providers rest

-- Both listeners after the relay server is closed; `err` is what `close` of a bound one gives.
unfoldable pub close_listener : (listening : Bool) → (err : Option String) → Option String
close_listener listening err = if listening then err else none

unfoldable pub close_listeners : Bool → Option String → Bool → Option String → Option String
close_listeners http http_err mtls mtls_err = elim (close_listener http http_err) [
  | none ↦ close_listener mtls mtls_err
  | some e ↦ some e
]

-- Whether a text has a `?`.
abbrev pub has_query : String → Bool
has_query String.[] = false
has_query (String.◌∷◌ c s) = if code c == 63 then true else has_query s
