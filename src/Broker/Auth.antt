-- ===== src/Broker/Auth.antt =====
-- GET /auth/:provider of broker/router.ts. `now_ms` is Date.now(), `encode` encodeURIComponent, and the
-- registry is that of the relay.
pub mod Guards
use Prim.Native.String.{◌++◌ as join}
use dicode_relay.Common.{
  ℕ, ◌+◌, ◌*◌, ◌/◌, String, List, [], ◌∷◌, Option, none, some, or_else, Bool, true, false, ltb, not,
  if◌then◌else◌, ◌==◌, string_eq, Dict, has, ℤ, pos, negsuc, dist_ℤ,
}
use dicode_relay.Relay.State.{Server, ConnectedClient}
use dicode_relay.Relay.Pending.{get_client, ok, throw}
use dicode_relay.Shared.Preimage.{Crypto, build_signed_payload, verify_ecdsa}
use dicode_relay.Shared.SigningKey.{truthy}
use dicode_relay.Broker.Query.{Query, param, is_relay_uuid, parse_int}
use dicode_relay.Broker.Sessions.{Session}
use dicode_relay.Broker.FlowState.{Codec, seal_flow_state}
use dicode_relay.Broker.Providers.{ProviderConfig}

abbrev pub flow_ttl_ms : ℕ
flow_ttl_ms = 5 * 60 * 1000

-- `throws` is the RangeError of writeBigUInt64BE on a timestamp below 0.
pub data AuthResult : Type 0 where
  refuses : (status : ℕ) (error : String) → AuthResult
  throws : AuthResult
  accepts : Session → AuthResult

pub record AuthRequest : Type 0 where
  pub session : String
  pub challenge : String
  pub relay_uuid : String
  pub sig : String
  pub timestamp : String
  pub scope : Option String

-- The tests for missing parameters, in their order; `inr` of the source is the request they leave.
pub data Read : Type 0 where
  missing : String → Read
  given : AuthRequest → Read

unfoldable pub read_request : Query → Read
read_request q =
    if not (truthy (param "session" q))
    then missing "missing session"
    else if not (truthy (param "challenge" q))
    then missing "missing challenge"
    else if not (truthy (param "relay_uuid" q))
    then missing "missing relay_uuid"
    else if not (truthy (param "sig" q))
    then missing "missing sig"
    else if not (truthy (param "timestamp" q))
    then missing "missing timestamp"
    else given (record {
      session = or_else (param "session" q) "";
      challenge = or_else (param "challenge" q) "";
      relay_uuid = or_else (param "relay_uuid" q) "";
      sig = or_else (param "sig" q) "";
      timestamp = or_else (param "timestamp" q) "";
      scope = param "scope" q;
    })

unfoldable pub flow_of : AuthRequest → String → ConnectedClient → ℕ → Session
flow_of r provider client now_ms = record {
  session_id = r.session;
  relay_uuid = r.relay_uuid;
  pubkey = client.decrypt_pubkey;
  pkce_challenge = r.challenge;
  provider = provider;
  expires_at = now_ms + flow_ttl_ms;
  scope = if truthy r.scope then r.scope else none;
}

-- The signature against the key of the daemon's certificate.
unfoldable pub check_signature :
    Crypto → AuthRequest → String → ConnectedClient → ℕ → ℤ → AuthResult
check_signature c r provider client now_ms (negsuc n) = throws
check_signature c r provider client now_ms (pos ts) =
    if verify_ecdsa c client.pubkey
      (build_signed_payload c r.session r.challenge r.relay_uuid provider ts) r.sig
    then accepts (flow_of r provider client now_ms)
    else refuses 403 "invalid signature"

unfoldable pub check_client : Crypto → Server → AuthRequest → String → ℕ → ℤ → AuthResult
check_client c s r provider now_ms ts = elim (get_client s r.relay_uuid) [
  | throw f ↦ refuses 403 "daemon not connected"
  | ok client ↦ check_signature c r provider client now_ms ts
]

unfoldable pub check_time : Crypto → Server → ℕ → AuthRequest → String → ℕ → Option ℤ → AuthResult
check_time c s tolerance r provider now_ms none = refuses 400 "invalid timestamp"
check_time c s tolerance r provider now_ms (some ts) =
    if ltb tolerance (dist_ℤ (pos (now_ms / 1000)) ts)
    then refuses 403 "timestamp out of range"
    else check_client c s r provider now_ms ts

unfoldable pub check_request : Crypto → Server → ℕ → String → ℕ → Read → AuthResult
check_request c s tolerance provider now_ms (missing error) = refuses 400 error
check_request c s tolerance provider now_ms (given r) =
    if is_relay_uuid r.relay_uuid
    then check_time c s tolerance r provider now_ms (parse_int r.timestamp)
    else refuses 400 "invalid relay_uuid format"

unfoldable pub handle_auth :
    Crypto → Server → Dict String ProviderConfig → ℕ → Option String → Query → ℕ → AuthResult
handle_auth c s providers tolerance none q now_ms = refuses 400 "missing provider"
handle_auth c s providers tolerance (some provider) q now_ms =
    if has provider providers
    then check_request c s tolerance provider now_ms (read_request q)
    else refuses 404 (join "unknown provider: " provider)

-- What an accepted request leaves in the cookie, and where it is redirected to.
pub record Redirect : Type 0 where
  pub cookie : String
  pub location : String

unfoldable pub redirect : Codec → (String → String) → List ℕ → List ℕ → Session → Redirect
redirect codec encode key iv flow = record {
  cookie = seal_flow_state codec key iv flow;
  location = join "/connect/" (
      join flow.provider (
        join "?state=" (
          join (encode flow.session_id)
            (if truthy flow.scope then join "&scope=" (encode (or_else flow.scope "")) else ""))));
}
