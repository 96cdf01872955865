-- ===== src/Broker/E2eMock.antt =====
-- broker/e2e-mock.ts: the flag, GET /connect/mock and POST /_test/deliver. `trim` and `lower` are those
-- of JavaScript's strings, and `encode` is encodeURIComponent.
pub mod Laws
use Prim.Native.String.{◌++◌ as join}
use dicode_relay.Common.{
  ℕ, String, List, [], ◌∷◌, Option, none, some, or_else, Bool, true, false, not, ◌||◌, ◌&&◌, leb,
  if◌then◌else◌, ◌==◌, string_eq, has,
}
use dicode_relay.Shared.Platform.{Platform}
use dicode_relay.Shared.Preimage.{Crypto, build_delivery_signature_payload}
use dicode_relay.Shared.SigningKey.{truthy}
use dicode_relay.Shared.Ecies.{EciesPayload, delivery_type}
use dicode_relay.Shared.Delivery.{OauthTokenDeliveryPayload}
use dicode_relay.Relay.State.{Server, ConnectedClient}
use dicode_relay.Relay.Pending.{Result, get_client, ok, throw, forward}
use dicode_relay.Broker.Query.{Query, one, param}
use dicode_relay.Broker.Sessions.{Session}
use dicode_relay.Broker.FlowState.{Codec, open_flow_state}
use dicode_relay.Broker.FlowSession.{FlowSession, read_broker_flow, clear_broker_flow}
use dicode_relay.Broker.Callback.{Delivery}

abbrev pub mock_provider_key : String
mock_provider_key = "mock"

-- NODE_ENV and DICODE_E2E_MOCK_PROVIDER.
unfoldable pub is_e2e_mock_enabled :
    (String → String) → (String → String) → Option String → Option String → Bool
is_e2e_mock_enabled trim lower none flag = or_else flag "" == "1"
is_e2e_mock_enabled trim lower (some node_env) flag =
    if lower (trim node_env) == "production" then false else or_else flag "" == "1"

pub data MockReply : Type 0 where
  answers : (status : ℕ) (text : String) → MockReply
  redirects : (location : String) → MockReply

unfoldable pub callback_path : (String → String) → String → String
callback_path encode state = join "/callback/" (
    join mock_provider_key (
      join "?state=" (
        join (encode state)
          (join "&access_token=" (join (encode (join "mock-token-" state)) "&token_type=bearer")))))

unfoldable pub recover_session : Codec → List ℕ → Option String → Option Session
recover_session codec key none = none
recover_session codec key (some token) = open_flow_state codec key token

unfoldable pub connect_session :
    (String → String) → String → ℕ → FlowSession → Option Session → MockReply × FlowSession
connect_session encode state now_ms cookie none = (answers 400 "session not found", cookie)
connect_session encode state now_ms cookie (some s) =
    if not (s.session_id == state)
    then (answers 400 "session mismatch", cookie)
    else if not (s.provider == mock_provider_key)
    then (answers 400 "session is not for mock provider", cookie)
    else if leb s.expires_at now_ms
    then (answers 400 "session expired", clear_broker_flow cookie)
    else (redirects (callback_path encode state), cookie)

-- The answer, and the flow session after it.
unfoldable pub handle_connect_mock :
    (String → String) → Codec → List ℕ → Query → ℕ → FlowSession → MockReply × FlowSession
handle_connect_mock encode codec key q now_ms cookie =
    if not (truthy (param "state" q))
    then (answers 400 "missing state", cookie)
    else connect_session encode (or_else (param "state" q) "") now_ms cookie
        (recover_session codec key (read_broker_flow cookie))

-- A field that is not a text, or not an object, is none; `tokens` is the JSON text of the object.
pub record DeliverBody : Type 0 where
  pub uuid : Option String
  pub session_id : Option String
  pub provider : Option String
  pub tokens : Option (List ℕ)

pub data DeliverReply : Type 0 where
  refuses : (status : ℕ) (error : String) → DeliverReply
  forwards : (uuid : String) (body : OauthTokenDeliveryPayload) → DeliverReply

unfoldable pub unsigned : String → EciesPayload → OauthTokenDeliveryPayload
unsigned session_id e = record {
  type = delivery_type;
  session_id = session_id;
  ephemeral_pubkey = e.ephemeral_pubkey;
  ciphertext = e.ciphertext;
  nonce = e.nonce;
  broker_sig = none;
}

unfoldable pub signed_payload :
    Delivery → Crypto → OauthTokenDeliveryPayload → OauthTokenDeliveryPayload
signed_payload d c payload = record payload {
  broker_sig = some (
      d.sign (
        build_delivery_signature_payload c payload.type payload.session_id payload.ephemeral_pubkey
          payload.ciphertext payload.nonce));
}

unfoldable pub deliver_to :
    Delivery → Crypto → String → String → List ℕ → Result ConnectedClient → DeliverReply
deliver_to d c uuid session_id tokens (throw e) = refuses 404 "daemon uuid not connected to relay"
deliver_to d c uuid session_id tokens (ok client) =
    elim (d.ecies_encrypt client.decrypt_pubkey session_id delivery_type tokens) [
      | none ↦ refuses 500 "encrypt failed"
      | some e ↦ forwards uuid (signed_payload d c (unsigned session_id e))
    ]

-- `hasClient` holds exactly where `getClient` does not throw.
unfoldable pub handle_deliver : Delivery → Crypto → Server → DeliverBody → DeliverReply
handle_deliver d c s body = elim body.tokens [
  | none ↦ refuses 400 "uuid, session_id, provider, tokens required"
  | some tokens ↦
      if truthy body.uuid && truthy body.session_id && truthy body.provider
      then deliver_to d c (or_else body.uuid "") (or_else body.session_id "") tokens
          (get_client s (or_else body.uuid ""))
      else refuses 400 "uuid, session_id, provider, tokens required"
]

unfoldable pub forward_mock :
    Delivery → Platform → String → String → OauthTokenDeliveryPayload → Server → Result Server
forward_mock d p id uuid payload s =
    forward p id uuid "POST" "/hooks/oauth-complete"
      (("Content-Type", "application/json" ∷ []) ∷ []) (d.payload_json payload) s
