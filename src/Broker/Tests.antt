-- ===== src/Broker/Tests.antt =====
-- The properties of the broker at concrete requests, with a toy cipher and encodings.
use dicode_relay.Common.{
  ℕ, nat_eq, String, [], ◌∷◌, none, some, true, string_eq, Dict, get, has, replicate, ◌≡◌, ◌≢◌, ◌↔◌,
  refl, arith,
}
use dicode_relay.Relay.State.{Server, ConnectedClient, start}
use dicode_relay.Shared.Preimage.{Crypto}
use dicode_relay.Shared.Ecies.{EciesPayload}
use dicode_relay.Shared.Delivery.{OauthTokenDeliveryPayload}
use dicode_relay.Shared.SigningKey.{
  Environment, load_broker_signing_key, read_file, value_of, pem_of, truthy,
}
use dicode_relay.Shared.SigningKey.Keys.{
  BrokerSigningKey, KeyOps, load_key_pair, derive_keys, key_of_pem, broker_key,
}
use dicode_relay.Broker.Instances.{open_flow_state-broker_key}
use dicode_relay.Broker.Samples.{lru, lru-LruLaws, flow, codec, codec-CodecLaws, token}
use dicode_relay.Broker.Query.{Query, one, param, first}
use dicode_relay.Broker.Sessions.{Session}
use dicode_relay.Broker.FlowState.{
  serialize, scope_field, given_scope, open_flow_state, seal_flow_state,
}
use dicode_relay.Broker.FlowState.RoundTrip.{open_flow_state-seal_flow_state}
use dicode_relay.Broker.Providers.{ProviderEntry, ProviderConfig, build_provider_map}
use dicode_relay.Broker.Auth.{AuthRequest, accepts, given, read_request, handle_auth}
use dicode_relay.Broker.Auth.Guards.{IsSigned, IsBound, handle_auth_iff}
use dicode_relay.Broker.Callback.{Delivery, delivers, sign_delivery, recover_flow, handle_callback}
use dicode_relay.Broker.Callback.Guards.{Earned, handle_callback_iff, handle_callback_once}

open_flow_state-seal_flow_state_example : open_flow_state codec [] token ≡ some flow
unfolding given_scope serialize scope_field
open_flow_state-seal_flow_state_example =
    open_flow_state-seal_flow_state codec codec-CodecLaws [] (replicate 12 5) flow refl refl

abbrev crypto : Crypto
crypto = record {
  sha256 = λ bytes. bytes;
  from_hex = λ t. [];
  from_base64 = λ t. [];
  from_base64url = λ t. [];
  from_utf8 = λ t. [];
  verify = λ spki payload sig. some true;
}

abbrev delivery : Delivery
delivery = record {
  ecies_encrypt = λ pubkey id type plain.
      some (record { ephemeral_pubkey = "e"; ciphertext = "c"; nonce = "n" });
  sign = λ bytes. "sig";
  tokens_json = λ q. [];
  payload_json = λ p. [];
}

abbrev encrypted : EciesPayload
encrypted = record { ephemeral_pubkey = "e"; ciphertext = "c"; nonce = "n" }

abbrev callback : Query
callback = ("state", one "s1") ∷ ("access_token", one "t") ∷ []

callback-Earned : Earned lru delivery crypto codec [] callback 500 (some token) [] flow encrypted
unfolding param get first recover_flow serialize scope_field given_scope
callback-Earned = record {
  no_error = refl;
  state = refl;
  access_token = ("t", refl);
  sealed = open_flow_state-seal_flow_state codec codec-CodecLaws [] (replicate 12 5) flow refl refl;
  in_time = omega arith;
  unused = refl;
  encrypted = refl;
}

abbrev envelope : OauthTokenDeliveryPayload
envelope = sign_delivery delivery crypto "s1" encrypted

handle_callback_iff_example :
    ((handle_callback lru delivery crypto codec [] callback 500 (some token) []).reply
      ≡ delivers "u1" envelope)
    ↔ ((s : Session) × (e : EciesPayload) × Earned lru delivery crypto codec [] callback 500
          (some token)
          []
          s
          e
        × ("u1" ≡ s.relay_uuid)
        × (envelope ≡ sign_delivery delivery crypto s.session_id e))
handle_callback_iff_example =
    handle_callback_iff lru delivery crypto codec [] callback 500 (some token) [] "u1" envelope

handle_callback_once_example :
    (handle_callback lru delivery crypto codec [] callback 600
      (some token)
      (handle_callback lru delivery crypto codec [] callback 500 (some token) []).seen).reply
    ≢ delivers "u1" envelope
unfolding recover_flow given_scope serialize scope_field
handle_callback_once_example =
    handle_callback_once lru delivery crypto codec [] lru-LruLaws callback callback 500 600
      (some token) (some token) [] flow flow encrypted "u1" envelope callback-Earned
      (open_flow_state-seal_flow_state codec codec-CodecLaws [] (replicate 12 5) flow refl refl)
      refl

abbrev uuid : String
uuid = "00000000000000000000000000000000000000000000000000000000000000ab"

abbrev server : Server
server =
    record (start (record {
      base_url = "wss://relay";
      max_pending_per_client = 2;
      max_buffered_bytes = 100;
      broker_pubkey = none;
    })) {
      clients =
          (uuid, record { ws = 0; uuid = uuid; pubkey = []; decrypt_pubkey = 4 ∷ 7 ∷ [] }) ∷ [];
    }

abbrev auth : Query
auth =
    ("session", one "s1")
    ∷ ("challenge", one "c")
    ∷ ("relay_uuid", one uuid)
    ∷ ("sig", one "x")
    ∷ ("timestamp", one "1700000010")
    ∷ []

abbrev auth_request : AuthRequest
auth_request = record {
  session = "s1";
  challenge = "c";
  relay_uuid = uuid;
  sig = "x";
  timestamp = "1700000010";
  scope = none;
}

abbrev auth_flow : Session
auth_flow = record flow { relay_uuid = uuid; expires_at = 1700000300000 }

abbrev entries : Dict String ProviderEntry
entries =
    ("github", record { client_id = "id"; client_secret = some ""; pkce = true; scopes = [] })
    ∷ ("slack", record { client_id = ""; client_secret = none; pkce = true; scopes = [] })
    ∷ []

abbrev enabled : Dict String ProviderConfig
enabled = build_provider_map entries

handle_auth_iff_example :
    (handle_auth crypto server enabled 30 (some "github") auth 1700000000000 ≡ accepts auth_flow)
    ↔ ((p : String) × (r : AuthRequest) × (client : ConnectedClient) × (ts : ℕ) × (some "github"
          ≡ some p)
        × (has p enabled ≡ true)
        × (read_request auth ≡ given r)
        × IsSigned crypto server 30 p 1700000000000 r client ts
        × IsBound r p client 1700000000000 auth_flow)
handle_auth_iff_example =
    handle_auth_iff crypto server enabled 30 (some "github") auth 1700000000000 auth_flow

abbrev no_environment : Environment
no_environment = record { signing_key_file = none; signing_key = none }

abbrev files : Dict String String
files = ("/etc/key.pem", "PEM") ∷ []

abbrev other_files : Dict String String
other_files = ("/srv/broker-signing-key.pem", "OTHER") ∷ ("/etc/key.pem", "PEM") ∷ []

abbrev key_ops : KeyOps
key_ops = record {
  PrivateKey = String;
  PublicKey = String;
  create_private_key = λ pem. some pem;
  create_public_key = λ pem. some pem;
  export_spki = λ k. 1 ∷ 2 ∷ [];
  export_pkcs8 = λ k. 3 ∷ 4 ∷ [];
  hkdf = λ secret salt info n. info;
  sign = λ k bytes. k;
  to_base64 = λ bytes. "b64";
  to_base64url = λ bytes. "b64url";
}

abbrev shared_key : BrokerSigningKey
shared_key = derive_keys key_ops "PEM" "PEM"

open_flow_state-broker_key_example :
    (other : BrokerSigningKey) × (broker_key key_ops (
        load_broker_signing_key no_environment "/srv/broker-signing-key.pem" "/etc/key.pem" true
          true "H" other_files)
      ≡ some other)
    × (other ≡ shared_key)
    × (open_flow_state codec other.flow_state_key
          (seal_flow_state codec shared_key.flow_state_key (replicate 12 5) flow)
        ≡ some flow)
unfolding get value_of load_broker_signing_key read_file broker_key key_of_pem load_key_pair
    given_scope pem_of truthy serialize scope_field
open_flow_state-broker_key_example =
    open_flow_state-broker_key key_ops codec codec-CodecLaws no_environment "/etc/key.pem"
      "/app/broker-signing-key.pem" "/srv/broker-signing-key.pem" "G" "H" true true files
      other_files (replicate 12 5) flow shared_key refl refl refl refl refl
