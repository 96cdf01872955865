-- ===== src/Client/Auth/Tests.antt =====
-- The properties of buildAuthURL and of a delivery's opening, with the toys of the samples.
use dicode_relay.Common.{
  ℕ, String, List, [], ◌∷◌, none, some, true, ◌≡◌, refl, ap, replicate, arith, Dict, get, has,
  string_eq,
}
use dicode_relay.Relay.State.{Server, start}
use dicode_relay.Shared.Samples.{
  crypto, platform, node, node-EciesLaws, node-IsSameKey, to_text, shared,
}
use dicode_relay.Shared.Ecies.{EciesPayload, ecies_encrypt, to_payload}
use dicode_relay.Shared.Delivery.{OauthTokenDeliveryPayload}
use dicode_relay.Broker.Query.{Query, one, param, first}
use dicode_relay.Broker.Samples.{lru, flow, codec, codec-CodecLaws, token}
use dicode_relay.Broker.FlowState.{given_scope, serialize, scope_field}
use dicode_relay.Broker.FlowState.RoundTrip.{open_flow_state-seal_flow_state}
use dicode_relay.Broker.Providers.{ProviderConfig}
use dicode_relay.Broker.Auth.{refuses, handle_auth}
use dicode_relay.Broker.Callback.{
  Delivery, recover_flow, filter_callback_token_fields, is_allowed_token_field, sign_delivery,
}
use dicode_relay.Broker.Callback.Guards.{Earned, handle_callback-Earned}
use dicode_relay.Client.Identity.{WebCrypto, Identity, make_identity}
use dicode_relay.Client.Auth.{
  Url, BuildAuthUrlOpts, build_auth_url, auth_params, tokens, decrypt_token_envelope,
}
use dicode_relay.Client.Auth.Urls.{query_of, handle_auth-build_auth_url}
use dicode_relay.Client.Auth.Delivery.{node_delivery, decrypt_token_envelope-handle_callback}

abbrev web : WebCrypto ℕ
web = record {
  generate_key = λ alg. 3;
  import_pkcs8 = λ der alg. none;
  export_pkcs8 = λ k. k ∷ [];
  export_jwk = λ k. record { crv = none; kty = none; x = none; y = none; d = none; ext = none };
  import_jwk = λ jwk alg. none;
  export_raw = λ k. 4 ∷ replicate 64 k;
  sign = λ k m. replicate 64 200;
  atob = λ t. none;
  btoa = to_text;
}

-- The daemon whose decryption key is 7.
abbrev identity : Identity web
identity = make_identity web crypto 3 3 7 7

abbrev opts : BuildAuthUrlOpts web
opts = record {
  provider = "github";
  scope = none;
  identity = identity;
  broker_url = "https://relay";
  challenge = "c";
}

abbrev before : Url
before = record { base = "https://relay/auth/github"; params = [] }

abbrev built : Url × String
built = (record before { params = auth_params web crypto (λ n. "1") opts "s1" 1 [] }, "s1")

abbrev server : Server
server = start (record {
  base_url = "wss://relay";
  max_pending_per_client = 2;
  max_buffered_bytes = 100;
  broker_pubkey = none;
})

abbrev providers : Dict String ProviderConfig
providers =
    (
      "github",
      record {
        grant_key = "github";
        client_id = "id";
        client_secret = none;
        pkce = true;
        scopes = [];
      },
    )
    ∷ []

handle_auth-build_auth_url_example :
    (handle_auth crypto server providers 30 (some "github") (query_of built.0.params) 1000
      ≡ refuses 400 "missing session")
    × (param "session_id" (query_of built.0.params) ≡ some "s1")
    × (param "relay_uuid" (query_of built.0.params) ≡ some identity.uuid)
unfolding build_auth_url get has
handle_auth-build_auth_url_example =
    handle_auth-build_auth_url web crypto (λ n. "1") (λ path url. some before) opts "s1" 1 before
      built server providers 30 1000 refl refl refl refl

abbrev callback : Query
callback = ("state", one "s1") ∷ ("access_token", one "t") ∷ []

abbrev tokens_only : Query
tokens_only = ("access_token", one "t") ∷ []

-- JSON of the two token objects that occur.
abbrev tokens_json : Query → List ℕ
tokens_json q = 1 ∷ []

abbrev delivery : Delivery
delivery = node_delivery node crypto platform 3 (5 ∷ []) (λ m. "sig") tokens_json (λ b. [])

-- What the callback encrypts: the sum of the two keys is the secret.
abbrev sealed : EciesPayload
sealed = to_payload node crypto platform (4 ∷ 3 ∷ []) (5 ∷ []) (1 ∷ [], replicate 16 0)

callback-Earned : Earned lru delivery crypto codec [] callback 500 (some token) [] flow sealed
unfolding param get first recover_flow serialize scope_field given_scope ecies_encrypt shared
    to_payload
callback-Earned = record {
  no_error = refl;
  state = refl;
  access_token = ("t", refl);
  sealed = open_flow_state-seal_flow_state codec codec-CodecLaws [] (replicate 12 5) flow refl refl;
  in_time = omega arith;
  unused = refl;
  encrypted = refl;
}

abbrev envelope : OauthTokenDeliveryPayload
envelope = sign_delivery delivery crypto "s1" sealed

decrypt_token_envelope-handle_callback_example :
    (flow.relay_uuid ≡ flow.relay_uuid)
    × (decrypt_token_envelope node crypto (λ b. some tokens_only) web envelope identity "K"
        ≡ tokens tokens_only)
unfolding filter_callback_token_fields is_allowed_token_field make_identity
decrypt_token_envelope-handle_callback_example =
    decrypt_token_envelope-handle_callback node crypto platform (λ b. some tokens_only) lru codec []
      node-EciesLaws web identity 7 3 (node-IsSameKey 7) (5 ∷ []) (λ m. "sig") tokens_json (λ b. [])
      "K" (λ m. refl) callback 500 (some token) [] flow "u1" envelope refl callback-Earned.sealed
      refl
      (ap (λ o. o.reply)
        (handle_callback-Earned lru delivery crypto codec [] callback 500 (some token) [] flow
          sealed callback-Earned))
