-- ===== src/Client/Auth.antt =====
-- client/auth.ts: buildAuthURL and decryptTokenEnvelope. The URL parser and JSON.parse are parameters;
-- `session_id` stands for the fresh uuid, and `ts` for the clock in seconds.
pub mod Urls
pub mod Delivery
mod Tests
use Prim.Native.String.{◌++◌ as join}
use dicode_relay.Common.{
  ℕ, String, List, [], ◌∷◌, Option, none, some, Bool, true, false, if◌then◌else◌, ◌==◌, string_eq,
}
use dicode_relay.Shared.Preimage.{Crypto}
use dicode_relay.Shared.Ecies.{Node, ecies_decrypt_web_crypto}
use dicode_relay.Shared.Delivery.{OauthTokenDeliveryPayload, verify_delivery_signature}
use dicode_relay.Client.Identity.{WebCrypto, Identity, sign_auth_payload, decrypt_private_key}

abbrev pub Params : Type 0
Params = List (String × String)

pub record Url : Type 0 where
  pub base : String
  pub params : Params

unfoldable pub without_param : String → Params → Params
without_param k [] = []
without_param k ((j, v) ∷ ps) =
    let rest = without_param k ps in if j == k then rest else (j, v) ∷ rest

-- `searchParams.set`
unfoldable pub set_param : String → String → Params → Params
set_param k v [] = (k, v) ∷ []
set_param k v ((j, x) ∷ ps) =
    let rest = set_param k v ps in if j == k then (k, v) ∷ without_param k ps else (j, x) ∷ rest

unfoldable pub set_scope : Option String → Params → Params
set_scope none ps = ps
set_scope (some scope) ps = set_param "scope" scope ps

pub record BuildAuthUrlOpts {K : Type 0} (w : WebCrypto K) : Type 0 where
  pub provider : String
  pub scope : Option String
  pub identity : Identity w
  pub broker_url : String
  pub challenge : String

module _ {K : Type 0} (w : WebCrypto K) (c : Crypto) (decimal : ℕ → String) where
  unfoldable pub auth_params : BuildAuthUrlOpts w → String → ℕ → Params → Params
  auth_params opts session_id ts ps =
      let sig = sign_auth_payload w c opts.identity session_id opts.challenge opts.provider ts in
      let p1 = set_param "session_id" session_id ps in
      let p2 = set_param "relay_uuid" opts.identity.uuid p1 in
      let p3 = set_param "pubkey" opts.identity.sign_pubkey_b64 p2 in
      let p4 = set_param "decrypt_pubkey" opts.identity.decrypt_pubkey_b64 p3 in
      let p5 = set_param "challenge" opts.challenge p4 in
      let p6 = set_param "ts" (decimal ts) p5 in
      let p7 = set_param "sig" sig p6 in set_scope opts.scope p7

  -- The URL and the session id; none where `new URL` throws.
  unfoldable pub build_auth_url :
      (String → String → Option Url) → BuildAuthUrlOpts w → String → ℕ → Option (Url × String)
  build_auth_url new_url opts session_id ts =
      elim (new_url (join "/auth/" opts.provider) opts.broker_url) [
        | none ↦ none
        | some u ↦ some (record u { params = auth_params opts session_id ts u.params }, session_id)
      ]

pub data TokenResult (T : Type 0) : Type 0 where
  missing_signature bad_signature verifier_throws decrypt_failed not_json : TokenResult T
  tokens : T → TokenResult T

module _ {T : Type 0} (n : Node) (c : Crypto) (parse : List ℕ → Option T) where
  unfoldable pub parse_tokens : Option (List ℕ) → TokenResult T
  parse_tokens none = decrypt_failed
  parse_tokens (some plain) = elim (parse plain) [ none ↦ not_json | some t ↦ tokens t ]

  unfoldable pub open_envelope :
      n.CryptoKey → OauthTokenDeliveryPayload → Option Bool → TokenResult T
  open_envelope key envelope none = verifier_throws
  open_envelope key envelope (some false) = bad_signature
  open_envelope key envelope (some true) = parse_tokens (
      ecies_decrypt_web_crypto n c key envelope.session_id envelope.type (record {
        ephemeral_pubkey = envelope.ephemeral_pubkey;
        ciphertext = envelope.ciphertext;
        nonce = envelope.nonce;
      }))

  unfoldable pub decrypt_token_envelope :
      (w : WebCrypto n.CryptoKey) → OauthTokenDeliveryPayload → Identity w → String → TokenResult T
  decrypt_token_envelope w envelope identity broker_pubkey = elim envelope.broker_sig [
    | none ↦ missing_signature
    | some sig ↦ open_envelope (decrypt_private_key w identity) envelope (
        verify_delivery_signature c broker_pubkey sig envelope.type envelope.session_id
          envelope.ephemeral_pubkey envelope.ciphertext envelope.nonce)
  ]
