-- ===== src/Shared/SigningKey/Keys.antt =====
-- The end of loadBrokerSigningKey, shared/signing.ts: what is derived from the PEM that was loaded. The
-- operations of Node's crypto on keys are the parameter `KeyOps`.
use dicode_relay.Common.{
  Bool, true, string_eq, String, ℕ, List, [], ◌∷◌, Option, some, Dict, get, ◌≡◌, ap, ◌>>=◌,
}
use dicode_relay.Shared.Preimage.{codes}
use dicode_relay.Shared.SigningKey.{
  Environment, KeyResult, load_broker_signing_key, load_broker_signing_key_shared, pem_of, value_of,
}

pub record BrokerSigningKey : Type 0 where
  pub sign : List ℕ → String
  pub public_key_base64 : String
  pub flow_state_key : List ℕ
  pub cookie_keys : List String

pub record KeyOps : Type 1 where
  pub PrivateKey : Type 0
  pub PublicKey : Type 0
  -- none where they throw
  pub create_private_key : String → Option PrivateKey
  pub create_public_key : String → Option PublicKey
  pub export_spki : PublicKey → List ℕ
  pub export_pkcs8 : PrivateKey → List ℕ
  -- hkdfSync("sha256", secret, salt, info, length)
  pub hkdf : List ℕ → List ℕ → List ℕ → ℕ → List ℕ
  -- createSign("SHA256") over the data, in base64
  pub sign : PrivateKey → List ℕ → String
  pub to_base64 : List ℕ → String
  pub to_base64url : List ℕ → String

abbrev pub flow_state_key_label : List ℕ
flow_state_key_label = codes "dicode/oauth-flow-state/v1"

abbrev pub flow_cookie_key_label : List ℕ
flow_cookie_key_label = codes "dicode/oauth-flow-cookie/v1"

module _ (k : KeyOps) where
  unfoldable pub load_key_pair : String → Option (k.PrivateKey × k.PublicKey)
  load_key_pair pem = do
    private_key ← k.create_private_key pem
    public_key ← k.create_public_key pem
    some (private_key, public_key)

  unfoldable pub derive_keys : k.PrivateKey → k.PublicKey → BrokerSigningKey
  derive_keys private_key public_key =
      let priv_der = k.export_pkcs8 private_key in
      record {
        sign = k.sign private_key;
        public_key_base64 = k.to_base64 (k.export_spki public_key);
        flow_state_key = k.hkdf priv_der [] flow_state_key_label 32;
        cookie_keys = k.to_base64url (k.hkdf priv_der [] flow_cookie_key_label 32) ∷ [];
      }

  unfoldable pub key_of_pem : String → Option BrokerSigningKey
  key_of_pem pem = do pair ← load_key_pair pem; some (derive_keys pair.0 pair.1)

  -- The key that a start has, none where it throws.
  unfoldable pub broker_key : KeyResult → Option BrokerSigningKey
  broker_key r = do pem ← pem_of r; key_of_pem pem

  -- Two instances with a shared key required, and the same contents of the configured key files, have
  -- the same keys.
  pub broker_key_shared :
      (env : Environment) (file p p' g g' : String) (auto auto' : Bool)
      (files files' : Dict String String)
      → get (value_of env.signing_key_file) files ≡ get (value_of env.signing_key_file) files'
      → get file files ≡ get file files'
      → broker_key (load_broker_signing_key env p file auto true g files)
        ≡ broker_key (load_broker_signing_key env p' file auto' true g' files')
  unfolding broker_key
  broker_key_shared env file p p' g g' auto auto' files files' e f =
      ap (λ o. o >>= key_of_pem)
        (load_broker_signing_key_shared env file p p' g g' auto auto' files files' e f).0
