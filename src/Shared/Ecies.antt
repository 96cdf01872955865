-- ===== src/Shared/Ecies.antt =====
-- eciesEncrypt, eciesDecrypt and eciesDecryptWebCrypto of shared/crypto.ts. The elliptic curve, HKDF and
-- AES-256-GCM are those of Node's crypto and of Web Crypto: the parameter `Node`.
pub mod RoundTrip
use dicode_relay.Common.{
  ℕ, ◌-◌, ◌*◌, String, List, [], ◌∷◌, ◌++◌, Option, none, some, ltb, if◌then◌else◌, length, take,
  drop, ◌≡◌,
}
use dicode_relay.Shared.Platform.{Platform}
use dicode_relay.Shared.Preimage.{Crypto, codes}

pub record EciesPayload : Type 0 where
  pub ephemeral_pubkey : String
  pub ciphertext : String
  pub nonce : String

abbrev pub delivery_type : String
delivery_type = "oauth_token_delivery"

pub record Node : Type 1 where
  -- createECDH("prime256v1") with a key: its public key, and computeSecret, none where it throws.
  pub Ecdh : Type 0
  pub public_key : Ecdh → List ℕ
  pub compute_secret : Ecdh → List ℕ → Option (List ℕ)
  -- A private key of Web Crypto; importKey("raw") of the peer's key, then deriveBits.
  pub CryptoKey : Type 0
  pub derive_bits : CryptoKey → List ℕ → Option (List ℕ)
  -- hkdf("sha256", secret, salt, info, length)
  pub hkdf : List ℕ → List ℕ → List ℕ → ℕ → List ℕ
  -- aes-256-gcm: key, iv, authenticated data and plain text to cipher text and tag
  pub encrypt : List ℕ → List ℕ → List ℕ → List ℕ → List ℕ × List ℕ
  -- key, iv, authenticated data, cipher text and tag; none where final() throws
  pub decrypt : List ℕ → List ℕ → List ℕ → List ℕ → List ℕ → Option (List ℕ)

abbrev pub hkdf_info : List ℕ
hkdf_info = codes "dicode-oauth-token"

-- `subarray(0, n - 16)` and `subarray(n - 16)`, where a negative index counts from the end.
unfoldable pub cut : ℕ → ℕ
cut n = if ltb n 16 then 2 * n - 16 else n - 16

module _ (n : Node) (c : Crypto) where
  unfoldable pub enc_key : List ℕ → String → List ℕ
  enc_key shared_secret session_id = n.hkdf shared_secret (c.from_utf8 session_id) hkdf_info 32

  unfoldable pub to_payload : Platform → List ℕ → List ℕ → List ℕ × List ℕ → EciesPayload
  to_payload p pubkey iv sealed = record {
    ephemeral_pubkey = p.encode_base64 pubkey;
    ciphertext = p.encode_base64 (sealed.0 ++ sealed.1);
    nonce = p.encode_base64 iv;
  }

  -- `eph` and `iv` are the fresh key pair and nonce.
  unfoldable pub ecies_encrypt :
      Platform → n.Ecdh → List ℕ → List ℕ → String → String → List ℕ → Option EciesPayload
  ecies_encrypt p eph iv daemon_pubkey session_id message_type plaintext =
      elim (n.compute_secret eph daemon_pubkey) [
        | none ↦ none
        | some shared_secret ↦ some (
            to_payload p (n.public_key eph) iv (
              n.encrypt (enc_key shared_secret session_id) iv (c.from_utf8 message_type) plaintext))
      ]

  unfoldable pub decrypt_with : String → String → EciesPayload → Option (List ℕ) → Option (List ℕ)
  decrypt_with session_id message_type payload none = none
  decrypt_with session_id message_type payload (some shared_secret) =
      let raw = c.from_base64 payload.ciphertext in
      n.decrypt (enc_key shared_secret session_id) (c.from_base64 payload.nonce)
        (c.from_utf8 message_type) (take (cut (length raw)) raw) (drop (cut (length raw)) raw)

  unfoldable pub ecies_decrypt : n.Ecdh → String → String → EciesPayload → Option (List ℕ)
  ecies_decrypt daemon_ecdh session_id message_type payload =
      decrypt_with session_id message_type payload
        (n.compute_secret daemon_ecdh (c.from_base64 payload.ephemeral_pubkey))

  unfoldable pub ecies_decrypt_web_crypto :
      n.CryptoKey → String → String → EciesPayload → Option (List ℕ)
  ecies_decrypt_web_crypto decrypt_key session_id message_type payload =
      decrypt_with session_id message_type payload
        (n.derive_bits decrypt_key (c.from_base64 payload.ephemeral_pubkey))
