-- ===== src/Shared/Delivery.antt =====
-- The delivery envelope of shared/protocol.ts and verifyDeliverySignature of shared/signing.ts.
use dicode_relay.Common.{String, Option, Bool}
use dicode_relay.Shared.Preimage.{Crypto, build_delivery_signature_payload}

pub record OauthTokenDeliveryPayload : Type 0 where
  pub type : String
  pub session_id : String
  pub ephemeral_pubkey : String
  pub ciphertext : String
  pub nonce : String
  pub broker_sig : Option String

-- none where the verifier throws.
unfoldable pub verify_delivery_signature :
    Crypto → String → String → String → String → String → String → String → Option Bool
verify_delivery_signature c public_key sig type session_id ephemeral_pubkey ciphertext nonce =
    c.verify (c.from_base64 public_key)
      (build_delivery_signature_payload c type session_id ephemeral_pubkey ciphertext nonce)
      (c.from_base64 sig)
