-- ===== src/Shared/Preimage.antt =====
-- The byte sequences that are hashed and signed: `lengthPrefixed` and `buildSignedPayload` of
-- shared/crypto.ts, `buildDeliverySignaturePayload` of shared/signing.ts. SHA-256 and the decodings of a
-- text are the parameter `Crypto`.
pub mod Injective
use Prim.Native.Char.{code}
use dicode_relay.Common.{
  ℕ, String, List, [], ◌∷◌, ◌++◌, ◌/◌, ◌%◌, ◌^◌, length, if◌then◌else◌, ◌==◌, nat_eq, Bool, Option,
  or_else, false,
}
use dicode_relay.Shared.Certs.{uncompressed_p256_to_spki}

pub record Crypto : Type 0 where
  pub sha256 : List ℕ → List ℕ
  -- Buffer.from(text, encoding)
  pub from_hex : String → List ℕ
  pub from_base64 : String → List ℕ
  pub from_base64url : String → List ℕ
  pub from_utf8 : String → List ℕ
  -- createVerify("SHA256") with the SPKI and the signature; none where it throws.
  pub verify : List ℕ → List ℕ → List ℕ → Option Bool

-- The code points of a text, its bytes where it is ASCII.
abbrev pub codes : String → List ℕ
codes String.[] = []
codes (String.◌∷◌ c s) = code c ∷ codes s

abbrev pub auth_request_label : List ℕ
auth_request_label = codes "dicode/oauth-auth-request/v4"

abbrev pub delivery_label : List ℕ
delivery_label = codes "dicode/oauth-token-delivery/v4"

unfoldable pub uint32_be : ℕ → List ℕ
uint32_be n = n / 2 ^ 24 % 256 ∷ n / 2 ^ 16 % 256 ∷ n / 2 ^ 8 % 256 ∷ n % 256 ∷ []

unfoldable pub uint64_be : ℕ → List ℕ
uint64_be n = uint32_be (n / 2 ^ 32) ++ uint32_be n

-- The length is written modulo 2^32, where `writeUInt32BE` throws from 2^32 on: more than a buffer of
-- a request holds.
unfoldable pub length_prefixed : List ℕ → List ℕ
length_prefixed field = uint32_be (length field) ++ field

-- The fields one after the other, and what follows them.
unfoldable pub prefixed_all : List (List ℕ) → List ℕ → List ℕ
prefixed_all [] rest = rest
prefixed_all (field ∷ fields) rest = length_prefixed field ++ prefixed_all fields rest

unfoldable pub signed_preimage : List ℕ → List ℕ → List ℕ → List ℕ → ℕ → List ℕ
signed_preimage session challenge relay_uuid provider timestamp =
    auth_request_label
    ++ prefixed_all (session ∷ challenge ∷ relay_uuid ∷ provider ∷ []) (uint64_be timestamp)

unfoldable pub delivery_preimage : List ℕ → List ℕ → List ℕ → List ℕ → List ℕ → List ℕ
delivery_preimage type session_id ephemeral_pubkey ciphertext nonce =
    delivery_label
    ++ prefixed_all (type ∷ session_id ∷ ephemeral_pubkey ∷ ciphertext ∷ nonce ∷ []) []

-- `replace(/-/g, "")`
unfoldable pub strip_dashes : String → String
strip_dashes String.[] = ""
strip_dashes (String.◌∷◌ c s) =
    let rest = strip_dashes s in if code c == 45 then rest else String.◌∷◌ c rest

unfoldable pub build_signed_payload : Crypto → String → String → String → String → ℕ → List ℕ
build_signed_payload c session_id pkce_challenge relay_uuid provider timestamp = c.sha256 (
    signed_preimage (c.from_hex (strip_dashes session_id)) (c.from_base64url pkce_challenge)
      (c.from_hex relay_uuid) (c.from_utf8 provider) timestamp)

unfoldable pub build_delivery_signature_payload :
    Crypto → String → String → String → String → String → List ℕ
build_delivery_signature_payload c type session_id ephemeral_pubkey ciphertext nonce = c.sha256 (
    delivery_preimage (c.from_utf8 type) (c.from_utf8 session_id) (c.from_utf8 ephemeral_pubkey)
      (c.from_utf8 ciphertext) (c.from_utf8 nonce))

unfoldable pub verify_ecdsa : Crypto → List ℕ → List ℕ → String → Bool
verify_ecdsa c pubkey payload sig =
    or_else (c.verify (uncompressed_p256_to_spki pubkey) payload (c.from_base64 sig)) false
