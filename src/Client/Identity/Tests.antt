-- ===== src/Client/Identity/Tests.antt =====
-- The properties of an identity with a toy Web Crypto, whose keys are numbers.
use dicode_relay.Common.{
  ℕ, zero, suc, ◌<◌, List, [], ◌∷◌, Option, none, some, or_else, true, replicate, take, drop, ◌≡◌,
  refl, ap, arith,
}
use dicode_relay.Shared.Platform.{Platform}
use dicode_relay.Shared.Certs.{uuid_from_p256_point}
use dicode_relay.Shared.Preimage.{build_signed_payload, verify_ecdsa}
use dicode_relay.Shared.SigningKey.{truthy}
use dicode_relay.Shared.Samples.{unary, to_text, from_text, from_text-to_text, crypto}
use dicode_relay.Broker.Query.{is_relay_uuid}
use dicode_relay.Client.Identity.{
  import_key, from_keys, b64_to_ab, ab_to_b64, derive_pubkey, public_jwk, Algorithm, WebCrypto,
  Identity, hex, make_identity, from_stored, store, export_identity, sign_auth_payload,
}
use dicode_relay.Client.Identity.Laws.{
  WebCryptoLaws, from_stored-export_identity, verify_ecdsa-sign_auth_payload,
}
use dicode_relay.Client.Identity.Der.{p1363_to_der}
use dicode_relay.Client.Identity.Der.RoundTrip.{
  value, AreBytes, read_signature, read_signature-p1363_to_der,
}

replicate-AreBytes : (n b : ℕ) → b < 256 → AreBytes (replicate n b)
replicate-AreBytes zero b h = tt
replicate-AreBytes (suc n) b h = (h, replicate-AreBytes n b h)

read_signature-p1363_to_der_example :
    read_signature (p1363_to_der (replicate 64 200))
    ≡ some (value (take 32 (replicate 64 200)), value (take 32 (drop 32 (replicate 64 200))))
read_signature-p1363_to_der_example =
    read_signature-p1363_to_der (replicate 64 200) (replicate-AreBytes 64 200 (omega arith)) refl

abbrev import_bytes : List ℕ → Algorithm → Option ℕ
import_bytes (k ∷ []) alg = some k
import_bytes _ alg = none

abbrev web : WebCrypto ℕ
web = record {
  generate_key = λ alg. 3;
  import_pkcs8 = import_bytes;
  export_pkcs8 = λ k. k ∷ [];
  export_jwk = λ k. record {
    crv = some "P-256";
    kty = some "EC";
    x = some (to_text (k ∷ []));
    y = some "y";
    d = some "d";
    ext = some true;
  };
  import_jwk = λ jwk alg. import_bytes (from_text 0 (or_else jwk.x "")) alg;
  export_raw = λ k. 4 ∷ replicate 64 k;
  sign = λ k m. replicate 64 200;
  atob = λ t. some (from_text 0 t);
  btoa = to_text;
}

web-WebCryptoLaws : WebCryptoLaws web crypto
web-WebCryptoLaws = record {
  atob-btoa = λ bytes. ap some (from_text-to_text bytes);
  import-export = λ der alg k h. refl;
}

abbrev platform : Platform
platform = record {
  sha256_hex = λ m. hex (crypto.sha256 m);
  decode_base64 = from_text 0;
  encode_base64 = to_text;
  is_public_key = λ key. true;
}

abbrev identity : Identity web
identity = make_identity web crypto 3 3 5 5

from_stored-export_identity_example :
    (from_stored web crypto (export_identity web identity) ≡ some identity)
    × (is_relay_uuid identity.uuid ≡ true)
    × (uuid_from_p256_point platform (web.export_raw identity.sign_public) ≡ identity.uuid)
unfolding from_stored store import_key from_keys b64_to_ab ab_to_b64 derive_pubkey public_jwk
    from_text to_text unary truthy make_identity
from_stored-export_identity_example =
    from_stored-export_identity web crypto platform web-WebCryptoLaws
      (λ m. (replicate-AreBytes 32 7 (omega arith), refl)) (λ m. refl) (store web 3 5) identity refl

verify_ecdsa-sign_auth_payload_example :
    verify_ecdsa crypto
      (web.export_raw identity.sign_public)
      (build_signed_payload crypto "s1" "c" identity.uuid "github" 1700000000)
      (sign_auth_payload web crypto identity "s1" "c" "github" 1700000000)
    ≡ true
verify_ecdsa-sign_auth_payload_example =
    verify_ecdsa-sign_auth_payload web crypto identity
      (λ m. (replicate-AreBytes 64 200 (omega arith), refl)) from_text-to_text (λ m der h. refl)
      "s1" "c" "github" 1700000000
