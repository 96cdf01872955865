-- ===== src/Shared/Tests.antt =====
-- The properties of the signed byte sequences and of the signing key at concrete values.
use dicode_relay.Common.{ℕ, some, List, [], ◌∷◌, ◌≡◌, refl, arith, string_eq}
use dicode_relay.Shared.Ecies.{
  EciesPayload, delivery_type, ecies_encrypt, ecies_decrypt, ecies_decrypt_web_crypto,
}
use dicode_relay.Shared.Ecies.RoundTrip.{ecies_decrypt-ecies_encrypt}
use dicode_relay.Shared.Samples.{crypto, platform, node, node-EciesLaws, node-IsSameKey}
use dicode_relay.Shared.Preimage.Injective.{signed_preimage_injective}

abbrev a : List ℕ
a = 97 ∷ []

abbrev b : List ℕ
b = 98 ∷ 99 ∷ []

abbrev time : ℕ
time = 1700000000

signed_preimage_injective_example : (a ≡ a) × (b ≡ b) × (a ≡ a) × (b ≡ b) × (time ≡ time)
signed_preimage_injective_example =
    signed_preimage_injective a b a b a b a b time time
      (omega arith, (omega arith, (omega arith, (omega arith, tt))))
      (omega arith, (omega arith, (omega arith, (omega arith, tt)))) (omega arith) (omega arith)
      refl

ecies_decrypt-ecies_encrypt_example :
    (e : EciesPayload) × (ecies_encrypt node crypto platform 3
        (5 ∷ [])
        (4 ∷ 7 ∷ [])
        "s1"
        delivery_type
        a
      ≡ some e)
    × (ecies_decrypt node crypto 7 "s1" delivery_type e ≡ some a)
    × (ecies_decrypt_web_crypto node crypto 7 "s1" delivery_type e ≡ some a)
ecies_decrypt-ecies_encrypt_example =
    ecies_decrypt-ecies_encrypt node crypto platform node-EciesLaws 3 7 7 (node-IsSameKey 7)
      (5 ∷ []) "s1" delivery_type a
