-- ===== src/Shared/Certs.antt =====
-- shared/certs.ts and the SPKI header of shared/crypto.ts.
pub mod Laws
use dicode_relay.Common.{
  ℕ, ◌+◌, String, List, [], ◌∷◌, ◌++◌, Option, none, some, Bool, ◌&&◌, ◌==◌, if◌then◌else◌, length,
  take, drop, get_or, ◌≡◌, list_eq, nat_eq,
}
use dicode_relay.Shared.Platform.{Platform}

abbrev pub p256_spki_header : List ℕ
p256_spki_header =
    0x30 ∷ 0x59 ∷ 0x30 ∷ 0x13 ∷ 0x06 ∷ 0x07 ∷ 0x2a ∷ 0x86 ∷ 0x48 ∷ 0xce ∷ 0x3d ∷ 0x02 ∷ 0x01 ∷ 0x06
    ∷ 0x08 ∷ 0x2a ∷ 0x86 ∷ 0x48 ∷ 0xce ∷ 0x3d ∷ 0x03 ∷ 0x01 ∷ 0x07 ∷ 0x03 ∷ 0x42 ∷ 0x00 ∷ []

abbrev pub p256_spki_len : ℕ
p256_spki_len = length p256_spki_header + 65

unfoldable pub uncompressed_p256_to_spki : List ℕ → List ℕ
uncompressed_p256_to_spki pubkey = p256_spki_header ++ pubkey

-- The body after the export: `spki` is the DER form of the certificate's key.
point_of_spki : List ℕ → Option (List ℕ)
point_of_spki spki =
    if length spki == p256_spki_len && take (length p256_spki_header) spki == p256_spki_header
    then (let point = drop (length p256_spki_header) spki in
        if get_or point 0 0 == 0x04 then some point else none)
    else none

-- The argument is what `cert.publicKey.export` gives, `none` where it throws.
unfoldable pub extract_p256_point_from_cert : Option (List ℕ) → Option (List ℕ)
unfolding point_of_spki
extract_p256_point_from_cert none = none
extract_p256_point_from_cert (some spki) = point_of_spki spki

unfoldable pub uuid_from_p256_point : Platform → List ℕ → String
uuid_from_p256_point p point = p.sha256_hex point
