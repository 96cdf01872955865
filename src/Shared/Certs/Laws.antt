-- ===== src/Shared/Certs/Laws.antt =====
-- The key point of a certificate and its SPKI form determine each other.
use dicode_relay.Common.{
  ℕ, List, ◌++◌, Option, none, some, length, take, drop, get_or, ◌≡◌, arith, ◌↔◌, list_eq, nat_eq,
  take-append-drop, length-drop, ◌==◌, ◌&&◌, ◌+◌, if◌then◌else◌, list_beq_iff,
}
use dicode_relay.Shared.Certs.{
  p256_spki_header, uncompressed_p256_to_spki, point_of_spki, extract_p256_point_from_cert,
}

-- The 65 bytes of an uncompressed point.
abbrev pub IsPoint : List ℕ → Type 0
IsPoint point = (length point ≡ 65) × (get_or point 0 0 ≡ 4)

strip_sound :
    (header spki point : List ℕ)
    → (if length spki == length header + 65 && take (length header) spki == header
        then (let rest = drop (length header) spki in
            if get_or rest 0 0 == 0x04 then some rest else none)
        else none)
      ≡ some point
    → (spki ≡ header ++ point) × (length point ≡ 65) × (get_or point 0 0 ≡ 4)
strip_sound header spki point h = (
  ground (
    arith,
    list_beq_iff (take (length header) spki) header,
    take-append-drop (length header) spki,
  ),
  ground (arith, length-drop (length header) spki),
  ground arith,
)

point_of_spki_complete :
    (point : List ℕ)
    → length point ≡ 65
    → get_or point 0 0 ≡ 4
    → point_of_spki (p256_spki_header ++ point) ≡ some point
unfolding point_of_spki
point_of_spki_complete point n f = ground arith

-- A certificate is accepted exactly when its key is the fixed 26-byte header and a 65-byte
-- uncompressed point, and then the point comes back.
pub extract_p256_point_from_cert_iff :
    (spki point : List ℕ)
    → (extract_p256_point_from_cert (some spki) ≡ some point)
      ↔ ((spki ≡ uncompressed_p256_to_spki point) × IsPoint point)
unfolding extract_p256_point_from_cert uncompressed_p256_to_spki point_of_spki
extract_p256_point_from_cert_iff spki point = (
  λ h. (
    (strip_sound p256_spki_header spki point h).0,
    ((strip_sound p256_spki_header spki point h).1, (strip_sound p256_spki_header spki point h).2),
  ),
  λ h. rw h.0 (point_of_spki_complete point h.1.0 h.1.1),
)

-- An accepted certificate shows 65 bytes that start with 4.
pub extract-IsPoint :
    (cert : Option (List ℕ)) (point : List ℕ)
    → extract_p256_point_from_cert cert ≡ some point
    → IsPoint point
unfolding extract_p256_point_from_cert
extract-IsPoint none point h = cc
extract-IsPoint (some spki) point h = ((extract_p256_point_from_cert_iff spki point).0 h).1
