-- ===== src/Client/Identity/Der.antt =====
-- p1363ToDer and trimAndPad of client/identity.ts: the two halves of a raw signature as ASN.1 DER
-- integers. An element of a `Uint8Array` is a number below 256.
pub mod RoundTrip
use dicode_relay.Common.{
  ℕ, ◌+◌, ◌/◌, ◌%◌, List, [], ◌∷◌, ◌++◌, length, take, drop, if◌then◌else◌, ◌==◌, nat_eq,
}

-- The loop of trimAndPad, which keeps the last byte.
unfoldable pub trim : List ℕ → List ℕ
trim [] = []
trim (x ∷ []) = x ∷ []
trim (x ∷ y ∷ rest) = let shorter = trim (y ∷ rest) in if x == 0 then shorter else x ∷ y ∷ rest

-- `firstByte & 0x80`
unfoldable pub pad : List ℕ → List ℕ
pad [] = []
pad (x ∷ xs) = if x / 128 % 2 == 1 then 0 ∷ x ∷ xs else x ∷ xs

unfoldable pub trim_and_pad : List ℕ → List ℕ
trim_and_pad int = pad (trim int)

unfoldable pub der_sequence : List ℕ → List ℕ → List ℕ
der_sequence r s =
    let seq_len = length r + length s + 4 in
    0x30 ∷ seq_len % 256 ∷ 0x02 ∷ length r % 256 ∷ (r ++ (0x02 ∷ length s % 256 ∷ s))

unfoldable pub p1363_to_der : List ℕ → List ℕ
p1363_to_der p1363 =
    der_sequence (trim_and_pad (take 32 p1363)) (trim_and_pad (take 32 (drop 32 p1363)))
