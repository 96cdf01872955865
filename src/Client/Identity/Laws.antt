-- ===== src/Client/Identity/Laws.antt =====
-- What an imported identity is, and that the broker verifies what it signs.
use Prim.Native.Char.{Char, code}
use dicode_relay.Common.{
  ℕ, zero, suc, ◌*◌, ◌/◌, ◌%◌, ◌<◌, String, List, [], ◌∷◌, some, true, ◌≡◌, refl, sym, ap, subst,
  ◌∙◌, arith, length, take, drop, get_or, All, bind_some, ◌>>=◌,
}
use dicode_relay.Shared.Platform.{Platform}
use dicode_relay.Shared.Certs.{uncompressed_p256_to_spki, uuid_from_p256_point}
use dicode_relay.Shared.Preimage.{Crypto, codes, build_signed_payload, verify_ecdsa}
use dicode_relay.Broker.Query.{is_hex_digit, all_hex, is_relay_uuid}
use dicode_relay.Client.Identity.{
  Algorithm, ecdsa, ecdh, WebCrypto, StoredIdentity, Identity, hex_table, hex, b64_to_ab, ab_to_b64,
  derive_pubkey, make_identity, import_key, from_keys, from_stored, store, export_identity,
  sign_auth_payload,
}
use dicode_relay.Client.Identity.Der.{p1363_to_der}
use dicode_relay.Client.Identity.Der.RoundTrip.{
  value, AreBytes, read_signature, read_signature-p1363_to_der,
}

module _ {ℓ} {A : Type ℓ} (P : A → Type 0) where
  get_or-All : (xs : List A) (i : ℕ) (d : A) → All P xs → i < length xs → P (get_or xs i d)
  get_or-All [] i d h n = absurd (omega arith)
  get_or-All (x ∷ xs) zero d h n = h.0
  get_or-All (x ∷ xs) (suc i) d h n = get_or-All xs i d h.1 (omega arith)

abbrev IsHex : Char → Type 0
IsHex k = is_hex_digit (code k) ≡ true

hex_table-IsHex : All IsHex hex_table
unfolding is_hex_digit
hex_table-IsHex = ground arith

hex_lem :
    (bs : List ℕ)
    → AreBytes bs
    → (length (codes (hex bs)) ≡ 2 * length bs) × (all_hex (codes (hex bs)) ≡ true)
unfolding hex all_hex
hex_lem [] h = (refl, refl)
hex_lem (b ∷ bs) h =
    let r = hex_lem bs h.1 in
    let high = get_or-All IsHex hex_table (b / 16) "0" hex_table-IsHex (omega arith) in
    let low = get_or-All IsHex hex_table (b % 16) "0" hex_table-IsHex (omega arith) in
    (omega (arith, r.0), rw (high, low) r.1)

-- The digest of SHA-256 has 32 bytes.
abbrev pub IsDigest : (List ℕ → List ℕ) → Type 0
IsDigest sha256 = (m : List ℕ) → AreBytes (sha256 m) × (length (sha256 m) ≡ 32)

hex-is_relay_uuid : (bs : List ℕ) → AreBytes bs → length bs ≡ 32 → is_relay_uuid (hex bs) ≡ true
unfolding is_relay_uuid
hex-is_relay_uuid bs h n = let r = hex_lem bs h in ground (arith, r.0, r.1)

module _ {CryptoKey : Type 0} (w : WebCrypto CryptoKey) (c : Crypto) where
  -- The private keys of an identity were imported, and its public keys derived from them.
  pub record IsImported (i : Identity w) : Type 0 where
    pub sign_der : (der : List ℕ) × (w.import_pkcs8 der ecdsa ≡ some i.sign_private)
    pub decrypt_der : (der : List ℕ) × (w.import_pkcs8 der ecdh ≡ some i.decrypt_private)
    pub sign_pub : derive_pubkey w i.sign_private ecdsa ≡ some i.sign_public
    pub decrypt_pub : derive_pubkey w i.decrypt_private ecdh ≡ some i.decrypt_public
    pub made : i ≡ make_identity w c i.sign_private i.sign_public i.decrypt_private i.decrypt_public

  pub from_stored-IsImported :
      (s : StoredIdentity) (i : Identity w) → from_stored w c s ≡ some i → IsImported i
  unfolding from_stored from_keys import_key make_identity
  from_stored-IsImported s i h =
      let k =
        bind_some (import_key w ecdsa s.sign_priv_pkcs8_b64)
          (λ k. import_key w ecdh s.decrypt_priv_pkcs8_b64 >>= from_keys w c k) i h in
      let k' = bind_some (import_key w ecdh s.decrypt_priv_pkcs8_b64) (from_keys w c k.0) i k.2 in
      let d = bind_some (b64_to_ab w s.sign_priv_pkcs8_b64) (λ b. w.import_pkcs8 b ecdsa) k.0 k.1 in
      let d' =
        bind_some (b64_to_ab w s.decrypt_priv_pkcs8_b64) (λ b. w.import_pkcs8 b ecdh) k'.0 k'.1 in
      let p =
        bind_some (derive_pubkey w k.0 ecdsa)
          (λ p. derive_pubkey w k'.0 ecdh >>= λ p'. some (make_identity w c k.0 p k'.0 p')) i
          k'.2 in
      let p' =
        bind_some (derive_pubkey w k'.0 ecdh) (λ p'. some (make_identity w c k.0 p.0 k'.0 p')) i
          p.2 in
      let made : make_identity w c k.0 p.0 k'.0 p'.0 ≡ i = ground (arith, p'.2) in
      let it : IsImported (make_identity w c k.0 p.0 k'.0 p'.0) = record {
        sign_der = (d.0, d.2);
        decrypt_der = (d'.0, d'.2);
        sign_pub = p.1;
        decrypt_pub = p'.1;
        made = refl;
      } in
      subst IsImported made it

  -- Web Crypto imports what it exports of a private key, and atob decodes what btoa encodes.
  pub record WebCryptoLaws : Type 0 where
    pub atob-btoa : (bytes : List ℕ) → w.atob (w.btoa bytes) ≡ some bytes
    pub import-export :
        (der : List ℕ) (alg : Algorithm) (k : CryptoKey)
        → w.import_pkcs8 der alg ≡ some k
        → w.import_pkcs8 (w.export_pkcs8 k) alg ≡ some k

-- An identity that was imported, or generated, is imported again from its own export with the same keys
-- and uuid; and its uuid is 64 lower-case hexadecimal digits, the form the broker demands, and the one
-- the relay derives from its certificate's key.
pub from_stored-export_identity :
    {CryptoKey : Type 0} (w : WebCrypto CryptoKey) (c : Crypto) (p : Platform)
    → WebCryptoLaws w c
    → IsDigest c.sha256
    → ((m : List ℕ) → p.sha256_hex m ≡ hex (c.sha256 m))
    → (s : StoredIdentity) (i : Identity w) → from_stored w c s ≡ some i
    → (from_stored w c (export_identity w i) ≡ some i)
      × (is_relay_uuid i.uuid ≡ true)
      × (uuid_from_p256_point p (w.export_raw i.sign_public) ≡ i.uuid)
unfolding from_stored from_keys import_key export_identity store b64_to_ab ab_to_b64 make_identity
    uuid_from_p256_point
from_stored-export_identity w c p laws digest same s i h =
    let it = from_stored-IsImported w c s i h in
    let point = w.export_raw i.sign_public in
    let uuid : hex (c.sha256 point) ≡ i.uuid = ap (λ j. j.uuid) (sym it.made) in
    (
      rw
          (
            laws.atob-btoa (w.export_pkcs8 i.sign_private),
            laws.import-export it.sign_der.0 ecdsa i.sign_private it.sign_der.1,
            laws.atob-btoa (w.export_pkcs8 i.decrypt_private),
            laws.import-export it.decrypt_der.0 ecdh i.decrypt_private it.decrypt_der.1,
            it.sign_pub,
            it.decrypt_pub,
          )
          (ap some (sym it.made)),
      subst (λ u. is_relay_uuid u ≡ true) uuid
          (hex-is_relay_uuid (c.sha256 point) (digest point).0 (digest point).1),
      same point ∙ uuid,
    )

-- The broker's verification against the identity's public key accepts its signature over a request: what
-- an ECDSA verifier must accept is DER whose two integers are the halves of Web Crypto's raw signature.
pub verify_ecdsa-sign_auth_payload :
    {CryptoKey : Type 0} (w : WebCrypto CryptoKey) (c : Crypto) (i : Identity w)
    → ((payload : List ℕ)
        → AreBytes (w.sign i.sign_private payload) × (length (w.sign i.sign_private payload) ≡ 64))
    → ((bytes : List ℕ) → c.from_base64 (w.btoa bytes) ≡ bytes)
    → ((payload der : List ℕ)
        → read_signature der
          ≡ some (
            value (take 32 (w.sign i.sign_private payload)),
            value (take 32 (drop 32 (w.sign i.sign_private payload))),
          )
        → c.verify (uncompressed_p256_to_spki (w.export_raw i.sign_public)) payload der ≡ some true)
    → (session_id challenge provider : String) (ts : ℕ)
    → verify_ecdsa c
        (w.export_raw i.sign_public)
        (build_signed_payload c session_id challenge i.uuid provider ts)
        (sign_auth_payload w c i session_id challenge provider ts)
      ≡ true
unfolding verify_ecdsa sign_auth_payload ab_to_b64
verify_ecdsa-sign_auth_payload w c i raw base64 verifies session_id challenge provider ts =
    let payload = build_signed_payload c session_id challenge i.uuid provider ts in
    let p1363 = w.sign i.sign_private payload in
    rw (
      base64 (p1363_to_der p1363),
      verifies payload (p1363_to_der p1363)
          (read_signature-p1363_to_der p1363 (raw payload).0 (raw payload).1),
    )
