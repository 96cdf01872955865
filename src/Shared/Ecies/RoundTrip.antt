-- ===== src/Shared/Ecies/RoundTrip.antt =====
-- What is encrypted to a daemon's key is decrypted with it.
use dicode_relay.Common.{
  ℕ, String, List, ◌++◌, Option, some, length, take, drop, ◌≡◌, ap, ◌∙◌, arith, length-append,
  take-append, drop-append,
}
use dicode_relay.Shared.Platform.{Platform}
use dicode_relay.Shared.Preimage.{Crypto}
use dicode_relay.Shared.Ecies.{
  EciesPayload, Node, cut, enc_key, to_payload, ecies_encrypt, decrypt_with, ecies_decrypt,
  ecies_decrypt_web_crypto,
}

module _ (n : Node) (c : Crypto) (p : Platform) where
  -- Two key pairs of the curve agree on a secret; what GCM seals it opens, with a tag of 16 bytes; base64
  -- decodes what it encodes.
  pub record EciesLaws : Type 0 where
    pub agree :
        (a b : n.Ecdh)
        → (s : List ℕ) × (n.compute_secret a (n.public_key b) ≡ some s)
          × (n.compute_secret b (n.public_key a) ≡ some s)
    pub tag_length : (key iv aad pt : List ℕ) → length (n.encrypt key iv aad pt).1 ≡ 16
    pub decrypt-encrypt :
        (key iv aad pt : List ℕ)
        → n.decrypt key iv aad (n.encrypt key iv aad pt).0 (n.encrypt key iv aad pt).1 ≡ some pt
    pub base64 : (bytes : List ℕ) → c.from_base64 (p.encode_base64 bytes) ≡ bytes

  -- A private key of Web Crypto that derives what an ECDH object computes.
  abbrev pub IsSameKey : n.CryptoKey → n.Ecdh → Type 0
  IsSameKey k daemon = (pubkey : List ℕ) → n.derive_bits k pubkey ≡ n.compute_secret daemon pubkey

cut_lem :
    (ct tag : List ℕ)
    → length tag ≡ 16
    → (take (cut (length (ct ++ tag))) (ct ++ tag) ≡ ct)
      × (drop (cut (length (ct ++ tag))) (ct ++ tag) ≡ tag)
unfolding cut
cut_lem ct tag h =
    let e : cut (length (ct ++ tag)) ≡ length ct = ground (arith, length-append ct tag) in
    (
      ap (λ k. take k (ct ++ tag)) e ∙ take-append ct tag,
      ap (λ k. drop k (ct ++ tag)) e ∙ drop-append ct tag,
    )

-- With the secret that was agreed on, a sealed payload opens.
decrypt_with-to_payload :
    (n : Node) (c : Crypto) (p : Platform)
    → EciesLaws n c p
    → (pubkey iv secret plaintext : List ℕ) (session_id message_type : String)
    → decrypt_with n c session_id message_type
        (to_payload n c p pubkey iv
          (n.encrypt (enc_key n c secret session_id) iv (c.from_utf8 message_type) plaintext))
        (some secret)
      ≡ some plaintext
unfolding decrypt_with to_payload
decrypt_with-to_payload n c p laws pubkey iv secret plaintext session_id message_type =
    let key = enc_key n c secret session_id in
    let aad = c.from_utf8 message_type in
    let sealed = n.encrypt key iv aad plaintext in
    let raw = sealed.0 ++ sealed.1 in
    let parts = cut_lem sealed.0 sealed.1 (laws.tag_length key iv aad plaintext) in
    ap
      (λ r.
        n.decrypt key (c.from_base64 (p.encode_base64 iv)) aad (take (cut (length r)) r)
          (drop (cut (length r)) r))
      (laws.base64 raw)
    ∙ ap (λ v. n.decrypt key v aad (take (cut (length raw)) raw) (drop (cut (length raw)) raw))
        (laws.base64 iv)
    ∙ ap (λ x. n.decrypt key iv aad x (drop (cut (length raw)) raw)) parts.0
    ∙ ap (n.decrypt key iv aad sealed.0) parts.1
    ∙ laws.decrypt-encrypt key iv aad plaintext

-- Encrypting for a daemon's key always succeeds, and both decryptions, that of Node and that of Web
-- Crypto, give the plain text back under the same session id and message type.
pub ecies_decrypt-ecies_encrypt :
    (n : Node) (c : Crypto) (p : Platform)
    → EciesLaws n c p
    → (eph daemon : n.Ecdh) (k : n.CryptoKey) → IsSameKey n c p k daemon
    → (iv : List ℕ) (session_id message_type : String) (plaintext : List ℕ)
    → (e : EciesPayload) × (ecies_encrypt n c p eph iv
          (n.public_key daemon)
          session_id
          message_type
          plaintext
        ≡ some e)
      × (ecies_decrypt n c daemon session_id message_type e ≡ some plaintext)
      × (ecies_decrypt_web_crypto n c k session_id message_type e ≡ some plaintext)
unfolding ecies_encrypt ecies_decrypt ecies_decrypt_web_crypto to_payload
ecies_decrypt-ecies_encrypt n c p laws eph daemon k same iv session_id message_type plaintext =
    let s = laws.agree eph daemon in
    let pubkey = n.public_key eph in
    let e =
      to_payload n c p pubkey iv
        (n.encrypt (enc_key n c s.0 session_id) iv (c.from_utf8 message_type) plaintext) in
    let opened =
      decrypt_with-to_payload n c p laws pubkey iv s.0 plaintext session_id message_type in
    let opens = λ (derive : List ℕ → Option (List ℕ)) (h : derive pubkey ≡ some s.0).
      ap (λ b. decrypt_with n c session_id message_type e (derive b)) (laws.base64 pubkey)
      ∙ ap (decrypt_with n c session_id message_type e) h
      ∙ opened in
    (
      e,
      rw (s.1, ecies_encrypt),
      opens (n.compute_secret daemon) s.2,
      opens (n.derive_bits k) (same pubkey ∙ s.2),
    )
