-- ===== src/Client/Identity.antt =====
-- class Identity of client/identity.ts. Web Crypto, atob and btoa are the parameter `WebCrypto`; an
-- exception is `none`. mintClientCert is a call of shared/certs.ts on the sign keys.
pub mod Der
pub mod Laws
mod Tests
use Prim.Native.Char.{Char}
use dicode_relay.Common.{
  ℕ, ◌/◌, ◌%◌, String, List, [], ◌∷◌, Option, none, some, Bool, true, ◌&&◌, if◌then◌else◌, get_or,
  ◌>>=◌,
}
use dicode_relay.Shared.Preimage.{Crypto, build_signed_payload}
use dicode_relay.Shared.SigningKey.{truthy}
use dicode_relay.Client.Identity.Der.{p1363_to_der}

pub record JsonWebKey : Type 0 where
  pub crv : Option String
  pub kty : Option String
  pub x : Option String
  pub y : Option String
  pub d : Option String
  pub ext : Option Bool

-- The algorithm of a key on the curve P-256.
pub data Algorithm : Type 0 where
  ecdsa ecdh : Algorithm

pub record WebCrypto (CryptoKey : Type 0) : Type 0 where
  pub generate_key : Algorithm → CryptoKey
  pub import_pkcs8 : List ℕ → Algorithm → Option CryptoKey
  pub export_pkcs8 : CryptoKey → List ℕ
  pub export_jwk : CryptoKey → JsonWebKey
  pub import_jwk : JsonWebKey → Algorithm → Option CryptoKey
  pub export_raw : CryptoKey → List ℕ
  -- sign with ECDSA over SHA-256: the raw signature
  pub sign : CryptoKey → List ℕ → List ℕ
  pub atob : String → Option (List ℕ)
  pub btoa : List ℕ → String

pub record StoredIdentity : Type 0 where
  pub sign_priv_pkcs8_b64 : String
  pub decrypt_priv_pkcs8_b64 : String

abbrev pub hex_table : List Char
hex_table =
    "0" ∷ "1" ∷ "2" ∷ "3" ∷ "4" ∷ "5" ∷ "6" ∷ "7" ∷ "8" ∷ "9" ∷ "a" ∷ "b" ∷ "c" ∷ "d" ∷ "e" ∷ "f"
    ∷ []

-- `b.toString(16).padStart(2, "0")` of each byte, joined.
unfoldable pub hex : List ℕ → String
hex [] = ""
hex (b ∷ bs) =
    String.◌∷◌ (get_or hex_table (b / 16) "0") (String.◌∷◌ (get_or hex_table (b % 16) "0") (hex bs))

module _ {CryptoKey : Type 0} (w : WebCrypto CryptoKey) where
  pub record Identity : Type 0 where
    pub sign_private : CryptoKey
    pub sign_public : CryptoKey
    pub decrypt_private : CryptoKey
    pub decrypt_public : CryptoKey
    pub uuid : String
    pub sign_pubkey_b64 : String
    pub decrypt_pubkey_b64 : String

  unfoldable pub b64_to_ab : String → Option (List ℕ)
  b64_to_ab b64 = w.atob b64

  unfoldable pub ab_to_b64 : List ℕ → String
  ab_to_b64 ab = w.btoa ab

  unfoldable pub public_jwk : JsonWebKey → JsonWebKey
  public_jwk jwk = record {
    crv = jwk.crv;
    kty = jwk.kty;
    x = jwk.x;
    y = jwk.y;
    d = none;
    ext = jwk.ext;
  }

  unfoldable pub derive_pubkey : CryptoKey → Algorithm → Option CryptoKey
  derive_pubkey priv alg =
      let jwk = w.export_jwk priv in
      if truthy jwk.crv && truthy jwk.kty && truthy jwk.x && truthy jwk.y
      then w.import_jwk (public_jwk jwk) alg
      else none

  unfoldable pub make_identity : Crypto → CryptoKey → CryptoKey → CryptoKey → CryptoKey → Identity
  make_identity c sign_priv sign_pub decrypt_priv decrypt_pub = record {
    sign_private = sign_priv;
    sign_public = sign_pub;
    decrypt_private = decrypt_priv;
    decrypt_public = decrypt_pub;
    uuid = hex (c.sha256 (w.export_raw sign_pub));
    sign_pubkey_b64 = ab_to_b64 (w.export_raw sign_pub);
    decrypt_pubkey_b64 = ab_to_b64 (w.export_raw decrypt_pub);
  }

  unfoldable pub import_key : Algorithm → String → Option CryptoKey
  import_key alg b64 = do der ← b64_to_ab b64; w.import_pkcs8 der alg

  unfoldable pub from_keys : Crypto → CryptoKey → CryptoKey → Option Identity
  from_keys c sign_priv decrypt_priv = do
    sign_pub ← derive_pubkey sign_priv ecdsa
    decrypt_pub ← derive_pubkey decrypt_priv ecdh
    some (make_identity c sign_priv sign_pub decrypt_priv decrypt_pub)

  unfoldable pub from_stored : Crypto → StoredIdentity → Option Identity
  from_stored c s = do
    sign_priv ← import_key ecdsa s.sign_priv_pkcs8_b64
    decrypt_priv ← import_key ecdh s.decrypt_priv_pkcs8_b64
    from_keys c sign_priv decrypt_priv

  unfoldable pub store : CryptoKey → CryptoKey → StoredIdentity
  store sign_priv decrypt_priv = record {
    sign_priv_pkcs8_b64 = ab_to_b64 (w.export_pkcs8 sign_priv);
    decrypt_priv_pkcs8_b64 = ab_to_b64 (w.export_pkcs8 decrypt_priv);
  }

  unfoldable pub generate : Crypto → Option Identity
  generate c = from_stored c (store (w.generate_key ecdsa) (w.generate_key ecdh))

  unfoldable pub export_identity : Identity → StoredIdentity
  export_identity i = store i.sign_private i.decrypt_private

  unfoldable pub decrypt_private_key : Identity → CryptoKey
  decrypt_private_key i = i.decrypt_private

  unfoldable pub sign_auth_payload : Crypto → Identity → String → String → String → ℕ → String
  sign_auth_payload c i session_id challenge provider ts = ab_to_b64 (
      p1363_to_der
        (w.sign i.sign_private (build_signed_payload c session_id challenge i.uuid provider ts)))
