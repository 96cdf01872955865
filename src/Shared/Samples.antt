-- ===== src/Shared/Samples.antt =====
-- Values that the tests use: bytes written as text, and a curve, a cipher and encodings of toys that have
-- the properties which the code relies on.
use Prim.Native.Char.{code}
use dicode_relay.Common.{
  ℕ, zero, suc, ◌+◌, nat_eq, ap, ◌∙◌, String, List, [], ◌∷◌, Option, none, some, true,
  if◌then◌else◌, ◌==◌, replicate, ◌≡◌, refl, arith, length-replicate,
}
use dicode_relay.Shared.Platform.{Platform}
use dicode_relay.Shared.Preimage.{Crypto, codes}
use dicode_relay.Shared.Ecies.{Node}
use dicode_relay.Shared.Ecies.RoundTrip.{EciesLaws, IsSameKey}

-- Bytes as text: each as so many `a` and a `b`.
unfoldable pub unary : ℕ → String → String
unary zero s = String.◌∷◌ "b" s
unary (suc n) s = String.◌∷◌ "a" (unary n s)

unfoldable pub to_text : List ℕ → String
unfolding unary
to_text [] = ""
to_text (n ∷ ns) = unary n (to_text ns)

unfoldable pub from_text : ℕ → String → List ℕ
from_text acc String.[] = []
from_text acc (String.◌∷◌ c s) =
    let next = from_text 0 s in
    let more = from_text (suc acc) s in if code c == 98 then acc ∷ next else more

from_text-unary : (acc n : ℕ) (s : String) → from_text acc (unary n s) ≡ (acc + n) ∷ from_text 0 s
unfolding from_text unary
from_text-unary acc zero s = ap (λ k. k ∷ from_text 0 s) (omega arith)
from_text-unary acc (suc n) s =
    from_text-unary (suc acc) n s ∙ ap (λ k. k ∷ from_text 0 s) (omega arith)

pub from_text-to_text : (ns : List ℕ) → from_text 0 (to_text ns) ≡ ns
unfolding to_text from_text
from_text-to_text [] = refl
from_text-to_text (n ∷ ns) =
    from_text-unary 0 n (to_text ns)
    ∙ ap (λ k. k ∷ from_text 0 (to_text ns)) (omega arith)
    ∙ ap (◌∷◌ n) (from_text-to_text ns)

abbrev pub crypto : Crypto
crypto = record {
  sha256 = λ m. replicate 32 7;
  from_hex = codes;
  from_base64 = from_text 0;
  from_base64url = codes;
  from_utf8 = codes;
  verify = λ spki payload sig. some true;
}

abbrev pub platform : Platform
platform = record {
  sha256_hex = λ m. "u1";
  decode_base64 = from_text 0;
  encode_base64 = to_text;
  is_public_key = λ key. true;
}

-- The secret of two keys is their sum.
unfoldable pub shared : ℕ → List ℕ → Option (List ℕ)
shared a (tag ∷ b ∷ []) = some ((a + b) ∷ [])
shared a _ = none

abbrev pub node : Node
node = record {
  Ecdh = ℕ;
  public_key = λ a. 4 ∷ a ∷ [];
  compute_secret = shared;
  CryptoKey = ℕ;
  derive_bits = shared;
  hkdf = λ secret salt info n. secret;
  encrypt = λ key iv aad pt. (pt, replicate 16 0);
  decrypt = λ key iv aad ct tag. some ct;
}

pub node-EciesLaws : EciesLaws node crypto platform
unfolding shared
node-EciesLaws = record {
  agree = λ a b. ((a + b) ∷ [], refl, ap (λ k. some (k ∷ [])) (omega arith));
  tag_length = λ key iv aad pt. length-replicate {A = ℕ} 16 0;
  decrypt-encrypt = λ key iv aad pt. refl;
  base64 = from_text-to_text;
}

pub node-IsSameKey : (k : ℕ) → IsSameKey node crypto platform k k
node-IsSameKey k pubkey = refl
