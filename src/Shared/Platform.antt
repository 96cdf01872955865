-- ===== src/Shared/Platform.antt =====
-- What the code calls of Node's `crypto` and `Buffer` and of @bufbuild/protobuf and does not
-- implement: a parameter of every definition that uses it. Bytes are numbers.
use dicode_relay.Common.{ℕ, String, List, Bool}

pub record Platform : Type 0 where
  -- hex(sha256(bytes))
  pub sha256_hex : List ℕ → String
  -- Buffer.from(text, "base64") and buffer.toString("base64")
  pub decode_base64 : String → List ℕ
  pub encode_base64 : List ℕ → String
  -- createPublicKey({ key, format: "der", type: "spki" }) returns, and does not throw
  pub is_public_key : List ℕ → Bool
