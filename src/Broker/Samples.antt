-- ===== src/Broker/Samples.antt =====
-- Values that the broker's tests use: a cache that forgets nothing, a codec, and a sealed flow.
use dicode_relay.Common.{
  ℕ, String, List, [], ◌∷◌, none, some, Bool, false, ◌||◌, ◌==◌, string_eq, replicate, refl, arith,
  length-replicate,
}
use dicode_relay.Shared.Samples.{to_text, from_text, from_text-to_text}
use dicode_relay.Broker.Sessions.{Session, Lru, LruLaws}
use dicode_relay.Broker.FlowState.{Codec, CodecLaws, Json, object, text, number, seal_flow_state}

-- A cache that forgets nothing.
abbrev pub mem : String → List String → Bool
mem id [] = false
mem id (x ∷ xs) = (x == id) || mem id xs

abbrev pub lru : Lru
lru = record { Cache = List String; has_key = mem; set_key = λ id c. id ∷ c }

pub lru-LruLaws : LruLaws lru
lru-LruLaws = record { has-set = λ id c. ground (arith, string_eq.beq_iff id id) }

abbrev pub flow : Session
flow = record {
  session_id = "s1";
  relay_uuid = "u1";
  pubkey = 4 ∷ 7 ∷ [];
  pkce_challenge = "c";
  provider = "github";
  expires_at = 1000;
  scope = none;
}

-- The flow's object as the codec below writes it.
abbrev pub flow_json : Json
flow_json = object (
    ("v", number 1)
    ∷ ("sessionId", text "s1")
    ∷ ("relayUuid", text "u1")
    ∷ ("pubkey", text (to_text (4 ∷ 7 ∷ [])))
    ∷ ("pkceChallenge", text "c")
    ∷ ("provider", text "github")
    ∷ ("expiresAt", number 1000)
    ∷ [])

abbrev pub codec : Codec
codec = record {
  encrypt = λ key iv pt. (pt, replicate 16 0);
  decrypt = λ key iv ct tag. some ct;
  to_base64url = to_text;
  from_base64url = from_text 0;
  to_base64 = to_text;
  from_base64 = from_text 0;
  stringify = λ j. 1 ∷ [];
  parse = λ bytes. some flow_json;
}

pub codec-CodecLaws : CodecLaws codec
codec-CodecLaws = record {
  tag_length = λ key iv pt. length-replicate {A = ℕ} 16 0;
  decrypt-encrypt = λ key iv pt. refl;
  base64url = from_text-to_text;
  base64 = from_text-to_text;
}

abbrev pub token : String
token = seal_flow_state codec [] (replicate 12 5) flow
