-- ===== src/Broker/FlowState.antt =====
-- broker/flow-state.ts: the flow sealed into a token and opened again. AES-256-GCM, base64, and JSON as
-- bytes are the parameter `Codec`. A JSON number is a natural number here: no other is sealed.
pub mod RoundTrip
use dicode_relay.Common.{
  ℕ, ◌+◌, ◌-◌, String, List, [], ◌∷◌, ◌++◌, Option, none, some, Bool, true, false, ltb,
  if◌then◌else◌, Dict, get, length, take, drop, ◌≡◌, refl, sym, ap, ◌∙◌, arith, ◌==◌, nat_eq,
  string_eq, length-append, length-take, take-append, drop-append,
}
use dicode_relay.Broker.Sessions.{Session}

pub data Value : Type 0 where
  text : String → Value
  number : ℕ → Value
  another : Value

pub data Json : Type 0 where
  object : Dict String Value → Json
  not_object : Json

pub record Codec : Type 0 where
  -- key, iv and plain text to cipher text and tag
  pub encrypt : List ℕ → List ℕ → List ℕ → List ℕ × List ℕ
  pub decrypt : List ℕ → List ℕ → List ℕ → List ℕ → Option (List ℕ)
  pub to_base64url : List ℕ → String
  pub from_base64url : String → List ℕ
  pub to_base64 : List ℕ → String
  pub from_base64 : String → List ℕ
  pub stringify : Json → List ℕ
  pub parse : List ℕ → Option Json

pub record CodecLaws (c : Codec) : Type 0 where
  pub tag_length : (key iv pt : List ℕ) → length (c.encrypt key iv pt).1 ≡ 16
  pub decrypt-encrypt :
      (key iv pt : List ℕ)
      → c.decrypt key iv (c.encrypt key iv pt).0 (c.encrypt key iv pt).1 ≡ some pt
  pub base64url : (bytes : List ℕ) → c.from_base64url (c.to_base64url bytes) ≡ bytes
  pub base64 : (bytes : List ℕ) → c.from_base64 (c.to_base64 bytes) ≡ bytes

abbrev pub flow_version : ℕ
flow_version = 1

abbrev pub iv_len : ℕ
iv_len = 12

abbrev pub tag_len : ℕ
tag_len = 16

-- A scope that is set and not empty.
unfoldable pub given_scope : Option String → Option String
given_scope none = none
given_scope (some s) = if s == "" then none else some s

unfoldable pub scope_field : Option String → Dict String Value
scope_field none = []
scope_field (some s) = ("scope", text s) ∷ []

unfoldable pub serialize : Codec → Session → Json
serialize c s = object (
    ("v", number flow_version)
    ∷ ("sessionId", text s.session_id)
    ∷ ("relayUuid", text s.relay_uuid)
    ∷ ("pubkey", text (c.to_base64 s.pubkey))
    ∷ ("pkceChallenge", text s.pkce_challenge)
    ∷ ("provider", text s.provider)
    ∷ ("expiresAt", number s.expires_at)
    ∷ scope_field (given_scope s.scope))

-- `sealFlowState`, with the random bytes as an argument.
unfoldable pub seal_flow_state : Codec → List ℕ → List ℕ → Session → String
seal_flow_state c key iv s =
    let sealed = c.encrypt key iv (c.stringify (serialize c s)) in
    c.to_base64url (iv ++ (sealed.0 ++ sealed.1))

unfoldable pub and_then {ℓ κ} : {A : Type ℓ} {B : Type κ} → Option A → (A → Option B) → Option B
and_then none f = none
and_then (some a) f = f a

unfoldable pub as_text : Option Value → Option String
as_text (some (text s)) = some s
as_text _ = none

unfoldable pub as_number : Option Value → Option ℕ
as_number (some (number n)) = some n
as_number _ = none

-- `undefined` or a text; the outer none is any other value.
unfoldable pub as_scope : Option Value → Option (Option String)
as_scope none = some none
as_scope (some (text s)) = some (some s)
as_scope (some _) = none

unfoldable pub is_version : Option ℕ → Bool
is_version none = false
is_version (some v) = v == flow_version

unfoldable pub session_of : Codec → Dict String Value → Option Session
session_of c m =
    if is_version (as_number (get "v" m))
    then and_then (as_text (get "sessionId" m)) (λ session_id.
      and_then (as_text (get "relayUuid" m)) (λ relay_uuid.
        and_then (as_text (get "pubkey" m)) (λ pubkey.
          and_then (as_text (get "pkceChallenge" m)) (λ pkce_challenge.
            and_then (as_text (get "provider" m)) (λ provider.
              and_then (as_number (get "expiresAt" m)) (λ expires_at.
                and_then (as_scope (get "scope" m)) (λ scope. some (record {
                  session_id = session_id;
                  relay_uuid = relay_uuid;
                  pubkey = c.from_base64 pubkey;
                  pkce_challenge = pkce_challenge;
                  provider = provider;
                  expires_at = expires_at;
                  scope = scope;
                }))))))))
    else none

unfoldable pub deserialize : Codec → Json → Option Session
deserialize c not_object = none
deserialize c (object m) = session_of c m

-- `openFlowState`
unfoldable pub open_flow_state : Codec → List ℕ → String → Option Session
open_flow_state c key token =
    let raw = c.from_base64url token in
    let n = length raw in
    if ltb n (iv_len + tag_len)
    then none
    else and_then
        (c.decrypt key (take iv_len raw) (drop iv_len (take (n - tag_len) raw))
          (drop (n - tag_len) raw))
        (λ pt. and_then (c.parse pt) (deserialize c))
