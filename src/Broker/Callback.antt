-- ===== src/Broker/Callback.antt =====
-- handleCallback of broker/router.ts up to the forward, and the forward itself. `Delivery` is what the
-- handler calls and does not implement: eciesEncrypt (none where it throws), the broker's signature,
-- and JSON as bytes.
pub mod Guards
pub mod Answer
use dicode_relay.Common.{
  ℕ, String, List, [], ◌∷◌, Option, none, some, Bool, true, false, leb, not, ◌||◌, if◌then◌else◌,
  ◌==◌, string_eq, Dict,
}
use dicode_relay.Shared.Platform.{Platform}
use dicode_relay.Shared.Preimage.{Crypto, build_delivery_signature_payload}
use dicode_relay.Shared.Ecies.{EciesPayload, delivery_type}
use dicode_relay.Shared.Delivery.{OauthTokenDeliveryPayload}
use dicode_relay.Relay.State.{Server}
use dicode_relay.Relay.Pending.{Result, forward}
use dicode_relay.Broker.Query.{QueryValue, Query, param}
use dicode_relay.Broker.Sessions.{Session, Lru, add_seen}
use dicode_relay.Broker.FlowState.{Codec, open_flow_state}

pub record Delivery : Type 0 where
  pub ecies_encrypt : List ℕ → String → String → List ℕ → Option EciesPayload
  pub sign : List ℕ → String
  pub tokens_json : Query → List ℕ
  pub payload_json : OauthTokenDeliveryPayload → List ℕ

unfoldable pub is_allowed_token_field : String → Bool
is_allowed_token_field k =
    (k == "access_token")
    || (k == "refresh_token")
    || (k == "token_type")
    || (k == "expires_in")
    || (k == "scope")
    || (k == "id_token")
    || (k == "raw")

unfoldable pub filter_callback_token_fields : Query → Query
filter_callback_token_fields [] = []
filter_callback_token_fields ((k, v) ∷ q) =
    let rest = filter_callback_token_fields q in
    if is_allowed_token_field k then (k, v) ∷ rest else rest

-- `delivers` names the daemon and the body of the POST to its /hooks/oauth-complete.
pub data Reply : Type 0 where
  answers : (status : ℕ) (text : String) → Reply
  delivers : (relay_uuid : String) (body : OauthTokenDeliveryPayload) → Reply

-- The flow in the cookie after the handler, and the ids seen.
pub record Outcome (l : Lru) : Type 0 where
  pub reply : Reply
  pub flow : Option String
  pub seen : l.Cache

-- The envelope, with the signature over its fields.
unfoldable pub sign_delivery : Delivery → Crypto → String → EciesPayload → OauthTokenDeliveryPayload
sign_delivery d c session_id e = record {
  type = delivery_type;
  session_id = session_id;
  ephemeral_pubkey = e.ephemeral_pubkey;
  ciphertext = e.ciphertext;
  nonce = e.nonce;
  broker_sig = some (
      d.sign (
        build_delivery_signature_payload c delivery_type session_id e.ephemeral_pubkey e.ciphertext
          e.nonce));
}

unfoldable pub encrypt_and_sign : Delivery → Crypto → Query → Session → Reply
encrypt_and_sign d c q s =
    elim (d.ecies_encrypt s.pubkey s.session_id delivery_type
      (d.tokens_json (filter_callback_token_fields q))) [
        | none ↦ answers 500 "Encryption failed"
        | some e ↦ delivers s.relay_uuid (sign_delivery d c s.session_id e)
      ]

module _ (l : Lru) where
  unfoldable pub use_flow :
      Delivery → Crypto → Query → String → ℕ → Option String → l.Cache → Session → Outcome l
  use_flow d c q state now_ms flow seen s =
      if not (s.session_id == state)
      then record { reply = answers 400 "Session mismatch"; flow = none; seen = seen }
      else if leb s.expires_at now_ms
      then record { reply = answers 400 "Session expired or not found"; flow = none; seen = seen }
      else let added = add_seen l s.session_id seen in
        if added.0
        then record { reply = encrypt_and_sign d c q s; flow = none; seen = added.1 }
        else record { reply = answers 400 "Session already used"; flow = none; seen = added.1 }

  unfoldable pub recover_flow : Codec → List ℕ → Option String → Option Session
  recover_flow codec key none = none
  recover_flow codec key (some token) = open_flow_state codec key token

  unfoldable pub with_flow :
      Delivery → Crypto → Query → String → ℕ → Option String → l.Cache → Option Session → Outcome l
  with_flow d c q state now_ms flow seen none = record {
    reply = answers 400 "Session expired or not found";
    flow = flow;
    seen = seen;
  }
  with_flow d c q state now_ms flow seen (some s) = use_flow d c q state now_ms flow seen s

  unfoldable pub with_params :
      Delivery
      → Crypto
      → Codec
      → List ℕ
      → Query
      → ℕ
      → Option String
      → l.Cache
      → Option String
      → Option String
      → Outcome l
  with_params d c codec key q now_ms flow seen (some state) (some access_token) =
      with_flow d c q state now_ms flow seen (recover_flow codec key flow)
  with_params d c codec key q now_ms flow seen _ _ = record {
    reply = answers 400 "Missing state or token";
    flow = flow;
    seen = seen;
  }

  unfoldable pub handle_callback :
      Delivery → Crypto → Codec → List ℕ → Query → ℕ → Option String → l.Cache → Outcome l
  handle_callback d c codec key q now_ms flow seen = elim (param "error" q) [
    | some error ↦ record { reply = answers 400 "OAuth error"; flow = flow; seen = seen }
    | none ↦ with_params d c codec key q now_ms flow seen (param "state" q) (param "access_token" q)
  ]

-- `relay.forward` of a delivery.
unfoldable pub forward_delivery :
    Delivery
    → Platform
    → String
    → String
    → String
    → OauthTokenDeliveryPayload
    → Server
    → Result Server
forward_delivery d p id request_id uuid body s =
    forward p id uuid "POST" "/hooks/oauth-complete"
      (("Content-Type", "application/json" ∷ []) ∷ ("X-Dicode-Request-Id", request_id ∷ []) ∷ [])
      (d.payload_json body) s
