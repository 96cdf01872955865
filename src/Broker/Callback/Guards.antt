-- ===== src/Broker/Callback/Guards.antt =====
-- When a token is delivered, to whom, and with what.
use dicode_relay.Common.{
  ℕ, ◌<◌, String, List, [], ◌∷◌, Option, none, some, false, if◌then◌else◌, string_eq, get, ◌↔◌, ◌≡◌,
  ◌≢◌, refl, ap, ◌∙◌, sym, arith, inl, inr, Option-cases,
}
use dicode_relay.Shared.Preimage.{Crypto}
use dicode_relay.Shared.Ecies.{EciesPayload, delivery_type}
use dicode_relay.Shared.Delivery.{OauthTokenDeliveryPayload}
use dicode_relay.Broker.Query.{Query, param}
use dicode_relay.Broker.Sessions.{Session, Lru, LruLaws, add_seen}
use dicode_relay.Broker.FlowState.{Codec}
use dicode_relay.Broker.Callback.{
  Delivery, delivers, is_allowed_token_field, filter_callback_token_fields, sign_delivery,
  encrypt_and_sign, use_flow, recover_flow, with_flow, with_params, handle_callback,
}

-- The delivered parameters are exactly those of the callback whose names are allowed.
pub get-filter_callback_token_fields :
    (k : String) (q : Query)
    → get k (filter_callback_token_fields q) ≡ (if is_allowed_token_field k then get k q else none)
unfolding filter_callback_token_fields get
get-filter_callback_token_fields k [] = ground arith
get-filter_callback_token_fields k ((j, v) ∷ q) =
    ground (arith, string_eq.beq_iff j k, get-filter_callback_token_fields k q)

module _ (l : Lru) (d : Delivery) (c : Crypto) (codec : Codec) (key : List ℕ) where
  -- The conditions of a delivery for a flow and an encrypted token.
  pub record Earned (q : Query) (now_ms : ℕ) (token : Option String) (seen : l.Cache) (s : Session)
      (e : EciesPayload) : Type 0 where
    pub no_error : param "error" q ≡ none
    pub state : param "state" q ≡ some s.session_id
    pub access_token : (a : String) × (param "access_token" q ≡ some a)
    pub sealed : recover_flow l codec key token ≡ some s
    pub in_time : now_ms < s.expires_at
    pub unused : l.has_key s.session_id seen ≡ false
    pub encrypted :
        d.ecies_encrypt s.pubkey s.session_id delivery_type
          (d.tokens_json (filter_callback_token_fields q))
        ≡ some e

  encrypt_and_sign_lem :
      (q : Query) (s : Session) (uuid : String) (body : OauthTokenDeliveryPayload)
      → encrypt_and_sign d c q s ≡ delivers uuid body
      → (e : EciesPayload) × (d.ecies_encrypt s.pubkey s.session_id delivery_type
            (d.tokens_json (filter_callback_token_fields q))
          ≡ some e)
        × (uuid ≡ s.relay_uuid)
        × (body ≡ sign_delivery d c s.session_id e)
  unfolding encrypt_and_sign
  encrypt_and_sign_lem q s uuid body h =
      elim (Option-cases (
        d.ecies_encrypt s.pubkey s.session_id delivery_type
          (d.tokens_json (filter_callback_token_fields q)))) [
            | inl n ↦ absurd (ground arith)
            | inr e ↦ (e.0, e.1, ground arith, ground arith)
          ]

  use_flow_lem :
      (q : Query) (state : String) (now_ms : ℕ) (token : Option String) (seen : l.Cache)
      (s : Session) (uuid : String) (body : OauthTokenDeliveryPayload)
      → (use_flow l d c q state now_ms token seen s).reply ≡ delivers uuid body
      → (s.session_id ≡ state)
        × (now_ms < s.expires_at)
        × (l.has_key s.session_id seen ≡ false)
        × (encrypt_and_sign d c q s ≡ delivers uuid body)
  unfolding use_flow add_seen
  use_flow_lem q state now_ms token seen s uuid body h = (
    ground (arith, string_eq.beq_iff s.session_id state),
    ground arith,
    ground arith,
    ground arith,
  )

  with_params_lem :
      (q : Query) (now_ms : ℕ) (token : Option String) (seen : l.Cache)
      (state access_token : Option String) (uuid : String) (body : OauthTokenDeliveryPayload)
      → (with_params l d c codec key q now_ms token seen state access_token).reply
        ≡ delivers uuid body
      → (st : String) × (a : String) × (s : Session) × (state ≡ some st)
        × (access_token ≡ some a)
        × (recover_flow l codec key token ≡ some s)
        × ((use_flow l d c q st now_ms token seen s).reply ≡ delivers uuid body)
  unfolding with_params with_flow
  with_params_lem q now_ms token seen none a uuid body h = absurd (ground arith)
  with_params_lem q now_ms token seen (some st) none uuid body h = absurd (ground arith)
  with_params_lem q now_ms token seen (some st) (some a) uuid body h =
      elim (Option-cases (recover_flow l codec key token)) [
        | inl n ↦ absurd (ground arith)
        | inr e ↦ (st, a, e.0, refl, refl, e.1, ground arith)
      ]

  -- A callback delivers a token only where it carries no error, its state is the session id of the
  -- flow that the cookie seals, it has an access token, the flow is in time and its id not yet seen,
  -- and the token could be encrypted to the flow's key; and it delivers to the daemon of that flow the
  -- signed envelope of that token's allowed fields.
  pub handle_callback_delivers :
      (q : Query) (now_ms : ℕ) (token : Option String) (seen : l.Cache) (uuid : String)
      (body : OauthTokenDeliveryPayload)
      → (handle_callback l d c codec key q now_ms token seen).reply ≡ delivers uuid body
      → (s : Session) × (e : EciesPayload) × Earned q now_ms token seen s e
        × (uuid ≡ s.relay_uuid)
        × (body ≡ sign_delivery d c s.session_id e)
  unfolding handle_callback
  handle_callback_delivers q now_ms token seen uuid body h = elim (Option-cases (param "error" q)) [
    | inr e ↦ absurd (ground arith)
    | inl n ↦
        let r =
          with_params_lem q now_ms token seen (param "state" q) (param "access_token" q) uuid body
            (ground arith) in
        let u = use_flow_lem q r.0 now_ms token seen r.2 uuid body r.6 in
        let t = encrypt_and_sign_lem q r.2 uuid body u.3 in
        (
          r.2,
          t.0,
          record {
            no_error = n;
            state = r.3 ∙ ap some (sym u.0);
            access_token = (r.1, r.4);
            sealed = r.5;
            in_time = u.1;
            unused = u.2;
            encrypted = t.1;
          },
          t.2,
          t.3,
        )
  ]

  use_flow-Earned :
      (q : Query) (now_ms : ℕ) (token : Option String) (seen : l.Cache) (s : Session)
      (e : EciesPayload)
      → Earned q now_ms token seen s e
      → use_flow l d c q s.session_id now_ms token seen s ≡ record {
        reply = delivers s.relay_uuid (sign_delivery d c s.session_id e);
        flow = none;
        seen = l.set_key s.session_id seen;
      }
  unfolding use_flow add_seen encrypt_and_sign
  use_flow-Earned q now_ms token seen s e h =
      ground (arith, string_eq.beq_iff s.session_id s.session_id, h.in_time, h.unused, h.encrypted)

  -- Where the conditions of `Earned` hold (no error, the flow's own state, an access token, a flow
  -- in time with an id not seen, and an encrypted token) the token is delivered, the cookie's flow
  -- is cleared and the id is recorded as seen.
  pub handle_callback-Earned :
      (q : Query) (now_ms : ℕ) (token : Option String) (seen : l.Cache) (s : Session)
      (e : EciesPayload)
      → Earned q now_ms token seen s e
      → handle_callback l d c codec key q now_ms token seen ≡ record {
        reply = delivers s.relay_uuid (sign_delivery d c s.session_id e);
        flow = none;
        seen = l.set_key s.session_id seen;
      }
  unfolding handle_callback with_params with_flow
  handle_callback-Earned q now_ms token seen s e h =
      rw (handle_callback, h.no_error, h.state, h.access_token.1, with_params, h.sealed, with_flow)
        (use_flow-Earned q now_ms token seen s e h)

  -- A callback delivers a token exactly where it carries no error, its state is the session id of the
  -- flow that the cookie seals, it has an access token, the flow is in time and its id not yet seen,
  -- and the token could be encrypted to the flow's key; and it delivers to the daemon of that flow the
  -- signed envelope of that token's allowed fields.
  pub handle_callback_iff :
      (q : Query) (now_ms : ℕ) (token : Option String) (seen : l.Cache) (uuid : String)
      (body : OauthTokenDeliveryPayload)
      → ((handle_callback l d c codec key q now_ms token seen).reply ≡ delivers uuid body) ↔ (
          (s : Session) × (e : EciesPayload) × Earned q now_ms token seen s e
          × (uuid ≡ s.relay_uuid)
          × (body ≡ sign_delivery d c s.session_id e))
  handle_callback_iff q now_ms token seen uuid body = (
    handle_callback_delivers q now_ms token seen uuid body,
    λ h.
        ap (λ o. o.reply) (handle_callback-Earned q now_ms token seen h.0 h.1 h.2)
        ∙ ap (λ u. delivers u (sign_delivery d c h.0.session_id h.1)) (sym h.3)
        ∙ ap (delivers uuid) (sym h.4),
  )

  -- A flow whose token has been delivered is not delivered again by the instance that remembers it:
  -- no callback with a cookie of the same session id delivers on the ids seen after the delivery.
  pub handle_callback_once :
      LruLaws l
      → (q q' : Query) (now now' : ℕ) (token token' : Option String) (seen : l.Cache)
        (s s' : Session) (e : EciesPayload) (uuid : String) (body : OauthTokenDeliveryPayload)
      → Earned q now token seen s e
      → recover_flow l codec key token' ≡ some s'
      → s'.session_id ≡ s.session_id
      → (handle_callback l d c codec key q' now' token'
          (handle_callback l d c codec key q now token seen).seen).reply
        ≢ delivers uuid body
  handle_callback_once laws q q' now now' token token' seen s s' e uuid body h same id again =
      let first = ap (λ o. o.seen) (handle_callback-Earned q now token seen s e h) in
      let r =
        handle_callback_delivers q' now' token'
          (handle_callback l d c codec key q now token seen).seen uuid body again in
      let replayed : some r.0 ≡ some s' = sym r.2.sealed ∙ same in
      ground (arith, laws.has-set s.session_id seen, r.2.unused, first, replayed, id)
