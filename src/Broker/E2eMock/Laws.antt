-- ===== src/Broker/E2eMock/Laws.antt =====
-- What the mock endpoints hand on to the callback and to the relay.
use Prim.Native.String.{◌++◌ as join}
use dicode_relay.Common.{
  ℕ, ◌<◌, String, List, [], ◌∷◌, Option, none, some, or_else, true, false, ◌≡◌, ◌↔◌, refl, sym, ap,
  ◌∙◌, subst, arith, Option-cases, inl, inr, string_eq, get,
}
use dicode_relay.Shared.Preimage.{Crypto}
use dicode_relay.Shared.SigningKey.{truthy}
use dicode_relay.Shared.Ecies.{EciesPayload, delivery_type}
use dicode_relay.Shared.Delivery.{OauthTokenDeliveryPayload}
use dicode_relay.Relay.State.{Server, ConnectedClient}
use dicode_relay.Relay.Pending.{get_client, ok}
use dicode_relay.Broker.Query.{Query, one, param, first}
use dicode_relay.Broker.Sessions.{Session, Lru}
use dicode_relay.Broker.FlowState.{Codec}
use dicode_relay.Broker.FlowSession.{FlowSession, read_broker_flow}
use dicode_relay.Broker.Callback.{
  Delivery, delivers, filter_callback_token_fields, is_allowed_token_field, sign_delivery,
  recover_flow, handle_callback,
}
use dicode_relay.Broker.Callback.Guards.{Earned, handle_callback-Earned}
use dicode_relay.Broker.E2eMock.{
  redirects, callback_path, recover_session, connect_session, handle_connect_mock, DeliverBody,
  forwards, unsigned, signed_payload, deliver_to, handle_deliver,
}

-- The query of the callback's path.
abbrev pub mock_query : String → Query
mock_query state =
    ("state", one state)
    ∷ ("access_token", one (join "mock-token-" state))
    ∷ ("token_type", one "bearer")
    ∷ []

connect_session_lem :
    (encode : String → String) (state : String) (now_ms : ℕ) (cookie after : FlowSession)
    (o : Option Session) (location : String)
    → connect_session encode state now_ms cookie o ≡ (redirects location, after)
    → (s : Session) × (o ≡ some s)
      × (s.session_id ≡ state)
      × (now_ms < s.expires_at)
      × (location ≡ callback_path encode state)
      × (after ≡ cookie)
unfolding connect_session
connect_session_lem encode state now_ms cookie after none location h = absurd (ground arith)
connect_session_lem encode state now_ms cookie after (some s) location h = (
  s,
  refl,
  ground (arith, string_eq.beq_iff s.session_id state),
  ground arith,
  ground arith,
  ground arith,
)

recover_same :
    (l : Lru) (codec : Codec) (key : List ℕ) (token : Option String)
    → recover_flow l codec key token ≡ recover_session codec key token
unfolding recover_flow recover_session
recover_same l codec key none = refl
recover_same l codec key (some token) = refl

-- The conditions of a delivery hold for the mock's query.
mock_query-Earned :
    (l : Lru) (d : Delivery) (c : Crypto) (codec : Codec) (key : List ℕ) (later : ℕ)
    (token : Option String) (seen : l.Cache) (s : Session) (e : EciesPayload)
    → recover_session codec key token ≡ some s
    → later < s.expires_at
    → l.has_key s.session_id seen ≡ false
    → d.ecies_encrypt s.pubkey s.session_id delivery_type (
        d.tokens_json (
          ("access_token", one (join "mock-token-" s.session_id))
          ∷ ("token_type", one "bearer")
          ∷ []))
      ≡ some e
    → Earned l d c codec key (mock_query s.session_id) later token seen s e
unfolding param first get filter_callback_token_fields is_allowed_token_field
mock_query-Earned l d c codec key later token seen s e flow in_time unused encrypted = record {
  no_error = refl;
  state = refl;
  access_token = (join "mock-token-" s.session_id, refl);
  sealed = recover_same l codec key token ∙ flow;
  in_time = in_time;
  unused = unused;
  encrypted = encrypted;
}

module _ (encode : String → String) (parse : String → Query) (codec : Codec) (key : List ℕ) where
  -- Where the mock provider redirects, the callback at that location delivers the mock token: to the
  -- flow's daemon, at any later time before the flow expires, where its id is not yet seen and the
  -- token can be encrypted. The hypothesis on `parse` is what Express reads of the location.
  pub handle_callback-handle_connect_mock :
      (l : Lru) (d : Delivery) (c : Crypto)
      → ((state : String) → parse (callback_path encode state) ≡ mock_query state)
      → (q : Query) (now_ms later : ℕ) (cookie after : FlowSession) (location : String)
      → handle_connect_mock encode codec key q now_ms cookie ≡ (redirects location, after)
      → (seen : l.Cache) (s : Session) (e : EciesPayload)
      → recover_session codec key (read_broker_flow cookie) ≡ some s
      → later < s.expires_at
      → l.has_key s.session_id seen ≡ false
      → d.ecies_encrypt s.pubkey s.session_id delivery_type (
          d.tokens_json (
            ("access_token", one (join "mock-token-" s.session_id))
            ∷ ("token_type", one "bearer")
            ∷ []))
        ≡ some e
      → handle_callback l d c codec key (parse location) later (read_broker_flow after) seen
        ≡ record {
          reply = delivers s.relay_uuid (sign_delivery d c s.session_id e);
          flow = none;
          seen = l.set_key s.session_id seen;
        }
  unfolding handle_connect_mock
  handle_callback-handle_connect_mock l d c parsed q now_ms later cookie after location h seen s e
        flow in_time unused encrypted =
      let state = or_else (param "state" q) "" in
      let r =
        connect_session_lem encode state now_ms cookie after
          (recover_session codec key (read_broker_flow cookie)) location (ground arith) in
      let is_s : r.0 ≡ s = ground (arith, r.1) in
      let at : parse location ≡ mock_query s.session_id =
        ap parse r.4 ∙ parsed state ∙ ap mock_query (sym r.2 ∙ ap (λ x. x.session_id) is_s) in
      let kept : recover_session codec key (read_broker_flow after) ≡ some s =
        ap (λ k. recover_session codec key (read_broker_flow k)) r.5 ∙ flow in
      subst
        (λ p. handle_callback l d c codec key p later (read_broker_flow after) seen ≡ record {
          reply = delivers s.relay_uuid (sign_delivery d c s.session_id e);
          flow = none;
          seen = l.set_key s.session_id seen;
        })
        (sym at)
        (handle_callback-Earned l d c codec key (mock_query s.session_id) later
          (read_broker_flow after) seen s e
          (mock_query-Earned l d c codec key later (read_broker_flow after) seen s e kept in_time
            unused encrypted))

encrypted_lem :
    (d : Delivery) (c : Crypto) (u session_id uuid : String) (tokens : List ℕ)
    (client : ConnectedClient) (envelope : OauthTokenDeliveryPayload)
    → deliver_to d c u session_id tokens (ok client) ≡ forwards uuid envelope
    → (e : EciesPayload) × (d.ecies_encrypt client.decrypt_pubkey session_id delivery_type tokens
        ≡ some e)
      × (u ≡ uuid)
      × (envelope ≡ sign_delivery d c session_id e)
unfolding deliver_to signed_payload unsigned sign_delivery
encrypted_lem d c u session_id uuid tokens client envelope h =
    elim (Option-cases (d.ecies_encrypt client.decrypt_pubkey session_id delivery_type tokens)) [
      | inl n ↦ absurd (ground arith)
      | inr e ↦ (e.0, e.1, ground arith, ground arith)
    ]

deliver_to_lem :
    (d : Delivery) (c : Crypto) (s : Server) (u session_id : String) (tokens : List ℕ)
    (client : ConnectedClient) (e : EciesPayload)
    → get u s.clients ≡ some client
    → d.ecies_encrypt client.decrypt_pubkey session_id delivery_type tokens ≡ some e
    → deliver_to d c u session_id tokens (get_client s u)
      ≡ forwards u (sign_delivery d c session_id e)
unfolding get_client deliver_to signed_payload unsigned sign_delivery
deliver_to_lem d c s u session_id tokens client e registered encrypted =
    rw (deliver_to, registered) (rw (deliver_to, encrypted))

truthy-some : (o : Option String) → truthy o ≡ true → (x : String) × (o ≡ some x)
unfolding truthy
truthy-some none h = absurd (ground arith)
truthy-some (some x) h = (x, refl)

registered_lem :
    (d : Delivery) (c : Crypto) (s : Server) (u session_id uuid : String) (tokens : List ℕ)
    (envelope : OauthTokenDeliveryPayload)
    → deliver_to d c u session_id tokens (get_client s u) ≡ forwards uuid envelope
    → (client : ConnectedClient) × (get u s.clients ≡ some client)
      × (deliver_to d c u session_id tokens (ok client) ≡ forwards uuid envelope)
unfolding get_client deliver_to
registered_lem d c s u session_id uuid tokens envelope h = elim (Option-cases (get u s.clients)) [
  | inl n ↦ absurd (ground arith)
  | inr k ↦ (k.0, k.1, ground arith)
]

-- POST /_test/deliver forwards exactly a well-formed body to a registered daemon, encrypted to the key
-- that daemon registered, in the same signed envelope as the callback's.
pub handle_deliver_iff :
    (d : Delivery) (c : Crypto) (s : Server) (body : DeliverBody) (uuid : String)
    (envelope : OauthTokenDeliveryPayload)
    → (handle_deliver d c s body ≡ forwards uuid envelope) ↔ (
        (tokens : List ℕ) × (session_id : String) × (client : ConnectedClient) × (e : EciesPayload)
        × (body.tokens ≡ some tokens)
        × (body.uuid ≡ some uuid)
        × (body.session_id ≡ some session_id)
        × (truthy (some uuid) ≡ true)
        × (truthy (some session_id) ≡ true)
        × (truthy body.provider ≡ true)
        × (get uuid s.clients ≡ some client)
        × (d.ecies_encrypt client.decrypt_pubkey session_id delivery_type tokens ≡ some e)
        × (envelope ≡ sign_delivery d c session_id e))
unfolding handle_deliver
handle_deliver_iff d c s body uuid envelope = (
  λ h. elim (Option-cases body.tokens) [
    | inl n ↦ absurd (ground arith)
    | inr t ↦
        let u = truthy-some body.uuid (ground arith) in
        let i = truthy-some body.session_id (ground arith) in
        let k = registered_lem d c s u.0 i.0 uuid t.0 envelope (ground (arith, u.1, i.1)) in
        let e = encrypted_lem d c u.0 i.0 uuid t.0 k.0 envelope k.2 in
        (
          t.0,
          i.0,
          k.0,
          e.0,
          t.1,
          u.1 ∙ ap some e.2,
          i.1,
          ground (arith, u.1, e.2),
          ground (arith, i.1),
          ground arith,
          subst (λ v. get v s.clients ≡ some k.0) e.2 k.1,
          e.1,
          e.3,
        )
  ],
  λ h.
      rw (h.4, h.5, h.6, h.7, h.8, h.9)
        (deliver_to_lem d c s uuid h.1 h.0 h.2 h.3 h.10 h.11 ∙ ap (forwards uuid) (sym h.12)),
)
