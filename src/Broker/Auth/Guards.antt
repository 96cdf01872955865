-- ===== src/Broker/Auth/Guards.antt =====
-- Which requests are accepted.
use dicode_relay.Common.{
  ℕ, ◌/◌, String, Option, none, some, or_else, true, false, ltb, Dict, get, has, ℤ, pos, negsuc,
  dist_ℤ, ◌≡◌, ◌↔◌, refl, arith, inl, inr, Bool-cases, Option-cases, string_eq, ◌+◌, ap, ◌∙◌,
  if◌then◌else◌,
}
use dicode_relay.Relay.State.{Server, ConnectedClient}
use dicode_relay.Relay.Pending.{get_client}
use dicode_relay.Shared.Preimage.{Crypto, build_signed_payload, verify_ecdsa}
use dicode_relay.Shared.SigningKey.{truthy}
use dicode_relay.Broker.Query.{Query, param, is_relay_uuid, parse_int}
use dicode_relay.Broker.Sessions.{Session}
use dicode_relay.Broker.FlowState.{given_scope}
use dicode_relay.Broker.Providers.{ProviderConfig}
use dicode_relay.Broker.Auth.{
  accepts, AuthRequest, Read, missing, given, read_request, flow_of, check_signature, check_client,
  check_time, check_request, handle_auth,
}

module _ (c : Crypto) (s : Server) (tolerance : ℕ) (p : String) (now_ms : ℕ) where
  -- The daemon that the request names is registered, and its certificate's key verifies the signature
  -- over the request at a time within the tolerance.
  pub record IsSigned (r : AuthRequest) (client : ConnectedClient) (ts : ℕ) : Type 0 where
    pub uuid_format : is_relay_uuid r.relay_uuid ≡ true
    pub time : parse_int r.timestamp ≡ some (pos ts)
    pub in_range : ltb tolerance (dist_ℤ (pos (now_ms / 1000)) (pos ts)) ≡ false
    pub registered : get r.relay_uuid s.clients ≡ some client
    pub signature :
        verify_ecdsa c client.pubkey
          (build_signed_payload c r.session r.challenge r.relay_uuid p ts)
          r.sig
        ≡ true

  check_client_iff :
      (r : AuthRequest) (ts : ℤ) (flow : Session)
      → (check_client c s r p now_ms ts ≡ accepts flow) ↔ (
          (client : ConnectedClient) × (n : ℕ) × (ts ≡ pos n)
          × (get r.relay_uuid s.clients ≡ some client)
          × (verify_ecdsa c client.pubkey
                (build_signed_payload c r.session r.challenge r.relay_uuid p n)
                r.sig
              ≡ true)
          × (flow ≡ flow_of r p client now_ms))
  unfolding check_client get_client check_signature
  check_client_iff r (negsuc n) flow = elim (Option-cases (get r.relay_uuid s.clients)) [
    | inl e ↦ (λ h. absurd (ground arith), λ h. absurd (ground (arith, h.2)))
    | inr e ↦ (λ h. absurd (ground arith), λ h. absurd (ground (arith, h.2)))
  ]
  check_client_iff r (pos n) flow = elim (Option-cases (get r.relay_uuid s.clients)) [
    | inl e ↦ (λ h. absurd (ground arith), λ h. absurd (ground (arith, h.3)))
    | inr e ↦ (
      λ h. (e.0, n, refl, e.1, ground arith, ground arith),
      λ h. ground (arith, h.2, h.3, h.4, h.5),
    )
  ]

  check_request_lem :
      (read : Read) (flow : Session)
      → check_request c s tolerance p now_ms read ≡ accepts flow
      → (r : AuthRequest) × (client : ConnectedClient) × (ts : ℕ) × (read ≡ given r)
        × IsSigned r client ts
        × (flow ≡ flow_of r p client now_ms)
  unfolding check_request check_time
  check_request_lem (missing e) flow h = absurd (ground arith)
  check_request_lem (given r) flow h = elim (Option-cases (parse_int r.timestamp)) [
    | inl e ↦ absurd (ground arith)
    | inr e ↦
        let k : check_client c s r p now_ms e.0 ≡ accepts flow = ground arith in
        let q = (check_client_iff r e.0 flow).0 k in
        (
          r,
          q.0,
          q.1,
          refl,
          record {
            uuid_format = ground arith;
            time = ground (arith, q.2);
            in_range = ground (arith, q.2);
            registered = q.3;
            signature = q.4;
          },
          q.5,
        )
  ]

  check_request_accepts :
      (r : AuthRequest) (client : ConnectedClient) (ts : ℕ)
      → IsSigned r client ts
      → check_request c s tolerance p now_ms (given r) ≡ accepts (flow_of r p client now_ms)
  unfolding check_request check_time
  check_request_accepts r client ts h = ground (
    arith,
    h.uuid_format,
    h.time,
    h.in_range,
    (check_client_iff r (pos ts) (flow_of r p client now_ms)).1
        (client, ts, refl, h.registered, h.signature, refl),
  )

-- The flow of a request, field by field.
pub record IsBound (r : AuthRequest) (p : String) (client : ConnectedClient) (now_ms : ℕ)
    (flow : Session) : Type 0 where
  pub session_id : flow.session_id ≡ r.session
  pub relay_uuid : flow.relay_uuid ≡ r.relay_uuid
  pub pubkey : flow.pubkey ≡ client.decrypt_pubkey
  pub pkce_challenge : flow.pkce_challenge ≡ r.challenge
  pub provider : flow.provider ≡ p
  pub expires_at : flow.expires_at ≡ now_ms + 300000
  pub scope : flow.scope ≡ given_scope r.scope

scope_lem : (o : Option String) → (if truthy o then o else none) ≡ given_scope o
unfolding truthy given_scope
scope_lem none = refl
scope_lem (some x) = ground arith

IsBound-iff :
    (r : AuthRequest) (p : String) (client : ConnectedClient) (now_ms : ℕ) (flow : Session)
    → (flow ≡ flow_of r p client now_ms) ↔ IsBound r p client now_ms flow
unfolding flow_of
IsBound-iff r p client now_ms flow = (
  λ e. record {
    session_id = ap (λ f. f.session_id) e;
    relay_uuid = ap (λ f. f.relay_uuid) e;
    pubkey = ap (λ f. f.pubkey) e;
    pkce_challenge = ap (λ f. f.pkce_challenge) e;
    provider = ap (λ f. f.provider) e;
    expires_at = ap (λ f. f.expires_at) e;
    scope = ap (λ f. f.scope) e ∙ scope_lem r.scope;
  },
  λ b. ground (
    arith,
    b.session_id,
    b.relay_uuid,
    b.pubkey,
    b.pkce_challenge,
    b.provider,
    b.expires_at,
    b.scope,
    scope_lem r.scope,
  ),
)

-- A request is accepted exactly where its provider is enabled, no parameter is missing, and it is
-- signed in time by the registered daemon that it names. The flow then names that daemon, the session
-- and the provider, expires 300 seconds later, and its key is the daemon's decryption key.
pub handle_auth_iff :
    (c : Crypto) (s : Server) (providers : Dict String ProviderConfig) (tolerance : ℕ)
    (provider : Option String) (q : Query) (now_ms : ℕ) (flow : Session)
    → (handle_auth c s providers tolerance provider q now_ms ≡ accepts flow) ↔ (
        (p : String) × (r : AuthRequest) × (client : ConnectedClient) × (ts : ℕ) × (provider
          ≡ some p)
        × (has p providers ≡ true)
        × (read_request q ≡ given r)
        × IsSigned c s tolerance p now_ms r client ts
        × IsBound r p client now_ms flow)
unfolding handle_auth
handle_auth_iff c s providers tolerance none q now_ms flow =
    (λ h. absurd (ground arith), λ h. absurd (ground (arith, h.4)))
handle_auth_iff c s providers tolerance (some p) q now_ms flow =
    elim (Bool-cases (has p providers)) [
      | inr n ↦ (λ h. absurd (ground arith), λ h. absurd (ground (arith, h.4, h.5)))
      | inl y ↦ (
        λ h.
            let r = check_request_lem c s tolerance p now_ms (read_request q) flow (ground arith) in
            (p, r.0, r.1, r.2, refl, y, r.3, r.4, (IsBound-iff r.0 p r.1 now_ms flow).0 r.5),
        λ h.
            let e : h.0 ≡ p = ground (arith, h.4) in
            rw (y, h.6, (IsBound-iff h.1 h.0 h.2 now_ms flow).1 h.8, ← e)
              (check_request_accepts c s tolerance h.0 now_ms h.1 h.2 h.3 h.7),
      )
    ]

truthy_lem : (o : Option String) → truthy o ≡ true → o ≡ some (or_else o "")
unfolding truthy
truthy_lem none h = absurd (ground arith)
truthy_lem (some x) h = refl

-- A request is read exactly where session, challenge, relay_uuid, sig and timestamp are given and
-- not empty; it is then read with these values and with the scope that is given, if any.
pub read_request_iff :
    (q : Query) (r : AuthRequest)
    → (read_request q ≡ given r) ↔ (
        (param "session" q ≡ some r.session)
        × (truthy (some r.session) ≡ true)
        × (param "challenge" q ≡ some r.challenge)
        × (truthy (some r.challenge) ≡ true)
        × (param "relay_uuid" q ≡ some r.relay_uuid)
        × (truthy (some r.relay_uuid) ≡ true)
        × (param "sig" q ≡ some r.sig)
        × (truthy (some r.sig) ≡ true)
        × (param "timestamp" q ≡ some r.timestamp)
        × (truthy (some r.timestamp) ≡ true)
        × (param "scope" q ≡ r.scope))
unfolding read_request
read_request_iff q r = (
  λ h. ground (
    arith,
    truthy_lem (param "session" q),
    truthy_lem (param "challenge" q),
    truthy_lem (param "relay_uuid" q),
    truthy_lem (param "sig" q),
    truthy_lem (param "timestamp" q),
  ),
  λ h. ground (arith, h.0, h.1, h.2, h.3, h.4, h.5, h.6, h.7, h.8, h.9, h.10),
)
