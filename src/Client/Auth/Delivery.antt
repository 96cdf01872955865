-- ===== src/Client/Auth/Delivery.antt =====
-- A delivery of the broker as the daemon opens it: handleCallback of broker/router.ts, eciesEncrypt and
-- the broker's signature, then decryptTokenEnvelope of client/auth.ts.
use dicode_relay.Common.{ℕ, String, List, Option, some, true, ◌≡◌, sym, ap, ◌∙◌, arith, subst}
use dicode_relay.Shared.Platform.{Platform}
use dicode_relay.Shared.Preimage.{Crypto}
use dicode_relay.Shared.Ecies.{
  EciesPayload, Node, delivery_type, ecies_encrypt, ecies_decrypt_web_crypto,
}
use dicode_relay.Shared.Ecies.RoundTrip.{EciesLaws, IsSameKey, ecies_decrypt-ecies_encrypt}
use dicode_relay.Shared.Delivery.{OauthTokenDeliveryPayload, verify_delivery_signature}
use dicode_relay.Broker.Query.{Query}
use dicode_relay.Broker.Sessions.{Session, Lru}
use dicode_relay.Broker.FlowState.{Codec}
use dicode_relay.Broker.Callback.{
  Delivery, delivers, filter_callback_token_fields, sign_delivery, recover_flow, handle_callback,
}
use dicode_relay.Broker.Callback.Guards.{handle_callback_delivers}
use dicode_relay.Client.Identity.{WebCrypto, Identity, decrypt_private_key}
use dicode_relay.Client.Auth.{tokens, parse_tokens, open_envelope, decrypt_token_envelope}

-- What the callback calls: eciesEncrypt with a fresh key pair and nonce, and the broker's signature.
abbrev pub node_delivery :
    (n : Node)
    → Crypto
    → Platform
    → n.Ecdh
    → List ℕ
    → (List ℕ → String)
    → (Query → List ℕ)
    → (OauthTokenDeliveryPayload → List ℕ)
    → Delivery
node_delivery n c p eph iv sign tokens_json payload_json = record {
  ecies_encrypt = ecies_encrypt n c p eph iv;
  sign = sign;
  tokens_json = tokens_json;
  payload_json = payload_json;
}

module _ {T : Type 0} (n : Node) (c : Crypto) (parse : List ℕ → Option T) where
  open_sign_delivery :
      (w : WebCrypto n.CryptoKey) (i : Identity w) (d : Delivery) (broker_key session_id : String)
      (e : EciesPayload) (plain : List ℕ) (t : T)
      → ((m : List ℕ)
          → c.verify (c.from_base64 broker_key) m (c.from_base64 (d.sign m)) ≡ some true)
      → ecies_decrypt_web_crypto n c i.decrypt_private session_id delivery_type e ≡ some plain
      → parse plain ≡ some t
      → decrypt_token_envelope n c parse w (sign_delivery d c session_id e) i broker_key ≡ tokens t
  unfolding decrypt_token_envelope sign_delivery verify_delivery_signature open_envelope
      parse_tokens decrypt_private_key
  open_sign_delivery w i d broker_key session_id e plain t verifies opens parsed =
      rw (verifies, opens, parsed, parse_tokens)

module _ (n : Node) (c : Crypto) (p : Platform) (parse : List ℕ → Option Query) (l : Lru)
    (codec : Codec) (key : List ℕ) where
  -- What a callback delivers for a flow whose key is the daemon's, the daemon's identity opens: it finds
  -- the signature valid and decrypts exactly the allowed fields of the callback.
  pub decrypt_token_envelope-handle_callback :
      EciesLaws n c p
      → (w : WebCrypto n.CryptoKey) (i : Identity w) (daemon eph : n.Ecdh)
      → IsSameKey n c p i.decrypt_private daemon
      → (iv : List ℕ) (sign : List ℕ → String) (tokens_json : Query → List ℕ)
        (payload_json : OauthTokenDeliveryPayload → List ℕ) (broker_key : String)
      → ((m : List ℕ) → c.verify (c.from_base64 broker_key) m (c.from_base64 (sign m)) ≡ some true)
      → (q : Query) (now_ms : ℕ) (token : Option String) (seen : l.Cache) (s : Session)
        (uuid : String) (body : OauthTokenDeliveryPayload)
      → parse (tokens_json (filter_callback_token_fields q)) ≡ some (filter_callback_token_fields q)
      → recover_flow l codec key token ≡ some s
      → s.pubkey ≡ n.public_key daemon
      → let d = node_delivery n c p eph iv sign tokens_json payload_json in
        (handle_callback l d c codec key q now_ms token seen).reply ≡ delivers uuid body
        → (uuid ≡ s.relay_uuid)
          × (decrypt_token_envelope n c parse w body i broker_key
              ≡ tokens (filter_callback_token_fields q))
  decrypt_token_envelope-handle_callback laws w i daemon eph same iv sign tokens_json payload_json
        broker_key verifies q now_ms token seen s uuid body json flow pubkey h =
      let d = node_delivery n c p eph iv sign tokens_json payload_json in
      let r = handle_callback_delivers l d c codec key q now_ms token seen uuid body h in
      let plain = tokens_json (filter_callback_token_fields q) in
      let is_s : r.0 ≡ s = ground (arith, r.2.sealed) in
      let opened =
        ecies_decrypt-ecies_encrypt n c p laws eph daemon i.decrypt_private same iv r.0.session_id
          delivery_type plain in
      let k : r.0.pubkey ≡ n.public_key daemon = ap (λ x. x.pubkey) is_s ∙ pubkey in
      let sealed : ecies_encrypt n c p eph iv (n.public_key daemon) r.0.session_id delivery_type
            plain
          ≡ some r.1 =
        subst (λ b. ecies_encrypt n c p eph iv b r.0.session_id delivery_type plain ≡ some r.1) k
          r.2.encrypted in
      let e : opened.0 ≡ r.1 = ground (arith, opened.1) in
      (
        r.3 ∙ ap (λ x. x.relay_uuid) is_s,
        subst
            (λ b.
              decrypt_token_envelope n c parse w b i broker_key
              ≡ tokens (filter_callback_token_fields q))
            (sym r.4)
            (open_sign_delivery n c parse w i d broker_key r.0.session_id r.1 plain
              (filter_callback_token_fields q) verifies
              (subst
                (λ x.
                  ecies_decrypt_web_crypto n c i.decrypt_private r.0.session_id delivery_type x
                  ≡ some plain)
                e opened.3)
              json),
      )
