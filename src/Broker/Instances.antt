-- ===== src/Broker/Instances.antt =====
-- Several instances of the broker behind one address: the flow that one of them seals into the browser's
-- cookie comes back to any of them.
use dicode_relay.Common.{
  string_eq, String, ℕ, List, some, Bool, true, Dict, get, length, ◌≡◌, sym, refl, ◌∙◌,
}
use dicode_relay.Shared.SigningKey.{Environment, load_broker_signing_key, value_of}
use dicode_relay.Shared.SigningKey.Keys.{BrokerSigningKey, KeyOps, broker_key, broker_key_shared}
use dicode_relay.Broker.Sessions.{Session}
use dicode_relay.Broker.FlowState.{
  Codec, CodecLaws, serialize, given_scope, seal_flow_state, open_flow_state,
}
use dicode_relay.Broker.FlowState.RoundTrip.{open_flow_state-seal_flow_state}

-- Where an instance that requires a shared key has started with a key, an instance with the same
-- environment and the same contents of the configured key files has the same keys, whatever the working
-- directories hold, and it opens each flow that the first has sealed under an iv of 12 bytes; for any
-- cipher with tags of 16 bytes and encodings that invert themselves, where JSON.parse gives back the flow's
-- object from its text.
pub open_flow_state-broker_key :
    (k : KeyOps) (c : Codec)
    → CodecLaws c
    → (env : Environment) (file p p' g g' : String) (auto auto' : Bool)
      (files files' : Dict String String) (iv : List ℕ) (s : Session) (key : BrokerSigningKey)
    → get (value_of env.signing_key_file) files ≡ get (value_of env.signing_key_file) files'
    → get file files ≡ get file files'
    → broker_key k (load_broker_signing_key env p file auto true g files) ≡ some key
    → length iv ≡ 12
    → c.parse (c.stringify (serialize c s)) ≡ some (serialize c s)
    → (other : BrokerSigningKey) × (broker_key k
          (load_broker_signing_key env p' file auto' true g' files')
        ≡ some other)
      × (other ≡ key)
      × (open_flow_state c other.flow_state_key (seal_flow_state c key.flow_state_key iv s)
          ≡ some (record s { scope = given_scope s.scope }))
open_flow_state-broker_key k c laws env file p p' g g' auto auto' files files' iv s key e f started
      h json =
    (
      key,
      sym (broker_key_shared k env file p p' g g' auto auto' files files' e f) ∙ started,
      refl,
      open_flow_state-seal_flow_state c laws key.flow_state_key iv s h json,
    )
