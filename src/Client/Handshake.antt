-- ===== src/Client/Handshake.antt =====
-- runHandshake of client/handshake.ts after `hello` is sent: the first frame of the broker, parsed, and
-- what the handshake makes of it. `includes` is `String.prototype.includes`.
pub mod Greeting
use dicode_relay.Common.{
  ℕ, String, Option, or_else, Bool, true, if◌then◌else◌, ltb, ◌≡◌, ◌↔◌, ◌≤◌, arith,
}
use Prim.Native.String.{◌++◌ as join}

abbrev pub broker_protocol_min : ℕ
broker_protocol_min = 4

-- `kind` of a ServerMessage that is not a challenge.
pub data Welcome : Type 0 where
  not_json challenge bad_envelope : Welcome
  error : String → Welcome
  welcome : (url : String) (protocol : Option ℕ) (broker_pubkey : Option String) → Welcome
  other : Welcome

pub data HandshakeError : Type 0 where
  parse_failed old_broker envelope_failed unexpected_kind wrong_uuid : HandshakeError
  rejected_by_relay : String → HandshakeError
  protocol_too_old : ℕ → HandshakeError

pub data HandshakeResult : Type 0 where
  greeted : (hook_base_url broker_pubkey : String) → HandshakeResult
  throws : HandshakeError → HandshakeResult

unfoldable pub run_handshake : (String → String → Bool) → String → Welcome → HandshakeResult
run_handshake includes uuid not_json = throws parse_failed
run_handshake includes uuid challenge = throws old_broker
run_handshake includes uuid bad_envelope = throws envelope_failed
run_handshake includes uuid (error message) = throws (rejected_by_relay message)
run_handshake includes uuid other = throws unexpected_kind
run_handshake includes uuid (welcome url protocol broker_pubkey) =
    if ltb (or_else protocol 0) broker_protocol_min
    then throws (protocol_too_old (or_else protocol 0))
    else if includes url (join "/u/" (join uuid "/"))
    then greeted url (or_else broker_pubkey "")
    else throws wrong_uuid

-- A handshake succeeds exactly on a welcome of protocol 4 or later whose URL names the identity's own
-- uuid, and it then gives that URL and the announced key.
pub run_handshake_iff :
    (includes : String → String → Bool) (uuid : String) (frame : Welcome) (url key : String)
    → (run_handshake includes uuid frame ≡ greeted url key) ↔ (
        (protocol : Option ℕ) × (pubkey : Option String) × (frame ≡ welcome url protocol pubkey)
        × (4 ≤ or_else protocol 0)
        × (includes url (join "/u/" (join uuid "/")) ≡ true)
        × (key ≡ or_else pubkey ""))
unfolding run_handshake
run_handshake_iff includes uuid not_json url key = (λ h. cc, λ h. ground (arith, h.2))
run_handshake_iff includes uuid challenge url key = (λ h. cc, λ h. ground (arith, h.2))
run_handshake_iff includes uuid bad_envelope url key = (λ h. cc, λ h. ground (arith, h.2))
run_handshake_iff includes uuid (error message) url key = (λ h. cc, λ h. ground (arith, h.2))
run_handshake_iff includes uuid other url key = (λ h. cc, λ h. ground (arith, h.2))
run_handshake_iff includes uuid (welcome u protocol pubkey) url key = (
  λ h. (protocol, pubkey, ground arith, ground arith, ground arith, ground arith),
  λ h. ground (arith, h.2, h.3, h.4, h.5),
)
