-- ===== src/Broker/FlowSession.antt =====
-- broker/flow-session.ts: the field `broker` of the session that cookie-session keeps in the cookie.
use dicode_relay.Common.{String, Option, none, some, ◌≡◌, refl, arith}

-- string | null, absent, or a value of another type.
pub data BrokerField : Type 0 where
  absent null other_type : BrokerField
  sealed : String → BrokerField

-- `req.session`: not an object where the middleware is not mounted.
pub data FlowSession : Type 0 where
  not_mounted : FlowSession
  mounted : BrokerField → FlowSession

unfoldable pub read_broker_flow : FlowSession → Option String
read_broker_flow (mounted (sealed token)) = some token
read_broker_flow _ = none

-- none where it throws.
unfoldable pub write_broker_flow : FlowSession → String → Option FlowSession
write_broker_flow not_mounted token = none
write_broker_flow (mounted field) token = some (mounted (sealed token))

unfoldable pub clear_broker_flow : FlowSession → FlowSession
clear_broker_flow not_mounted = not_mounted
clear_broker_flow (mounted field) = mounted null

-- A token that was written is read back, and nothing after a clearing, whatever the session held.
pub read_broker_flow-write_broker_flow :
    (session after : FlowSession) (token : String)
    → write_broker_flow session token ≡ some after
    → (read_broker_flow after ≡ some token) × (read_broker_flow (clear_broker_flow after) ≡ none)
unfolding read_broker_flow write_broker_flow clear_broker_flow
read_broker_flow-write_broker_flow not_mounted after token h = absurd (ground arith)
read_broker_flow-write_broker_flow (mounted field) (mounted (sealed t)) token h =
    (ground arith, refl)
read_broker_flow-write_broker_flow (mounted field) not_mounted token h = absurd (ground arith)
read_broker_flow-write_broker_flow (mounted field) (mounted absent) token h = absurd (ground arith)
read_broker_flow-write_broker_flow (mounted field) (mounted null) token h = absurd (ground arith)
read_broker_flow-write_broker_flow (mounted field) (mounted other_type) token h =
    absurd (ground arith)
