-- ===== src/Start/Forwarding.antt =====
-- forwardToClient of start.ts: the request is counted and forwarded, or answered at once. A promise
-- that is left pending is answered when it settles.
use dicode_relay.Common.{
  ℕ, ◌<◌, ◌≤◌, ◌≢◌, String, List, none, some, not, if◌then◌else◌, has, get, count, ◌≡◌, ◌⊎◌, inl,
  inr, refl, ap, ◌∙◌, arith, string_eq,
}
use dicode_relay.Shared.Platform.{Platform}
use dicode_relay.Relay.State.{
  Server, Headers, ConnectedClient, Failure, client_not_connected, pending_cap_exceeded,
  backpressure, forward_timeout, server_closing, socket,
}
use dicode_relay.Relay.Pending.{Result, ok, throw, has_client, forward}
use dicode_relay.Relay.Forwards.Counts.{issued_to}
use dicode_relay.Relay.Forwards.Books.{Inv}
use dicode_relay.Relay.Admission.{forward_cases}
use dicode_relay.Status.Metrics.{Collector, record_request}

pub data Reply : Type 0 where
  fails : (status : ℕ) (error : String) → Reply
  waits : Reply

-- The `catch` of the forward.
unfoldable pub fail_reply : Failure → Reply
fail_reply (pending_cap_exceeded uuid) = fails 429 "daemon overloaded — too many in-flight requests"
fail_reply (backpressure uuid) = fails 503 "daemon connection saturated"
fail_reply (client_not_connected uuid) = fails 504 "forwarding failed or timed out"
fail_reply (forward_timeout id) = fails 504 "forwarding failed or timed out"
fail_reply server_closing = fails 504 "forwarding failed or timed out"

pub record Forwarded : Type 0 where
  pub reply : Reply
  pub metrics : Collector
  pub server : Server

unfoldable pub settle_forward : Collector → Server → Result Server → Forwarded
settle_forward m s (ok t) = record { reply = waits; metrics = m; server = t }
settle_forward m s (throw e) = record { reply = fail_reply e; metrics = m; server = s }

unfoldable pub forward_to_client :
    Platform
    → String
    → ℕ
    → String
    → String
    → String
    → Headers
    → List ℕ
    → Collector
    → Server
    → Forwarded
forward_to_client p id now uuid method path headers body m s =
    if not (has_client s uuid)
    then record { reply = fails 502 "daemon not connected"; metrics = m; server = s }
    else settle_forward (record_request uuid now m) s (forward p id uuid method path headers body s)

-- A registered daemon's request is counted and handed to `forward`.
forward_to_client_present :
    (p : Platform) (id : String) (now : ℕ) (uuid method path : String) (headers : Headers)
    (body : List ℕ) (m : Collector) (s : Server) (c : ConnectedClient)
    → get uuid s.clients ≡ some c
    → forward_to_client p id now uuid method path headers body m s
      ≡ settle_forward (record_request uuid now m) s (forward p id uuid method path headers body s)
unfolding forward_to_client has_client has
forward_to_client_present p id now uuid method path headers body m s c e = ground arith

forward_to_client_absent :
    (p : Platform) (id : String) (now : ℕ) (uuid method path : String) (headers : Headers)
    (body : List ℕ) (m : Collector) (s : Server)
    → get uuid s.clients ≡ none
    → forward_to_client p id now uuid method path headers body m s
      ≡ record { reply = fails 502 "daemon not connected"; metrics = m; server = s }
unfolding forward_to_client has_client has
forward_to_client_absent p id now uuid method path headers body m s e = ground arith

settle_forward_metrics :
    (m : Collector) (s : Server) (r : Result Server) → (settle_forward m s r).metrics ≡ m
unfolding settle_forward
settle_forward_metrics m s (ok t) = refl
settle_forward_metrics m s (throw e) = refl

-- The answers for a daemon that is registered.
abbrev pub Handled : String → String → Server → ConnectedClient → Forwarded → Type 0
Handled id uuid s c r =
    ((s.max_buffered_bytes < (socket c.ws s).buffered_amount)
      × (r.reply ≡ fails 503 "daemon connection saturated")
      × (r.server ≡ s))
    ⊎ (((socket c.ws s).buffered_amount ≤ s.max_buffered_bytes)
        × (count (issued_to uuid) s.pending ≡ s.max_pending_per_client)
        × (r.reply ≡ fails 429 "daemon overloaded — too many in-flight requests")
        × (r.server ≡ s))
    ⊎ (((socket c.ws s).buffered_amount ≤ s.max_buffered_bytes)
        × (count (issued_to uuid) s.pending ≢ s.max_pending_per_client)
        × (r.reply ≡ waits)
        × (get id r.server.pending ≡ some (record { uuid = uuid })))

-- While the relay's books are right, a public request for a daemon that is not registered is answered
-- 502 and not counted. One for a registered daemon is counted, and it is answered 503 where the
-- socket's buffer is above the threshold, 429 where it is not and the daemon's pending requests are at the
-- cap, and left pending for that daemon where neither holds.
pub forward_to_client_cases :
    (p : Platform) (id : String) (now : ℕ) (uuid method path : String) (headers : Headers)
    (body : List ℕ) (m : Collector) (s : Server)
    → Inv s
    → let r = forward_to_client p id now uuid method path headers body m s in
      ((get uuid s.clients ≡ none)
        × (r ≡ record { reply = fails 502 "daemon not connected"; metrics = m; server = s }))
      ⊎ ((c : ConnectedClient) × (get uuid s.clients ≡ some c)
          × (r.metrics ≡ record_request uuid now m)
          × Handled id uuid s c r)
unfolding settle_forward fail_reply
forward_to_client_cases p id now uuid method path headers body m s v =
    let counted = record_request uuid now m in
    let f = forward p id uuid method path headers body s in
    elim (forward_cases p id uuid method path headers body s v) [
      | inl n ↦ inl (n.0, forward_to_client_absent p id now uuid method path headers body m s n.0)
      | inr y ↦
          let e = forward_to_client_present p id now uuid method path headers body m s y.0 y.1 in
          inr (
            y.0,
            y.1,
            ap (λ r. r.metrics) e ∙ settle_forward_metrics counted s f,
            elim y.2 [
              | inl big ↦ inl (big.0, ground (arith, e, big.1), ground (arith, e, big.1))
              | inr (inl full) ↦
                  inr (inl (full.0, full.1, ground (arith, e, full.2), ground (arith, e, full.2)))
              | inr (inr sent) ↦ inr (
                  inr (
                    sent.0,
                    sent.1,
                    ground (arith, e, sent.2.1),
                    ground (arith, e, sent.2.1, sent.2.2),
                  ))
            ],
          )
    ]
