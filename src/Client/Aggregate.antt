-- ===== src/Client/Aggregate.antt =====
-- aggregateStatus of client/client.ts and the two folds it uses.
pub mod Recency
pub mod Laws
use dicode_relay.Common.{
  ℕ, String, List, [], ◌∷◌, ◌+◌, Option, none, some, Bool, true, false, ltb, leb, if◌then◌else◌,
}
use dicode_relay.Client.Endpoint.{RelayEndpointStatus}

pub record RelayStatus : Type 0 where
  pub connected : Bool
  pub hook_base_url : Option String
  pub broker_pubkey : Option String
  pub reconnect_attempts : ℕ
  pub last_error : Option String
  pub last_connected_at : Option ℕ
  pub endpoints : Option (List RelayEndpointStatus)

unfoldable pub filter_connected : List RelayEndpointStatus → List RelayEndpointStatus
filter_connected [] = []
filter_connected (e ∷ es) = if e.connected then e ∷ filter_connected es else filter_connected es

-- `e !== undefined && e >= (best ?? -1)`
unfoldable pub is_newer : Option ℕ → Option ℕ → Bool
is_newer none best = false
is_newer (some t) none = true
is_newer (some t) (some b) = leb b t

unfoldable pub recent_from : RelayEndpointStatus → List RelayEndpointStatus → RelayEndpointStatus
recent_from best [] = best
recent_from best (e ∷ es) =
    recent_from (if is_newer e.last_connected_at best.last_connected_at then e else best) es

unfoldable pub most_recently_connected : List RelayEndpointStatus → Option RelayEndpointStatus
most_recently_connected [] = none
most_recently_connected (e ∷ es) = some (recent_from e es)

unfoldable pub later : Option ℕ → Option ℕ → Option ℕ
later max none = max
later none (some t) = some t
later (some m) (some t) = if ltb m t then some t else some m

unfoldable pub max_from : Option ℕ → List RelayEndpointStatus → Option ℕ
max_from max [] = max
max_from max (e ∷ es) = max_from (later max e.last_connected_at) es

unfoldable pub max_last_connected_at : List RelayEndpointStatus → Option ℕ
max_last_connected_at list = max_from none list

unfoldable pub total_attempts : List RelayEndpointStatus → ℕ
total_attempts [] = 0
total_attempts (e ∷ es) = e.reconnect_attempts + total_attempts es

unfoldable pub representative : List RelayEndpointStatus → Option RelayEndpointStatus
representative list = elim (filter_connected list) [
  | [] ↦ most_recently_connected list
  | e ∷ es ↦ some e
]

unfoldable pub is_up : List RelayEndpointStatus → Bool
is_up [] = false
is_up (e ∷ es) = true

unfoldable pub field_of {ℓ} :
    {A : Type ℓ} → (RelayEndpointStatus → Option A) → Option RelayEndpointStatus → Option A
field_of f none = none
field_of f (some e) = f e

unfoldable pub aggregate_status : List RelayEndpointStatus → Bool → RelayStatus
aggregate_status list multi =
    let rep = representative list in
    record {
      connected = is_up (filter_connected list);
      hook_base_url = field_of (λ e. e.hook_base_url) rep;
      broker_pubkey = field_of (λ e. e.broker_pubkey) rep;
      reconnect_attempts = total_attempts list;
      last_error = field_of (λ e. if e.connected then none else e.last_error) rep;
      last_connected_at = max_last_connected_at list;
      endpoints = if multi then some list else none;
    }
