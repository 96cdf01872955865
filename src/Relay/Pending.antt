-- ===== src/Relay/Pending.antt =====
-- relay/server.ts: `getClient`, `hasClient`, `forward` with its timeout, `addPending`,
-- `removePending` and `close`.
use dicode_relay.Common.{
  ℕ, ◌+◌, ◌-◌, String, List, [], ◌∷◌, ◌++◌, Option, none, some, Bool, leb, ltb, if◌then◌else◌, ◌==◌,
  Dict, get, put, delete, has, keys, values, or_else, string_eq,
}
use dicode_relay.Shared.Platform.{Platform}
use dicode_relay.Relay.State.{
  Server, ConnectedClient, PendingRequest, Headers, Request, request, Failure, client_not_connected,
  pending_cap_exceeded, backpressure, forward_timeout, server_closing, issues, clears, rejects,
  emit, socket, terminate, send_server_message,
}

pub data Result {ℓ} (A : Type ℓ) : Type ℓ where
  ok : A → Result A
  throw : Failure → Result A

infixl 5 ◌>>=◌
abbrev pub ◌>>=◌ {ℓ κ} : {A : Type ℓ} {B : Type κ} → Result A → (A → Result B) → Result B
ok a >>= f = f a
throw e >>= f = throw e

unfoldable pub get_client : Server → String → Result ConnectedClient
get_client s uuid = elim (get uuid s.clients) [
  | none ↦ throw (client_not_connected uuid)
  | some client ↦ ok client
]

unfoldable pub has_client : Server → String → Bool
has_client s uuid = has uuid s.clients

abbrev pub without : String → List String → List String
without id [] = []
without id (x ∷ xs) = if x == id then without id xs else x ∷ without id xs

unfoldable pub add_pending : String → PendingRequest → Server → Server
add_pending id req s = record s {
  pending = put id req s.pending;
  pending_by_client =
      put req.uuid (or_else (get req.uuid s.pending_by_client) 0 + 1) s.pending_by_client;
}

-- The count of one daemon goes down, and its entry goes away at zero.
unfoldable pub drop_count : String → Dict String ℕ → Dict String ℕ
drop_count uuid m =
    let count = or_else (get uuid m) 0 in
    if leb count 1 then delete uuid m else put uuid (count - 1) m

unfoldable pub remove_pending : String → Server → Server × Option PendingRequest
remove_pending id s = elim (get id s.pending) [
  | none ↦ (s, none)
  | some req ↦ (
    record s {
      pending = delete id s.pending;
      pending_by_client = drop_count req.uuid s.pending_by_client;
    },
    some req,
  )
]

-- The body of the promise: the timer is armed, the entry recorded, and the frame sent.
unfoldable pub issue : Request → ConnectedClient → String → Server → Server
unfolding add_pending send_server_message
issue req client uuid s = send_server_message client.ws (request req) (
    add_pending req.id (record { uuid = uuid })
      (emit (issues req.id) (record s { timers = s.timers ++ req.id ∷ [] })))

-- `id` is the fresh `uuidv4()`. The headers of the wire hold the same lists in wrappers.
unfoldable pub forward :
    Platform → String → String → String → String → Headers → List ℕ → Server → Result Server
unfolding get_client issue
forward p id uuid method path headers body s = do
  client ← get_client s uuid
  if ltb s.max_buffered_bytes (socket client.ws s).buffered_amount
      then throw (backpressure uuid)
      else if leb s.max_pending_per_client (or_else (get uuid s.pending_by_client) 0)
      then throw (pending_cap_exceeded uuid)
      else ok (
          issue
            (record {
              id = id;
              method = method;
              path = path;
              headers = headers;
              body = p.encode_base64 body;
            })
            client uuid s)

-- The callback of `setTimeout`.
unfoldable pub request_timeout : String → Server → Server
unfolding remove_pending
request_timeout id s =
    emit (rejects id (forward_timeout id))
      (remove_pending id (record s { timers = without id s.timers })).0

-- The first loop of `close`.
unfoldable pub reject_all : List String → Server → Server
reject_all [] s = s
reject_all (id ∷ ids) s = reject_all ids (
    emit (rejects id server_closing) (emit (clears id) (record s { timers = without id s.timers })))

-- The second loop of `close`.
unfoldable pub terminate_all : List ConnectedClient → Server → Server
terminate_all [] s = s
terminate_all (c ∷ cs) s = terminate_all cs (terminate c.ws s)

-- The first half of `close`: every pending promise is rejected and the books are emptied.
unfoldable pub drop_pending : Server → Server
unfolding reject_all
drop_pending s = record (reject_all (keys s.pending) s) { pending = []; pending_by_client = [] }

unfoldable pub close : Server → Server
unfolding drop_pending terminate_all
close s =
    let cleared = drop_pending s in
    record (terminate_all (values cleared.clients) cleared) { clients = [] }
