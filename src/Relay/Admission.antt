-- ===== src/Relay/Admission.antt =====
-- Who is let in and who is answered: replacement, stale sockets, the refusals of `forward`, and
-- responses.
use dicode_relay.Common.{
  ℕ, String, List, ◌∷◌, none, some, false, get, delete, string_eq, nat_eq, ◌≡◌, arith, get-put,
  get-delete, eq_iff, ◌⊎◌, inl, inr, Option-cases, Bool-cases, ◌≢◌, ◌≤◌, ◌<◌, count, get-put_self,
  or_else, leb, ltb, ==_refl, ap, ◌∙◌, true,
}
use dicode_relay.Shared.Platform.{Platform}
use dicode_relay.Relay.State.{
  Server, Conn, ConnectedClient, Request, Response, Headers, response, envelope, clears, socket,
  send_server_message,
}
use dicode_relay.Relay.Pending.{get_client, forward, issue, add_pending, remove_pending}
use dicode_relay.Relay.Connection.{
  out_of_range, unregister, forget, tear_down, cleanup, evict, register, settle, on_response,
  on_registered, handle_frame, on_message, on_close,
}
use dicode_relay.Relay.State.{Effect, sends, issues, request}
use dicode_relay.Relay.State.{
  Response, resolves, client_not_connected, pending_cap_exceeded, backpressure,
}
use dicode_relay.Relay.Pending.{Result, ok, throw, remove_pending}
use dicode_relay.Relay.Connection.{flatten_response}
use dicode_relay.Relay.Forwards.Counts.{issued_to, or_else-stored}
use dicode_relay.Relay.Forwards.Books.{Inv}

-- The close event of a socket leaves every entry of another socket alone.
pub get-on_close_stale :
    (ws : ℕ) (uuid : String) (c : ConnectedClient) (s : Server)
    → get uuid s.clients ≡ some c
    → c.ws ≢ ws
    → get uuid (on_close ws s).clients ≡ some c
unfolding on_close cleanup tear_down forget unregister
get-on_close_stale ws uuid c s found other = elim (Option-cases (get ws s.conns)) [
  | inl e ↦ ground arith
  | inr (k, e) ↦ elim (Option-cases k.registered_uuid) [
    | inl n ↦ ground arith
    | inr (w, n) ↦ ground (arith, get-delete w uuid s.clients, eq_iff w uuid)
  ]
]

-- A valid hello registers the connection under its uuid, leaves the other entries alone, and closes
-- the socket that held the uuid before.
pub register_replaces :
    (ws : ℕ) (c : Conn) (key : List ℕ) (s : Server)
    → (get c.uuid (register ws c key s).clients
        ≡ some (record { ws = ws; uuid = c.uuid; pubkey = c.cert_point; decrypt_pubkey = key }))
      × ((u : String) → u ≢ c.uuid → get u (register ws c key s).clients ≡ get u s.clients)
      × ((old : ConnectedClient)
          → get c.uuid s.clients ≡ some old
          → (socket old.ws (register ws c key s)).is_open ≡ false)
unfolding register evict send_server_message
register_replaces ws c key s =
    let new : ConnectedClient = record {
      ws = ws;
      uuid = c.uuid;
      pubkey = c.cert_point;
      decrypt_pubkey = key;
    } in
    (
      ground (
        arith,
        get-put_self c.uuid new s.clients,
        get-put_self c.uuid new (delete c.uuid s.clients),
      ),
      λ u h. ground (
        arith,
        get-put c.uuid u new s.clients,
        get-put c.uuid u new (delete c.uuid s.clients),
        get-delete c.uuid u s.clients,
        eq_iff c.uuid u,
      ),
      λ old h.
          ground
            (arith, get-put_self old.ws (record (socket old.ws s) { is_open = false }) s.sockets),
    )

pub issue-pending :
    (req : Request) (c : ConnectedClient) (uuid : String) (s : Server)
    → get req.id (issue req c uuid s).pending ≡ some (record { uuid = uuid })
unfolding issue add_pending send_server_message
issue-pending req c uuid s = ground (arith, get-put_self req.id (record { uuid = uuid }) s.pending)

-- The four answers of `forward`, each with its condition.
abbrev pub Answers : String → String → Server → Result Server → Type 0
Answers id uuid s r =
    let full = count (issued_to uuid) s.pending ≡ s.max_pending_per_client in
    ((get uuid s.clients ≡ none) × (r ≡ throw (client_not_connected uuid)))
    ⊎ ((c : ConnectedClient) × (get uuid s.clients ≡ some c)
        × (((s.max_buffered_bytes < (socket c.ws s).buffered_amount)
              × (r ≡ throw (backpressure uuid)))
            ⊎ (((socket c.ws s).buffered_amount ≤ s.max_buffered_bytes)
                × full
                × (r ≡ throw (pending_cap_exceeded uuid)))
            ⊎ (((socket c.ws s).buffered_amount ≤ s.max_buffered_bytes)
                × (¬ full)
                × ((t : Server) × (r ≡ ok t)
                    × (get id t.pending ≡ some (record { uuid = uuid }))))))

-- What `forward` answers for books that are right: it throws for an unknown daemon, for a send buffer
-- above the threshold, and for a daemon with as many forwards pending as the cap allows, tested in
-- this order; otherwise the request is pending for that daemon.
pub forward_cases :
    (p : Platform) (id uuid method path : String) (headers : Headers) (body : List ℕ) (s : Server)
    → Inv s
    → Answers id uuid s (forward p id uuid method path headers body s)
unfolding forward get_client
forward_cases p id uuid method path headers body s v = elim (Option-cases (get uuid s.clients)) [
  | inl e ↦ inl (e, ground arith)
  | inr (c, e) ↦ inr (
    c,
    e,
    elim (Bool-cases (ltb s.max_buffered_bytes (socket c.ws s).buffered_amount)) [
      | inl big ↦ inl (ground arith, ground arith)
      | inr fits ↦
          let counted = v.agrees.counted uuid in
          let same = or_else-stored (count (issued_to uuid) s.pending) in
          elim (Bool-cases
            (leb s.max_pending_per_client (or_else (get uuid s.pending_by_client) 0))) [
              | inl many ↦
                  inr
                    (inl (ground arith, ground (arith, counted, same, v.capped uuid), ground arith))
              | inr few ↦
                  let req : Request = record {
                    id = id;
                    method = method;
                    path = path;
                    headers = headers;
                    body = p.encode_base64 body;
                  } in
                  inr (
                    inr (
                      ground arith,
                      ground (arith, counted, same),
                      (issue req c uuid s, ground arith, issue-pending req c uuid s),
                    ))
            ]
    ],
  )
]

pub issue-log :
    (req : Request) (c : ConnectedClient) (uuid : String) (s : Server)
    → (socket c.ws s).is_open ≡ true
    → (issue req c uuid s).log ≡ sends c.ws (request req) ∷ issues req.id ∷ s.log
unfolding issue add_pending send_server_message
issue-log req c uuid s h = ground arith

-- A forward that neither guard refuses.
pub forward_room :
    (p : Platform) (id uuid method path : String) (headers : Headers) (body : List ℕ) (s : Server)
    (c : ConnectedClient)
    → Inv s
    → get uuid s.clients ≡ some c
    → (socket c.ws s).buffered_amount ≤ s.max_buffered_bytes
    → count (issued_to uuid) s.pending < s.max_pending_per_client
    → forward p id uuid method path headers body s
      ≡ ok (
          issue
            (record {
              id = id;
              method = method;
              path = path;
              headers = headers;
              body = p.encode_base64 body;
            })
            c
            uuid
            s)
unfolding forward get_client
forward_room p id uuid method path headers body s c v found fits room =
    ground (arith, v.agrees.counted uuid, or_else-stored (count (issued_to uuid) s.pending))

forward_ok :
    (p : Platform) (id uuid method path : String) (headers : Headers) (body : List ℕ) (s t : Server)
    → forward p id uuid method path headers body s ≡ ok t
    → (get id t.pending ≡ some (record { uuid = uuid })) × (t.conns ≡ s.conns)
unfolding forward get_client issue add_pending send_server_message
forward_ok p id uuid method path headers body s t h = elim (Option-cases (get uuid s.clients)) [
  | inl n ↦ absurd (ground arith)
  | inr (c, e) ↦ ground (arith, get-put_self id (record { uuid = uuid }) s.pending)
]

-- When the relay has forwarded a request to one daemon, a response under its id from the connection of
-- another daemon, in the range of HTTP statuses, settles the request: the promise is resolved with that
-- response and nothing is pending under the id any more.
pub on_message_any_daemon :
    (p : Platform) (ws : ℕ) (c : Conn) (mine theirs method path : String) (headers : Headers)
    (body : List ℕ) (r : Response) (s after : Server)
    → get ws s.conns ≡ some c
    → c.registered_uuid ≡ some mine
    → mine ≢ theirs
    → forward p r.id theirs method path headers body s ≡ ok after
    → out_of_range r ≡ false
    → let t = on_message p ws (envelope (response r)) after in
      (get r.id t.pending ≡ none)
      × ((rest : List Effect) × (t.log ≡ resolves r.id (flatten_response r) ∷ rest))
unfolding on_message handle_frame on_registered on_response settle remove_pending
on_message_any_daemon p ws c mine theirs method path headers body r s after found reg other sent
      good =
    let f = forward_ok p r.id theirs method path headers body s after sent in
    let waiting = f.0 in
    let here : get ws after.conns ≡ some c = ap (get ws) f.1 ∙ found in
    (
      ground (arith, get-delete r.id r.id after.pending, ==_refl r.id),
      (clears r.id ∷ after.log, ground arith),
    )
