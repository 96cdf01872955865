-- ===== src/Relay/Forwards/Books.antt =====
-- How each handler of the server treats the books of outstanding forwards.
use dicode_relay.Common.{
  ℕ, ◌+◌, ◌≤◌, ◌<◌, String, List, [], ◌∷◌, ◌++◌, Option, none, some, Dict, get, put, delete, keys,
  or_else, string_eq, nat_eq, ◌≡◌, arith, count, count-put_new, eq_iff, Option-cases, inl, inr,
  count-delete, delete_absent, ap,
}
use dicode_relay.Shared.Platform.{Platform}
use dicode_relay.Relay.State.{
  Server, PendingRequest, Request, ConnectedClient, Conn, ClientMessage, hello, response, Incoming,
  Response, bad_json, bad_envelope, envelope, send_server_message, send_error, ServerMessage, shut,
  terminate,
}
use dicode_relay.Relay.Pending.{add_pending, issue, request_timeout, without, drop_count}
use dicode_relay.Relay.Connection.{
  without_timer, unregister, forget, tear_down, cleanup, handle_connection, evict, register,
  turn_away, on_hello, on_response, on_registered, handle_frame, on_message, on_pong, on_close,
  on_error, ping_tick, send_ping, disarm_pong, give_up, pong_timeout,
}
use dicode_relay.Relay.Forwards.Counts.{
  Agrees, issued_to, Agrees-add, Agrees-remove, keys-delete, or_else-stored,
}

-- The bookkeeping, over the fields that it speaks of.
pub record Books (pending : Dict String PendingRequest) (counts : Dict String ℕ)
    (timers : List String) (cap : ℕ) : Type 0 where
  pub agrees : Agrees pending counts timers
  pub capped : (uuid : String) → count (issued_to uuid) pending ≤ cap

abbrev pub Inv : Server → Type 0
Inv s = Books s.pending s.pending_by_client s.timers s.max_pending_per_client

-- What the connection handlers leave alone.
pub record Same (s t : Server) : Type 0 where
  pub pending : t.pending ≡ s.pending
  pub counts : t.pending_by_client ≡ s.pending_by_client
  pub timers : t.timers ≡ s.timers
  pub options : t.options ≡ s.options

pub Same-Inv : (s t : Server) → Same s t → Inv s → Inv t
Same-Inv s t e v = rw (e.pending, e.counts, e.timers, e.options) v

pub send_server_message-Same :
    (ws : ℕ) (m : ServerMessage) (s : Server) → Same s (send_server_message ws m s)
unfolding send_server_message
send_server_message-Same ws m s = ground arith

pub cleanup-Same : (ws : ℕ) (s : Server) → Same s (cleanup ws s)
unfolding cleanup tear_down forget unregister
cleanup-Same ws s = ground arith

pub handle_connection-Same :
    (p : Platform) (ws : ℕ) (peer : Option (Option (List ℕ))) (s : Server)
    → Same s (handle_connection p ws peer s)
unfolding handle_connection turn_away send_error send_server_message
handle_connection-Same p ws none s = ground arith
handle_connection-Same p ws (some cert) s = ground arith

pub register-Same : (ws : ℕ) (c : Conn) (key : List ℕ) (s : Server) → Same s (register ws c key s)
unfolding register evict send_server_message
register-Same ws c key s = ground arith

pub turn_away-Same : (ws code : ℕ) (err : String) (s : Server) → Same s (turn_away ws code err s)
unfolding turn_away send_error send_server_message
turn_away-Same ws code err s = ground arith

pub on_hello-Same :
    (p : Platform) (ws : ℕ) (c : Conn) (msg : ClientMessage) (s : Server)
    → Same s (on_hello p ws c msg s)
unfolding on_hello
on_hello-Same p ws c (hello key) s =
    ground (arith, register-Same ws c (p.decode_base64 key) s, turn_away-Same ws 4400 _ s)
on_hello-Same p ws c _ s = turn_away-Same ws 4400 "expected hello message" s

pub ping_tick-Same : (ws : ℕ) (s : Server) → Same s (ping_tick ws s)
unfolding ping_tick send_ping
ping_tick-Same ws s = ground (arith, cleanup-Same ws s)

pub Books-remove :
    (id : String) (req : PendingRequest) (s : Server)
    → get id s.pending ≡ some req
    → Inv s
    → Books
        (delete id s.pending)
        (drop_count req.uuid s.pending_by_client)
        (without id s.timers)
        s.max_pending_per_client
Books-remove id req s found v = record {
  agrees = Agrees-remove id req s.pending s.pending_by_client s.timers found v.agrees;
  capped = λ u.
      omega
        (arith, count-delete (issued_to u) id req s.pending v.agrees.distinct found, v.capped u);
}

-- A timer of no entry: dropping it changes nothing.
pub Books-without :
    (id : String) (s : Server)
    → get id s.pending ≡ none
    → Inv s
    → Books s.pending s.pending_by_client (without id s.timers) s.max_pending_per_client
Books-without id s missing v = record {
  agrees = record {
    distinct = v.agrees.distinct;
    counted = v.agrees.counted;
    armed = ground (
      arith,
      v.agrees.armed,
      keys-delete id s.pending,
      ap keys (delete_absent id s.pending missing),
    );
  };
  capped = v.capped;
}

pub on_response-Inv : (r : Response) (s : Server) → Inv s → Inv (on_response r s)
unfolding on_response
on_response-Inv r s v = elim (Option-cases (get r.id s.pending)) [
  | inl missing ↦ ground (arith, v)
  | inr (req, found) ↦ ground (arith, v, Books-remove r.id req s found v)
]

pub request_timeout-Inv : (id : String) (s : Server) → Inv s → Inv (request_timeout id s)
unfolding request_timeout
request_timeout-Inv id s v = elim (Option-cases (get id s.pending)) [
  | inl missing ↦ ground (arith, Books-without id s missing v)
  | inr (req, found) ↦ ground (arith, Books-remove id req s found v)
]

pub handle_frame-Inv :
    (p : Platform) (ws : ℕ) (frame : Incoming) (c : Conn) (s : Server)
    → Inv s
    → Inv (handle_frame p ws frame c s)
unfolding handle_frame on_registered send_error send_server_message
handle_frame-Inv p ws bad_json c s v = ground arith
handle_frame-Inv p ws bad_envelope c s v = ground arith
handle_frame-Inv p ws (envelope (response r)) c s v =
    ground (arith, on_response-Inv r s v, Same-Inv s _ (on_hello-Same p ws c (response r) s) v)
handle_frame-Inv p ws (envelope msg) c s v =
    ground (arith, Same-Inv s _ (on_hello-Same p ws c msg s) v)

pub on_message-Inv :
    (p : Platform) (ws : ℕ) (frame : Incoming) (s : Server) → Inv s → Inv (on_message p ws frame s)
unfolding on_message
on_message-Inv p ws frame s v = elim (Option-cases (get ws s.conns)) [
  | inl missing ↦ ground (arith, v)
  | inr (c, found) ↦ ground (arith, handle_frame-Inv p ws frame c s v)
]

pub on_pong-Same : (ws : ℕ) (s : Server) → Same s (on_pong ws s)
unfolding on_pong disarm_pong
on_pong-Same ws s = ground arith

pub on_close-Same : (ws : ℕ) (s : Server) → Same s (on_close ws (shut ws s))
unfolding on_close
on_close-Same ws s = ground (arith, cleanup-Same ws (shut ws s))

pub on_error-Same : (ws : ℕ) (s : Server) → Same s (on_error ws s)
unfolding on_error
on_error-Same ws s = ground (arith, cleanup-Same ws (terminate ws s))

pub pong_timeout-Same : (ws t : ℕ) (s : Server) → Same s (pong_timeout ws t s)
unfolding pong_timeout give_up
pong_timeout-Same ws t s = elim (Option-cases (get ws s.conns)) [
  | inl missing ↦ ground arith
  | inr (c, found) ↦ ground (
    arith,
    cleanup-Same ws (
        terminate ws (record s {
          conns = put ws (record c { live_pongs = without_timer (some t) c.live_pongs }) s.conns;
        })),
  )
]

pub Books-add :
    (id uuid : String) (s : Server)
    → get id s.pending ≡ none
    → or_else (get uuid s.pending_by_client) 0 < s.max_pending_per_client
    → Inv s
    → Books
        (put id (record { uuid = uuid }) s.pending)
        (put uuid (or_else (get uuid s.pending_by_client) 0 + 1) s.pending_by_client)
        (s.timers ++ id ∷ [])
        s.max_pending_per_client
Books-add id uuid s fresh room v = record {
  agrees =
      Agrees-add id (record { uuid = uuid }) s.pending s.pending_by_client s.timers fresh v.agrees;
  capped = λ u. ground (
    arith,
    count-put_new (issued_to u) id (record { uuid = uuid }) s.pending fresh,
    v.capped u,
    v.agrees.counted u,
    eq_iff uuid u,
    or_else-stored (count (issued_to u) s.pending),
  );
}

pub issue-Inv :
    (req : Request) (client : ConnectedClient) (uuid : String) (s : Server)
    → get req.id s.pending ≡ none
    → or_else (get uuid s.pending_by_client) 0 < s.max_pending_per_client
    → Inv s
    → Inv (issue req client uuid s)
unfolding issue add_pending send_server_message
issue-Inv req client uuid s fresh room v = ground (arith, Books-add req.id uuid s fresh room v)
