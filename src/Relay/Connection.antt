-- ===== src/Relay/Connection.antt =====
-- relay/server.ts: `handleConnection` and the listeners that it attaches, `validateDecryptPubkey`
-- and `flattenResponse`.
use Prim.Native.String
use dicode_relay.Common.{
  ℕ, suc, String, List, [], ◌∷◌, Option, none, some, Bool, true, false, not, ◌||◌, ltb_ℤ, pos,
  if◌then◌else◌, ◌==◌, get, put, delete, string_eq, nat_eq, length, get_or,
}
use dicode_relay.Shared.Platform.{Platform}
use dicode_relay.Shared.Certs.{
  extract_p256_point_from_cert, uuid_from_p256_point, uncompressed_p256_to_spki,
}
use dicode_relay.Relay.State.{
  Server, Conn, ConnectedClient, PendingRequest, Response, ForwardResponse, Incoming, bad_json,
  bad_envelope, envelope, ClientMessage, hello, response, unset, welcome, pings, connected,
  disconnected, clears, resolves, emit, socket, terminate, close_socket, send_server_message,
  send_error, protocol_version, close_bad_hello, close_no_client_cert, close_cert_not_p256,
}
use dicode_relay.Relay.Pending.{remove_pending, without}

abbrev pub without_timer : Option ℕ → List ℕ → List ℕ
without_timer none ts = ts
without_timer (some t) [] = []
without_timer (some t) (x ∷ ts) =
    if x == t then without_timer (some t) ts else x ∷ without_timer (some t) ts

unfoldable pub validate_decrypt_pubkey : Platform → String → Option String
unfolding uncompressed_p256_to_spki
validate_decrypt_pubkey p decrypt_pubkey =
    let bytes = p.decode_base64 decrypt_pubkey in
    if decrypt_pubkey == ""
    then some "decrypt_pubkey is required"
    else if not (length bytes == 65) || not (get_or bytes 0 0 == 0x04)
    then some "decrypt_pubkey must be 65 bytes starting with 0x04"
    else if p.is_public_key (uncompressed_p256_to_spki bytes)
    then none
    else some "decrypt_pubkey is not a valid P-256 point"

unfoldable pub flatten_response : Response → ForwardResponse
flatten_response r = record { status = r.status; headers = r.headers; body = r.body }

-- The listeners exist for an admitted connection only.
abbrev pub with_conn : ℕ → (Conn → Server → Server) → Server → Server
with_conn ws f s = elim (get ws s.conns) [ none ↦ s | some c ↦ f c s ]

abbrev put_conn : ℕ → Conn → Server → Server
put_conn ws c s = record s { conns = put ws c s.conns }

-- The entry is torn down only if it still belongs to this socket.
unfoldable pub unregister : ℕ → String → Server → Server
unregister ws uuid s = elim (get uuid s.clients) [
  | none ↦ s
  | some current ↦
      if current.ws == ws
      then record (emit (disconnected uuid) s) { clients = delete uuid s.clients }
      else s
]

unfoldable pub forget : ℕ → Option String → Server → Server
unfolding unregister
forget ws none s = s
forget ws (some uuid) s = unregister ws uuid s

-- The body of `cleanup`.
unfoldable pub tear_down : ℕ → Conn → Server → Server
unfolding forget
tear_down ws c s =
    put_conn ws
      (record c {
        ping_timer = false;
        pong_timer = none;
        live_pongs = without_timer c.pong_timer c.live_pongs;
        registered_uuid = none;
      })
      (forget ws c.registered_uuid s)

unfoldable pub cleanup : ℕ → Server → Server
unfolding tear_down
cleanup ws = with_conn ws (tear_down ws)

-- An error message, and then the close with its code.
unfoldable pub turn_away : ℕ → ℕ → String → Server → Server
unfolding send_error
turn_away ws code message s = close_socket ws (some code) (send_error ws message s)

-- `peer` is the certificate: absent, or what the export of its key gives.
unfoldable pub handle_connection : Platform → ℕ → Option (Option (List ℕ)) → Server → Server
unfolding turn_away
handle_connection p ws none s = turn_away ws close_no_client_cert "client certificate required" s
handle_connection p ws (some cert) s = elim (extract_p256_point_from_cert cert) [
  | none ↦ turn_away ws close_cert_not_p256 "client certificate key must be P-256" s
  | some point ↦
      put_conn ws
        (record {
          uuid = uuid_from_p256_point p point;
          cert_point = point;
          registered_uuid = none;
          ping_timer = false;
          pong_timer = none;
          live_pongs = [];
        })
        s
]

-- A reconnect for the same uuid replaces the previous socket.
unfoldable pub evict : String → Server → Server
evict uuid s = elim (get uuid s.clients) [
  | none ↦ s
  | some previous ↦
      terminate previous.ws
        (emit (disconnected uuid) (record s { clients = delete uuid s.clients }))
]

unfoldable pub hooks_url : Server → String → String
hooks_url s uuid = String.◌++◌ s.base_url (String.◌++◌ "/u/" (String.◌++◌ uuid "/hooks/"))

unfoldable pub register : ℕ → Conn → List ℕ → Server → Server
unfolding evict send_server_message hooks_url
register ws c decrypt_pubkey s =
    let evicted = evict c.uuid s in
    let client : ConnectedClient = record {
      ws = ws;
      uuid = c.uuid;
      pubkey = c.cert_point;
      decrypt_pubkey = decrypt_pubkey;
    } in
    let entered = record evicted { clients = put c.uuid client evicted.clients } in
    let greeted =
      send_server_message ws (welcome (hooks_url s c.uuid) protocol_version s.broker_pubkey)
        entered in
    put_conn ws (record c { registered_uuid = some c.uuid; ping_timer = true })
      (emit (connected c.uuid) greeted)

unfoldable pub on_hello : Platform → ℕ → Conn → ClientMessage → Server → Server
unfolding validate_decrypt_pubkey register turn_away
on_hello p ws c (hello key) s = elim (validate_decrypt_pubkey p key) [
  | none ↦ register ws c (p.decode_base64 key) s
  | some err ↦ turn_away ws close_bad_hello err s
]
on_hello p ws c (response r) s = turn_away ws close_bad_hello "expected hello message" s
on_hello p ws c unset s = turn_away ws close_bad_hello "expected hello message" s

abbrev pub out_of_range : Response → Bool
out_of_range r = ltb_ℤ r.status (pos 100) || ltb_ℤ (pos 599) r.status

-- With an entry found, its timer is cleared and its promise resolved.
unfoldable pub settle : Response → Server × Option PendingRequest → Server
unfolding flatten_response
settle r (s, none) = s
settle r (s, some req) =
    emit (resolves r.id (flatten_response r))
      (emit (clears r.id) (record s { timers = without r.id s.timers }))

unfoldable pub on_response : Response → Server → Server
unfolding remove_pending settle
on_response r s = if out_of_range r then s else settle r (remove_pending r.id s)

-- After registration all frames but responses are ignored.
unfoldable pub on_registered : ClientMessage → Server → Server
unfolding on_response
on_registered (response r) s = on_response r s
on_registered (hello key) s = s
on_registered unset s = s

-- `ws.on("message")` over the decoded frame. `ws.close()` gives no code.
unfoldable pub handle_frame : Platform → ℕ → Incoming → Conn → Server → Server
unfolding on_hello on_registered send_error
handle_frame p ws bad_json c s = close_socket ws none (send_error ws "invalid JSON" s)
handle_frame p ws bad_envelope c s = elim c.registered_uuid [
  | none ↦ close_socket ws none (send_error ws "expected hello message" s)
  | some _ ↦ s
]
handle_frame p ws (envelope msg) c s = elim c.registered_uuid [
  | none ↦ on_hello p ws c msg s
  | some _ ↦ on_registered msg s
]

unfoldable pub on_message : Platform → ℕ → Incoming → Server → Server
unfolding handle_frame
on_message p ws frame = with_conn ws (handle_frame p ws frame)

unfoldable pub disarm_pong : ℕ → Conn → Server → Server
disarm_pong ws c s =
    put_conn ws
      (record c { pong_timer = none; live_pongs = without_timer c.pong_timer c.live_pongs }) s

unfoldable pub on_pong : ℕ → Server → Server
unfolding disarm_pong
on_pong ws = with_conn ws (disarm_pong ws)

unfoldable pub on_close : ℕ → Server → Server
unfolding cleanup
on_close = cleanup

-- Two listeners stand on `error`: the safety listener first.
unfoldable pub on_error : ℕ → Server → Server
unfolding cleanup
on_error ws s = cleanup ws (terminate ws s)

-- The callback of `setInterval`, while the interval is armed.
unfoldable pub send_ping : ℕ → Conn → Server → Server
unfolding cleanup
send_ping ws c s =
    if (socket ws s).is_open
    then put_conn ws
        (record c { pong_timer = some s.next_timer; live_pongs = s.next_timer ∷ c.live_pongs })
        (emit (pings ws) (record s { next_timer = suc s.next_timer }))
    else cleanup ws s

unfoldable pub ping_tick : ℕ → Server → Server
unfolding send_ping
ping_tick ws = with_conn ws (send_ping ws)

-- The callback of the pong timer `t`.
unfoldable pub give_up : ℕ → ℕ → Conn → Server → Server
unfolding cleanup
give_up ws t c s =
    cleanup ws
      (terminate ws (put_conn ws (record c { live_pongs = without_timer (some t) c.live_pongs }) s))

unfoldable pub pong_timeout : ℕ → ℕ → Server → Server
unfolding give_up
pong_timeout ws t = with_conn ws (give_up ws t)
