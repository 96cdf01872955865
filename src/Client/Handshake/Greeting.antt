-- ===== src/Client/Handshake/Greeting.antt =====
-- Both ends of the handshake: what the relay answers to a daemon's hello, as runHandshake of
-- client/handshake.ts reads it.
use Prim.Native.String.{◌++◌ as join}
use text.Mathlib.TextLemmas.{append_assoc}
use dicode_relay.Common.{
  ℕ, String, List, [], ◌∷◌, Option, none, some, or_else, Bool, true, false, if◌then◌else◌, ◌==◌,
  nat_eq, string_eq, get, put, ◌≡◌, ◌≢◌, refl, ap, ◌∙◌, subst, arith, get-put_self, get-put_ne,
  Option-cases, inl, inr,
}
use dicode_relay.Shared.Platform.{Platform}
use dicode_relay.Shared.Certs.{
  uuid_from_p256_point, uncompressed_p256_to_spki, extract_p256_point_from_cert,
}
use dicode_relay.Shared.Certs.Laws.{IsPoint, extract_p256_point_from_cert_iff}
use dicode_relay.Relay.State.{
  Server, Conn, Socket, ConnectedClient, ServerMessage, request, Effect, sends, connected, hello,
  envelope, socket, protocol_version, send_server_message,
}
use dicode_relay.Relay.State
use dicode_relay.Relay.Connection.{
  validate_decrypt_pubkey, handle_connection, on_hello, handle_frame, on_message, hooks_url, evict,
  register,
}
use dicode_relay.Relay.Events.{connects, receives, step, accept}
use dicode_relay.Relay.Admission.{register_replaces}
use dicode_relay.Client.Handshake.{Welcome, error, welcome, other, greeted, run_handshake}

-- A message of the relay after the wire.
abbrev pub received : ServerMessage → Welcome
received (State.welcome url protocol key) = welcome url (some protocol) key
received (State.error message) = error message
received (request r) = other

-- The newest message sent to a socket.
abbrev pub last_sent : ℕ → List Effect → Option ServerMessage
last_sent ws [] = none
last_sent ws (sends w m ∷ es) = if w == ws then some m else last_sent ws es
last_sent ws (_ ∷ es) = last_sent ws es

abbrev admitted : Platform → List ℕ → Conn
admitted p point = record {
  uuid = uuid_from_p256_point p point;
  cert_point = point;
  registered_uuid = none;
  ping_timer = false;
  pong_timer = none;
  live_pongs = [];
}

-- The eviction of another socket leaves this one open.
evict-is_open :
    (ws : ℕ) (uuid : String) (s : Server)
    → (socket ws s).is_open ≡ true
    → ((k : ConnectedClient) → get uuid s.clients ≡ some k → k.ws ≢ ws)
    → (socket ws (evict uuid s)).is_open ≡ true
unfolding evict
evict-is_open ws uuid s is_open fresh = elim (Option-cases (get uuid s.clients)) [
  | inl n ↦ ground (arith, is_open)
  | inr k ↦
      let closed : Socket = record (socket k.0.ws s) { is_open = false } in
      ground (arith, is_open, get-put_ne k.0.ws ws closed s.sockets (fresh k.0 k.1))
]

register-last_sent :
    (ws : ℕ) (c : Conn) (key : List ℕ) (s : Server)
    → (socket ws s).is_open ≡ true
    → ((k : ConnectedClient) → get c.uuid s.clients ≡ some k → k.ws ≢ ws)
    → last_sent ws (register ws c key s).log
      ≡ some (State.welcome (hooks_url s c.uuid) protocol_version s.broker_pubkey)
unfolding register send_server_message
register-last_sent ws c key s is_open fresh =
    ground (arith, evict-is_open ws c.uuid s is_open fresh)

connect_lem :
    (p : Platform) (ws : ℕ) (point : List ℕ) (cert : Option (List ℕ)) (s : Server)
    → extract_p256_point_from_cert cert ≡ some point
    → handle_connection p ws (some cert) s ≡ record s { conns = put ws (admitted p point) s.conns }
unfolding handle_connection
connect_lem p ws point cert s e = rw (handle_connection, e)

hello_lem :
    (p : Platform) (ws : ℕ) (c : Conn) (key : String) (s : Server)
    → get ws s.conns ≡ some c
    → c.registered_uuid ≡ none
    → validate_decrypt_pubkey p key ≡ none
    → on_message p ws (envelope (hello key)) s ≡ register ws c (p.decode_base64 key) s
unfolding on_message handle_frame on_hello
hello_lem p ws c key s e n valid = ground arith

includes_lem :
    (includes : String → String → Bool)
    → ((a b c : String) → includes (join a (join b c)) b ≡ true)
    → (base uuid : String)
    → includes (join base (join "/u/" (join uuid "/hooks/"))) (join "/u/" (join uuid "/")) ≡ true
includes_lem includes law base uuid =
    let path : join (join "/u/" (join uuid "/")) "hooks/" ≡ join "/u/" (join uuid "/hooks/") =
      append_assoc "/u/" (join uuid "/") "hooks/"
      ∙ ap (join "/u/") (append_assoc uuid "/" "hooks/") in
    subst (λ t. includes (join base t) (join "/u/" (join uuid "/")) ≡ true) path
      (law base (join "/u/" (join uuid "/")) "hooks/")

-- A daemon that connects with a P-256 certificate and sends a valid hello is registered under the hash
-- of its key, with the decryption key of the hello; and the relay's answer, the newest message to its
-- socket, completes its handshake: the daemon, which knows its uuid, accepts the hook URL and learns the
-- broker's key. Its socket is a new one; `includes` is String.prototype.includes.
pub run_handshake-hello :
    (p : Platform) (includes : String → String → Bool) (ws : ℕ) (point : List ℕ) (key : String)
    (s : Server)
    → ((a b c : String) → includes (join a (join b c)) b ≡ true)
    → IsPoint point
    → validate_decrypt_pubkey p key ≡ none
    → ((k : ConnectedClient) → get (uuid_from_p256_point p point) s.clients ≡ some k → k.ws ≢ ws)
    → let uuid = uuid_from_p256_point p point in
      let cert = some (some (uncompressed_p256_to_spki point)) in
      let t = step p (step p s (connects ws cert)) (receives ws (envelope (hello key))) in
      (get uuid t.clients
        ≡ some
            (record { ws = ws; uuid = uuid; pubkey = point; decrypt_pubkey = p.decode_base64 key }))
      × (m : ServerMessage) × (last_sent ws t.log ≡ some m)
      × (run_handshake includes uuid (received m)
          ≡ greeted (hooks_url s uuid) (or_else s.broker_pubkey ""))
unfolding step hooks_url run_handshake
run_handshake-hello p includes ws point key s law is_point valid fresh =
    let uuid = uuid_from_p256_point p point in
    let c = admitted p point in
    let spki = uncompressed_p256_to_spki point in
    let open_socket : Socket = record { is_open = true; buffered_amount = 0 } in
    let s1 : Server = record (accept ws s) { conns = put ws c (accept ws s).conns } in
    let opened : (socket ws s1).is_open ≡ true =
      ap
        (λ (o : Option Socket).
          (or_else o (record { is_open = false; buffered_amount = 0 })).is_open)
        (get-put_self ws open_socket s.sockets) in
    let connected_at : step p s (connects ws (some (some spki))) ≡ s1 =
      connect_lem p ws point (some spki) (accept ws s)
        ((extract_p256_point_from_cert_iff spki point).1 (refl, is_point)) in
    let t : step p (step p s (connects ws (some (some spki)))) (receives ws (envelope (hello key)))
        ≡ register ws c (p.decode_base64 key) s1 =
      ap (on_message p ws (envelope (hello key))) connected_at
      ∙ hello_lem p ws c key s1 (get-put_self ws c s.conns) refl valid in
    let m = State.welcome (hooks_url s uuid) protocol_version s.broker_pubkey in
    (
      ap (λ x. get uuid x.clients) t ∙ (register_replaces ws c (p.decode_base64 key) s1).0,
      m,
      ap (λ x. last_sent ws x.log) t
          ∙ register-last_sent ws c (p.decode_base64 key) s1 opened fresh,
      rw (includes_lem includes law s.base_url uuid),
    )
