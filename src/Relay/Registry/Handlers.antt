-- ===== src/Relay/Registry/Handlers.antt =====
-- How the handlers of a connection treat the registry.
use dicode_relay.Common.{
  ℕ, String, List, Option, none, some, true, if◌then◌else◌, ◌==◌, get, put, delete, string_eq,
  nat_eq, ◌≡◌, ◌≢◌, inl, inr, refl, arith, get-put, get-delete, eq_iff, Option-cases,
}
use dicode_relay.Shared.Platform.{Platform}
use dicode_relay.Shared.Certs.{
  extract_p256_point_from_cert, uuid_from_p256_point, uncompressed_p256_to_spki,
}
use dicode_relay.Shared.Certs.Laws.{IsPoint, extract-IsPoint}
use dicode_relay.Relay.State.{
  Server, Conn, ConnectedClient, ClientMessage, hello, response, Incoming, bad_json, bad_envelope,
  envelope, ServerMessage, welcome, error, send_server_message, send_error,
}
use dicode_relay.Relay.Pending.{remove_pending}
use dicode_relay.Relay.Connection.{
  validate_decrypt_pubkey, unregister, forget, tear_down, cleanup, handle_connection, evict,
  hooks_url, register, turn_away, on_hello, settle, on_response, on_registered, handle_frame,
}
use dicode_relay.Relay.Registry.Entries.{
  registered_at, Registry, with_conn_cases, Registry-keep, Registry-release, Registry-enter,
}

abbrev pub IsRegistry : Platform → Server → Type 0
IsRegistry p s = Registry p s.clients s.conns

module _ (p : Platform) where
  -- A handler that touches neither map.
  abbrev pub Untouched : Server → Server → Type 0
  Untouched s t = (t.clients ≡ s.clients) × (t.conns ≡ s.conns)

  pub send-Untouched :
      (ws : ℕ) (m : ServerMessage) (s : Server) → Untouched s (send_server_message ws m s)
  unfolding send_server_message
  send-Untouched ws m s = ground arith

  pub turn_away-Untouched :
      (ws code : ℕ) (m : String) (s : Server) → Untouched s (turn_away ws code m s)
  unfolding turn_away send_error send_server_message
  turn_away-Untouched ws code m s = ground arith

  pub Untouched-keep : (s t : Server) → Untouched s t → IsRegistry p s → IsRegistry p t
  Untouched-keep s t e v = rw (e.0, e.1) v

  pub turn_away-IsRegistry :
      (ws code : ℕ) (m : String) (s : Server)
      → IsRegistry p s
      → IsRegistry p (turn_away ws code m s)
  turn_away-IsRegistry ws code m s v =
      Untouched-keep s (turn_away ws code m s) (turn_away-Untouched ws code m s) v

  pub send-IsRegistry :
      (ws : ℕ) (m : ServerMessage) (s : Server)
      → IsRegistry p s
      → IsRegistry p (send_server_message ws m s)
  send-IsRegistry ws m s v = Untouched-keep s (send_server_message ws m s) (send-Untouched ws m s) v

  pub unregister-gone :
      (ws : ℕ) (uuid : String) (s : Server)
      → IsRegistry p s
      → registered_at ws s.conns ≡ some uuid
      → ((u : String) (c : ConnectedClient)
          → get u (unregister ws uuid s).clients ≡ some c
          → (get u s.clients ≡ some c) × (c.ws ≢ ws))
  unfolding unregister
  unregister-gone ws uuid s v reg u c h =
      ground (arith, get-delete uuid u s.clients, eq_iff uuid u, v.entry u c)

  pub unregister-conns :
      (ws : ℕ) (uuid : String) (s : Server) → (unregister ws uuid s).conns ≡ s.conns
  unfolding unregister
  unregister-conns ws uuid s = ground arith

  pub cleanup-IsRegistry : (ws : ℕ) (s : Server) → IsRegistry p s → IsRegistry p (cleanup ws s)
  unfolding cleanup tear_down
  cleanup-IsRegistry ws s v = with_conn_cases (IsRegistry p) ws (tear_down ws) s v λ c found.
      let a = v.admitted ws c found in
      elim (Option-cases c.registered_uuid) [
        | inl e ↦
            rw (e, tear_down, forget)
              (Registry-keep p s.clients s.conns v ws _
                (record { hashed = a.hashed; signing = a.signing; same = inl refl }) (ground arith))
        | inr (u, e) ↦
            rw (e, tear_down, forget, unregister-conns ws u s)
              (Registry-release p s.clients s.conns v ws _ _
                (record { hashed = a.hashed; signing = a.signing; same = inl refl })
                (unregister-gone ws u s v (ground arith)))
      ]

  pub handle_connection-IsRegistry :
      (ws : ℕ) (peer : Option (Option (List ℕ))) (s : Server)
      → get ws s.conns ≡ none
      → IsRegistry p s
      → IsRegistry p (handle_connection p ws peer s)
  unfolding handle_connection uuid_from_p256_point
  handle_connection-IsRegistry ws none s new v = turn_away-IsRegistry ws 4401 _ s v
  handle_connection-IsRegistry ws (some cert) s new v =
      elim (Option-cases (extract_p256_point_from_cert cert)) [
        | inl e ↦ rw (e, handle_connection) (turn_away-IsRegistry ws 4402 _ s v)
        | inr (point, e) ↦
            rw (e, handle_connection)
              (Registry-keep p s.clients s.conns v ws _
                (record { hashed = refl; signing = extract-IsPoint cert point e; same = inl refl })
                (rw (new, registered_at)))
      ]

  pub validated :
      (key : String)
      → validate_decrypt_pubkey p key ≡ none
      → IsPoint (p.decode_base64 key)
        × (p.is_public_key (uncompressed_p256_to_spki (p.decode_base64 key)) ≡ true)
  unfolding validate_decrypt_pubkey
  validated key h = ground arith

  pub evict-get :
      (uuid u : String) (s : Server) (new : ConnectedClient)
      → get u (put uuid new (evict uuid s).clients)
        ≡ (if uuid == u then some new else get u s.clients)
  unfolding evict
  evict-get uuid u s new = ground (
    arith,
    get-put uuid u new (delete uuid s.clients),
    get-put uuid u new s.clients,
    get-delete uuid u s.clients,
  )

  pub evict-conns : (uuid : String) (s : Server) → (evict uuid s).conns ≡ s.conns
  unfolding evict
  evict-conns uuid s = ground arith

  pub register-IsRegistry :
      (ws : ℕ) (c : Conn) (key : String) (s : Server)
      → IsRegistry p s
      → get ws s.conns ≡ some c
      → c.registered_uuid ≡ none
      → validate_decrypt_pubkey p key ≡ none
      → IsRegistry p (register ws c (p.decode_base64 key) s)
  unfolding register
  register-IsRegistry ws c key s v found free valid =
      let a = v.admitted ws c found in
      let new : ConnectedClient = record {
        ws = ws;
        uuid = c.uuid;
        pubkey = c.cert_point;
        decrypt_pubkey = p.decode_base64 key;
      } in
      let evicted = evict c.uuid s in
      let entered : Server = record evicted { clients = put c.uuid new evicted.clients } in
      let e = send-Untouched ws (welcome (hooks_url s c.uuid) 4 s.broker_pubkey) entered in
      rw (e.0, e.1, evict-conns c.uuid s)
        (Registry-enter p s.clients s.conns v ws _ new _
          (record { hashed = a.hashed; signing = a.signing; same = inr refl }) refl
          (rw (found, registered_at) free) (refl, refl, refl) (validated key valid).0
          (validated key valid).1 (λ u. evict-get c.uuid u s new))

  pub on_hello-IsRegistry :
      (ws : ℕ) (c : Conn) (msg : ClientMessage) (s : Server)
      → IsRegistry p s
      → get ws s.conns ≡ some c
      → c.registered_uuid ≡ none
      → IsRegistry p (on_hello p ws c msg s)
  unfolding on_hello
  on_hello-IsRegistry ws c (hello key) s v found free =
      elim (Option-cases (validate_decrypt_pubkey p key)) [
        | inl e ↦ rw (e, on_hello) (register-IsRegistry ws c key s v found free e)
        | inr (err, e) ↦ rw (e, on_hello) (turn_away-IsRegistry ws 4400 _ s v)
      ]
  on_hello-IsRegistry ws c _ s v found free = turn_away-IsRegistry ws 4400 _ s v

  pub on_registered-Untouched :
      (msg : ClientMessage) (s : Server) → Untouched s (on_registered msg s)
  unfolding on_registered on_response settle remove_pending
  on_registered-Untouched (response r) s = ground arith
  on_registered-Untouched _ s = (refl, refl)

  pub handle_frame-IsRegistry :
      (ws : ℕ) (frame : Incoming) (c : Conn) (s : Server)
      → IsRegistry p s
      → get ws s.conns ≡ some c
      → IsRegistry p (handle_frame p ws frame c s)
  unfolding handle_frame send_error
  handle_frame-IsRegistry ws bad_json c s v found = send-IsRegistry ws (error "invalid JSON") s v
  handle_frame-IsRegistry ws bad_envelope c s v found = elim (Option-cases c.registered_uuid) [
    | inl e ↦ rw (e, handle_frame) (send-IsRegistry ws (error "expected hello message") s v)
    | inr (u, e) ↦ rw (e, handle_frame) v
  ]
  handle_frame-IsRegistry ws (envelope msg) c s v found = elim (Option-cases c.registered_uuid) [
    | inl e ↦ rw (e, handle_frame) (on_hello-IsRegistry ws c msg s v found e)
    | inr (u, e) ↦
        rw (e, handle_frame)
          (Untouched-keep s (on_registered msg s) (on_registered-Untouched msg s) v)
  ]
