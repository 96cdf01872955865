-- ===== src/Relay/Registry/Announcements.antt =====
-- The events `client:connected` and `client:disconnected` against the registry.
use dicode_relay.Common.{
  ℕ, String, List, [], ◌∷◌, Option, none, some, Bool, true, false, if◌then◌else◌, ◌==◌, get, put,
  delete, string_eq, nat_eq, ◌≡◌, arith, get-put, get-delete, eq_iff, is_some, inl, inr,
  Option-cases,
}
use dicode_relay.Shared.Platform.{Platform}
use dicode_relay.Relay.State.{
  Server, Conn, ConnectedClient, hello, Incoming, bad_json, bad_envelope, envelope,
  send_server_message, send_error, shut, terminate,
}
use dicode_relay.Relay.Pending.{
  get_client, forward, issue, add_pending, remove_pending, request_timeout,
}
use dicode_relay.Relay.Connection.{
  without_timer, unregister, forget, tear_down, cleanup, handle_connection, evict, register,
  turn_away, on_hello, settle, on_response, on_registered, handle_frame, on_message, disarm_pong,
  send_ping, give_up, on_pong, on_close, on_error, ping_tick, pong_timeout,
}
use dicode_relay.Relay.Events.{
  Event, connects, receives, pongs, closed, errs, ticks, pong_expires, forwards, expires, drains,
  shuts_down, step, accept,
}
use dicode_relay.Relay.Registry.Entries.{with_conn_cases}
use dicode_relay.Relay.State.{Effect, connected, disconnected}

-- What a listener of the two events last heard of a uuid; the newest event stands first.
abbrev pub announced : String → List Effect → Bool
announced u [] = false
announced u (connected v ∷ es) = if v == u then true else announced u es
announced u (disconnected v ∷ es) = if v == u then false else announced u es
announced u (_ ∷ es) = announced u es

abbrev pub IsAnnounced : Server → Type 0
IsAnnounced s = (u : String) → announced u s.log ≡ is_some (get u s.clients)

-- `close` empties the registry without a word.
abbrev pub IsRunning : Event → Type 0
IsRunning shuts_down = ⊥
IsRunning _ = Unit

module _ (p : Platform) where
  cleanup-IsAnnounced : (ws : ℕ) (s : Server) → IsAnnounced s → IsAnnounced (cleanup ws s)
  unfolding cleanup tear_down forget unregister
  cleanup-IsAnnounced ws s v u = elim (Option-cases (get ws s.conns)) [
    | inl e ↦ ground (arith, v u)
    | inr (c, e) ↦ elim (Option-cases c.registered_uuid) [
      | inl n ↦ ground (arith, v u)
      | inr (w, n) ↦ ground (arith, v u, get-delete w u s.clients, eq_iff w u)
    ]
  ]

  turn_away-IsAnnounced :
      (ws code : ℕ) (m : String) (s : Server) → IsAnnounced s → IsAnnounced (turn_away ws code m s)
  unfolding turn_away send_error send_server_message
  turn_away-IsAnnounced ws code m s v u = ground (arith, v u)

  handle_connection-IsAnnounced :
      (ws : ℕ) (peer : Option (Option (List ℕ))) (s : Server)
      → IsAnnounced s
      → IsAnnounced (handle_connection p ws peer s)
  unfolding handle_connection
  handle_connection-IsAnnounced ws none s v u =
      turn_away-IsAnnounced ws 4401 "client certificate required" s v u
  handle_connection-IsAnnounced ws (some cert) s v u =
      ground
        (arith, v u, turn_away-IsAnnounced ws 4402 "client certificate key must be P-256" s v u)

  register-IsAnnounced :
      (ws : ℕ) (c : Conn) (key : List ℕ) (s : Server)
      → IsAnnounced s
      → IsAnnounced (register ws c key s)
  unfolding register evict send_server_message
  register-IsAnnounced ws c key s v u =
      let new : ConnectedClient = record {
        ws = ws;
        uuid = c.uuid;
        pubkey = c.cert_point;
        decrypt_pubkey = key;
      } in
      ground (
        arith,
        v u,
        get-put c.uuid u new s.clients,
        get-put c.uuid u new (delete c.uuid s.clients),
        get-delete c.uuid u s.clients,
        eq_iff c.uuid u,
      )

  handle_frame-IsAnnounced :
      (ws : ℕ) (frame : Incoming) (c : Conn) (s : Server)
      → IsAnnounced s
      → IsAnnounced (handle_frame p ws frame c s)
  unfolding handle_frame on_hello on_registered on_response settle remove_pending send_error
      send_server_message
  handle_frame-IsAnnounced ws bad_json c s v u = ground (arith, v u)
  handle_frame-IsAnnounced ws bad_envelope c s v u = ground (arith, v u)
  handle_frame-IsAnnounced ws (envelope (hello key)) c s v u = ground (
    arith,
    v u,
    register-IsAnnounced ws c (p.decode_base64 key) s v u,
    turn_away-IsAnnounced ws 4400 _ s v u,
  )
  handle_frame-IsAnnounced ws (envelope msg) c s v u =
      ground (arith, v u, turn_away-IsAnnounced ws 4400 "expected hello message" s v u)

  -- While the server is not shut down, what a listener last heard of a uuid is whether the uuid is
  -- registered: every event keeps this.
  pub step-IsAnnounced :
      (s : Server) (e : Event) → IsRunning e → IsAnnounced s → IsAnnounced (step p s e)
  unfolding step on_message on_close on_error on_pong disarm_pong ping_tick send_ping pong_timeout
      give_up forward get_client issue add_pending send_server_message request_timeout
      remove_pending
  step-IsAnnounced s (connects ws peer) r v u =
      handle_connection-IsAnnounced ws peer (accept ws s) v u
  step-IsAnnounced s (receives ws frame) r v u =
      with_conn_cases IsAnnounced ws (handle_frame p ws frame) s v
        (λ c _. handle_frame-IsAnnounced ws frame c s v) u
  step-IsAnnounced s (pongs ws) r v u = ground (arith, v u)
  step-IsAnnounced s (closed ws) r v u = cleanup-IsAnnounced ws (shut ws s) v u
  step-IsAnnounced s (errs ws) r v u = cleanup-IsAnnounced ws (terminate ws s) v u
  step-IsAnnounced s (ticks ws) r v u = ground (arith, v u, cleanup-IsAnnounced ws s v u)
  step-IsAnnounced s (pong_expires ws t) r v u =
      with_conn_cases IsAnnounced ws (give_up ws t) s v
        (λ c _.
          cleanup-IsAnnounced ws
            (terminate ws (record s {
              conns =
                  put ws (record c { live_pongs = without_timer (some t) c.live_pongs }) s.conns;
            }))
            v)
        u
  step-IsAnnounced s (forwards id uuid method path headers body) r v u = ground (arith, v u)
  step-IsAnnounced s (expires id) r v u = ground (arith, v u)
  step-IsAnnounced s (drains ws n) r v u = v u
  step-IsAnnounced s shuts_down r v u = absurd r
