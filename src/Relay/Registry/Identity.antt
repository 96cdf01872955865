-- ===== src/Relay/Registry/Identity.antt =====
-- The registry is genuine after every event: an entry's uuid is the hash of the key in the
-- certificate of the very connection that is registered under it.
use dicode_relay.Common.{
  ℕ, String, List, [], ◌∷◌, none, some, get, put, values, keys, string_eq, nat_eq, ◌≡◌, inl, inr,
  refl, arith, Bool-cases, ◌∙◌,
}
use dicode_relay.Shared.Platform.{Platform}
use dicode_relay.Relay.State.{
  Server, Options, Conn, ConnectedClient, Headers, start, socket, send_server_message, shut,
  terminate,
}
use dicode_relay.Relay.Pending.{
  get_client, forward, issue, add_pending, remove_pending, request_timeout, reject_all,
  terminate_all, drop_pending, close,
}
use dicode_relay.Relay.Connection.{
  without_timer, handle_frame, on_message, on_pong, on_close, on_error, disarm_pong, send_ping,
  give_up, ping_tick, pong_timeout,
}
use dicode_relay.Relay.Events.{
  Event, connects, receives, pongs, closed, errs, ticks, pong_expires, forwards, expires, drains,
  shuts_down, step, IsPossible, ArePossible, run, accept, after,
}
use dicode_relay.Relay.Registry.Entries.{registered_at, with_conn_cases, Registry-keep}
use dicode_relay.Relay.Registry.Handlers.{
  IsRegistry, Untouched, Untouched-keep, cleanup-IsRegistry, handle_connection-IsRegistry,
  handle_frame-IsRegistry,
}

module _ (p : Platform) where
  on_pong-IsRegistry : (ws : ℕ) (s : Server) → IsRegistry p s → IsRegistry p (on_pong ws s)
  unfolding on_pong disarm_pong
  on_pong-IsRegistry ws s v = with_conn_cases (IsRegistry p) ws (disarm_pong ws) s v λ c found.
      let a = v.admitted ws c found in
      Registry-keep p s.clients s.conns v ws
        (record c { pong_timer = none; live_pongs = without_timer c.pong_timer c.live_pongs })
        (record { hashed = a.hashed; signing = a.signing; same = a.same })
        (rw (found, registered_at) refl)

  ping_tick-IsRegistry : (ws : ℕ) (s : Server) → IsRegistry p s → IsRegistry p (ping_tick ws s)
  unfolding ping_tick send_ping
  ping_tick-IsRegistry ws s v = with_conn_cases (IsRegistry p) ws (send_ping ws) s v λ c found.
      let a = v.admitted ws c found in
      let k : Conn = record c {
        pong_timer = some s.next_timer;
        live_pongs = s.next_timer ∷ c.live_pongs;
      } in
      elim (Bool-cases (socket ws s).is_open) [
        | inl e ↦
            rw (e, send_ping)
              (Registry-keep p s.clients s.conns v ws k
                (record { hashed = a.hashed; signing = a.signing; same = a.same })
                (rw (found, registered_at) refl))
        | inr e ↦ rw (e, send_ping) (cleanup-IsRegistry p ws s v)
      ]

  pong_timeout-IsRegistry :
      (ws t : ℕ) (s : Server) → IsRegistry p s → IsRegistry p (pong_timeout ws t s)
  unfolding pong_timeout give_up
  pong_timeout-IsRegistry ws t s v = with_conn_cases (IsRegistry p) ws (give_up ws t) s v λ c found.
      let a = v.admitted ws c found in
      let k : Conn = record c { live_pongs = without_timer (some t) c.live_pongs } in
      cleanup-IsRegistry p ws (terminate ws (record s { conns = put ws k s.conns })) (
        Registry-keep p s.clients s.conns v ws k
          (record { hashed = a.hashed; signing = a.signing; same = a.same })
          (rw (found, registered_at) refl))

  forward-Untouched :
      (id uuid method path : String) (headers : Headers) (body : List ℕ) (s : Server)
      → Untouched p s (after s (forward p id uuid method path headers body s))
  unfolding forward get_client issue add_pending send_server_message
  forward-Untouched id uuid method path headers body s = ground arith

  request_timeout-Untouched : (id : String) (s : Server) → Untouched p s (request_timeout id s)
  unfolding request_timeout remove_pending
  request_timeout-Untouched id s = ground arith

  reject_all-Untouched : (ids : List String) (s : Server) → Untouched p s (reject_all ids s)
  unfolding reject_all
  reject_all-Untouched [] s = (refl, refl)
  reject_all-Untouched (id ∷ ids) s = reject_all-Untouched ids _

  terminate_all-Untouched :
      (cs : List ConnectedClient) (s : Server) → Untouched p s (terminate_all cs s)
  unfolding terminate_all
  terminate_all-Untouched [] s = (refl, refl)
  terminate_all-Untouched (c ∷ cs) s = terminate_all-Untouched cs (terminate c.ws s)

  close-conns : (s : Server) → (close s).conns ≡ s.conns
  unfolding close
  close-conns s =
      (terminate_all-Untouched (values (drop_pending s).clients) (drop_pending s)).1
      ∙ (reject_all-Untouched (keys s.pending) s).1

  close-IsRegistry : (s : Server) → IsRegistry p s → IsRegistry p (close s)
  unfolding close get
  close-IsRegistry s v = record {
    entry = λ u c h. cc;
    admitted = λ ws c h. v.admitted ws c (rw (← close-conns s) h);
  }

  -- Every event keeps the registry genuine, where a new socket is one that the server has not seen:
  -- an entry's uuid is the hash of the key of the certificate of the connection that is registered
  -- under it, its two keys have 65 bytes that start with 4, and the platform accepted the second.
  pub step-IsRegistry :
      (s : Server) (e : Event) → IsPossible s e → IsRegistry p s → IsRegistry p (step p s e)
  unfolding step on_message on_close on_error
  step-IsRegistry s (connects ws peer) f v =
      handle_connection-IsRegistry p ws peer (accept ws s) f v
  step-IsRegistry s (receives ws frame) f v =
      with_conn_cases (IsRegistry p) ws (handle_frame p ws frame) s v
        (λ c. handle_frame-IsRegistry p ws frame c s v)
  step-IsRegistry s (pongs ws) f v = on_pong-IsRegistry ws s v
  step-IsRegistry s (closed ws) f v = cleanup-IsRegistry p ws (shut ws s) v
  step-IsRegistry s (errs ws) f v = cleanup-IsRegistry p ws (terminate ws s) v
  step-IsRegistry s (ticks ws) f v = ping_tick-IsRegistry ws s v
  step-IsRegistry s (pong_expires ws t) f v = pong_timeout-IsRegistry ws t s v
  step-IsRegistry s (forwards id uuid method path headers body) f v =
      Untouched-keep p s (after s (forward p id uuid method path headers body s))
        (forward-Untouched id uuid method path headers body s) v
  step-IsRegistry s (expires id) f v =
      Untouched-keep p s (request_timeout id s) (request_timeout-Untouched id s) v
  step-IsRegistry s (drains ws n) f v = v
  step-IsRegistry s shuts_down f v = close-IsRegistry s v

  run-IsRegistry :
      (s : Server) (es : List Event)
      → ArePossible p s es
      → IsRegistry p s
      → IsRegistry p (run p s es)
  unfolding run
  run-IsRegistry s [] f v = v
  run-IsRegistry s (e ∷ es) f v = run-IsRegistry (step p s e) es f.1 (step-IsRegistry s e f.0 v)

  -- After any possible history from the start, each registry entry stands under the uuid that is
  -- the hash of its signing key, both its keys are 65-byte uncompressed points, the platform
  -- accepts the decryption key, and its connection is registered under that uuid; and each
  -- connection's uuid is the hash of its certificate's key.
  pub run-start-IsRegistry :
      (o : Options) (es : List Event)
      → ArePossible p (start o) es
      → IsRegistry p (run p (start o) es)
  unfolding start get
  run-start-IsRegistry o es f =
      run-IsRegistry (start o) es f (record { entry = λ u c h. cc; admitted = λ ws c h. cc })
