-- ===== src/Relay/Settling/Once.antt =====
-- Every event keeps the balance of promises.
use dicode_relay.Common.{
  ℕ, ◌+◌, String, List, [], ◌∷◌, Option, none, some, true, get, put, keys, values, string_eq,
  nat_eq, ◌≡◌, refl, arith, get-put, get-delete, eq_iff, is_some, ap,
}
use dicode_relay.Shared.Platform.{Platform}
use dicode_relay.Relay.State.{
  Server, Options, Conn, ConnectedClient, Response, Headers, ClientMessage, hello, response,
  Incoming, bad_json, bad_envelope, envelope, start, emit, rejects, clears, server_closing,
  send_server_message, send_error, shut, terminate,
}
use dicode_relay.Relay.Pending.{
  get_client, without, forward, issue, add_pending, remove_pending, request_timeout, reject_all,
  terminate_all, drop_pending, close,
}
use dicode_relay.Relay.Connection.{
  without_timer, unregister, forget, tear_down, cleanup, handle_connection, evict, register,
  turn_away, on_hello, settle, on_response, on_registered, handle_frame, on_message, disarm_pong,
  send_ping, give_up, on_pong, on_close, on_error, ping_tick, pong_timeout,
}
use dicode_relay.Relay.Events.{
  Event, connects, receives, pongs, closed, errs, ticks, pong_expires, forwards, expires, drains,
  shuts_down, step, IsPossible, ArePossible, is_armed, run, accept, after,
}
use dicode_relay.Relay.Forwards.Books.{Inv}
use dicode_relay.Relay.Forwards.Invariant.{step-Inv, nothing_pending}
use dicode_relay.Relay.Registry.Entries.{with_conn_cases}
use dicode_relay.Relay.Settling.Ledger.{
  one, issued, settled, IsBalanced, Level, Level-IsBalanced, is_armed-keys, times, times-keys,
}

module _ (p : Platform) where
  cleanup-Level : (ws : ℕ) (s : Server) → Level s (cleanup ws s)
  unfolding cleanup tear_down forget unregister
  cleanup-Level ws s id = ground arith

  turn_away-Level : (ws code : ℕ) (m : String) (s : Server) → Level s (turn_away ws code m s)
  unfolding turn_away send_error send_server_message
  turn_away-Level ws code m s id = ground arith

  handle_connection-Level :
      (ws : ℕ) (peer : Option (Option (List ℕ))) (s : Server)
      → Level s (handle_connection p ws peer s)
  unfolding handle_connection
  handle_connection-Level ws none s id = turn_away-Level ws 4401 "client certificate required" s id
  handle_connection-Level ws (some cert) s id =
      ground (arith, turn_away-Level ws 4402 "client certificate key must be P-256" s id)

  register-Level : (ws : ℕ) (c : Conn) (key : List ℕ) (s : Server) → Level s (register ws c key s)
  unfolding register evict send_server_message
  register-Level ws c key s id = ground arith

  on_hello-Level :
      (ws : ℕ) (c : Conn) (msg : ClientMessage) (s : Server) → Level s (on_hello p ws c msg s)
  unfolding on_hello
  on_hello-Level ws c (hello key) s id =
      ground (arith, register-Level ws c (p.decode_base64 key) s id, turn_away-Level ws 4400 _ s id)
  on_hello-Level ws c _ s id = turn_away-Level ws 4400 "expected hello message" s id

  abbrev Balanced : Server → Type 0
  Balanced s = IsBalanced s.log s.pending

  on_response-Balanced : (r : Response) (s : Server) → Balanced s → Balanced (on_response r s)
  unfolding on_response settle remove_pending
  on_response-Balanced r s b id = ground (arith, b id, get-delete r.id id s.pending, eq_iff r.id id)

  request_timeout-Balanced :
      (id : String) (s : Server)
      → is_some (get id s.pending) ≡ true
      → Balanced s
      → Balanced (request_timeout id s)
  unfolding request_timeout remove_pending
  request_timeout-Balanced id s armed b j =
      ground (arith, b j, get-delete id j s.pending, eq_iff id j)

  handle_frame-Balanced :
      (ws : ℕ) (frame : Incoming) (c : Conn) (s : Server)
      → Balanced s
      → Balanced (handle_frame p ws frame c s)
  unfolding handle_frame on_registered send_error send_server_message
  handle_frame-Balanced ws bad_json c s b id = ground (arith, b id)
  handle_frame-Balanced ws bad_envelope c s b id = ground (arith, b id)
  handle_frame-Balanced ws (envelope (response r)) c s b id =
      ground (arith, b id, on_response-Balanced r s b id, on_hello-Level ws c (response r) s id)
  handle_frame-Balanced ws (envelope msg) c s b id =
      ground (arith, b id, on_hello-Level ws c msg s id)

  forward-Balanced :
      (id uuid method path : String) (headers : Headers) (body : List ℕ) (s : Server)
      → get id s.pending ≡ none
      → Balanced s
      → Balanced (after s (forward p id uuid method path headers body s))
  unfolding forward get_client issue add_pending send_server_message
  forward-Balanced id uuid method path headers body s fresh b j =
      ground (arith, b j, get-put id j (record { uuid = uuid }) s.pending, eq_iff id j)

  reject_all-log :
      (ids : List String) (s : Server) (id : String)
      → (issued id (reject_all ids s).log ≡ issued id s.log)
        × (settled id (reject_all ids s).log ≡ settled id s.log + times id ids)
  unfolding reject_all
  reject_all-log [] s id = ground arith
  reject_all-log (x ∷ ids) s id = ground (
    arith,
    reject_all-log ids
        (emit (rejects x server_closing)
          (emit (clears x) (record s { timers = without x s.timers })))
        id,
  )

  terminate_all-Level : (cs : List ConnectedClient) (s : Server) → Level s (terminate_all cs s)
  unfolding terminate_all
  terminate_all-Level [] s id = ground arith
  terminate_all-Level (c ∷ cs) s id = ground (arith, terminate_all-Level cs (terminate c.ws s) id)

  drop_pending-Balanced : (s : Server) → Inv s → Balanced s → Balanced (drop_pending s)
  unfolding drop_pending get
  drop_pending-Balanced s v b id =
      ground (
        arith,
        b id,
        reject_all-log (keys s.pending) s id,
        times-keys id s.pending v.agrees.distinct,
      )

  on_pong-Level : (ws : ℕ) (s : Server) → Level s (on_pong ws s)
  unfolding on_pong disarm_pong
  on_pong-Level ws s id = ground arith

  ping_tick-Level : (ws : ℕ) (s : Server) → Level s (ping_tick ws s)
  unfolding ping_tick send_ping
  ping_tick-Level ws s id = ground (arith, cleanup-Level ws s id)

  pong_timeout-Level : (ws t : ℕ) (s : Server) → Level s (pong_timeout ws t s)
  unfolding pong_timeout give_up
  pong_timeout-Level ws t s =
      with_conn_cases (Level s) ws (give_up ws t) s (λ id. ground arith)
        (λ c _ id. ground (
          arith,
          cleanup-Level ws
              (terminate ws (record s {
                conns =
                    put ws (record c { live_pongs = without_timer (some t) c.live_pongs }) s.conns;
              }))
              id,
        ))

  close-Balanced : (s : Server) → Inv s → Balanced s → Balanced (close s)
  unfolding close
  close-Balanced s v b =
      let dropped = drop_pending s in
      Level-IsBalanced dropped (terminate_all (values dropped.clients) dropped)
        (terminate_all-Level (values dropped.clients) dropped) (drop_pending-Balanced s v b)

  -- Every event keeps the balance, from a server whose books are right: however often the promise of
  -- an id was made, that often it was resolved or rejected, but for the one that is pending.
  pub step-IsBalanced :
      (s : Server) (e : Event)
      → IsPossible s e
      → Inv s
      → IsBalanced s.log s.pending
      → IsBalanced (step p s e).log (step p s e).pending
  unfolding step on_message on_close on_error
  step-IsBalanced s (connects ws peer) f v b =
      Level-IsBalanced (accept ws s) (handle_connection p ws peer (accept ws s))
        (handle_connection-Level ws peer (accept ws s)) b
  step-IsBalanced s (receives ws frame) f v b =
      with_conn_cases Balanced ws (handle_frame p ws frame) s b
        (λ c _. handle_frame-Balanced ws frame c s b)
  step-IsBalanced s (pongs ws) f v b = Level-IsBalanced s (on_pong ws s) (on_pong-Level ws s) b
  step-IsBalanced s (closed ws) f v b =
      Level-IsBalanced s (cleanup ws (shut ws s)) (cleanup-Level ws (shut ws s)) b
  step-IsBalanced s (errs ws) f v b =
      Level-IsBalanced (terminate ws s) (cleanup ws (terminate ws s))
        (cleanup-Level ws (terminate ws s)) (λ id. ground (arith, b id))
  step-IsBalanced s (ticks ws) f v b = Level-IsBalanced s (ping_tick ws s) (ping_tick-Level ws s) b
  step-IsBalanced s (pong_expires ws t) f v b =
      Level-IsBalanced s (pong_timeout ws t s) (pong_timeout-Level ws t s) b
  step-IsBalanced s (forwards id uuid method path headers body) f v b =
      forward-Balanced id uuid method path headers body s f b
  step-IsBalanced s (expires id) f v b =
      request_timeout-Balanced id s
        (ground (arith, is_armed-keys id s.pending, ap (is_armed id) v.agrees.armed)) b
  step-IsBalanced s (drains ws n) f v b = b
  step-IsBalanced s shuts_down f v b = close-Balanced s v b

  run-IsBalanced :
      (s : Server) (es : List Event)
      → ArePossible p s es
      → Inv s
      → Balanced s
      → Balanced (run p s es)
  unfolding run
  run-IsBalanced s [] f v b = b
  run-IsBalanced s (e ∷ es) f v b =
      run-IsBalanced (step p s e) es f.1 (step-Inv p s e f.0 v) (step-IsBalanced s e f.0 v b)

  -- After any possible history from the start, each promise that `forward` made was resolved or
  -- rejected as often as it was made, but for the one that is pending: none is lost, and none
  -- settled twice.
  pub run-start-IsBalanced :
      (o : Options) (es : List Event) (id : String)
      → ArePossible p (start o) es
      → let s = run p (start o) es in
        issued id s.log ≡ settled id s.log + one (is_some (get id s.pending))
  unfolding start get
  run-start-IsBalanced o es id f =
      run-IsBalanced (start o) es f (nothing_pending o.max_pending_per_client) (λ j. refl) id
