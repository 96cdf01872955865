-- ===== src/Relay/Keepalive.antt =====
-- The ping and pong timers of one connection.
use dicode_relay.Common.{
  ℕ, suc, List, [], ◌∷◌, none, some, Bool, true, false, ◌==◌, get, put, string_eq, nat_eq, ◌≡◌,
  arith, ◌≢◌, ◌||◌, get-put_self,
}
use dicode_relay.Relay.State.{Server, Conn, socket}
use dicode_relay.Relay.Connection.{without_timer, disarm_pong, send_ping, on_pong, ping_tick}
use dicode_relay.Relay.Connection.{without_timer}

-- The pong timers that are armed for a socket.
abbrev pub timers_at : ℕ → Server → List ℕ
timers_at ws s = elim (get ws s.conns) [ none ↦ [] | some c ↦ c.live_pongs ]

abbrev pub is_in : ℕ → List ℕ → Bool
is_in t [] = false
is_in t (x ∷ xs) = x == t || is_in t xs

is_in-without_timer :
    (t u : ℕ) (ts : List ℕ) → t ≢ u → is_in t ts ≡ true → is_in t (without_timer (some u) ts) ≡ true
is_in-without_timer t u [] ne h = cc
is_in-without_timer t u (x ∷ ts) ne h = ground (arith, is_in-without_timer t u ts ne)

-- A pong that comes after exactly one ping on a connection with no armed timer leaves none armed.
pub on_pong-ping_tick :
    (ws : ℕ) (c : Conn) (s : Server)
    → get ws s.conns ≡ some c
    → (socket ws s).is_open ≡ true
    → c.live_pongs ≡ []
    → timers_at ws (on_pong ws (ping_tick ws s)) ≡ []
unfolding on_pong disarm_pong ping_tick send_ping
on_pong-ping_tick ws c s found up idle = ground (
  arith,
  get-put_self ws
      (record c { pong_timer = some s.next_timer; live_pongs = s.next_timer ∷ c.live_pongs })
      s.conns,
  get-put_self ws (record c { pong_timer = none; live_pongs = [] })
      (put ws
        (record c { pong_timer = some s.next_timer; live_pongs = s.next_timer ∷ c.live_pongs })
        s.conns),
)

abbrev pinged : Conn → ℕ → Conn
pinged c t = record c { pong_timer = some t; live_pongs = t ∷ c.live_pongs }

ping_tick_lem :
    (ws : ℕ) (c : Conn) (s : Server)
    → get ws s.conns ≡ some c
    → (socket ws s).is_open ≡ true
    → (get ws (ping_tick ws s).conns ≡ some (pinged c s.next_timer))
      × ((ping_tick ws s).next_timer ≡ suc s.next_timer)
      × ((socket ws (ping_tick ws s)).is_open ≡ true)
unfolding ping_tick send_ping
ping_tick_lem ws c s found up = ground (arith, get-put_self ws (pinged c s.next_timer) s.conns)

on_pong_lem :
    (ws : ℕ) (c : Conn) (s : Server)
    → get ws s.conns ≡ some c
    → timers_at ws (on_pong ws s) ≡ without_timer c.pong_timer c.live_pongs
unfolding on_pong disarm_pong
on_pong_lem ws c s found = ground (
  arith,
  get-put_self ws
      (record c { pong_timer = none; live_pongs = without_timer c.pong_timer c.live_pongs })
      s.conns,
)

-- If a second ping goes out before the pong of the first, the pong clears only the later timer: the
-- timer of the first ping stays armed.
pub on_pong-ping_tick_twice :
    (ws : ℕ) (c : Conn) (s : Server)
    → get ws s.conns ≡ some c
    → (socket ws s).is_open ≡ true
    → is_in s.next_timer (timers_at ws (on_pong ws (ping_tick ws (ping_tick ws s)))) ≡ true
on_pong-ping_tick_twice ws c s found up =
    let one = ping_tick_lem ws c s found up in
    let two = ping_tick_lem ws (pinged c s.next_timer) (ping_tick ws s) one.0 one.2 in
    let final =
      on_pong_lem ws (pinged (pinged c s.next_timer) (ping_tick ws s).next_timer)
        (ping_tick ws (ping_tick ws s)) two.0 in
    rw final (
      ground (
        arith,
        one.1,
        is_in-without_timer s.next_timer (ping_tick ws s).next_timer
            ((ping_tick ws s).next_timer ∷ s.next_timer ∷ c.live_pongs),
      ))
