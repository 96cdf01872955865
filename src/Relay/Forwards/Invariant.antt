-- ===== src/Relay/Forwards/Invariant.antt =====
-- Every event keeps the bookkeeping of forwards right, and within the cap of each daemon.
use dicode_relay.Common.{
  ℕ, String, List, [], ◌∷◌, none, get, keys, values, string_eq, nat_eq, ◌≡◌, refl, arith, count,
  ◌∙◌, Option-cases, inl, inr, ap,
}
use dicode_relay.Shared.Platform.{Platform}
use dicode_relay.Relay.State.{Server, Options, ConnectedClient, Headers, start, terminate}
use dicode_relay.Relay.Pending.{get_client, forward, reject_all, terminate_all, drop_pending, close}
use dicode_relay.Relay.Events.{
  Event, connects, receives, pongs, closed, errs, ticks, pong_expires, forwards, expires, drains,
  shuts_down, step, IsPossible, ArePossible, run, accept, after,
}
use dicode_relay.Relay.Forwards.Counts.{without_all, without_all_self}
use dicode_relay.Relay.Forwards.Books.{
  Books, Inv, Same, Same-Inv, handle_connection-Same, ping_tick-Same, request_timeout-Inv,
  on_message-Inv, on_pong-Same, on_close-Same, on_error-Same, pong_timeout-Same, issue-Inv,
}

forward-Inv :
    (p : Platform) (id uuid method path : String) (headers : Headers) (body : List ℕ) (s : Server)
    → get id s.pending ≡ none
    → Inv s
    → Inv (after s (forward p id uuid method path headers body s))
unfolding forward get_client
forward-Inv p id uuid method path headers body s fresh v =
    elim (Option-cases (get uuid s.clients)) [
      | inl missing ↦ ground (arith, v)
      | inr (client, found) ↦ ground (
        arith,
        v,
        issue-Inv
            (record {
              id = id;
              method = method;
              path = path;
              headers = headers;
              body = p.encode_base64 body;
            })
            client uuid s fresh,
      )
    ]

reject_all-timers :
    (ids : List String) (s : Server)
    → ((reject_all ids s).timers ≡ without_all ids s.timers)
      × ((reject_all ids s).options ≡ s.options)
unfolding reject_all
reject_all-timers [] s = (refl, refl)
reject_all-timers (id ∷ ids) s = reject_all-timers ids _

terminate_all-Same : (cs : List ConnectedClient) (s : Server) → Same s (terminate_all cs s)
unfolding terminate_all
terminate_all-Same [] s = ground arith
terminate_all-Same (c ∷ cs) s = ground (arith, terminate_all-Same cs (terminate c.ws s))

pub nothing_pending : (cap : ℕ) → Books [] [] [] cap
unfolding count get
nothing_pending cap = record {
  agrees = record { distinct = tt; counted = λ u. refl; armed = refl };
  capped = λ u. omega arith;
}

close-Inv : (s : Server) → Inv s → Inv (close s)
unfolding close
close-Inv s v =
    let timers : (reject_all (keys s.pending) s).timers ≡ [] =
      (reject_all-timers (keys s.pending) s).0
      ∙ ap (without_all (keys s.pending)) v.agrees.armed
      ∙ without_all_self (keys s.pending) in
    let cleared : Server = drop_pending s in
    let ended : Server = terminate_all (values cleared.clients) cleared in
    Same-Inv cleared ended (terminate_all-Same (values cleared.clients) cleared)
      (rw timers (nothing_pending _))

-- Every event keeps the books: each pending id stands once with an armed timer, the stored count of
-- each daemon is the number of its pending forwards (with no entry at zero), and that number is at
-- most the cap. The id of a new forward is assumed not to be pending already.
pub step-Inv : (p : Platform) (s : Server) (e : Event) → IsPossible s e → Inv s → Inv (step p s e)
unfolding step
step-Inv p s (connects ws peer) f v =
    Same-Inv (accept ws s) _ (handle_connection-Same p ws peer (accept ws s)) v
step-Inv p s (receives ws frame) f v = ground (arith, on_message-Inv p ws frame s v)
step-Inv p s (pongs ws) f v = Same-Inv s _ (on_pong-Same ws s) v
step-Inv p s (closed ws) f v = Same-Inv s _ (on_close-Same ws s) v
step-Inv p s (errs ws) f v = Same-Inv s _ (on_error-Same ws s) v
step-Inv p s (ticks ws) f v = Same-Inv s _ (ping_tick-Same ws s) v
step-Inv p s (pong_expires ws t) f v = Same-Inv s _ (pong_timeout-Same ws t s) v
step-Inv p s (forwards id uuid method path headers body) f v =
    forward-Inv p id uuid method path headers body s f v
step-Inv p s (expires id) f v = request_timeout-Inv id s v
step-Inv p s (drains ws n) f v = v
step-Inv p s shuts_down f v = close-Inv s v

run-Inv :
    (p : Platform) (s : Server) (es : List Event) → ArePossible p s es → Inv s → Inv (run p s es)
unfolding run
run-Inv p s [] f v = v
run-Inv p s (e ∷ es) f v = run-Inv p (step p s e) es f.1 (step-Inv p s e f.0 v)

-- After any possible history from the start the books are right: the pending requests have distinct
-- ids, an armed timer each, and per daemon a stored count that is their number, absent at zero and
-- never above the cap.
pub run-start-Inv :
    (p : Platform) (o : Options) (es : List Event)
    → ArePossible p (start o) es
    → Inv (run p (start o) es)
unfolding start
run-start-Inv p o es f = run-Inv p (start o) es f (nothing_pending o.max_pending_per_client)
