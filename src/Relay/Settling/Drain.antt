-- ===== src/Relay/Settling/Drain.antt =====
-- What the timers of the outstanding forwards do when they all fire.
use dicode_relay.Common.{
  String, List, [], ◌∷◌, map, none, some, Dict, get, delete, keys, IsDistinct, string_eq, ◌≡◌, refl,
  ap, ◌∙◌, arith, delete_absent, eq_iff,
}
use dicode_relay.Shared.Platform.{Platform}
use dicode_relay.Relay.State.{
  Server, Options, PendingRequest, Effect, rejects, forward_timeout, start,
}
use dicode_relay.Relay.Pending.{without, remove_pending, request_timeout}
use dicode_relay.Relay.Events.{Event, expires, step, ArePossible, run}
use dicode_relay.Relay.Forwards.Counts.{keys-delete}
use dicode_relay.Relay.Forwards.Invariant.{run-start-Inv}

-- The rejections of ids, the last the newest.
abbrev pub timeouts : List String → List Effect → List Effect
timeouts [] log = log
timeouts (id ∷ ids) log = timeouts ids (rejects id (forward_timeout id) ∷ log)

request_timeout_first :
    (id : String) (req : PendingRequest) (m : Dict String PendingRequest) (s : Server)
    → s.pending ≡ (id, req) ∷ m
    → s.timers ≡ id ∷ keys m
    → get id m ≡ none
    → ((request_timeout id s).pending ≡ m)
      × ((request_timeout id s).timers ≡ keys m)
      × ((request_timeout id s).log ≡ rejects id (forward_timeout id) ∷ s.log)
unfolding request_timeout remove_pending get delete
request_timeout_first id req m s e t absent =
    let found : get id s.pending ≡ some req = ap (get id) e ∙ ground (arith, eq_iff id id) in
    let rest : delete id s.pending ≡ m =
      ap (delete id) e ∙ ground (arith, eq_iff id id, delete_absent id m absent) in
    let timers : without id s.timers ≡ keys m =
      ap (without id) t
      ∙ ground (arith, eq_iff id id, keys-delete id m, ap keys (delete_absent id m absent)) in
    ground (arith, found, rest, timers)

drain_lem :
    (p : Platform) (m : Dict String PendingRequest) (s : Server)
    → s.pending ≡ m
    → s.timers ≡ keys m
    → IsDistinct m
    → let es = map expires (keys m) in
      ArePossible p s es
      × ((run p s es).pending ≡ [])
      × ((run p s es).timers ≡ [])
      × ((run p s es).log ≡ timeouts (keys m) s.log)
unfolding run step
drain_lem p [] s e t d = (tt, e, t, refl)
drain_lem p ((id, req) ∷ m) s e t d =
    let first = request_timeout_first id req m s e t d.0 in
    let r = drain_lem p m (request_timeout id s) first.0 first.1 d.1 in
    ((ground (arith, t, eq_iff id id), r.0), r.1, r.2, r.3 ∙ ap (timeouts (keys m)) first.2)

-- No promise stays pending for ever: after any possible history, when the timers that are armed fire in
-- their order, each firing is possible, every outstanding request is rejected by its timeout, and
-- nothing is left pending or armed.
pub run-start_drains :
    (p : Platform) (o : Options) (es : List Event)
    → ArePossible p (start o) es
    → let s = run p (start o) es in
      let fired = run p s (map expires s.timers) in
      ArePossible p s (map expires s.timers)
      × (fired.pending ≡ [])
      × (fired.timers ≡ [])
      × (fired.log ≡ timeouts (keys s.pending) s.log)
unfolding run
run-start_drains p o es f =
    let s = run p (start o) es in
    let v = run-start-Inv p o es f in
    rw v.agrees.armed (drain_lem p s.pending s refl v.agrees.armed v.agrees.distinct)
