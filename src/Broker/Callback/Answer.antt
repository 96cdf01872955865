-- ===== src/Broker/Callback/Answer.antt =====
-- The end of handleCallback in broker/router.ts and of handleDeliver in broker/e2e-mock.ts: what the caller
-- is answered once the promise of `relay.forward` settles, and how often.
use dicode_relay.Common.{
  ℕ, ◌+◌, String, List, [], ◌∷◌, ◌++◌, map, if◌then◌else◌, ◌==◌, string_eq, keys, length, ◌≡◌, refl,
  ap, ◌∙◌, arith, ℤ,
}
use dicode_relay.Shared.Platform.{Platform}
use dicode_relay.Relay.State.{Options, Effect, resolves, rejects, forward_timeout, start}
use dicode_relay.Relay.Pending.{Result, ok, throw}
use dicode_relay.Relay.Events.{Event, expires, ArePossible, run}
use dicode_relay.Relay.Forwards.Invariant.{run-start-Inv}
use dicode_relay.Relay.Settling.Ledger.{issued, settled, times, times-keys}
use dicode_relay.Relay.Settling.Once.{run-start-IsBalanced}
use dicode_relay.Relay.Settling.Drain.{timeouts, run-start_drains}
use dicode_relay.Broker.Callback.{Reply, answers}

pub data MockAnswer : Type 0 where
  daemon_status : ℤ → MockAnswer
  forward_failed : (status : ℕ) (error : String) → MockAnswer

abbrev completed : Reply
completed =
    answers 200 "<html><body><p>Authorization complete. You may close this tab.</p></body></html>"

abbrev unavailable : Reply
unavailable =
    answers 503
      "<html><body><p>Daemon not connected. Please retry the OAuth flow.</p></body></html>"

-- The answer at once, where `forward` throws before it has made its promise.
unfoldable pub callback_refused {ℓ} : {A : Type ℓ} → Result A → List Reply
callback_refused (ok s) = []
callback_refused (throw e) = unavailable ∷ []

-- The answers that an effect of the relay causes for the request with this id.
unfoldable pub callback_page : String → Effect → List Reply
callback_page id (resolves j r) = if j == id then completed ∷ [] else []
callback_page id (rejects j e) = if j == id then unavailable ∷ [] else []
callback_page id _ = []

unfoldable pub mock_answer : String → Effect → List MockAnswer
mock_answer id (resolves j r) = if j == id then daemon_status r.status ∷ [] else []
mock_answer id (rejects j e) = if j == id then forward_failed 502 "forward failed" ∷ [] else []
mock_answer id _ = []

-- All answers of a log.
abbrev pub answered {ℓ} : {A : Type ℓ} → (Effect → List A) → List Effect → List A
answered f [] = []
answered f (e ∷ log) = f e ++ answered f log

callback_page_lem :
    (id : String) (log : List Effect) → length (answered (callback_page id) log) ≡ settled id log
unfolding callback_page
callback_page_lem id [] = refl
callback_page_lem id (resolves j r ∷ log) = ground (arith, callback_page_lem id log)
callback_page_lem id (rejects j e ∷ log) = ground (arith, callback_page_lem id log)
callback_page_lem id (_ ∷ log) = omega (arith, callback_page_lem id log)

mock_answer_lem :
    (id : String) (log : List Effect) → length (answered (mock_answer id) log) ≡ settled id log
unfolding mock_answer
mock_answer_lem id [] = refl
mock_answer_lem id (resolves j r ∷ log) = ground (arith, mock_answer_lem id log)
mock_answer_lem id (rejects j e ∷ log) = ground (arith, mock_answer_lem id log)
mock_answer_lem id (_ ∷ log) = omega (arith, mock_answer_lem id log)

settled-timeouts :
    (id : String) (ids : List String) (log : List Effect)
    → settled id (timeouts ids log) ≡ times id ids + settled id log
settled-timeouts id [] log = omega arith
settled-timeouts id (j ∷ ids) log =
    ground (arith, settled-timeouts id ids (rejects j (forward_timeout j) ∷ log))

-- After any possible history of the relay, the timers that are armed can fire in their order, and once
-- they have, the browser of a callback whose delivery was forwarded under an id has been answered exactly
-- as often as a forward was made under that id, and so has the caller of the mock's delivery.
pub callback_page-run :
    (p : Platform) (o : Options) (es : List Event) (id : String)
    → ArePossible p (start o) es
    → let s = run p (start o) es in
      let fired = run p s (map expires s.timers) in
      ArePossible p s (map expires s.timers)
      × (length (answered (callback_page id) fired.log) ≡ issued id s.log)
      × (length (answered (mock_answer id) fired.log) ≡ issued id s.log)
callback_page-run p o es id f =
    let s = run p (start o) es in
    let fired = run p s (map expires s.timers) in
    let drained = run-start_drains p o es f in
    let log = ap (settled id) drained.3 ∙ settled-timeouts id (keys s.pending) s.log in
    let pending = times-keys id s.pending (run-start-Inv p o es f).agrees.distinct in
    let all : settled id fired.log ≡ issued id s.log =
      omega (arith, log, pending, run-start-IsBalanced p o es id f) in
    (drained.0, callback_page_lem id fired.log ∙ all, mock_answer_lem id fired.log ∙ all)
