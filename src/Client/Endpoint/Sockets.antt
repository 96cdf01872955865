-- ===== src/Client/Endpoint/Sockets.antt =====
-- The dial and serve of client/connection.ts: promises that the first of some events of the socket
-- settles, which also removes the listeners of the others.
use dicode_relay.Common.{
  ℕ, String, List, [], ◌∷◌, ◌++◌, Option, none, some, Bool, true, false, if◌then◌else◌, ◌==◌,
  nat_eq, ◌≡◌, refl, sym, ap, ◌∙◌, is_some, append_nil, append_assoc,
}
use dicode_relay.Client.Endpoint.Frames.{Frame}

-- What may happen while the socket is dialled.
pub data DialEvent : Type 0 where
  timer_fires aborts opens closes : DialEvent
  errs : String → DialEvent

pub data DialResult : Type 0 where
  resolves : DialResult
  rejects : String → DialResult

-- `is_terminated` is that the socket was terminated, with a listener that swallows its error.
pub record Dial : Type 0 where
  pub outcome : Option DialResult
  pub is_terminated : Bool

unfoldable pub settle_dial : DialEvent → Dial
settle_dial timer_fires = record { outcome = some (rejects "dial timeout"); is_terminated = true }
settle_dial aborts = record { outcome = some (rejects "aborted"); is_terminated = true }
settle_dial opens = record { outcome = some resolves; is_terminated = false }
settle_dial closes = record { outcome = some (rejects "closed before open"); is_terminated = false }
settle_dial (errs err) = record { outcome = some (rejects err); is_terminated = false }

-- After the first event all listeners are gone.
unfoldable pub dial_step : Dial → DialEvent → Dial
dial_step d e = if is_some d.outcome then d else settle_dial e

unfoldable pub dial : Dial → List DialEvent → Dial
dial d [] = d
dial d (e ∷ es) = dial (dial_step d e) es

abbrev pub dialling : Dial
dialling = record { outcome = none; is_terminated = false }

-- The message for a close code of the broker's admission.
unfoldable pub admission_message : ℕ → Option String
admission_message code =
    if code == 4400
    then some "broker rejected our hello frame"
    else if code == 4401
    then some "broker did not receive our TLS client certificate"
    else if code == 4402
    then some "broker rejected our TLS client certificate: key is not P-256"
    else none

-- What may happen while a connection serves.
pub data ServeEvent : Type 0 where
  aborted closed : ServeEvent
  failed : String → ServeEvent
  message : Frame → ServeEvent

pub data ServeResult : Type 0 where
  ended : ServeResult
  threw : String → ServeResult

-- `handled` are the frames given to handleFrame.
pub record Serving : Type 0 where
  pub handled : List Frame
  pub outcome : Option ServeResult
  pub is_terminated : Bool

-- A socket that has closed before is not listened to.
unfoldable pub begin_serving : (is_closed : Bool) → Serving
begin_serving is_closed = record {
  handled = [];
  outcome = if is_closed then some ended else none;
  is_terminated = false;
}

unfoldable pub on_event : ServeEvent → Serving → Serving
on_event aborted s = record s { is_terminated = true }
on_event closed s = record s { outcome = some ended }
on_event (failed err) s = record s { outcome = some (threw err) }
on_event (message f) s = record s { handled = s.handled ++ (f ∷ []) }

unfoldable pub serve_step : ServeEvent → Serving → Serving
serve_step e s = if is_some s.outcome then s else on_event e s

unfoldable pub serve_run : Serving → List ServeEvent → Serving
serve_run s [] = s
serve_run s (e ∷ es) = serve_run (serve_step e s) es

dial_settled : (d : Dial) (es : List DialEvent) → is_some d.outcome ≡ true → dial d es ≡ d
unfolding dial dial_step
dial_settled d [] h = refl
dial_settled d (e ∷ es) h = rw h (dial_settled d es h)

settle_dial_lem : (e : DialEvent) → is_some (settle_dial e).outcome ≡ true
unfolding settle_dial
settle_dial_lem timer_fires = refl
settle_dial_lem aborts = refl
settle_dial_lem opens = refl
settle_dial_lem closes = refl
settle_dial_lem (errs err) = refl

-- A dial is settled by the first event and by no later one: the outcome and whether the socket was
-- terminated are those of the first event, whatever follows.
pub dial_first : (e : DialEvent) (es : List DialEvent) → dial dialling (e ∷ es) ≡ settle_dial e
unfolding dial dial_step
dial_first e es = dial_settled (settle_dial e) es (settle_dial_lem e)

-- The frames among events, up to the first that ends the serving, and that end.
abbrev pub frames_before : List ServeEvent → List Frame
frames_before [] = []
frames_before (message f ∷ es) = f ∷ frames_before es
frames_before (aborted ∷ es) = frames_before es
frames_before (_ ∷ es) = []

abbrev pub first_end : List ServeEvent → Option ServeResult
first_end [] = none
first_end (message f ∷ es) = first_end es
first_end (aborted ∷ es) = first_end es
first_end (closed ∷ es) = some ended
first_end (failed err ∷ es) = some (threw err)

serve_settled : (s : Serving) (es : List ServeEvent) → is_some s.outcome ≡ true → serve_run s es ≡ s
unfolding serve_run serve_step
serve_settled s [] h = refl
serve_settled s (e ∷ es) h = rw h (serve_settled s es h)

abbrev serving : List Frame → Bool → Serving
serving handled t = record { handled = handled; outcome = none; is_terminated = t }

serve_open :
    (fs : List Frame) (t : Bool) (es : List ServeEvent)
    → ((serve_run (serving fs t) es).handled ≡ fs ++ frames_before es)
      × ((serve_run (serving fs t) es).outcome ≡ first_end es)
unfolding serve_run serve_step on_event
serve_open fs t [] = (sym (append_nil fs), refl)
serve_open fs t (aborted ∷ es) = serve_open fs true es
serve_open fs t (message f ∷ es) =
    let r = serve_open (fs ++ (f ∷ [])) t es in
    (r.0 ∙ append_assoc fs (f ∷ []) (frames_before es), r.1)
serve_open fs t (closed ∷ es) =
    let e = serve_settled (record (serving fs t) { outcome = some ended }) es refl in
    (ap (λ x. x.handled) e ∙ sym (append_nil fs), ap (λ x. x.outcome) e)
serve_open fs t (failed err ∷ es) =
    let e = serve_settled (record (serving fs t) { outcome = some (threw err) }) es refl in
    (ap (λ x. x.handled) e ∙ sym (append_nil fs), ap (λ x. x.outcome) e)

-- While a socket serves, exactly the frames before its first close or error are handled, in their order,
-- and that close or error is the outcome; an abort alone ends nothing. A socket that had closed before
-- the serving began has ended at once, and nothing is handled.
pub serve_run-begin_serving :
    (es : List ServeEvent)
    → ((serve_run (begin_serving false) es).handled ≡ frames_before es)
      × ((serve_run (begin_serving false) es).outcome ≡ first_end es)
      × (serve_run (begin_serving true) es ≡ begin_serving true)
unfolding begin_serving
serve_run-begin_serving es =
    let r = serve_open [] false es in (r.0, r.1, serve_settled (begin_serving true) es refl)
