-- ===== src/Client/Endpoint/Frames.antt =====
-- handleFrame of client/connection.ts, and the frames that are replayed when the handshake's listener is
-- detached: what the daemon sends for what it receives.
use dicode_relay.Common.{
  String, List, [], ◌∷◌, ◌++◌, Option, none, some, Bool, true, not, ◌&&◌, if◌then◌else◌, leb,
  length, map,
}
use dicode_relay.Relay.State.{Request, Response}
use dicode_relay.Client.Forwarder.{
  Host, ForwardCtx, HttpResponse, Prepared, fetches, refused, max_body, prepare, accepts_all,
  dispatch_request,
}
use dicode_relay.Client.Forwarder.Safety.{joined}

-- A frame of the relay after JSON.parse and fromJson.
pub data Frame : Type 0 where
  malformed_json malformed_envelope other_kind : Frame
  request_frame : Request → Frame

-- The response that is sent, if there is one; a dispatch that rejects is only logged.
unfoldable pub handle_frame : Host → ForwardCtx → Frame → Option Response
handle_frame h ctx (request_frame req) = dispatch_request h ctx req
handle_frame h ctx _ = none

unfoldable pub send_all : Host → ForwardCtx → List Frame → List Response
send_all h ctx [] = []
send_all h ctx (f ∷ fs) = elim (handle_frame h ctx f) [
  | none ↦ send_all h ctx fs
  | some r ↦ r ∷ send_all h ctx fs
]

-- The frames of a connection that serves: the left-over ones first, then those of the socket.
unfoldable pub serve : Host → ForwardCtx → List Frame → List Frame → List Response
serve h ctx leftover frames = send_all h ctx leftover ++ send_all h ctx frames

-- Whether a request gets a response: all that are not fetched, and those that fetch's headers take where
-- the fetch fails or its body can be read.
abbrev pub is_readable : Option HttpResponse → Bool
is_readable none = true
is_readable (some resp) = not (resp.breaks && leb (length (joined resp.chunks)) max_body)

abbrev pub is_answered : Host → Prepared → Bool
is_answered h (refused status) = true
is_answered h (fetches call) = accepts_all h call.headers && is_readable (h.fetch call)

-- The ids of the requests among frames that get a response.
abbrev pub answered_ids : Host → ForwardCtx → List Frame → List String
answered_ids h ctx [] = []
answered_ids h ctx (request_frame req ∷ fs) =
    if is_answered h (prepare h ctx req)
    then req.id ∷ answered_ids h ctx fs
    else answered_ids h ctx fs
answered_ids h ctx (_ ∷ fs) = answered_ids h ctx fs

abbrev pub response_ids : List Response → List String
response_ids = map (λ r. r.id)

-- The id of a response, if there is one.
abbrev id_of : Option Response → Option String
id_of none = none
id_of (some r) = some r.id

abbrev given_id : Bool → String → Option String
given_id b id = if b then some id else none
