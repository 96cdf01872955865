-- ===== src/Client/Forwarder.antt =====
-- dispatchRequest of client/forwarder.ts. `Host` is what it calls and does not implement:
-- decodeURIComponent (none where it throws), posix.normalize, toLowerCase, base64, whether `Headers` takes
-- a name and value (it throws where not), and fetch (none where it rejects), whose URL is
-- `http://localhost:` with the port and the path of the call. The result is none where the promise of
-- dispatchRequest rejects.
pub mod Safety
pub mod Credentials
use Prim.Native.Char.{code}
use Prim.Native.String.{◌++◌ as join}
use text.Mathlib.Text.{starts_with}
use dicode_relay.Common.{
  ℕ, ◌+◌, ◌-◌, ◌*◌, String, List, [], ◌∷◌, ◌++◌, Option, none, some, Bool, true, false, not, ◌&&◌,
  ◌||◌, ltb, if◌then◌else◌, ◌==◌, string_eq, nat_eq, Dict, get, put, length, take, pos, or_else,
  ◌>>=◌,
}
use dicode_relay.Relay.State.{Request, Response}

abbrev pub max_body : ℕ
max_body = 5 * 1024 * 1024

pub record FetchCall : Type 0 where
  pub port : ℕ
  pub path : String
  pub method : String
  pub headers : List (String × String)
  pub body : List ℕ

pub record HttpResponse : Type 0 where
  pub status : ℕ
  pub headers : List (String × String)
  pub chunks : List (List ℕ)
  -- The reading of the body rejects after these chunks.
  pub breaks : Bool

pub record Host : Type 0 where
  pub decode_uri : String → Option String
  pub normalize : String → String
  pub to_lower : String → String
  pub decode_base64 : String → List ℕ
  pub encode_base64 : List ℕ → String
  pub accepts_header : String → String → Bool
  pub fetch : FetchCall → Option HttpResponse

pub record ForwardCtx : Type 0 where
  pub local_port : ℕ
  pub daemon_uuid : String

unfoldable pub is_hop_by_hop : String → Bool
is_hop_by_hop k =
    (k == "connection")
    || (k == "keep-alive")
    || (k == "proxy-authenticate")
    || (k == "proxy-authorization")
    || (k == "te")
    || (k == "trailers")
    || (k == "transfer-encoding")
    || (k == "upgrade")
    || (k == "set-cookie")

unfoldable pub is_stripped_inbound : String → Bool
is_stripped_inbound k = (k == "authorization") || (k == "cookie") || (k == "x-api-key")

-- The path up to the first `?`.
unfoldable pub bare_path : String → String
bare_path String.[] = ""
bare_path (String.◌∷◌ c s) =
    let rest = bare_path s in if code c == 63 then "" else String.◌∷◌ c rest

unfoldable pub error_response : String → ℕ → Response
error_response id status = record { id = id; status = pos status; headers = []; body = "" }

unfoldable pub append_all : String → List String → List (String × String)
append_all k [] = []
append_all k (v ∷ vs) = (k, v) ∷ append_all k vs

unfoldable pub forwarded_headers : Host → Dict String (List String) → List (String × String)
forwarded_headers h [] = []
forwarded_headers h ((k, values) ∷ rest) =
    let others = forwarded_headers h rest in
    let lk = h.to_lower k in
    if (lk == "x-relay-base") || is_stripped_inbound lk
    then others
    else append_all k values ++ others

-- `Headers.set`: a name replaces all that are the same but for case.
unfoldable pub without_header : Host → String → List (String × String) → List (String × String)
without_header h name [] = []
without_header h name ((k, v) ∷ rest) =
    let others = without_header h name rest in
    if h.to_lower k == h.to_lower name then others else (k, v) ∷ others

unfoldable pub set_header : Host → String → String → List (String × String) → List (String × String)
set_header h name value headers = without_header h name headers ++ ((name, value) ∷ [])

unfoldable pub outgoing_headers : Host → ForwardCtx → Request → List (String × String)
outgoing_headers h ctx req =
    set_header h "X-Relay-Base" (join "/u/" ctx.daemon_uuid) (forwarded_headers h req.headers)

unfoldable pub request_body : Host → Request → List ℕ
request_body h req = if req.body == "" then [] else h.decode_base64 req.body

unfoldable pub fetch_call : Host → ForwardCtx → Request → FetchCall
fetch_call h ctx req = record {
  port = ctx.local_port;
  path = req.path;
  method = req.method;
  headers = outgoing_headers h ctx req;
  body = request_body h req;
}

-- What comes before the fetch: an error status, or the call.
pub data Prepared : Type 0 where
  refused : ℕ → Prepared
  fetches : FetchCall → Prepared

unfoldable pub is_allowed_path : String → Bool
is_allowed_path p = starts_with p "/hooks/" || (p == "/dicode.js")

unfoldable pub check_path : Host → ForwardCtx → Request → String → Option String → Prepared
check_path h ctx req bare none = refused 400
check_path h ctx req bare (some decoded) =
    let normalised = h.normalize decoded in
    if not (normalised == decoded) || not (normalised == bare)
    then refused 403
    else if not (is_allowed_path normalised)
    then refused 403
    else if ltb max_body (length (request_body h req))
    then refused 413
    else fetches (fetch_call h ctx req)

unfoldable pub prepare : Host → ForwardCtx → Request → Prepared
prepare h ctx req = let bare = bare_path req.path in check_path h ctx req bare (h.decode_uri bare)

-- The reading of the body, with the chunks that are left.
unfoldable pub read_body : Bool → List ℕ → List (List ℕ) → Option (List ℕ)
read_body breaks buf [] = if breaks then none else some buf
read_body breaks buf (chunk ∷ chunks) =
    let rest = read_body breaks (buf ++ chunk) chunks in
    if ltb max_body (length buf + length chunk)
    then some (buf ++ take (max_body - length buf) chunk)
    else rest

unfoldable pub response_headers :
    Host → List (String × String) → Dict String (List String) → Dict String (List String)
response_headers h [] acc = acc
response_headers h ((k, v) ∷ rest) acc =
    if is_hop_by_hop (h.to_lower k)
    then response_headers h rest acc
    else response_headers h rest (put k (or_else (get k acc) [] ++ (v ∷ [])) acc)

unfoldable pub respond : Host → String → Option HttpResponse → Option Response
respond h id none = some (error_response id 502)
respond h id (some resp) = do
  body ← read_body resp.breaks [] resp.chunks
  some (record {
    id = id;
    status = pos resp.status;
    headers = response_headers h resp.headers [];
    body = h.encode_base64 body;
  })

-- `Headers` takes all of the headers.
unfoldable pub accepts_all : Host → List (String × String) → Bool
accepts_all h [] = true
accepts_all h ((k, v) ∷ rest) = h.accepts_header k v && accepts_all h rest

unfoldable pub dispatch : Host → String → Prepared → Option Response
dispatch h id (refused status) = some (error_response id status)
dispatch h id (fetches call) =
    let resp = respond h id (h.fetch call) in if accepts_all h call.headers then resp else none

unfoldable pub dispatch_request : Host → ForwardCtx → Request → Option Response
dispatch_request h ctx req = dispatch h req.id (prepare h ctx req)
