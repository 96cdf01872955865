-- ===== src/Relay/State.antt =====
-- relay/server.ts: constants, messages and the state of `RelayServer`. Sockets, requests and pong
-- timers are named by numbers and texts; what the server does to them is appended to `log`.
use dicode_relay.Common.{
  ℕ, String, List, [], ◌∷◌, Option, Bool, false, if◌then◌else◌, Dict, get, put, or_else, ℤ, nat_eq,
}

abbrev pub protocol_version : ℕ
protocol_version = 4

abbrev pub close_bad_hello : ℕ
close_bad_hello = 4400

abbrev pub close_no_client_cert : ℕ
close_no_client_cert = 4401

abbrev pub close_cert_not_p256 : ℕ
close_cert_not_p256 = 4402

pub data Failure : Type 0 where
  client_not_connected pending_cap_exceeded backpressure : String → Failure
  forward_timeout : String → Failure
  server_closing : Failure

pub record ConnectedClient : Type 0 where
  pub ws : ℕ
  pub uuid : String
  pub pubkey : List ℕ
  pub decrypt_pubkey : List ℕ

-- `resolve`, `reject` and `timer` go by the key of the entry.
pub record PendingRequest : Type 0 where
  pub uuid : String

abbrev pub Headers : Type 0
Headers = Dict String (List String)

pub record Request : Type 0 where
  pub id : String
  pub method : String
  pub path : String
  pub headers : Headers
  pub body : String

pub record Response : Type 0 where
  pub id : String
  pub status : ℤ
  pub headers : Headers
  pub body : String

pub record ForwardResponse : Type 0 where
  pub status : ℤ
  pub headers : Headers
  pub body : String

pub data ServerMessage : Type 0 where
  welcome : (url : String) (protocol : ℕ) (broker_pubkey : Option String) → ServerMessage
  request : Request → ServerMessage
  error : String → ServerMessage

pub data ClientMessage : Type 0 where
  hello : (decrypt_pubkey : String) → ClientMessage
  response : Response → ClientMessage
  unset : ClientMessage

-- A frame after `JSON.parse` and `fromJson`, either of which may throw.
pub data Incoming : Type 0 where
  bad_json bad_envelope : Incoming
  envelope : ClientMessage → Incoming

-- What the server does to the world.
pub data Effect : Type 0 where
  sends : ℕ → ServerMessage → Effect
  pings terminates : ℕ → Effect
  closes : ℕ → Option ℕ → Effect
  connected disconnected : String → Effect
  issues clears : String → Effect
  resolves : String → ForwardResponse → Effect
  rejects : String → Failure → Effect

-- The part of a `ws` socket that the code reads.
pub record Socket : Type 0 where
  pub is_open : Bool
  pub buffered_amount : ℕ

-- The closure variables of one admitted connection. `live_pongs` are the armed pong timers, and
-- `pong_timer` is the variable that holds the last of them.
pub record Conn : Type 0 where
  pub uuid : String
  pub cert_point : List ℕ
  pub registered_uuid : Option String
  pub ping_timer : Bool
  pub pong_timer : Option ℕ
  pub live_pongs : List ℕ

pub record Options : Type 0 where
  pub base_url : String
  pub max_pending_per_client : ℕ
  pub max_buffered_bytes : ℕ
  pub broker_pubkey : Option String

pub record Server : Type 0 where
  pub options : Options
  pub open options use *
  pub clients : Dict String ConnectedClient
  pub pending : Dict String PendingRequest
  pub pending_by_client : Dict String ℕ
  pub timers : List String
  pub sockets : Dict ℕ Socket
  pub conns : Dict ℕ Conn
  pub next_timer : ℕ
  pub log : List Effect

unfoldable pub start : Options → Server
start o = record {
  options = o;
  clients = [];
  pending = [];
  pending_by_client = [];
  timers = [];
  sockets = [];
  conns = [];
  next_timer = 0;
  log = [];
}

abbrev pub emit : Effect → Server → Server
emit e s = record s { log = e ∷ s.log }

abbrev pub socket : ℕ → Server → Socket
socket ws s = or_else (get ws s.sockets) (record { is_open = false; buffered_amount = 0 })

-- A closing socket is no longer `OPEN`.
abbrev pub shut : ℕ → Server → Server
shut ws s = record s { sockets = put ws (record (socket ws s) { is_open = false }) s.sockets }

abbrev pub terminate : ℕ → Server → Server
terminate ws s = emit (terminates ws) (shut ws s)

abbrev pub close_socket : ℕ → Option ℕ → Server → Server
close_socket ws code s = emit (closes ws code) (shut ws s)

unfoldable pub send_server_message : ℕ → ServerMessage → Server → Server
send_server_message ws msg s = if (socket ws s).is_open then emit (sends ws msg) s else s

unfoldable pub send_error : ℕ → String → Server → Server
unfolding send_server_message
send_error ws message = send_server_message ws (error message)
