-- ===== src/Front/Session.antt =====
-- gwfront/src/http/session.cpp. Boost.Beast reads and writes: a session is what its handlers do
-- when an operation ends, and which operation it starts next.
pub mod Answers
pub mod Lifetime
use gateway_poc.Base.{
  ℕ, suc, ◌+◌, Bool, true, false, ◌⊎◌, inl, inr, Option, none, some, List, [], ◌∷◌, ◌++◌,
  if◌then◌else◌,
}
use gateway_poc.Base.Bytes.{Bytes, codes, str_eq}
use gateway_poc.Front.Handler.{
  HandlerError, ok, generic, bad_data, storage_unavailable, HandlerResult,
}

pub data Verb : Type 0 where
  post : Verb
  other_verb : Bytes → Verb

pub data Status : Type 0 where
  accepted bad_request method_not_allowed internal_server_error service_unavailable : Status

pub record Request : Type 0 where
  pub method : Verb
  pub target : Bytes
  pub version : ℕ
  pub keep_alive : Bool
  pub body : Bytes

pub record Response : Type 0 where
  pub version : ℕ
  pub keep_alive : Bool
  pub content_type : Bytes
  pub status : Status
  pub body : Bytes

abbrev pub instrument_path : Bytes
instrument_path = codes "/instrument"

abbrev pub json_content_type : Bytes
json_content_type = codes "text/json"

-- `R"({"error": ")" + message + R"("})"`
unfoldable pub error_body : Bytes → Bytes
error_body message = (codes "{\"error\": \"" ++ message) ++ codes "\"}"

-- The `switch` over the handler's error: a status, and a body but for `OK`.
unfoldable pub answer : HandlerResult → Status × Bytes
unfolding error_body
answer r = elim r.error [
  | ok ↦ (accepted, [])
  | bad_data ↦ (bad_request, error_body r.message)
  | storage_unavailable ↦ (service_unavailable, error_body r.message)
  | generic ↦ (internal_server_error, error_body r.message)
]

-- What the session waits for.
pub data Pending : Type 0 where
  reading writing nothing : Pending

-- `end_of_stream` and `connection_reset` are closed silently, other errors are logged.
pub data ReadError : Type 0 where
  end_of_stream connection_reset other_error : ReadError

module _ {W : Type 0} (handler : Bytes → W → HandlerResult × W) where
  pub record Session : Type 0 where
    pub pending : Pending
    pub response : Option Response
    pub world : W

  -- The version, the keep-alive and the content type are set first.
  respond : Request → Status × Bytes → Response
  respond q (status, body) = record {
    version = q.version;
    keep_alive = q.keep_alive;
    content_type = json_content_type;
    status = status;
    body = body;
  }

  answered : Request → HandlerResult × W → Response × W
  unfolding respond answer
  answered q (r, w) = (respond q (answer r), w)

  routed : Verb → Request → W → Response × W
  unfolding respond answered
  routed (other_verb name) q w =
      (respond q (method_not_allowed, codes "{\"error\": \"wrong HTTP method\"}"), w)
  routed post q w =
      if str_eq q.target instrument_path
      then answered q (handler q.body w)
      else (respond q (bad_request, codes "{\"error\": \"wrong path\"}"), w)

  unfoldable pub handle_request : Request → W → Response × W
  unfolding routed
  handle_request q w = routed q.method q w

  -- `read`: the next request is awaited.
  read : Session → Session
  read s = record s { pending = reading }

  -- The constructor, with what `remote_endpoint` gives: where the peer is gone it throws, and there
  -- is no session.
  unfoldable pub make_session : Option Bytes → W → Option Session
  make_session (some endpoint) w = some (record { pending = nothing; response = none; world = w })
  make_session none w = none

  -- `run`: `read` is dispatched.
  unfoldable pub run : Session → Session
  unfolding read
  run s = read s

  close : Session → Session
  close s = record s { pending = nothing }

  -- `~HttpSession`: the socket is closed once more.
  unfoldable pub destroy : Session → Session
  unfolding close
  destroy s = close s

  -- `onRead`: on success the response is made, and its writing begins.
  unfoldable pub on_read : Session → ReadError ⊎ Request → Session
  unfolding close handle_request
  on_read s (inl ec) = close s
  on_read s (inr q) =
      let (response, w) = handle_request q s.world in
      record { pending = writing; response = some response; world = w }

  pub keeps_alive : Option Response → Bool
  keeps_alive none = false
  keeps_alive (some r) = r.keep_alive

  -- `onWrite`: with an error, or with none.
  unfoldable pub on_write : Session → Bool → Session
  unfolding close read keeps_alive
  on_write s failed = if failed then close s else if keeps_alive s.response then read s else close s
