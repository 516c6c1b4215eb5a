-- ===== src/Handler.antt =====
-- be/logic/src/handler.rs: the dispatch of requests to the handlers, over the messages of
-- be/proto/server/pictophone/log.proto and be/proto/dolt.proto. The codecs (serde_json and prost)
-- are parameters.
pub mod Dispatch
pub mod Reach
mod Tests
pub mod Model
use pictophone.Base.{◌<◌, ◌^◌, ◌≡◌, Option, none, some}
use pictophone.Base.Outcome.{Outcome, ok, err, panic, ◌>>=◌, ok_or, unwrap}
use pictophone.Messages.{
  CreateGameRequest, CreateGameError, CreateGameResponse, JoinGameRequest, JoinGameError,
  JoinGameResponse, StartGameRequest, StartGameError, StartGameResponse, MakeMoveRequest,
  MakeMoveError, MakeMoveResponse, GetGameRequest, GetGameError, GetGameResponse, GameView,
}
use pictophone.Logic
use pictophone.Dolt

-- `trait Handler`
pub record Handler : Type 1 where
  pub State : Type 0
  pub create_game : Option State → CreateGameRequest → Outcome CreateGameError (Option State)
  pub join_game : Option State → JoinGameRequest → Outcome JoinGameError (Option State)
  pub start_game : Option State → StartGameRequest → Outcome StartGameError (Option State)
  pub make_move : Option State → MakeMoveRequest → Outcome MakeMoveError (Option State)
  pub get_game : Option State → GetGameRequest → Outcome GetGameError GameView

-- `impl handler::Handler for Impl`
abbrev pub impl : Handler
impl = record {
  State = Logic.State;
  create_game = Logic.create_game;
  join_game = Logic.join_game;
  start_game = Logic.start_game;
  make_move = Logic.make_move;
  get_game = Logic.get_game;
}

-- The `oneof method` of `ActionRequest`.
pub data ActionMethod : Type 0 where
  create_game_request : CreateGameRequest → ActionMethod
  join_game_request : JoinGameRequest → ActionMethod
  start_game_request : StartGameRequest → ActionMethod
  make_move_request : MakeMoveRequest → ActionMethod

pub record ActionRequest : Type 0 where
  pub method : Option ActionMethod

-- The `oneof method` of `ActionResponse`.
pub data ActionReply : Type 0 where
  create_game_response : CreateGameResponse → ActionReply
  join_game_response : JoinGameResponse → ActionReply
  start_game_response : StartGameResponse → ActionReply
  make_move_response : MakeMoveResponse → ActionReply

pub record ActionResponse : Type 0 where
  pub method : Option ActionReply

-- A request as prost decodes it: one method is set, and its numbers are `u32`.
abbrev pub IsWellFormed : ActionRequest → Type 0
IsWellFormed request = elim request.method [
  | none ↦ ⊥
  | some m ↦ elim m [
    | start_game_request r ↦ (r.window_size < 2 ^ 32) × (r.length < 2 ^ 32)
    | _ ↦ Unit {0}
  ]
]

pub record QueryRequest : Type 0 where
  pub method : Option GetGameRequest

pub record QueryResponse : Type 0 where
  pub method : Option GetGameResponse

-- `anyhow::Error`, by what raised it.
pub data AnyhowError : Type 0 where
  json_error : AnyhowError
  proto_error : AnyhowError

-- `.map(|state| (state, None)).unwrap_or_else(|error| (None, Some(error)))`, and the response.
abbrev pub respond :
    {S E : Type 0}
    → (Option E → ActionReply)
    → Outcome E (Option S)
    → Outcome AnyhowError (Option S × ActionResponse)
respond reply (ok state) = ok (state, record { method = some (reply none) })
respond reply (err error) = ok (none, record { method = some (reply (some error)) })
respond reply panic = panic

-- `api::CreateGameResponse { error }.into()`, and so for the others.
abbrev pub create_reply : Option CreateGameError → ActionReply
create_reply error = create_game_response (record { error = error })

abbrev pub join_reply : Option JoinGameError → ActionReply
join_reply error = join_game_response (record { error = error })

abbrev pub start_reply : Option StartGameError → ActionReply
start_reply error = start_game_response (record { error = error })

abbrev pub make_reply : Option MakeMoveError → ActionReply
make_reply error = make_move_response (record { error = error })

-- The match on what `get_game` returned.
abbrev pub answer : Outcome GetGameError GameView → Outcome AnyhowError GetGameResponse
answer (ok game) = ok (record { game = some game; error = none })
answer (err error) = ok (record { game = none; error = some error })
answer panic = panic

-- `lpb::QueryResponse { method: Some(method) }`
abbrev pub query_reply : GetGameResponse → Outcome AnyhowError QueryResponse
query_reply response = ok (record { method = some response })

module _ (H : Handler) where
  unfoldable pub handle_method :
      Option H.State → ActionMethod → Outcome AnyhowError (Option H.State × ActionResponse)
  handle_method state (create_game_request r) = respond create_reply (H.create_game state r)
  handle_method state (join_game_request r) = respond join_reply (H.join_game state r)
  handle_method state (start_game_request r) = respond start_reply (H.start_game state r)
  handle_method state (make_move_request r) = respond make_reply (H.make_move state r)

  unfoldable pub handle_parsed_action :
      Option H.State → ActionRequest → Outcome AnyhowError (Option H.State × ActionResponse)
  unfolding handle_method
  handle_parsed_action state request = do method ← unwrap request.method; handle_method state method

  unfoldable pub handle_parsed_query :
      Option H.State → QueryRequest → Outcome AnyhowError QueryResponse
  handle_parsed_query state request = do
    get ← unwrap request.method
    response ← answer (H.get_game state get)
    query_reply response

-- The codecs of the logic and of its messages: serde_json for states, prost for messages. `Bytes`
-- is `Vec<u8>`; `none` is an error of the codec.
pub record Codec (S : Type 0) : Type 1 where
  pub Bytes : Type 0
  pub from_slice : Bytes → Option S
  pub to_vec : S → Option Bytes
  pub decode_action : Bytes → Option ActionRequest
  pub encode_action_response : ActionResponse → Option Bytes
  pub decode_query : Bytes → Option QueryRequest
  pub encode_query_response : QueryResponse → Option Bytes
  pub decode_request : Bytes → Option (Dolt.Request Bytes)
  pub encode_response : Dolt.Response Bytes → Option Bytes
  -- The other directions, which the server uses.
  pub encode_action : ActionRequest → Option Bytes
  pub encode_query : QueryRequest → Option Bytes
  pub decode_action_response : Bytes → Option ActionResponse
  pub decode_query_response : Bytes → Option QueryResponse
  pub encode_request : Dolt.Request Bytes → Option Bytes
  pub decode_response : Bytes → Option (Dolt.Response Bytes)

-- What is encoded can be decoded, and encoding to a growing buffer does not fail.
pub record IsLawfulCodec {S : Type 0} (C : Codec S) : Type 0 where
  pub from_slice-to_vec :
      (s : S) → (b : C.Bytes) × (C.to_vec s ≡ some b) × (C.from_slice b ≡ some s)
  pub decode-encode_action :
      (r : ActionRequest)
      → IsWellFormed r
      → (b : C.Bytes) × (C.encode_action r ≡ some b) × (C.decode_action b ≡ some r)
  pub decode-encode_query :
      (r : QueryRequest) → (b : C.Bytes) × (C.encode_query r ≡ some b) × (C.decode_query b ≡ some r)
  pub decode-encode_action_response :
      (r : ActionResponse)
      → (b : C.Bytes) × (C.encode_action_response r ≡ some b)
        × (C.decode_action_response b ≡ some r)
  pub decode-encode_query_response :
      (r : QueryResponse)
      → (b : C.Bytes) × (C.encode_query_response r ≡ some b) × (C.decode_query_response b ≡ some r)
  pub decode-encode_request :
      (r : Dolt.Request C.Bytes)
      → (b : C.Bytes) × (C.encode_request r ≡ some b) × (C.decode_request b ≡ some r)
  pub decode-encode_response :
      (r : Dolt.Response C.Bytes)
      → (b : C.Bytes) × (C.encode_response r ≡ some b) × (C.decode_response b ≡ some r)

-- `Option::map` and `transpose` with a fallible function, then `?`.
abbrev pub transpose :
    {A B : Type 0} → (A → Option B) → AnyhowError → Option A → Outcome AnyhowError (Option B)
transpose f e none = ok none
transpose f e (some a) = ok_or (f a) e >>= λ b. ok (some b)

module _ (H : Handler) (C : Codec H.State) where
  unfoldable pub handle_action :
      Dolt.ActionRequest C.Bytes → Outcome AnyhowError (Dolt.ActionResponse C.Bytes)
  handle_action request = do
    state ← transpose C.from_slice json_error request.state
    action ← ok_or (C.decode_action request.action) proto_error
    answered ← handle_parsed_action H state action
    response ← ok_or (C.encode_action_response answered.1) proto_error
    new_state ← transpose C.to_vec json_error answered.0
    ok (record { state = new_state; response = response })

  unfoldable pub handle_query :
      Dolt.QueryRequest C.Bytes → Outcome AnyhowError (Dolt.QueryResponse C.Bytes)
  handle_query request = do
    state ← transpose C.from_slice json_error request.state
    query ← ok_or (C.decode_query request.query) proto_error
    answered ← handle_parsed_query H state query
    response ← ok_or (C.encode_query_response answered) proto_error
    ok (record { response = response })

  -- The match in `main` on the method of the request.
  unfoldable pub respond_method :
      Dolt.RequestMethod C.Bytes → Outcome AnyhowError (Dolt.ResponseMethod C.Bytes)
  respond_method (Dolt.action_request request) =
      handle_action request >>= λ r. ok (Dolt.action_response r)
  respond_method (Dolt.query_request request) =
      handle_query request >>= λ r. ok (Dolt.query_response r)

  -- `main`, from all of the standard input to what it writes to the standard output.
  unfoldable pub main : C.Bytes → Outcome AnyhowError C.Bytes
  main req_buf = do
    request ← ok_or (C.decode_request req_buf) proto_error
    method ← unwrap request.method
    response_method ← respond_method method
    ok_or (C.encode_response (record { method = some response_method })) proto_error
