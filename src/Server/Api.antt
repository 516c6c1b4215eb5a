-- ===== src/Server/Api.antt =====
-- The module `pictophone::v0_1` of be/server/src/proto.rs: the gRPC methods over a server of byte
-- strings (`dolt::Server`). Of an error only that it is an internal one is kept.
pub mod Refinement
mod Tests
use pictophone.Base.{Option, none, some, List, map}
use pictophone.Base.Outcome.{Outcome, ok, err, ◌>>=◌, ok_or, unwrap}
use pictophone.Base.Result
use pictophone.Base.Result.{Result}
use pictophone.Messages.{
  CreateGameRequest, CreateGameResponse, JoinGameRequest, JoinGameResponse, StartGameRequest,
  StartGameResponse, MakeMoveRequest, MakeMoveResponse, GetGameRequest, GetGameResponse,
}
use pictophone.Handler.{
  ActionMethod, create_game_request, join_game_request, start_game_request, make_move_request,
  ActionReply, create_game_response, join_game_response, start_game_response, make_move_response,
  Codec,
}
use pictophone.Server.{ServerError, wrong_oneof_selected}

-- `trait Server` of `dolt`. `M` is `MetadataMap`; a stream is the list of what it yields.
pub record DoltServer (B M : Type 0) : Type 0 where
  pub handle_action : B → M → Result ServerError B
  pub handle_query : B → M → Result ServerError (List (Result ServerError B))

-- `tonic::Request`
pub record Request (M A : Type 0) : Type 0 where
  pub metadata : M
  pub message : A

pub data Status : Type 0 where
  internal : Status

-- `TryFrom<action_response::Method>`, made by the macro `oneof_enum_convert`.
abbrev pub as_create_game_response : ActionReply → Result ServerError CreateGameResponse
as_create_game_response reply = elim reply [
  | create_game_response r ↦ Result.ok r
  | _ ↦ Result.err wrong_oneof_selected
]

abbrev pub as_join_game_response : ActionReply → Result ServerError JoinGameResponse
as_join_game_response reply = elim reply [
  | join_game_response r ↦ Result.ok r
  | _ ↦ Result.err wrong_oneof_selected
]

abbrev pub as_start_game_response : ActionReply → Result ServerError StartGameResponse
as_start_game_response reply = elim reply [
  | start_game_response r ↦ Result.ok r
  | _ ↦ Result.err wrong_oneof_selected
]

abbrev pub as_make_move_response : ActionReply → Result ServerError MakeMoveResponse
as_make_move_response reply = elim reply [
  | make_move_response r ↦ Result.ok r
  | _ ↦ Result.err wrong_oneof_selected
]

-- `.map_err(into_internal)?`
abbrev pub or_internal : {A : Type 0} → Result ServerError A → Outcome Status A
or_internal (Result.ok a) = ok a
or_internal (Result.err e) = err internal

module _ {S M : Type 0} (C : Codec S) (server : DoltServer C.Bytes M) where
  -- What the four methods for actions do up to the selection of the response.
  pub call : M → ActionMethod → Outcome Status ActionReply
  call metadata method = do
    action_request_bytes ← ok_or (C.encode_action (record { method = some method })) internal
    bytes ← or_internal (server.handle_action action_request_bytes metadata)
    response ← ok_or (C.decode_action_response bytes) internal
    unwrap response.method

  pub create_game : Request M CreateGameRequest → Outcome Status CreateGameResponse
  create_game request = do
    reply ← call request.metadata (create_game_request request.message)
    or_internal (as_create_game_response reply)

  pub join_game : Request M JoinGameRequest → Outcome Status JoinGameResponse
  join_game request = do
    reply ← call request.metadata (join_game_request request.message)
    or_internal (as_join_game_response reply)

  pub start_game : Request M StartGameRequest → Outcome Status StartGameResponse
  start_game request = do
    reply ← call request.metadata (start_game_request request.message)
    or_internal (as_start_game_response reply)

  pub make_move : Request M MakeMoveRequest → Outcome Status MakeMoveResponse
  make_move request = do
    reply ← call request.metadata (make_move_request request.message)
    or_internal (as_make_move_response reply)

  -- The closure that `get_game` maps over the stream. The `oneof` of a `QueryResponse` has one case,
  -- so that its selection does not fail.
  abbrev pub game_response : Result ServerError C.Bytes → Outcome Status GetGameResponse
  game_response item = do
    bytes ← or_internal item
    response ← ok_or (C.decode_query_response bytes) internal
    unwrap response.method

  pub get_game : Request M GetGameRequest → Outcome Status (List (Outcome Status GetGameResponse))
  get_game request = do
    query_request_bytes ← ok_or (C.encode_query (record { method = some request.message })) internal
    stream ← or_internal (server.handle_query query_request_bytes request.metadata)
    ok (map game_response stream)
