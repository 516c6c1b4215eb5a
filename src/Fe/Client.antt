-- ===== src/Fe/Client.antt =====
-- The client stub of fe/src/gen/pictophone/V0_1ServiceClientPb.ts. The package grpc-web is the
-- parameter `web`; its messages are those of the message classes.
pub mod Calls
mod Tests
use Prim.Native.String.{◌++◌ as ◌<>◌}
use pictophone.Base.{String, Option, none, some, List, [], ◌⊎◌, inl, inr}
use pictophone.Base.Map.{insert, or_default}
use pictophone.Pb.Runtime.{Jspb}
use pictophone.Pb.CreateGameRequest
use pictophone.Pb.CreateGameResponse
use pictophone.Pb.JoinGameRequest
use pictophone.Pb.JoinGameResponse
use pictophone.Pb.StartGameRequest
use pictophone.Pb.StartGameResponse
use pictophone.Pb.MakeMoveRequest
use pictophone.Pb.MakeMoveResponse
use pictophone.Pb.GetGameRequest
use pictophone.Pb.GetGameResponse

-- An object with string keys, `{ [index: string]: A; }`.
abbrev pub Index : Type 0 → Type 0
Index A = List (String × A)

-- `AbstractClientBase.MethodInfo`, but for the class of the responses.
pub record MethodInfo (J : Jspb) : Type 0 where
  pub request_serialize : J.Message → J.Bytes
  pub response_deserialize : J.Bytes → J.Message

-- What the stub uses of grpc-web. `Client` is `GrpcWebClientBase`, `Any` the type of an option,
-- `Callback` that of a callback, and `Stream` that of a `ClientReadableStream`.
pub record GrpcWeb (J : Jspb) : Type 1 where
  pub Client : Type 0
  pub Any : Type 0
  pub Callback : Type 0
  pub Stream : Type 0
  pub Promise : Type 0
  pub any_text : String → Any
  pub new_client : Index Any → Client
  pub rpc_call : Client → String → J.Message → Index String → MethodInfo J → Callback → Stream
  pub unary_call : Client → String → J.Message → Index String → MethodInfo J → Promise
  pub server_streaming : Client → String → J.Message → Index String → MethodInfo J → Stream

module _ (J : Jspb) (web : GrpcWeb J) where
  pub record PictophoneClient : Type 0 where
    pub client_ : web.Client
    pub hostname_ : String
    pub credentials_ : Index String
    pub options_ : Index web.Any

  -- The constructor. `options_` is the object that was passed, if one was: the format is set in it.
  unfoldable pub new : String → Option (Index String) → Option (Index web.Any) → PictophoneClient
  new hostname credentials options =
      let options' = insert "format" (web.any_text "text") (or_default [] options) in
      record {
        client_ = web.new_client options';
        hostname_ = hostname;
        credentials_ = or_default [] credentials;
        options_ = options';
      }

  unfoldable pub method_info_create_game : MethodInfo J
  method_info_create_game = record {
    request_serialize = CreateGameRequest.serialize_binary J;
    response_deserialize = CreateGameResponse.deserialize_binary J;
  }

  unfoldable pub create_game :
      PictophoneClient
      → J.Message
      → Option (Index String)
      → Option web.Callback
      → web.Stream ⊎ web.Promise
  create_game this request metadata callback = elim callback [
    | some f ↦ inl (
        web.rpc_call this.client_ (this.hostname_ <> "/pictophone.v0_1.Pictophone/CreateGame")
          request (or_default [] metadata) method_info_create_game f)
    | none ↦ inr (
        web.unary_call this.client_ (this.hostname_ <> "/pictophone.v0_1.Pictophone/CreateGame")
          request (or_default [] metadata) method_info_create_game)
  ]

  unfoldable pub method_info_join_game : MethodInfo J
  method_info_join_game = record {
    request_serialize = JoinGameRequest.serialize_binary J;
    response_deserialize = JoinGameResponse.deserialize_binary J;
  }

  unfoldable pub join_game :
      PictophoneClient
      → J.Message
      → Option (Index String)
      → Option web.Callback
      → web.Stream ⊎ web.Promise
  join_game this request metadata callback = elim callback [
    | some f ↦ inl (
        web.rpc_call this.client_ (this.hostname_ <> "/pictophone.v0_1.Pictophone/JoinGame") request
          (or_default [] metadata) method_info_join_game f)
    | none ↦ inr (
        web.unary_call this.client_ (this.hostname_ <> "/pictophone.v0_1.Pictophone/JoinGame")
          request (or_default [] metadata) method_info_join_game)
  ]

  unfoldable pub method_info_start_game : MethodInfo J
  method_info_start_game = record {
    request_serialize = StartGameRequest.serialize_binary J;
    response_deserialize = StartGameResponse.deserialize_binary J;
  }

  unfoldable pub start_game :
      PictophoneClient
      → J.Message
      → Option (Index String)
      → Option web.Callback
      → web.Stream ⊎ web.Promise
  start_game this request metadata callback = elim callback [
    | some f ↦ inl (
        web.rpc_call this.client_ (this.hostname_ <> "/pictophone.v0_1.Pictophone/StartGame")
          request (or_default [] metadata) method_info_start_game f)
    | none ↦ inr (
        web.unary_call this.client_ (this.hostname_ <> "/pictophone.v0_1.Pictophone/StartGame")
          request (or_default [] metadata) method_info_start_game)
  ]

  unfoldable pub method_info_make_move : MethodInfo J
  method_info_make_move = record {
    request_serialize = MakeMoveRequest.serialize_binary J;
    response_deserialize = MakeMoveResponse.deserialize_binary J;
  }

  unfoldable pub make_move :
      PictophoneClient
      → J.Message
      → Option (Index String)
      → Option web.Callback
      → web.Stream ⊎ web.Promise
  make_move this request metadata callback = elim callback [
    | some f ↦ inl (
        web.rpc_call this.client_ (this.hostname_ <> "/pictophone.v0_1.Pictophone/MakeMove") request
          (or_default [] metadata) method_info_make_move f)
    | none ↦ inr (
        web.unary_call this.client_ (this.hostname_ <> "/pictophone.v0_1.Pictophone/MakeMove")
          request (or_default [] metadata) method_info_make_move)
  ]

  unfoldable pub method_info_get_game : MethodInfo J
  method_info_get_game = record {
    request_serialize = GetGameRequest.serialize_binary J;
    response_deserialize = GetGameResponse.deserialize_binary J;
  }

  unfoldable pub get_game : PictophoneClient → J.Message → Option (Index String) → web.Stream
  get_game this request metadata =
      web.server_streaming this.client_ (this.hostname_ <> "/pictophone.v0_1.Pictophone/GetGame")
        request (or_default [] metadata) method_info_get_game
