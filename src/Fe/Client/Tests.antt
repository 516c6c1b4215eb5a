-- ===== src/Fe/Client/Tests.antt =====
-- A server in memory behind the client stub (fe/src/gen/pictophone/V0_1ServiceClientPb.ts), over the
-- runtime of Pb/Runtime/Model.antt.
use mathlib.Core.Option
use pictophone.Base.{
  String, Option, none, some, List, [], ◌∷◌, map, str_eq, if◌then◌else◌, ◌≡◌, refl, arith,
}
use pictophone.Pb.Runtime.Model.{
  jspb, jspb-IsLawful, Store, empty, put, a_text, a_number, a_message,
}
use pictophone.Pb.CreateGameRequest
use pictophone.Pb.CreateGameResponse
use pictophone.Pb.JoinGameRequest
use pictophone.Pb.JoinGameResponse
use pictophone.Pb.StartGameRequest
use pictophone.Pb.StartGameResponse
use pictophone.Pb.MakeMoveRequest
use pictophone.Pb.MakeMoveResponse
use pictophone.Pb.GetGameRequest
use pictophone.Pb.GetGameResponse
use pictophone.Fe.Client.{
  GrpcWeb, PictophoneClient, create_game, join_game, start_game, make_move, get_game,
}
use pictophone.Fe.Client.Calls.{
  IsTransport, Methods, Serves, settled_object, stub_calls, read_create_game, read_join_game,
  read_start_game, read_make_move, read_get_game,
}

-- A game is created, joined and started; every move fails, and two views of a game come.
abbrev lost : Store
lost = put 1 (a_message (put 1 (a_text "lost") empty)) empty

-- What the server answers at an address.
abbrev post : String → Option jspb.Bytes
post address =
    if str_eq address "http://h/pictophone.v0_1.Pictophone/CreateGame"
    then some (CreateGameResponse.serialize_binary jspb empty)
    else if str_eq address "http://h/pictophone.v0_1.Pictophone/JoinGame"
    then some (JoinGameResponse.serialize_binary jspb empty)
    else if str_eq address "http://h/pictophone.v0_1.Pictophone/StartGame"
    then some (StartGameResponse.serialize_binary jspb empty)
    else if str_eq address "http://h/pictophone.v0_1.Pictophone/MakeMove"
    then some (MakeMoveResponse.serialize_binary jspb lost)
    else none

abbrev listen : String → List jspb.Bytes
listen address =
    if str_eq address "http://h/pictophone.v0_1.Pictophone/GetGame"
    then map (GetGameResponse.serialize_binary jspb) (empty ∷ (empty ∷ []))
    else []

abbrev web : GrpcWeb jspb
web = record {
  Client = Unit {0};
  Any = String;
  Callback = Unit {0};
  Stream = List Store;
  Promise = Option Store;
  any_text = λ s. s;
  new_client = λ options. tt;
  rpc_call = λ client method request metadata info callback. [];
  unary_call =
      λ client method request metadata info. Option.map info.response_deserialize (post method);
  server_streaming =
      λ client method request metadata info. map info.response_deserialize (listen method);
}

abbrev transport : IsTransport jspb web
transport = record {
  post = λ client method metadata bytes. post method;
  listen = λ client method metadata bytes. listen method;
  settled = λ promise. promise;
  yielded = λ stream. stream;
  unary_call_lem = λ client method request metadata info. refl;
  server_streaming_lem = λ client method request metadata info. refl;
}

abbrev methods : Methods jspb web
methods = record {
  create_game = λ request. empty;
  join_game = λ request. empty;
  start_game = λ request. empty;
  make_move = λ request. lost;
  get_game = λ request. empty ∷ (empty ∷ []);
}

abbrev client : PictophoneClient jspb web
client = record { client_ = tt; hostname_ = "http://h"; credentials_ = []; options_ = [] }

serves : Serves jspb web transport tt "http://h" methods
serves = record {
  create_game_served = λ metadata bytes. refl;
  join_game_served = λ metadata bytes. refl;
  start_game_served = λ metadata bytes. refl;
  make_move_served = λ metadata bytes. refl;
  get_game_served = λ metadata bytes. refl;
}

abbrev creating : Store
creating = put 1 (a_text "tale") (put 2 (a_text "ann") empty)

abbrev starting : Store
starting =
    put 1 (a_text "tale") (put 2 (a_text "ann") (put 3 (a_number 2) (put 4 (a_number 5) empty)))

abbrev moving : Store
moving = put 1 (a_text "tale") (put 2 (a_text "ann") (put 3 (a_text "once") empty))

stub_calls_example :
    (settled_object jspb web transport
        (CreateGameResponse.to_object jspb)
        (create_game jspb web client creating none none)
      ≡ some (
          CreateGameResponse.to_object jspb (
            methods.create_game
              (read_create_game jspb web jspb-IsLawful transport client methods serves creating))))
    × (CreateGameRequest.to_object jspb
          (read_create_game jspb web jspb-IsLawful transport client methods serves creating)
        ≡ CreateGameRequest.to_object jspb creating)
    × (settled_object jspb web transport
          (JoinGameResponse.to_object jspb)
          (join_game jspb web client creating none none)
        ≡ some (
            JoinGameResponse.to_object jspb (
              methods.join_game
                (read_join_game jspb web jspb-IsLawful transport client methods serves creating))))
    × (JoinGameRequest.to_object jspb
          (read_join_game jspb web jspb-IsLawful transport client methods serves creating)
        ≡ JoinGameRequest.to_object jspb creating)
    × (settled_object jspb web transport
          (StartGameResponse.to_object jspb)
          (start_game jspb web client starting none none)
        ≡ some (
            StartGameResponse.to_object jspb (
              methods.start_game
                (read_start_game jspb web jspb-IsLawful transport client methods serves starting))))
    × (StartGameRequest.to_object jspb
          (read_start_game jspb web jspb-IsLawful transport client methods serves starting)
        ≡ StartGameRequest.to_object jspb starting)
    × (settled_object jspb web transport
          (MakeMoveResponse.to_object jspb)
          (make_move jspb web client moving none none)
        ≡ some (
            MakeMoveResponse.to_object jspb (
              methods.make_move
                (read_make_move jspb web jspb-IsLawful transport client methods serves moving))))
    × (MakeMoveRequest.to_object jspb
          (read_make_move jspb web jspb-IsLawful transport client methods serves moving)
        ≡ MakeMoveRequest.to_object jspb moving)
    × (map (GetGameResponse.to_object jspb) (get_game jspb web client creating none)
        ≡ map (GetGameResponse.to_object jspb) (
            methods.get_game
              (read_get_game jspb web jspb-IsLawful transport client methods serves creating)))
    × (GetGameRequest.to_object jspb
          (read_get_game jspb web jspb-IsLawful transport client methods serves creating)
        ≡ GetGameRequest.to_object jspb creating)
unfolding StartGameRequest.get_window_size StartGameRequest.get_length
    CreateGameResponse.get_unknown_error CreateGameResponse.get_game_already_exists_error
    JoinGameResponse.get_unknown_error JoinGameResponse.get_game_not_found_error
    JoinGameResponse.get_game_already_started_error StartGameResponse.get_unknown_error
    StartGameResponse.get_player_not_in_game_error
    StartGameResponse.get_invalid_game_parameters_error
    StartGameResponse.get_game_already_started_error MakeMoveResponse.get_unknown_error
    MakeMoveResponse.get_not_your_turn_error MakeMoveResponse.get_game_not_started_error
    MakeMoveResponse.get_game_already_over_error GetGameResponse.get_unknown_error
    GetGameResponse.get_player_not_in_game_error GetGameResponse.get_game
stub_calls_example =
    stub_calls jspb web jspb-IsLawful transport client methods serves creating creating starting
      moving creating none (omega arith) (omega arith) tt tt tt tt
      ((tt, λ x e. cc), ((tt, λ x e. cc), tt))
