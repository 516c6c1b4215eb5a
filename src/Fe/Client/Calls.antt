-- ===== src/Fe/Client/Calls.antt =====
-- Calls of the stub of fe/src/gen/pictophone/V0_1ServiceClientPb.ts over a transport to a server.
use Prim.Native.String.{◌++◌ as ◌<>◌}
use mathlib.Core.Option
use pictophone.Base.{
  String, Option, none, some, List, [], ◌∷◌, map, ◌≡◌, ◌<◌, ◌^◌, refl, ap, ◌∙◌, ◌⊎◌, inl, inr,
}
use pictophone.Base.Map.{or_default}
use pictophone.Pb.Runtime.{Jspb, IsLawful}
use pictophone.Pb.CreateGameRequest
use pictophone.Pb.CreateGameRequest.RoundTrip.{create_game_request_round_trip}
use pictophone.Pb.CreateGameResponse
use pictophone.Pb.CreateGameResponse.RoundTrip as CreateGameResponseRoundTrip
use pictophone.Pb.JoinGameRequest
use pictophone.Pb.JoinGameRequest.RoundTrip.{join_game_request_round_trip}
use pictophone.Pb.JoinGameResponse
use pictophone.Pb.JoinGameResponse.RoundTrip as JoinGameResponseRoundTrip
use pictophone.Pb.StartGameRequest
use pictophone.Pb.StartGameRequest.RoundTrip.{start_game_request_round_trip}
use pictophone.Pb.StartGameResponse
use pictophone.Pb.StartGameResponse.RoundTrip as StartGameResponseRoundTrip
use pictophone.Pb.MakeMoveRequest
use pictophone.Pb.MakeMoveRequest.RoundTrip.{make_move_request_round_trip}
use pictophone.Pb.MakeMoveResponse
use pictophone.Pb.MakeMoveResponse.RoundTrip as MakeMoveResponseRoundTrip
use pictophone.Pb.GetGameRequest
use pictophone.Pb.GetGameRequest.RoundTrip.{get_game_request_round_trip}
use pictophone.Pb.GetGameResponse
use pictophone.Pb.GetGameResponse.RoundTrip as GetGameResponseRoundTrip
use pictophone.Fe.Client.{
  Index, GrpcWeb, PictophoneClient, method_info_create_game, create_game, method_info_join_game,
  join_game, method_info_start_game, start_game, method_info_make_move, make_move,
  method_info_get_game, get_game, MethodInfo,
}

module _ (J : Jspb) (web : GrpcWeb J) where
  -- grpc-web over HTTP: `post` and `listen` are what comes back for the bytes sent to an address, a
  -- promise settles with a message or not, and a stream yields messages.
  pub record IsTransport : Type 0 where
    pub post : web.Client → String → Index String → J.Bytes → Option J.Bytes
    pub listen : web.Client → String → Index String → J.Bytes → List J.Bytes
    pub settled : web.Promise → Option J.Message
    pub yielded : web.Stream → List J.Message
    pub unary_call_lem :
        (client : web.Client) (method : String) (request : J.Message) (metadata : Index String)
        (info : MethodInfo J)
        → settled (web.unary_call client method request metadata info)
          ≡ Option.map info.response_deserialize
              (post client method metadata (info.request_serialize request))
    pub server_streaming_lem :
        (client : web.Client) (method : String) (request : J.Message) (metadata : Index String)
        (info : MethodInfo J)
        → yielded (web.server_streaming client method request metadata info)
          ≡ map info.response_deserialize
              (listen client method metadata (info.request_serialize request))

  -- The methods of the service, on messages.
  pub record Methods : Type 0 where
    pub create_game : J.Message → J.Message
    pub join_game : J.Message → J.Message
    pub start_game : J.Message → J.Message
    pub make_move : J.Message → J.Message
    pub get_game : J.Message → List J.Message

  -- A server that answers at the address of each method with that method.
  pub record Serves (T : IsTransport) (client : web.Client) (hostname : String) (methods : Methods)
      : Type 0 where
    pub create_game_served :
        (metadata : Index String) (bytes : J.Bytes)
        → T.post client (hostname <> "/pictophone.v0_1.Pictophone/CreateGame") metadata bytes
          ≡ some (
              CreateGameResponse.serialize_binary J
                (methods.create_game (CreateGameRequest.deserialize_binary J bytes)))
    pub join_game_served :
        (metadata : Index String) (bytes : J.Bytes)
        → T.post client (hostname <> "/pictophone.v0_1.Pictophone/JoinGame") metadata bytes
          ≡ some (
              JoinGameResponse.serialize_binary J
                (methods.join_game (JoinGameRequest.deserialize_binary J bytes)))
    pub start_game_served :
        (metadata : Index String) (bytes : J.Bytes)
        → T.post client (hostname <> "/pictophone.v0_1.Pictophone/StartGame") metadata bytes
          ≡ some (
              StartGameResponse.serialize_binary J
                (methods.start_game (StartGameRequest.deserialize_binary J bytes)))
    pub make_move_served :
        (metadata : Index String) (bytes : J.Bytes)
        → T.post client (hostname <> "/pictophone.v0_1.Pictophone/MakeMove") metadata bytes
          ≡ some (
              MakeMoveResponse.serialize_binary J
                (methods.make_move (MakeMoveRequest.deserialize_binary J bytes)))
    pub get_game_served :
        (metadata : Index String) (bytes : J.Bytes)
        → T.listen client (hostname <> "/pictophone.v0_1.Pictophone/GetGame") metadata bytes
          ≡ map
              (GetGameResponse.serialize_binary J)
              (methods.get_game (GetGameRequest.deserialize_binary J bytes))

  -- What a promise settles with, as an object; a stream of the callback form has nothing to settle.
  abbrev pub settled_object :
      {O : Type 0} → IsTransport → (J.Message → O) → web.Stream ⊎ web.Promise → Option O
  settled_object T to_object (inl stream) = none
  settled_object T to_object (inr promise) = Option.map to_object (T.settled promise)

  -- What an answered call settles with is read from the bytes of the method's response.
  unary_answered :
      {O : Type 0} (T : IsTransport) (client : web.Client) (method : String) (request : J.Message)
      (metadata : Index String) (info : MethodInfo J) (to_object : J.Message → O) (answer : J.Bytes)
      → T.post client method metadata (info.request_serialize request) ≡ some answer
      → Option.map to_object (T.settled (web.unary_call client method request metadata info))
        ≡ some (to_object (info.response_deserialize answer))
  unary_answered T client method request metadata info to_object answer h =
      ap (Option.map to_object) (
        T.unary_call_lem client method request metadata info
        ∙ ap (Option.map info.response_deserialize) h)

  -- A property of every message of a list.
  abbrev pub Each : (J.Message → Type 0) → List J.Message → Type 0
  Each P [] = Unit
  Each P (x ∷ xs) = P x × Each P xs

  map_back :
      {O : Type 0} (P : J.Message → Type 0) (to_object : J.Message → O)
      (write : J.Message → J.Bytes) (read : J.Bytes → J.Message) (xs : List J.Message)
      → ((x : J.Message) → P x → to_object (read (write x)) ≡ to_object x)
      → Each P xs
      → map to_object (map read (map write xs)) ≡ map to_object xs
  map_back P to_object write read [] back each = refl
  map_back P to_object write read (x ∷ xs) back (h, hs) =
      rw (back x h, map_back P to_object write read xs back hs) refl

  module _ (L : IsLawful J) (T : IsTransport) (this : PictophoneClient J web) (methods : Methods)
      (serves : Serves T this.client_ this.hostname_ methods) where
    -- The request that the server reads.
    abbrev pub read_create_game : J.Message → J.Message
    read_create_game request =
        CreateGameRequest.deserialize_binary J (CreateGameRequest.serialize_binary J request)

    -- The request that the server reads.
    abbrev pub read_join_game : J.Message → J.Message
    read_join_game request =
        JoinGameRequest.deserialize_binary J (JoinGameRequest.serialize_binary J request)

    -- The request that the server reads.
    abbrev pub read_start_game : J.Message → J.Message
    read_start_game request =
        StartGameRequest.deserialize_binary J (StartGameRequest.serialize_binary J request)

    -- The request that the server reads.
    abbrev pub read_make_move : J.Message → J.Message
    read_make_move request =
        MakeMoveRequest.deserialize_binary J (MakeMoveRequest.serialize_binary J request)

    -- The request that the server reads.
    abbrev pub read_get_game : J.Message → J.Message
    read_get_game request =
        GetGameRequest.deserialize_binary J (GetGameRequest.serialize_binary J request)

    create_game_answered :
        (request : J.Message) (metadata : Option (Index String))
        → CreateGameResponseRoundTrip.IsSound J L (methods.create_game (read_create_game request))
        → settled_object T
            (CreateGameResponse.to_object J)
            (create_game J web this request metadata none)
          ≡ some (CreateGameResponse.to_object J (methods.create_game (read_create_game request)))
    unfolding create_game method_info_create_game
    create_game_answered request metadata sound =
        unary_answered T this.client_ _ request (or_default [] metadata)
          (method_info_create_game J web) (CreateGameResponse.to_object J) _
          (serves.create_game_served (or_default [] metadata)
            (CreateGameRequest.serialize_binary J request))
        ∙ ap some (CreateGameResponseRoundTrip.create_game_response_round_trip J L _ sound)

    join_game_answered :
        (request : J.Message) (metadata : Option (Index String))
        → JoinGameResponseRoundTrip.IsSound J L (methods.join_game (read_join_game request))
        → settled_object T
            (JoinGameResponse.to_object J)
            (join_game J web this request metadata none)
          ≡ some (JoinGameResponse.to_object J (methods.join_game (read_join_game request)))
    unfolding join_game method_info_join_game
    join_game_answered request metadata sound =
        unary_answered T this.client_ _ request (or_default [] metadata)
          (method_info_join_game J web) (JoinGameResponse.to_object J) _
          (serves.join_game_served (or_default [] metadata)
            (JoinGameRequest.serialize_binary J request))
        ∙ ap some (JoinGameResponseRoundTrip.join_game_response_round_trip J L _ sound)

    start_game_answered :
        (request : J.Message) (metadata : Option (Index String))
        → StartGameResponseRoundTrip.IsSound J L (methods.start_game (read_start_game request))
        → settled_object T
            (StartGameResponse.to_object J)
            (start_game J web this request metadata none)
          ≡ some (StartGameResponse.to_object J (methods.start_game (read_start_game request)))
    unfolding start_game method_info_start_game
    start_game_answered request metadata sound =
        unary_answered T this.client_ _ request (or_default [] metadata)
          (method_info_start_game J web) (StartGameResponse.to_object J) _
          (serves.start_game_served (or_default [] metadata)
            (StartGameRequest.serialize_binary J request))
        ∙ ap some (StartGameResponseRoundTrip.start_game_response_round_trip J L _ sound)

    make_move_answered :
        (request : J.Message) (metadata : Option (Index String))
        → MakeMoveResponseRoundTrip.IsSound J L (methods.make_move (read_make_move request))
        → settled_object T
            (MakeMoveResponse.to_object J)
            (make_move J web this request metadata none)
          ≡ some (MakeMoveResponse.to_object J (methods.make_move (read_make_move request)))
    unfolding make_move method_info_make_move
    make_move_answered request metadata sound =
        unary_answered T this.client_ _ request (or_default [] metadata)
          (method_info_make_move J web) (MakeMoveResponse.to_object J) _
          (serves.make_move_served (or_default [] metadata)
            (MakeMoveRequest.serialize_binary J request))
        ∙ ap some (MakeMoveResponseRoundTrip.make_move_response_round_trip J L _ sound)

    get_game_answered :
        (request : J.Message) (metadata : Option (Index String))
        → Each (GetGameResponseRoundTrip.IsSound J L) (methods.get_game (read_get_game request))
        → map (GetGameResponse.to_object J) (T.yielded (get_game J web this request metadata))
          ≡ map (GetGameResponse.to_object J) (methods.get_game (read_get_game request))
    unfolding get_game method_info_get_game
    get_game_answered request metadata sound =
        ap (map (GetGameResponse.to_object J)) (
          T.server_streaming_lem this.client_ _ request (or_default [] metadata)
            (method_info_get_game J web)
          ∙ ap (map (GetGameResponse.deserialize_binary J)) (
              serves.get_game_served (or_default [] metadata)
                (GetGameRequest.serialize_binary J request)))
        ∙ map_back (GetGameResponseRoundTrip.IsSound J L) (GetGameResponse.to_object J)
            (GetGameResponse.serialize_binary J) (GetGameResponse.deserialize_binary J) _
            (GetGameResponseRoundTrip.get_game_response_round_trip J L) sound

    -- Over a transport that carries bytes to a server, and a server that answers at the address of
    -- each method with that method: for any five requests, that of startGame with numbers below
    -- 2^32, and responses with at most one field of their groups set, the method reads a request of
    -- the same content, and the promise of the stub's method of that name settles with the content
    -- of its response; getGame's stream yields the content of every response in order.
    pub stub_calls :
        (c j s m g : J.Message) (metadata : Option (Index String))
        → StartGameRequest.get_window_size J s < 2 ^ 32
        → StartGameRequest.get_length J s < 2 ^ 32
        → CreateGameResponseRoundTrip.IsSound J L (methods.create_game (read_create_game c))
        → JoinGameResponseRoundTrip.IsSound J L (methods.join_game (read_join_game j))
        → StartGameResponseRoundTrip.IsSound J L (methods.start_game (read_start_game s))
        → MakeMoveResponseRoundTrip.IsSound J L (methods.make_move (read_make_move m))
        → Each (GetGameResponseRoundTrip.IsSound J L) (methods.get_game (read_get_game g))
        → (settled_object T
              (CreateGameResponse.to_object J)
              (create_game J web this c metadata none)
            ≡ some (CreateGameResponse.to_object J (methods.create_game (read_create_game c))))
          × (CreateGameRequest.to_object J (read_create_game c) ≡ CreateGameRequest.to_object J c)
          × (settled_object T (JoinGameResponse.to_object J) (join_game J web this j metadata none)
              ≡ some (JoinGameResponse.to_object J (methods.join_game (read_join_game j))))
          × (JoinGameRequest.to_object J (read_join_game j) ≡ JoinGameRequest.to_object J j)
          × (settled_object T
                (StartGameResponse.to_object J)
                (start_game J web this s metadata none)
              ≡ some (StartGameResponse.to_object J (methods.start_game (read_start_game s))))
          × (StartGameRequest.to_object J (read_start_game s) ≡ StartGameRequest.to_object J s)
          × (settled_object T (MakeMoveResponse.to_object J) (make_move J web this m metadata none)
              ≡ some (MakeMoveResponse.to_object J (methods.make_move (read_make_move m))))
          × (MakeMoveRequest.to_object J (read_make_move m) ≡ MakeMoveRequest.to_object J m)
          × (map (GetGameResponse.to_object J) (T.yielded (get_game J web this g metadata))
              ≡ map (GetGameResponse.to_object J) (methods.get_game (read_get_game g)))
          × (GetGameRequest.to_object J (read_get_game g) ≡ GetGameRequest.to_object J g)
    stub_calls c j s m g metadata window long sc sj ss sm sg = (
      create_game_answered c metadata sc,
      create_game_request_round_trip J L c,
      join_game_answered j metadata sj,
      join_game_request_round_trip J L j,
      start_game_answered s metadata ss,
      start_game_request_round_trip J L s window long,
      make_move_answered m metadata sm,
      make_move_request_round_trip J L m,
      get_game_answered g metadata sg,
      get_game_request_round_trip J L g,
    )
