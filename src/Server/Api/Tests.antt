-- ===== src/Server/Api/Tests.antt =====
-- The gRPC methods of be/server/src/proto.rs over the local datastore.
use pictophone.Base.{ℕ, ◌≡◌, refl, none, some, List, [], ◌∷◌, length, drop, arith}
use pictophone.Base.Outcome.{Outcome, ok}
use pictophone.Base.Result.{Result}
use pictophone.Messages.{
  CreateGameRequest, JoinGameRequest, StartGameRequest, MakeMoveRequest, GetGameRequest,
  GetGameResponse,
}
use pictophone.Logic
use pictophone.Handler.{ActionRequest, create_game_request, join_game_request, answer}
use pictophone.Handler.Model.{Blob, an_action, blobs, blobs-IsLawfulCodec}
use pictophone.Server.{ServerError}
use pictophone.Server.Datastore.Local
use pictophone.Server.Datastore.Local.Offsets.{push_action-appends}
use pictophone.Server.Refinement.{state_after, applied}
use pictophone.Server.Api.{Request, Status, create_game, join_game, start_game, make_move, get_game}
use pictophone.Server.Api.Refinement.{
  error_of, Appends, logic_server, methods_answer, get_game_answers,
}

-- The local datastore, on what its vector holds.
abbrev push_local : Blob → List Blob → Result ServerError ℕ × List Blob
push_local action stored =
    let (result, actions) = Local.push_action action (record { vec = stored; sent = [] }) in
    (result, actions.vec)

push_local-Appends : Appends push_local
push_local-Appends action stored =
    let (result, held, _) = push_action-appends action (record { vec = stored; sent = [] }) in
    λ i. (result i, held i)

abbrev create : CreateGameRequest
create = record { game_id = "tale"; player_id = "ann" }

abbrev join : JoinGameRequest
join = record { game_id = "tale"; player_id = "bob" }

abbrev start : StartGameRequest
start = record { game_id = "tale"; player_id = "ann"; window_size = 2; length = 5 }

abbrev move : MakeMoveRequest
move = record { game_id = "tale"; player_id = "ann"; sentence = "once" }

abbrev created : ActionRequest
created = record { method = some (create_game_request create) }

abbrev joined : ActionRequest
joined = record { method = some (join_game_request join) }

methods_answer_example :
    (create_game blobs
        (logic_server blobs push_local (an_action created ∷ []) [])
        (record { metadata = tt; message = create })
      ≡ ok (record {
        error = error_of (Logic.create_game (state_after none (created ∷ [])) create);
      }))
    × (join_game blobs
          (logic_server blobs push_local (an_action created ∷ []) [])
          (record { metadata = tt; message = join })
        ≡ ok (record { error = error_of (Logic.join_game (state_after none (created ∷ [])) join) }))
    × (start_game blobs
          (logic_server blobs push_local (an_action created ∷ []) [])
          (record { metadata = tt; message = start })
        ≡ ok (record {
          error = error_of (Logic.start_game (state_after none (created ∷ [])) start);
        }))
    × (make_move blobs
          (logic_server blobs push_local (an_action created ∷ []) [])
          (record { metadata = tt; message = move })
        ≡ ok (record { error = error_of (Logic.make_move (state_after none (created ∷ [])) move) }))
methods_answer_example =
    methods_answer {M = Unit {0}} blobs blobs-IsLawfulCodec push_local push_local-Appends
      (an_action created ∷ []) (created ∷ []) (refl, tt, tt) [] tt create join start move
      (omega arith, omega arith)

abbrev look : Request (Unit {0}) GetGameRequest
look = record { metadata = tt; message = record { game_id = "tale"; player_id = "ann" } }

get_game_answers_example :
    (stream : List (Outcome Status GetGameResponse)) × (reply : GetGameResponse) × (rest : List
      (Outcome Status GetGameResponse))
    × (get_game blobs
          (logic_server blobs push_local
            (an_action created ∷ [])
            (Result.ok (an_action joined) ∷ []))
          look
        ≡ ok stream)
    × (drop (length (an_action created ∷ [])) stream ≡ ok reply ∷ rest)
    × (answer (Logic.get_game (applied (state_after none (created ∷ [])) joined) look.message)
        ≡ ok reply)
get_game_answers_example =
    get_game_answers {M = Unit {0}} blobs blobs-IsLawfulCodec push_local (an_action created ∷ [])
      (created ∷ []) (an_action joined) joined [] look (refl, tt, tt) refl tt
