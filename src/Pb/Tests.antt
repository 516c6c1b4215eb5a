-- ===== src/Pb/Tests.antt =====
-- Concrete messages of fe/src/gen/pictophone/v0_1_pb.js, over the runtime of Pb/Runtime/Model.antt.
use pictophone.Base.{◌≡◌, [], ◌∷◌}
use pictophone.Pb.Runtime.Model.{jspb, jspb-IsLawful, Store, empty, put, some_texts, a_message}
use pictophone.Pb.Game
use pictophone.Pb.Game.RoundTrip.{game_round_trip}
use pictophone.Pb.GetGameResponse
use pictophone.Pb.GetGameResponse.RoundTrip.{get_game_response_round_trip}

abbrev game : Store
game =
    put 1 (some_texts ("ann" ∷ "bob" ∷ []))
      (put 3 (a_message (put 1 (some_texts ("once" ∷ [])) empty)) empty)

game_round_trip_example :
    Game.to_object jspb (Game.deserialize_binary jspb (Game.serialize_binary jspb game))
    ≡ Game.to_object jspb game
unfolding Game.get_unstarted Game.get_your_turn Game.get_not_your_turn Game.get_game_over
game_round_trip_example = game_round_trip jspb jspb-IsLawful game tt

abbrev lobby : Store
lobby = put 1 (some_texts ("ann" ∷ [])) empty

abbrev get_game_response : Store
get_game_response = put 3 (a_message lobby) empty

get_game_response_round_trip_example :
    GetGameResponse.to_object jspb (
      GetGameResponse.deserialize_binary jspb
        (GetGameResponse.serialize_binary jspb get_game_response))
    ≡ GetGameResponse.to_object jspb get_game_response
unfolding GetGameResponse.get_unknown_error GetGameResponse.get_player_not_in_game_error
    GetGameResponse.get_game Game.get_unstarted Game.get_your_turn Game.get_not_your_turn
    Game.get_game_over
get_game_response_round_trip_example =
    get_game_response_round_trip jspb jspb-IsLawful get_game_response
      (tt, λ x e. let same : x ≡ lobby = cc in rw same tt)
