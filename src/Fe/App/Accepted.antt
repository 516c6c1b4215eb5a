-- ===== src/Fe/App/Accepted.antt =====
-- The page of a game in fe/src/App.tsx beside the logic of be/logic/src/main.rs: what the page offers,
-- the request that `fold` sends for it, and whether the logic accepts that request.
use pictophone.Base.{none, some}
use pictophone.Base.Outcome.{Outcome, ok, err, panic}
use pictophone.Pb.Game
use pictophone.Pb.GetGameResponse
use pictophone.Pb.StartGameRequest
use pictophone.Pb.MakeMoveRequest
use pictophone.Messages
use pictophone.Messages.{GameState, GameView, GetGameError}
use pictophone.Logic

-- `toObject` of the message `Game` that the logic answers with, field by field.
abbrev pub object_of : GameView → Game.Object
object_of view = record {
  player_ids_list = view.player_ids;
  unstarted = elim view.state [
    | none ↦ none
    | some s ↦ elim s [ GameState.unstarted ↦ some (record {}) | _ ↦ none ]
  ];
  your_turn = elim view.state [
    | none ↦ none
    | some s ↦ elim s [ GameState.your_turn c ↦ some (record { context_list = c }) | _ ↦ none ]
  ];
  not_your_turn = elim view.state [
    | none ↦ none
    | some s ↦ elim s [ GameState.not_your_turn ↦ some (record {}) | _ ↦ none ]
  ];
  game_over = elim view.state [
    | none ↦ none
    | some s ↦ elim s [ GameState.game_over l ↦ some (record { sentences_list = l }) | _ ↦ none ]
  ];
}

-- And of the message `GetGameResponse`; there is none after a panic.
abbrev pub response_of : Outcome GetGameError GameView → GetGameResponse.Object
response_of (ok view) = record {
  unknown_error = none;
  player_not_in_game_error = none;
  game = some (object_of view);
}
response_of (err (GetGameError.unknown_error e)) = record {
  unknown_error = some (record { error = e });
  player_not_in_game_error = none;
  game = none;
}
response_of (err GetGameError.player_not_in_game_error) = record {
  unknown_error = none;
  player_not_in_game_error = some (record {});
  game = none;
}
response_of panic = record { unknown_error = none; player_not_in_game_error = none; game = none }

-- The server's messages with the content of the client's.
abbrev pub move_of : MakeMoveRequest.Object → Messages.MakeMoveRequest
move_of o = record { game_id = o.game_id; player_id = o.player_id; sentence = o.sentence }

abbrev pub start_of : StartGameRequest.Object → Messages.StartGameRequest
start_of o = record {
  game_id = o.game_id;
  player_id = o.player_id;
  window_size = o.window_size;
  length = o.length;
}
