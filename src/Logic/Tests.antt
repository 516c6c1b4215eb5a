-- ===== src/Logic/Tests.antt =====
-- Concrete games of be/logic/src/main.rs.
use pictophone.Base.{
  ◌+◌, ◌-◌, ◌≤◌, ◌≡◌, refl, String, Option, some, List, [], ◌∷◌, ◌++◌, arith, length, take, min,
}
use pictophone.Base.Outcome.{ok, is_ok}
use pictophone.Base.Map.{insert}
use pictophone.Messages.{MakeMoveRequest, GameState}
use pictophone.Logic.{
  StartedGame, started, State, default_state, active_player, make_started_move, game_make_move,
  make_move, view_started, get_game,
}
use pictophone.Logic.Invariant.{IsPlayable, IsValidStore, default_state-IsValid, insert-IsValid}
use pictophone.Logic.Turns.{shows_turn, make_move-get_game, view_started-your_turn}
use pictophone.Logic.Play.{
  submit_all, InTurn, extended, sentences_of, submit_all-InTurn, submit_all-accepts_only,
}

-- Two players, of which "bob" is next, with a window of one sentence.
abbrev tale : StartedGame
tale = record {
  players = "ann" ∷ "bob" ∷ [];
  window_size = 1;
  length = 4;
  sentences = "once" ∷ "upon" ∷ "a time" ∷ [];
}

abbrev opening : StartedGame
opening = record {
  players = "ann" ∷ "bob" ∷ [];
  window_size = 1;
  length = 4;
  sentences = "once" ∷ [];
}

tale-IsPlayable : IsPlayable tale
tale-IsPlayable = record {
  has_players = omega arith;
  within = omega arith;
  in_u32 = omega arith;
  distinct = (refl, (refl, tt));
}

opening-IsPlayable : IsPlayable opening
opening-IsPlayable = record {
  has_players = omega arith;
  within = omega arith;
  in_u32 = omega arith;
  distinct = (refl, (refl, tt));
}

abbrev store : Option State
store = some (record { games = insert "tale" (started tale) [] })

store-IsValid : IsValidStore store
store-IsValid =
    insert-IsValid default_state "tale" (started tale) default_state-IsValid tale-IsPlayable

abbrev moves : List MakeMoveRequest
moves =
    record { game_id = "tale"; player_id = "bob"; sentence = "upon" }
    ∷ record { game_id = "tale"; player_id = "ann"; sentence = "a time" }
    ∷ []

view_tale :
    view_started tale "bob"
    ≡ ok (record {
      player_ids = "ann" ∷ "bob" ∷ [];
      state = some (GameState.your_turn ("a time" ∷ []));
    })
unfolding view_started active_player
view_tale = refl

play_opening :
    submit_all (started opening) moves ≡ ok (started (extended opening ("upon" ∷ "a time" ∷ [])))
unfolding submit_all game_make_move make_started_move active_player
play_opening = refl

make_move-get_game_example :
    is_ok (make_move store (record { game_id = "tale"; player_id = "bob"; sentence = "there" }))
    ≡ shows_turn (get_game store (record { game_id = "tale"; player_id = "bob" }))
make_move-get_game_example = make_move-get_game store "tale" "bob" "there" store-IsValid

view_started-your_turn_example :
    (take (length tale.sentences - 1) tale.sentences ++ ("a time" ∷ []) ≡ tale.sentences)
    × (length {A = String} ("a time" ∷ []) ≡ min 1 (length tale.sentences))
    × (tale.players ≡ tale.players)
view_started-your_turn_example =
    view_started-your_turn tale "bob" _ ("a time" ∷ []) tale-IsPlayable view_tale refl

submit_all-InTurn_example :
    submit_all (started opening) moves ≡ ok (started (extended opening (sentences_of moves)))
submit_all-InTurn_example =
    submit_all-InTurn opening moves opening-IsPlayable (refl, (refl, tt)) (omega arith)

submit_all-accepts_only_example :
    InTurn opening.players (length opening.sentences) moves
    × (length opening.sentences + length moves ≤ opening.length)
    × (started (extended opening ("upon" ∷ "a time" ∷ []))
        ≡ started (extended opening (sentences_of moves)))
submit_all-accepts_only_example =
    submit_all-accepts_only opening moves _ opening-IsPlayable play_opening
