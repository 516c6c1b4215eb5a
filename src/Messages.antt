-- ===== src/Messages.antt =====
-- The messages of be/proto/server/pictophone/messages.proto, as the server side holds them.
use pictophone.Base.{ℕ, String, Option, List}

pub record CreateGameRequest : Type 0 where
  pub game_id : String
  pub player_id : String

pub data CreateGameError : Type 0 where
  unknown_error : String → CreateGameError
  game_already_exists_error : CreateGameError

pub record CreateGameResponse : Type 0 where
  pub error : Option CreateGameError

pub record JoinGameRequest : Type 0 where
  pub game_id : String
  pub player_id : String

pub data JoinGameError : Type 0 where
  unknown_error : String → JoinGameError
  game_not_found_error : JoinGameError
  game_already_started_error : JoinGameError

pub record JoinGameResponse : Type 0 where
  pub error : Option JoinGameError

-- `window_size` and `length` are `uint32`: numbers below 2 ^ 32.
pub record StartGameRequest : Type 0 where
  pub game_id : String
  pub player_id : String
  pub window_size : ℕ
  pub length : ℕ

pub data StartGameError : Type 0 where
  unknown_error : String → StartGameError
  player_not_in_game_error : StartGameError
  invalid_game_parameters_error : StartGameError
  game_already_started_error : StartGameError

pub record StartGameResponse : Type 0 where
  pub error : Option StartGameError

pub record MakeMoveRequest : Type 0 where
  pub game_id : String
  pub player_id : String
  pub sentence : String

pub data MakeMoveError : Type 0 where
  unknown_error : String → MakeMoveError
  not_your_turn_error : MakeMoveError
  game_not_started_error : MakeMoveError
  game_already_over_error : MakeMoveError

pub record MakeMoveResponse : Type 0 where
  pub error : Option MakeMoveError

pub record GetGameRequest : Type 0 where
  pub game_id : String
  pub player_id : String

pub data GetGameError : Type 0 where
  unknown_error : String → GetGameError
  player_not_in_game_error : GetGameError

-- The `oneof state` of the message `Game`.
pub data GameState : Type 0 where
  unstarted : GameState
  your_turn : List String → GameState
  not_your_turn : GameState
  game_over : List String → GameState

-- The message `Game`.
pub record GameView : Type 0 where
  pub player_ids : List String
  pub state : Option GameState

pub record GetGameResponse : Type 0 where
  pub game : Option GameView
  pub error : Option GetGameError
