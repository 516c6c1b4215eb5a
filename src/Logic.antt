-- ===== src/Logic.antt =====
-- The game logic of be/logic/src/main.rs: one function for each handler. `&mut` on the state is
-- a new state; a panic (`unwrap`, `%` by zero, a slice out of range) is `panic`.
pub mod Invariant
pub mod Turns
pub mod Play
pub mod Growth
mod Tests
use pictophone.Base.{
  ℕ, ◌-◌, ◌%◌, ◌^◌, String, str_eq, not, Option, none, some, List, [], ◌∷◌, ◌++◌, leb, ltb, ◌==◌,
  if◌then◌else◌, length, get_elem?, drop, contains,
}
use pictophone.Base.Outcome.{Outcome, ok, err, panic, ◌>>=◌, ◌>>◌, fail_if, unwrap, ok_or}
use pictophone.Base.Map.{lookup, insert, contains_key, or_default}
use pictophone.Messages.{
  CreateGameRequest, CreateGameError, JoinGameRequest, JoinGameError, StartGameRequest,
  StartGameError, MakeMoveRequest, MakeMoveError, GetGameRequest, GetGameError, GameState, GameView,
}

pub record StartedGame : Type 0 where
  pub players : List String
  pub window_size : ℕ
  pub length : ℕ
  pub sentences : List String

-- `GameId` and `PlayerId` wrap a text.
pub data Game : Type 0 where
  unstarted : List String → Game
  started : StartedGame → Game

pub record State : Type 0 where
  pub games : List (String × Game)

-- `impl Default for Game`
abbrev pub default_game : Game
default_game = unstarted []

-- `#[derive(Default)]` on `State`
abbrev pub default_state : State
default_state = record { games = [] }

-- `a % b` panics at a zero divisor.
abbrev rem : {E : Type 0} → ℕ → ℕ → Outcome E ℕ
rem a b = if b == 0 then panic else ok (a % b)

-- `usize::try_into::<u32>().unwrap()`
abbrev to_u32 : {E : Type 0} → ℕ → Outcome E ℕ
to_u32 n = if ltb n (2 ^ 32) then ok n else panic

-- `list[start..].to_vec()`
abbrev slice_from : {E : Type 0} → ℕ → List String → Outcome E (List String)
slice_from start xs = if leb start (length xs) then ok (drop start xs) else panic

-- `game.players.get(game.sentences.len() % game.players.len()).unwrap()`
unfoldable pub active_player : {E : Type 0} → StartedGame → Outcome E String
active_player g = do i ← rem (length g.sentences) (length g.players); unwrap (get_elem? g.players i)

-- The part of `Game::make_move` after the match, on a started game.
unfoldable pub make_started_move : StartedGame → MakeMoveRequest → Outcome MakeMoveError Game
make_started_move g request = do
  written ← to_u32 (length g.sentences)
  fail_if (leb g.length written) MakeMoveError.game_already_over_error
  active ← active_player g
  fail_if (not (str_eq active request.player_id)) MakeMoveError.not_your_turn_error
  ok (started (record g { sentences = g.sentences ++ (request.sentence ∷ []) }))

-- `Game::make_move`
unfoldable pub game_make_move : Game → MakeMoveRequest → Outcome MakeMoveError Game
unfolding make_started_move
game_make_move (unstarted players) request = err MakeMoveError.game_not_started_error
game_make_move (started g) request = make_started_move g request

unfoldable pub create_game :
    Option State → CreateGameRequest → Outcome CreateGameError (Option State)
create_game state request = do
  let s = or_default default_state state
  fail_if (contains_key request.game_id s.games) CreateGameError.game_already_exists_error
  ok (some (record { games = insert request.game_id default_game s.games }))

-- The match of `join_game` on the game that it found.
pub join_found : State → JoinGameRequest → Game → Outcome JoinGameError (Option State)
join_found s request (started g) = err JoinGameError.game_already_started_error
join_found s request (unstarted players) =
    if contains players request.player_id
    then ok none
    else ok (
        some (record {
          games = insert request.game_id (unstarted (players ++ (request.player_id ∷ []))) s.games;
        }))

pub join_game : Option State → JoinGameRequest → Outcome JoinGameError (Option State)
unfolding join_found
join_game state request = do
  let s = or_default default_state state
  game ← ok_or (lookup request.game_id s.games) JoinGameError.game_not_found_error
  join_found s request game

-- The match of `start_game` on the game that it found or made.
unfoldable pub start_found : StartGameRequest → Game → Outcome StartGameError StartedGame
start_found request (started g) = err StartGameError.game_already_started_error
start_found request (unstarted players) =
    if not (contains players request.player_id)
    then err StartGameError.player_not_in_game_error
    else ok (record {
      players = players;
      window_size = request.window_size;
      length = request.length;
      sentences = [];
    })

unfoldable pub start_game : Option State → StartGameRequest → Outcome StartGameError (Option State)
unfolding start_found
start_game state request = do
  let s = or_default default_state state
  let game = or_default default_game (lookup request.game_id s.games)
  g ← start_found request game
  ok (some (record { games = insert request.game_id (started g) s.games }))

unfoldable pub make_move : Option State → MakeMoveRequest → Outcome MakeMoveError (Option State)
make_move state request = do
  let s = or_default default_state state
  let game = or_default default_game (lookup request.game_id s.games)
  game' ← game_make_move game request
  ok (some (record { games = insert request.game_id game' s.games }))

-- What a player sees of a started game: the part of `get_game` after the match.
pub view_started : StartedGame → String → Outcome GetGameError GameView
view_started g player = do
  active ← active_player g
  fail_if (not (contains g.players player)) GetGameError.player_not_in_game_error
  written ← to_u32 (length g.sentences)
  if leb g.length written
      then ok (record { player_ids = g.players; state = some (GameState.game_over g.sentences) })
      else if not (str_eq active player)
      then ok (record { player_ids = g.players; state = some GameState.not_your_turn })
      else do
        context ← slice_from (length g.sentences - g.window_size) g.sentences
        ok (record { player_ids = g.players; state = some (GameState.your_turn context) })

-- What a player sees of a game: `get_game` once the game is found.
pub view_game : Game → String → Outcome GetGameError GameView
unfolding view_started
view_game (unstarted players) player =
    if contains players player
    then ok (record { player_ids = players; state = some GameState.unstarted })
    else err GetGameError.player_not_in_game_error
view_game (started g) player = view_started g player

pub get_game : Option State → GetGameRequest → Outcome GetGameError GameView
get_game state request =
    let s = or_default default_state state in
    view_game (or_default default_game (lookup request.game_id s.games)) request.player_id
