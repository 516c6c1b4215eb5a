-- ===== src/Logic/Turns.antt =====
-- Whose turn it is, by `Game::make_move` and by `get_game` of be/logic/src/main.rs.
use pictophone.Base.{
  ℕ, ◌-◌, ◌%◌, ◌≡◌, sym, ◌∙◌, String, str_eq, eq_iff, Bool, true, false, not, Option, none, some,
  List, [], ◌∷◌, ◌++◌, arith, leb, if◌then◌else◌, length, get_elem?, take, drop, take-append-drop,
  length-drop, get_elem?_total, get_elem?-contains, contains, mod_in_range, min,
}
use pictophone.Base.Outcome.{Outcome, ok, err, panic, is_ok}
use pictophone.Base.Map.{lookup, or_default}
use pictophone.Messages.{
  StartGameRequest, MakeMoveRequest, MakeMoveError, GetGameError, GameState, GameView,
}
use pictophone.Logic.{
  StartedGame, Game, unstarted, started, State, default_game, default_state, active_player,
  make_started_move, game_make_move, make_move, start_found, start_game, view_started, view_game,
  get_game,
}
use pictophone.Logic.Invariant.{
  IsPlayable, IsValidGame, IsValidStore, or_default-IsValid, found-IsValidGame,
}

-- The players take turns in the order in which they joined.
abbrev pub IsTurnOf : StartedGame → String → Type 0
IsTurnOf g p = get_elem? g.players (length g.sentences % length g.players) ≡ some p

pub turn_total : (g : StartedGame) → IsPlayable g → (p : String) × IsTurnOf g p
turn_total g v = get_elem?_total g.players _ (mod_in_range (length g.sentences) _ v.has_players)

-- The game after an accepted move.
abbrev pub written : StartedGame → String → StartedGame
written g sentence = record g { sentences = g.sentences ++ (sentence ∷ []) }

pub active_player_lem :
    {E : Type 0} (g : StartedGame) (p : String)
    → IsPlayable g
    → IsTurnOf g p
    → active_player {E = E} g ≡ ok p
unfolding active_player
active_player_lem g p v t = ground arith

-- All branches of a move on a playable game, by the player whose turn it is.
pub make_started_move_lem :
    (g : StartedGame) (p : String) (request : MakeMoveRequest)
    → IsPlayable g
    → IsTurnOf g p
    → make_started_move g request ≡ (
        if leb g.length (length g.sentences)
        then err MakeMoveError.game_already_over_error
        else if str_eq p request.player_id
        then ok (started (written g request.sentence))
        else err MakeMoveError.not_your_turn_error)
unfolding make_started_move
make_started_move_lem g p request v t = rw (active_player_lem g p v t) (ground arith)

-- All branches of the view of a playable game.
pub view_started_lem :
    (g : StartedGame) (p player : String)
    → IsPlayable g
    → IsTurnOf g p
    → view_started g player ≡ (
        if not (contains g.players player)
        then err GetGameError.player_not_in_game_error
        else ok (record {
          player_ids = g.players;
          state = some (
              if leb g.length (length g.sentences)
              then GameState.game_over g.sentences
              else if str_eq p player
              then GameState.your_turn (drop (length g.sentences - g.window_size) g.sentences)
              else GameState.not_your_turn);
        }))
unfolding view_started
view_started_lem g p player v t = rw (active_player_lem g p v t) (ground arith)

-- Whether `get_game` tells the player to write.
abbrev pub shows_turn : Outcome GetGameError GameView → Bool
shows_turn (ok view) = elim view.state [
  | none ↦ false
  | some s ↦ elim s [ GameState.your_turn c ↦ true | _ ↦ false ]
]
shows_turn (err e) = false
shows_turn panic = false

is_ok-make_started_move :
    (g : StartedGame) (request : MakeMoveRequest)
    → IsPlayable g
    → is_ok (make_started_move g request) ≡ shows_turn (view_started g request.player_id)
is_ok-make_started_move g request v =
    let (p, t) = turn_total g v in
    rw (make_started_move_lem g p request v t, view_started_lem g p request.player_id v t)
      (ground (arith, eq_iff p request.player_id, get_elem?-contains g.players _ t))

is_ok-game_make_move :
    (game : Game) (request : MakeMoveRequest)
    → IsValidGame game
    → is_ok (game_make_move game request) ≡ shows_turn (view_game game request.player_id)
unfolding game_make_move view_game
is_ok-game_make_move (unstarted players) request v = ground arith
is_ok-game_make_move (started g) request v = is_ok-make_started_move g request v

is_ok-make_move :
    (state : Option State) (request : MakeMoveRequest)
    → let s = or_default default_state state in
      is_ok (make_move state request)
      ≡ is_ok (game_make_move (or_default default_game (lookup request.game_id s.games)) request)
unfolding make_move
is_ok-make_move state request = ground arith

-- In every valid state the logic accepts a move, whatever its sentence, exactly when `get_game`
-- shows that player of that game that it is his turn.
pub make_move-get_game :
    (state : Option State) (game player sentence : String)
    → IsValidStore state
    → is_ok (make_move state (record { game_id = game; player_id = player; sentence = sentence }))
      ≡ shows_turn (get_game state (record { game_id = game; player_id = player }))
unfolding get_game
make_move-get_game state game player sentence v =
    is_ok-make_move state _
    ∙ is_ok-game_make_move _ _
        (found-IsValidGame (or_default default_state state) (or_default-IsValid state v) game)

-- Whether `get_game` tells the player that the game has not started.
abbrev pub shows_lobby : Outcome GetGameError GameView → Bool
shows_lobby (ok view) = elim view.state [
  | none ↦ false
  | some s ↦ elim s [ GameState.unstarted ↦ true | _ ↦ false ]
]
shows_lobby (err e) = false
shows_lobby panic = false

view_started-shows_lobby :
    (g : StartedGame) (player : String) → IsPlayable g → shows_lobby (view_started g player) ≡ false
view_started-shows_lobby g player v =
    let (p, t) = turn_total g v in rw (view_started_lem g p player v t) (ground arith)

is_ok-start_found :
    (game : Game) (request : StartGameRequest)
    → IsValidGame game
    → is_ok (start_found request game) ≡ shows_lobby (view_game game request.player_id)
unfolding start_found view_game
is_ok-start_found (unstarted players) request v = ground arith
is_ok-start_found (started g) request v = sym (view_started-shows_lobby g request.player_id v)

is_ok-start_game :
    (state : Option State) (request : StartGameRequest)
    → let s = or_default default_state state in
      is_ok (start_game state request)
      ≡ is_ok (start_found request (or_default default_game (lookup request.game_id s.games)))
unfolding start_game
is_ok-start_game state request = ground arith

-- In every valid state the logic accepts a start, whatever its numbers, exactly when `get_game`
-- shows that player of that game that it has not started.
pub start_game-get_game :
    (state : Option State) (game player : String) (window length : ℕ)
    → IsValidStore state
    → is_ok (
        start_game state
          (record { game_id = game; player_id = player; window_size = window; length = length }))
      ≡ shows_lobby (get_game state (record { game_id = game; player_id = player }))
unfolding get_game
start_game-get_game state game player window length v =
    is_ok-start_game state _
    ∙ is_ok-start_found _ _
        (found-IsValidGame (or_default default_state state) (or_default-IsValid state v) game)

-- In a playable game, a player who is shown his turn is shown a final part of the story: the
-- last `window_size` sentences, or all of them where there are fewer.
pub view_started-your_turn :
    (g : StartedGame) (player : String) (view : GameView) (context : List String)
    → IsPlayable g
    → view_started g player ≡ ok view
    → view.state ≡ some (GameState.your_turn context)
    → (take (length g.sentences - g.window_size) g.sentences ++ context ≡ g.sentences)
      × (length context ≡ min g.window_size (length g.sentences))
      × (view.player_ids ≡ g.players)
view_started-your_turn g player view context v shown turn =
    let (p, t) = turn_total g v in
    let e = sym (view_started_lem g p player v t) ∙ shown in
    let c : context ≡ drop (length g.sentences - g.window_size) g.sentences = ground arith in
    (
      rw c (take-append-drop _ g.sentences),
      rw c (omega (arith, length-drop (length g.sentences - g.window_size) g.sentences)),
      ground arith,
    )
