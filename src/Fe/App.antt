-- ===== src/Fe/App.antt =====
-- The state machine of the client, fe/src/App.tsx: its states, its actions, `newState`, `fold`, and
-- what each view offers. Requests are built by the message classes over a runtime `J`; a watched
-- game (`Watchable<FetchedGame>`) is a parameter, made from a request by `feed`.
pub mod Actions
pub mod Requests
pub mod Sealed
pub mod Shown
pub mod Feeds
pub mod Accepted
use pictophone.Base.{String, Bool, true, false, Option, none, some, List, [], ◌∷◌}
use pictophone.Base.Outcome.{Outcome, ok, err}
use pictophone.Pb.Runtime.{Jspb}
use pictophone.Pb.CreateGameRequest
use pictophone.Pb.JoinGameRequest
use pictophone.Pb.StartGameRequest
use pictophone.Pb.MakeMoveRequest
use pictophone.Pb.GetGameRequest
use pictophone.Pb.GetGameResponse
use pictophone.Pb.Game
use pictophone.Fe.Navigation
use pictophone.Fe.Navigation.{Location}

-- Of `firebase.UserInfo` only `uid` is read.
pub record UserInfo : Type 0 where
  pub uid : String

pub data Fetch (A : Type 0) : Type 0 where
  loading : Fetch A
  unavailable : Fetch A
  ready : A → Fetch A

pub data FetchedGame : Type 0 where
  loading : FetchedGame
  ready : GetGameResponse.Object → FetchedGame
  disconnected : FetchedGame

-- `W` is `Watchable<FetchedGame>`.
pub data State (W : Type 0) : Type 0 where
  load_auth : State W
  sign_in : State W
  home : UserInfo → State W
  show_game : UserInfo → String → W → State W
  not_found : UserInfo → State W

pub data Action : Type 0 where
  navigate : Location → Action
  create : String → Action
  join : String → Action
  start : Action
  submit : String → Action

-- A call of the backend that `fold` makes, with its request.
pub data Call (M : Type 0) : Type 0 where
  create_game : M → Call M
  join_game : M → Call M
  make_move : M → Call M
  start_game : M → Call M

pub fetched_user_from_state : {W : Type 0} → State W → Fetch UserInfo
fetched_user_from_state sign_in = Fetch.unavailable
fetched_user_from_state load_auth = Fetch.loading
fetched_user_from_state (home user) = Fetch.ready user
fetched_user_from_state (show_game user game_id game) = Fetch.ready user
fetched_user_from_state (not_found user) = Fetch.ready user

module _ (J : Jspb) where
  pub create_request : String → UserInfo → J.Message
  create_request game_id user =
      let req = CreateGameRequest.set_game_id J (CreateGameRequest.new J) game_id in
      CreateGameRequest.set_player_id J req user.uid

  pub join_request : String → UserInfo → J.Message
  join_request game_id user =
      let req = JoinGameRequest.set_game_id J (JoinGameRequest.new J) game_id in
      JoinGameRequest.set_player_id J req user.uid

  pub submit_request : String → UserInfo → String → J.Message
  submit_request game_id user sentence =
      let req = MakeMoveRequest.set_game_id J (MakeMoveRequest.new J) game_id in
      let req' = MakeMoveRequest.set_player_id J req user.uid in
      MakeMoveRequest.set_sentence J req' sentence

  pub start_request : String → UserInfo → J.Message
  start_request game_id user =
      let req = StartGameRequest.set_game_id J (StartGameRequest.new J) game_id in
      let req' = StartGameRequest.set_player_id J req user.uid in
      let req'' = StartGameRequest.set_window_size J req' 2 in StartGameRequest.set_length J req'' 5

  module _ {W : Type 0} (feed : J.Message → W) where
    pub get_game : String → String → W
    get_game game_id player_id =
        let req = GetGameRequest.set_game_id J (GetGameRequest.new J) game_id in
        feed (GetGameRequest.set_player_id J req player_id)

    -- The part of `newState` for a user who has signed in.
    pub state_at : Location → UserInfo → State W
    unfolding get_game
    state_at Location.home user = home user
    state_at (Location.game game_id) user = show_game user game_id (get_game game_id user.uid)
    state_at Location.unknown user = not_found user

    pub new_state : Location → Fetch UserInfo → State W
    unfolding state_at
    new_state location Fetch.loading = load_auth
    new_state location Fetch.unavailable = sign_in
    new_state location (Fetch.ready user) = state_at location user

    -- `fold`: the next state with the calls that it makes, or the error that it throws.
    unfoldable pub fold : State W → Action → Outcome String (State W × List (Call J.Message))
    unfolding new_state fetched_user_from_state
    fold state (navigate location) = ok (new_state location (fetched_user_from_state state), [])
    fold (home user) (create game_id) =
        ok (home user, create_game (create_request game_id user) ∷ [])
    fold state (create game_id) = err "invalid state for creating game."
    fold (home user) (join game_id) = ok (home user, join_game (join_request game_id user) ∷ [])
    fold state (join game_id) = err "invalid state for joining game."
    fold (show_game user game_id game) (submit sentence) =
        ok (show_game user game_id game, make_move (submit_request game_id user sentence) ∷ [])
    fold state (submit sentence) = err "invalid state for submitting game."
    fold (show_game user game_id game) start =
        ok (show_game user game_id game, start_game (start_request game_id user) ∷ [])
    fold state start = err "invalid state for starting game."

-- What the component `Game` shows.
pub data Screen : Type 0 where
  disconnected : Screen
  loading : Screen
  failed : Screen
  lobby : List String → Screen
  waiting : Screen
  writing : List String → Screen
  story : List String → Screen
  -- `throw new Error("unreachable")`
  unreachable : Screen

-- The ladder of tests on a game that is there.
unfoldable pub game_screen : Game.Object → Screen
game_screen g = elim g.unstarted [
  | some u ↦ lobby g.player_ids_list
  | none ↦ elim g.not_your_turn [
    | some n ↦ waiting
    | none ↦ elim g.your_turn [
      | some t ↦ writing t.context_list
      | none ↦ elim g.game_over [ some o ↦ story o.sentences_list | none ↦ unreachable ]
    ]
  ]
]

unfoldable pub screen : FetchedGame → Screen
unfolding game_screen
screen FetchedGame.disconnected = disconnected
screen FetchedGame.loading = loading
screen (FetchedGame.ready response) = elim response.game [ none ↦ failed | some g ↦ game_screen g ]

-- The buttons and forms of each screen.
unfoldable pub screen_offers : Screen → Action → Bool
screen_offers (lobby players) start = true
screen_offers (writing context) (submit sentence) = true
screen_offers s a = false

-- The actions that `View` can dispatch in a state; `current` is the field `value` of a watched
-- game.
unfoldable pub view_offers : {W : Type 0} → (W → FetchedGame) → State W → Action → Bool
unfolding screen screen_offers
view_offers current (home user) (create game_id) = true
view_offers current (home user) (join game_id) = true
view_offers current (home user) (navigate (Location.game game_id)) = true
view_offers current (show_game user game_id game) a = screen_offers (screen (current game)) a
view_offers current state a = false
