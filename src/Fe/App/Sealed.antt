-- ===== src/Fe/App/Sealed.antt =====
-- `sealState` of fe/src/App.tsx: a state that follows the game that it shows.
use pictophone.Base.{ℕ, ◌≡◌, refl, String, List, [], ◌∷◌, arith}
use pictophone.Fe.App.{UserInfo, FetchedGame, State, load_auth, sign_in, home, show_game, not_found}
use pictophone.Fe.Watch.{Watchable, from_constant}
use pictophone.Fe.Watch.Timeline.{now, at}

-- `state.game.next.then(game => sealState({ …, game }))`, again and again.
unfoldable pub seal_next :
    UserInfo → String → List (ℕ × FetchedGame) → List (ℕ × State (Watchable FetchedGame))
seal_next user game_id [] = []
seal_next user game_id ((time, game) ∷ next) =
    (time, show_game user game_id (record { value = game; next = next }))
    ∷ seal_next user game_id next

unfoldable pub seal_state :
    State (Watchable FetchedGame) → Watchable (State (Watchable FetchedGame))
unfolding seal_next
seal_state (show_game user game_id game) = record {
  value = show_game user game_id game;
  next = seal_next user game_id game.next;
}
seal_state state = from_constant state

-- A state with its game as it is at present.
abbrev pub present : State (Watchable FetchedGame) → State FetchedGame
present load_auth = load_auth
present sign_in = sign_in
present (home user) = home user
present (show_game user game_id game) = show_game user game_id game.value
present (not_found user) = not_found user

-- A state with its game as it is at a time.
abbrev pub present_at : ℕ → State (Watchable FetchedGame) → State FetchedGame
present_at t load_auth = load_auth
present_at t sign_in = sign_in
present_at t (home user) = home user
present_at t (show_game user game_id game) = show_game user game_id (at game t)
present_at t (not_found user) = not_found user

now-seal_next :
    (user : UserInfo) (game_id : String) (value : FetchedGame) (next : List (ℕ × FetchedGame))
    (t : ℕ)
    → present (
        now
          (show_game user game_id (record { value = value; next = next }))
          (seal_next user game_id next)
          t)
      ≡ show_game user game_id (now value next t)
unfolding seal_next
now-seal_next user game_id value [] t = refl
now-seal_next user game_id value ((time, game) ∷ next) t =
    ground (arith, now-seal_next user game_id game next t)

-- At every time a sealed state is the state that was sealed, with the game as it then is: neither
-- the kind of the state nor its user or game id changes.
pub at-seal_state :
    (state : State (Watchable FetchedGame)) (t : ℕ)
    → present (at (seal_state state) t) ≡ present_at t state
unfolding seal_state from_constant
at-seal_state (show_game user game_id game) t = now-seal_next user game_id game.value game.next t
at-seal_state load_auth t = refl
at-seal_state sign_in t = refl
at-seal_state (home user) t = refl
at-seal_state (not_found user) t = refl
