-- ===== src/Fe/App/Actions.antt =====
-- What the views of fe/src/App.tsx offer, and what `new_state` and `fold` make of it.
use pictophone.Base.{◌≡◌, refl, true, List, arith}
use pictophone.Base.Outcome.{ok, is_ok}
use pictophone.Pb.Runtime.{Jspb}
use pictophone.Fe.App.{
  UserInfo, Fetch, FetchedGame, State, load_auth, sign_in, home, show_game, not_found, Action,
  navigate, create, join, start, submit, Call, fetched_user_from_state, new_state, fold,
  view_offers,
}
use pictophone.Fe.Navigation.{Location}

module _ (J : Jspb) {W : Type 0} (feed : J.Message → W) where
  pub fetched_user-new_state :
      (location : Location) (user : Fetch UserInfo)
      → fetched_user_from_state (new_state J feed location user) ≡ user
  unfolding fetched_user_from_state new_state
  fetched_user-new_state location Fetch.loading = refl
  fetched_user-new_state location Fetch.unavailable = refl
  fetched_user-new_state Location.home (Fetch.ready user) = refl
  fetched_user-new_state (Location.game game_id) (Fetch.ready user) = refl
  fetched_user-new_state Location.unknown (Fetch.ready user) = refl

  -- No action that succeeds changes who is signed in, or whether anybody is.
  pub fetched_user-fold :
      (state next : State W) (action : Action) (calls : List (Call J.Message))
      → fold J feed state action ≡ ok (next, calls)
      → fetched_user_from_state next ≡ fetched_user_from_state state
  unfolding fold
  fetched_user-fold state next (navigate location) calls e =
      ground (arith, fetched_user-new_state location (fetched_user_from_state state))
  fetched_user-fold (home user) next (create game_id) calls e = ground arith
  fetched_user-fold state next (create game_id) calls e = ground arith
  fetched_user-fold (home user) next (join game_id) calls e = ground arith
  fetched_user-fold state next (join game_id) calls e = ground arith
  fetched_user-fold (show_game user game_id game) next (submit sentence) calls e = ground arith
  fetched_user-fold state next (submit sentence) calls e = ground arith
  fetched_user-fold (show_game user game_id game) next start calls e = ground arith
  fetched_user-fold state next start calls e = ground arith

  -- Every action that the view of a state offers is accepted by `fold` in that state.
  pub view_offers-fold :
      (current : W → FetchedGame) (state : State W) (action : Action)
      → view_offers current state action ≡ true
      → is_ok (fold J feed state action) ≡ true
  unfolding view_offers fold
  view_offers-fold current load_auth action h = ground arith
  view_offers-fold current sign_in action h = ground arith
  view_offers-fold current (home user) action h = ground arith
  view_offers-fold current (not_found user) action h = ground arith
  view_offers-fold current (show_game user game_id game) action h = ground arith
