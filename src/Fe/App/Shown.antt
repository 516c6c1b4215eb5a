-- ===== src/Fe/App/Shown.antt =====
-- `App` of fe/src/App.tsx: the states that the client shows, over the URL bar and the signed-in user.
use pictophone.Base.{ℕ, ◌≡◌, refl, ◌∙◌, ap, String, true, Option, none, some, List, [], ◌∷◌}
use pictophone.Base.Outcome.{Outcome, ok, err, panic, is_ok}
use pictophone.Pb.Runtime.{Jspb}
use pictophone.Fe.Navigation.{Location}
use pictophone.Fe.App.{
  UserInfo, Fetch, FetchedGame, State, load_auth, sign_in, home, show_game, not_found, Action, Call,
  fetched_user_from_state, new_state, fold, view_offers,
}
use pictophone.Fe.App.Actions.{fetched_user-new_state, fetched_user-fold, view_offers-fold}
use pictophone.Fe.App.Sealed.{seal_next, seal_state}
use pictophone.Fe.Watch.{Watchable, from_constant, switch_map, combine}
use pictophone.Fe.Watch.Timeline.{
  Each, Always, now, at, now-Each, at-switch_map, at-combine, latest-Shows, switch_map-Each,
}
use pictophone.Fe.Watch.Fold.{map_fold, IsKept, map_fold-Always}

-- What the view of a state shows, and the action that its user dispatches: `stateToUiAndAction`,
-- with the state for its view, and `dispatched` for the user.
abbrev pub state_to_ui_and_action :
    (ℕ → State (Watchable FetchedGame) → Option (ℕ × Action))
    → ℕ
    → State (Watchable FetchedGame)
    → State (Watchable FetchedGame) × Option (ℕ × Action)
state_to_ui_and_action dispatched t state = (state, dispatched t state)

-- `sealState(fold(server, acc, act))`; `none` is that it throws.
abbrev pub sealed :
    {M : Type 0}
    → Outcome String (State (Watchable FetchedGame) × List (Call M))
    → Option (Watchable (State (Watchable FetchedGame)))
sealed (ok (next, calls)) = some (seal_state next)
sealed (err error) = none
sealed panic = none

-- A promise that rejects is the last: what awaits it has nothing to await then.
pub up_to_rejection : {T : Type 0} → List (ℕ × Option T) → List (ℕ × Option T)
up_to_rejection [] = []
up_to_rejection ((time, none) ∷ next) = (time, none) ∷ []
up_to_rejection ((time, some value) ∷ next) = (time, some value) ∷ up_to_rejection next

-- A state that is shown is one of the user, and nothing has been rejected.
abbrev pub IsShownOf : Fetch UserInfo → Option (State (Watchable FetchedGame)) → Type 0
IsShownOf user none = ⊥
IsShownOf user (some state) = fetched_user_from_state state ≡ user

abbrev pub IsShown : Option (State (Watchable FetchedGame)) → Type 0
IsShown none = ⊥
IsShown (some state) = Unit {0}

IsShownOf-IsShown :
    (user : Fetch UserInfo) (state : Option (State (Watchable FetchedGame)))
    → IsShownOf user state
    → IsShown state
IsShownOf-IsShown user none h = h
IsShownOf-IsShown user (some state) h = tt

Each-IsShown :
    (user : Fetch UserInfo) (next : List (ℕ × Option (State (Watchable FetchedGame))))
    → Each (IsShownOf user) next
    → Each IsShown next
Each-IsShown user [] h = tt
Each-IsShown user ((t, state) ∷ next) (h, hs) =
    (IsShownOf-IsShown user state h, Each-IsShown user next hs)

up_to_rejection_lem :
    (next : List (ℕ × Option (State (Watchable FetchedGame))))
    → Each IsShown next
    → up_to_rejection next ≡ next
unfolding up_to_rejection
up_to_rejection_lem [] h = refl
up_to_rejection_lem ((t, none) ∷ next) (h, hs) = absurd h
up_to_rejection_lem ((t, some state) ∷ next) (h, hs) = rw (up_to_rejection_lem next hs) refl

is_shown_of :
    (user : Fetch UserInfo) (shown : Option (State (Watchable FetchedGame)))
    → IsShownOf user shown
    → (state : State (Watchable FetchedGame)) × (shown ≡ some state)
      × (fetched_user_from_state state ≡ user)
is_shown_of user none h = absurd h
is_shown_of user (some state) h = (state, refl, h)

module _ (J : Jspb) (feed : ℕ → J.Message → Watchable FetchedGame)
    (dispatched : ℕ → State (Watchable FetchedGame) → Option (ℕ × Action)) where
  abbrev pub fold_sealed :
      ℕ
      → State (Watchable FetchedGame)
      → Action
      → Option (Watchable (State (Watchable FetchedGame)))
  fold_sealed t state action = sealed (fold J (feed t) state action)

  -- What `switchMap` makes of a location and a user.
  pub session :
      ℕ → ℕ → Location × Fetch UserInfo → Watchable (Option (State (Watchable FetchedGame)))
  session rounds t (url, user) =
      map_fold fold_sealed (state_to_ui_and_action dispatched) rounds t
        (seal_state (new_state J (feed t) url user))

  -- A rejection of what is watched goes through `switchMap`, whose promise then rejects too, to the
  -- loop of fe/src/index.tsx, which ends; so it is the last of what comes.
  pub app :
      ℕ
      → Watchable Location
      → Watchable (Fetch UserInfo)
      → Watchable (Option (State (Watchable FetchedGame)))
  app rounds url_bar auth_state =
      let switched = switch_map (session rounds) 0 (combine url_bar auth_state) in
      record { value = switched.value; next = up_to_rejection switched.next }

  -- The state is one of the user.
  abbrev pub IsOf : Fetch UserInfo → State (Watchable FetchedGame) → Type 0
  IsOf user state = fetched_user_from_state state ≡ user

  seal_next-IsOf :
      (user : Fetch UserInfo) (u : UserInfo) (game_id : String) (next : List (ℕ × FetchedGame))
      → Fetch.ready u ≡ user
      → Each (IsOf user) (seal_next u game_id next)
  unfolding seal_next fetched_user_from_state
  seal_next-IsOf user u game_id [] h = tt
  seal_next-IsOf user u game_id ((t, game) ∷ next) h = (h, seal_next-IsOf user u game_id next h)

  seal_state-IsOf :
      (user : Fetch UserInfo) (state : State (Watchable FetchedGame))
      → IsOf user state
      → Always (IsOf user) (seal_state state)
  unfolding seal_state from_constant fetched_user_from_state
  seal_state-IsOf user load_auth h = (h, tt)
  seal_state-IsOf user sign_in h = (h, tt)
  seal_state-IsOf user (home u) h = (h, tt)
  seal_state-IsOf user (show_game u game_id game) h = (h, seal_next-IsOf user u game_id game.next h)
  seal_state-IsOf user (not_found u) h = (h, tt)

  module _
      (offered : (s t : ℕ) (state : State (Watchable FetchedGame)) (action : Action)
        → dispatched s state ≡ some (t, action)
        → view_offers (λ w. w.value) state action ≡ true) where
    fold_sealed-IsKept :
        (user : Fetch UserInfo) (s t : ℕ) (state : State (Watchable FetchedGame)) (action : Action)
        → IsOf user state
        → dispatched s state ≡ some (t, action)
        → IsKept fold_sealed
            (state_to_ui_and_action dispatched)
            (IsOf user)
            (some (t, fold_sealed t state action))
    fold_sealed-IsKept user s t state action h e =
        go (fold J (feed t) state action) refl
          (view_offers-fold J (feed t) (λ w. w.value) state action (offered s t state action e))
      where
        go :
            (r : Outcome String (State (Watchable FetchedGame) × List (Call J.Message)))
            → fold J (feed t) state action ≡ r
            → is_ok r ≡ true
            → IsKept fold_sealed
                (state_to_ui_and_action dispatched)
                (IsOf user)
                (some (t, sealed r))
        go (ok (next, calls)) f accepted =
            seal_state-IsOf user next (fetched_user-fold J (feed t) state next action calls f ∙ h)
        go (err error) f accepted = cc
        go panic f accepted = cc

    session-IsShownOf :
        (rounds s : ℕ) (pair : Location × Fetch UserInfo)
        → Always (IsShownOf pair.1) (session rounds s pair)
    unfolding session
    session-IsShownOf rounds s (url, user) =
        map_fold-Always fold_sealed (state_to_ui_and_action dispatched) (IsOf user)
          (fold_sealed-IsKept user) (IsShownOf user) (λ time state h. h) rounds s
          (seal_state (new_state J (feed s) url user))
          (seal_state-IsOf user _ (fetched_user-new_state J (feed s) url user))

    session-IsShown :
        (rounds s : ℕ) (pair : Location × Fetch UserInfo) → Always IsShown (session rounds s pair)
    session-IsShown rounds s pair =
        let (first, later) = session-IsShownOf rounds s pair in
        (IsShownOf-IsShown pair.1 _ first, Each-IsShown pair.1 _ later)

    at-session :
        (rounds s : ℕ) (pair : Location × Fetch UserInfo) (t : ℕ)
        → IsShownOf pair.1 (at (session rounds s pair) t)
    at-session rounds s pair t =
        let (first, later) = session-IsShownOf rounds s pair in
        now-Each (IsShownOf pair.1) _ _ t first later

    never_rejected :
        (rounds : ℕ) (both : Watchable (Location × Fetch UserInfo))
        → up_to_rejection (switch_map (session rounds) 0 both).next
          ≡ (switch_map (session rounds) 0 both).next
    never_rejected rounds both =
        up_to_rejection_lem _
          (switch_map-Each (session rounds) IsShown (session-IsShown rounds) 0 both)

    -- If what is dispatched is offered by the view of the state that is shown, then whatever the games
    -- do, nothing rejects, and at every time the client shows a state of the user who is then signed
    -- in, and one of nobody while nobody is or while that is not known.
    pub app-IsOf :
        (rounds : ℕ) (url_bar : Watchable Location) (auth_state : Watchable (Fetch UserInfo))
        (t : ℕ)
        → (state : State (Watchable FetchedGame)) × (at (app rounds url_bar auth_state) t
            ≡ some state)
          × (fetched_user_from_state state ≡ at auth_state t)
    unfolding app
    app-IsOf rounds url_bar auth_state t =
        let both = combine url_bar auth_state in
        let switched = switch_map (session rounds) 0 both in
        let held =
          latest-Shows (session rounds) (λ pair shown. IsShownOf pair.1 shown) (at-session rounds)
            both.value (session rounds 0 both.value) both.next t
            (at-session rounds 0 both.value t) in
        let (state, shown, user) = is_shown_of _ _ held in
        (
          state,
          ap (λ next. now switched.value next t) (never_rejected rounds both)
              ∙ at-switch_map (session rounds) 0 both t
              ∙ shown,
          user ∙ ap (λ pair. pair.1) (at-combine url_bar auth_state t),
        )
