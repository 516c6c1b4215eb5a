-- ===== src/Fe/Tests.antt =====
-- Concrete locations and states of the client (fe/src/navigation.ts, App.tsx).
use pictophone.Base.{
  ℕ, ◌+◌, String, Option, List, ◌≡◌, refl, true, [], ◌∷◌, none, some, if◌then◌else◌,
}
use pictophone.Base.Outcome.{is_ok}
use pictophone.Base.Map.{insert}
use pictophone.Logic
use pictophone.Logic.{unstarted, get_game}
use pictophone.Pb.MakeMoveRequest
use pictophone.Pb.StartGameRequest
use pictophone.Fe.App.Accepted.{response_of}
use pictophone.Pb.Runtime.Model.{jspb, Store, empty}
use pictophone.Fe.Navigation.{Location, game, unknown, parse_location, serialize_location}
use pictophone.Fe.Navigation.Paths.{has_slash, parse-serialize_game}
use pictophone.Fe.App.{
  UserInfo, FetchedGame, State, Action, home, create, show_game, submit, fold, game_screen, screen,
  screen_offers, view_offers,
}
use pictophone.Fe.App.Actions.{view_offers-fold}
use pictophone.Fe.Watch.{Watchable, switch_map, combine}
use pictophone.Fe.Watch.Timeline.{at, latest, at-combine, at-switch_map}
use pictophone.Fe.App.Sealed.{seal_state, present, present_at, at-seal_state}
use pictophone.Fe.App.Feeds.{Event, data_of, error, watch_events}
use pictophone.Fe.App.Feeds.Shown.{until, is_closed, last_data, shown, at-watch_events}

parse-serialize_game_example :
    parse_location (serialize_location (game "a/b"))
    ≡ (if has_slash "a/b" then unknown else game "a/b")
parse-serialize_game_example = parse-serialize_game "a/b"

abbrev ann : UserInfo
ann = record { uid = "ann" }

-- A watched game that stays as it is.
abbrev watched : FetchedGame
watched = FetchedGame.ready (record {
  unknown_error = none;
  player_not_in_game_error = none;
  game = some (record {
    player_ids_list = "ann" ∷ [];
    unstarted = none;
    your_turn = some (record { context_list = [] });
    not_your_turn = none;
    game_over = none;
  });
})

abbrev feed : Store → FetchedGame
feed request = watched

view_offers-fold_example :
    is_ok (fold jspb feed (show_game ann "tale" watched) (submit "once")) ≡ true
unfolding view_offers screen game_screen screen_offers
view_offers-fold_example =
    view_offers-fold jspb feed (λ w. w) (show_game ann "tale" watched) (submit "once") refl

-- A state of the logic in which ann has joined a game that has not started.
abbrev store : Option Logic.State
store = some (record { games = insert "tale" (unstarted ("ann" ∷ [])) [] })

abbrev page : FetchedGame
page =
    FetchedGame.ready
      (response_of (get_game store (record { game_id = "tale"; player_id = "ann" })))

abbrev letters : Watchable String
letters = record { value = "a"; next = (3, "b") ∷ (5, "c") ∷ [] }

abbrev digits : Watchable ℕ
digits = record { value = 0; next = (1, 1) ∷ (3, 2) ∷ (9, 3) ∷ [] }

at-combine_example : at (combine letters digits) 4 ≡ (at letters 4, at digits 4)
at-combine_example = at-combine letters digits 4

-- A watched value that is made at a time shows the text, and two units later another.
abbrev made : ℕ → String → Watchable String
made time text = record { value = text; next = (time + 2, "late") ∷ [] }

at-switch_map_example : at (switch_map made 0 letters) 4 ≡ latest made (made 0 "a") letters.next 4
at-switch_map_example = at-switch_map made 0 letters 4

abbrev tale : Watchable FetchedGame
tale = record {
  value = FetchedGame.loading;
  next = (2, watched) ∷ (7, FetchedGame.disconnected) ∷ [];
}

at-seal_state_example :
    present (at (seal_state (show_game ann "tale" tale)) 5)
    ≡ present_at 5 (show_game ann "tale" tale)
at-seal_state_example = at-seal_state (show_game ann "tale" tale) 5

abbrev url_bar : Watchable Location
url_bar = record { value = Location.home; next = (6, game "tale") ∷ [] }

-- Three units after the page for a new game is shown, its user creates one.
abbrev dispatched : ℕ → State (Watchable FetchedGame) → Option (ℕ × Action)
dispatched t (home user) = some (t + 3, create "tale")
dispatched t state = none

abbrev users : List (ℕ × Option UserInfo)
users = (1, some ann) ∷ (9, none) ∷ []

-- A response, an error, and an end that comes after it.
abbrev events : List (ℕ × Event Store)
events = (2, data_of empty) ∷ (4, error) ∷ (4, Event.end) ∷ []

at-watch_events_example : at (watch_events jspb events) 3 ≡ (
    if is_closed (until 3 events)
    then FetchedGame.disconnected
    else shown jspb (last_data none (until 3 events)))
at-watch_events_example = at-watch_events jspb events 3

abbrev pushes : List (ℕ × Location)
pushes = (1, game "tale") ∷ (4, unknown) ∷ []
