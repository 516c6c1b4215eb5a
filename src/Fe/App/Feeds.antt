-- ===== src/Fe/App/Feeds.antt =====
-- Where the watched values of fe/src/App.tsx come from: the events of the stream of `getGame`, the
-- users that firebase reports, and the address bar; and those of the class `Nav` of
-- fe/src/navigation.ts. A sink of the package ix yields what was written to it up to its end.
pub mod Shown
pub mod Bar
use pictophone.Base.{ℕ, String, Option, none, some, List, [], ◌∷◌}
use pictophone.Pb.Runtime.{Jspb}
use pictophone.Pb.GetGameResponse
use pictophone.Fe.Navigation.{Location, parse_location, serialize_location}
use pictophone.Fe.App.{UserInfo, Fetch, FetchedGame}
use pictophone.Fe.Watch.{Watchable, from_iterator, from_iterable}

-- What a `ClientReadableStream` calls its handlers for.
pub data Event (M : Type 0) : Type 0 where
  error : Event M
  data_of : M → Event M
  end : Event M

module _ (J : Jspb) where
  -- What the handlers write to the sink; `none` ends it.
  pub handle_events : List (ℕ × Event J.Message) → List (ℕ × Option FetchedGame)
  handle_events [] = []
  handle_events ((time, error) ∷ events) =
      (time, some FetchedGame.disconnected) ∷ ((time, none) ∷ handle_events events)
  handle_events ((time, data_of d) ∷ events) =
      (time, some (FetchedGame.ready (GetGameResponse.to_object J d))) ∷ handle_events events
  handle_events ((time, end) ∷ events) =
      (time, some FetchedGame.disconnected) ∷ ((time, none) ∷ handle_events events)

  -- `getGame` from the call of the backend on.
  pub watch_events : List (ℕ × Event J.Message) → Watchable FetchedGame
  unfolding handle_events
  watch_events events = from_iterable (handle_events events) FetchedGame.loading

abbrev pub fetched_user : Option UserInfo → Fetch UserInfo
fetched_user none = Fetch.unavailable
fetched_user (some user) = Fetch.ready user

pub on_auth_state_changed : List (ℕ × Option UserInfo) → List (ℕ × Option (Fetch UserInfo))
on_auth_state_changed [] = []
on_auth_state_changed ((time, user) ∷ users) =
    (time, some (fetched_user user)) ∷ on_auth_state_changed users

-- `watchableAuthState`, from the users that firebase reports.
pub watchable_auth_state : List (ℕ × Option UserInfo) → Watchable (Fetch UserInfo)
unfolding on_auth_state_changed
watchable_auth_state users = from_iterable (on_auth_state_changed users) Fetch.loading

-- The later values of `watchableUrlBar`, from the paths at the events `popstate`.
pub on_popstate : List (ℕ × String) → List (ℕ × Location)
on_popstate [] = []
on_popstate ((time, pathname) ∷ pops) = (time, parse_location pathname) ∷ on_popstate pops

pub watchable_url_bar : String → List (ℕ × String) → Watchable Location
unfolding on_popstate
watchable_url_bar pathname pops = record {
  value = parse_location pathname;
  next = on_popstate pops;
}

-- What `Nav.push` writes to the sink.
pub written_by_push : List (ℕ × Location) → List (ℕ × Option Location)
written_by_push [] = []
written_by_push ((time, location) ∷ pushes) =
    (time, some (parse_location (serialize_location location))) ∷ written_by_push pushes

-- The paths of the address bar after each `Nav.push`; `pathname` is what the browser makes of the
-- string that `history.pushState` is given.
pub pushed_paths : (String → String) → List (ℕ × Location) → List (ℕ × String)
pushed_paths pathname [] = []
pushed_paths pathname ((time, location) ∷ pushes) =
    (time, pathname (serialize_location location)) ∷ pushed_paths pathname pushes

-- `Nav.watch`, from the path at its call and the later calls of `push`.
pub watch_nav : String → List (ℕ × Location) → Watchable Location
unfolding written_by_push
watch_nav pathname pushes = from_iterator (written_by_push pushes) (parse_location pathname)
