-- ===== src/Fe/App/Feeds/Shown.antt =====
-- What the client of fe/src/App.tsx sees of the events of its streams at each time.
use pictophone.Base.{
  ℕ, Bool, true, false, Option, none, some, List, [], ◌∷◌, leb, if◌then◌else◌, ◌≡◌, refl, ◌∙◌,
  arith,
}
use pictophone.Pb.Runtime.{Jspb}
use pictophone.Pb.GetGameResponse
use pictophone.Fe.App.{UserInfo, Fetch, FetchedGame}
use pictophone.Fe.App.Feeds.{Event, error, data_of, end, handle_events, watch_events, fetched_user}
use pictophone.Fe.Watch.Timeline.{now, at, pushed, at-from_iterable}

-- The events up to the first that comes after a time.
abbrev pub until : {M : Type 0} → ℕ → List (ℕ × M) → List M
until t [] = []
until t ((time, e) ∷ events) = if leb time t then e ∷ until t events else []

abbrev pub is_closed : {M : Type 0} → List (Event M) → Bool
is_closed [] = false
is_closed (error ∷ events) = true
is_closed (data_of d ∷ events) = is_closed events
is_closed (end ∷ events) = true

-- The last message of some events.
abbrev pub last_data : {M : Type 0} → Option M → List (Event M) → Option M
last_data last [] = last
last_data last (data_of d ∷ events) = last_data (some d) events
last_data last (error ∷ events) = last_data last events
last_data last (end ∷ events) = last_data last events

abbrev pub last_user : Option (Option UserInfo) → List (Option UserInfo) → Option (Option UserInfo)
last_user last [] = last
last_user last (user ∷ users) = last_user (some user) users

module _ (J : Jspb) where
  abbrev pub shown : Option J.Message → FetchedGame
  shown none = FetchedGame.loading
  shown (some d) = FetchedGame.ready (GetGameResponse.to_object J d)

  now-handle_events :
      (last : Option J.Message) (events : List (ℕ × Event J.Message)) (t : ℕ)
      → now (shown last) (pushed (handle_events J events)) t ≡ (
          if is_closed (until t events)
          then FetchedGame.disconnected
          else shown (last_data last (until t events)))
  unfolding handle_events
  now-handle_events last [] t = refl
  now-handle_events last ((time, error) ∷ events) t = ground arith
  now-handle_events last ((time, data_of d) ∷ events) t =
      ground (arith, now-handle_events (some d) events t)
  now-handle_events last ((time, end) ∷ events) t = ground arith

  -- At every time a watched game is disconnected if an error or the end has come by then, whatever
  -- comes after that; otherwise it is the last response that has come, or loading before the first.
  pub at-watch_events :
      (events : List (ℕ × Event J.Message)) (t : ℕ)
      → at (watch_events J events) t ≡ (
          if is_closed (until t events)
          then FetchedGame.disconnected
          else shown (last_data none (until t events)))
  unfolding watch_events
  at-watch_events events t =
      at-from_iterable FetchedGame.loading (handle_events J events) t
      ∙ now-handle_events none events t

abbrev pub reported : Option (Option UserInfo) → Fetch UserInfo
reported none = Fetch.loading
reported (some user) = fetched_user user
