-- ===== src/Logic/Invariant.antt =====
-- The validity of the games that be/logic/src/main.rs keeps, and its handlers on valid games.
use pictophone.Base.{
  ◌%◌, ◌^◌, ◌≤◌, ◌<◌, ◌≡◌, ◌≢◌, inl, inr, String, Option, none, some, [], ◌∷◌, arith, length,
  get_elem?_total, length-append, contains, IsDistinct, IsDistinct-append, Bool-cases, Option-cases,
  mod_in_range,
}
use pictophone.Base.Outcome.{Outcome, ok, err, panic, ◌>>=◌, Outcome-cases}
use pictophone.Base.Map.{lookup, lookup-nil, lookup-insert-some, insert, or_default}
use pictophone.Messages.{
  CreateGameRequest, JoinGameRequest, StartGameRequest, MakeMoveRequest, MakeMoveError,
  GetGameRequest, GetGameError,
}
use pictophone.Logic.{
  StartedGame, Game, unstarted, started, State, default_game, default_state, active_player,
  make_started_move, game_make_move, create_game, join_found, join_game, start_found, start_game,
  make_move, view_started, view_game, get_game,
}

-- A started game has players, and holds at most as many sentences as its length allows.
pub record IsPlayable (g : StartedGame) : Type 0 where
  pub has_players : 0 < length g.players
  pub within : length g.sentences ≤ g.length
  pub in_u32 : g.length < 2 ^ 32
  pub distinct : IsDistinct g.players

abbrev pub IsValidGame : Game → Type 0
IsValidGame (unstarted players) = IsDistinct players
IsValidGame (started g) = IsPlayable g

pub record IsValid (s : State) : Type 0 where
  pub each : (k : String) (g : Game) → lookup k s.games ≡ some g → IsValidGame g

-- `None` stands for the state with no games.
abbrev pub IsValidStore : Option State → Type 0
IsValidStore none = Unit {0}
IsValidStore (some s) = IsValid s

-- What a handler's result must satisfy: a new state, if there is one, is valid; no panic.
abbrev pub Keeps : {E : Type 0} → Outcome E (Option State) → Type 0
Keeps (ok state) = IsValidStore state
Keeps (err e) = Unit {0}
Keeps panic = ⊥

-- The same for what becomes of one game.
abbrev pub KeepsGame : {E : Type 0} → Outcome E Game → Type 0
KeepsGame (ok g) = IsValidGame g
KeepsGame (err e) = Unit {0}
KeepsGame panic = ⊥

pub default_state-IsValid : IsValid default_state
default_state-IsValid = record { each = λ k g h. absurd (false_some k g h) }
  where
    false_some : (k : String) (g : Game) → lookup k [] ≡ some g → ⊥
    false_some k g h = cc (lookup-nil {V = Game} k)

pub or_default-IsValid :
    (state : Option State) → IsValidStore state → IsValid (or_default default_state state)
or_default-IsValid none v = default_state-IsValid
or_default-IsValid (some s) v = v

pub found-IsValidGame :
    (s : State)
    → IsValid s
    → (k : String) → IsValidGame (or_default default_game (lookup k s.games))
found-IsValidGame s v k = elim (Option-cases (lookup k s.games)) [
  | inl e ↦ rw e tt
  | inr (g, e) ↦ rw e (v.each k g e)
]

pub insert-IsValid :
    (s : State) (k : String) (g : Game)
    → IsValid s
    → IsValidGame g
    → IsValid (record { games = insert k g s.games })
insert-IsValid s k g v vg = record {
  each = λ j h e. elim (lookup-insert-some k j g s.games e) [
    | inl new ↦ rw new vg
    | inr old ↦ v.each j h old
  ];
}

-- The rounds of a playable game are counted by a `u32`, and somebody's turn it is.
pub active_player_total :
    {E : Type 0} (g : StartedGame) → IsPlayable g → (p : String) × (active_player {E = E} g ≡ ok p)
unfolding active_player
active_player_total g v =
    let (p, e) =
      get_elem?_total g.players (length g.sentences % length g.players)
        (mod_in_range (length g.sentences) (length g.players) v.has_players) in
    (p, ground arith)

pub create_game-Keeps :
    (state : Option State) (request : CreateGameRequest)
    → IsValidStore state
    → Keeps (create_game state request)
unfolding create_game
create_game-Keeps state request v = ground (
  arith,
  insert-IsValid (or_default default_state state) request.game_id default_game
      (or_default-IsValid state v) tt,
)

join_found-Keeps :
    (s : State) (request : JoinGameRequest) (g : Game)
    → IsValid s
    → IsValidGame g
    → Keeps (join_found s request g)
unfolding join_found
join_found-Keeps s request (started g) v vg = tt
join_found-Keeps s request (unstarted players) v vg =
    elim (Bool-cases (contains players request.player_id)) [
      | inl old ↦ rw old tt
      | inr new ↦ rw new (insert-IsValid s _ _ v (IsDistinct-append players _ vg new))
    ]

pub join_game-Keeps :
    (state : Option State) (request : JoinGameRequest)
    → IsValidStore state
    → Keeps (join_game state request)
unfolding join_game
join_game-Keeps state request v =
    let s = or_default default_state state in
    let vs : IsValid s = or_default-IsValid state v in
    elim (Option-cases (lookup request.game_id s.games)) [
      | inl e ↦ rw e tt
      | inr (g, e) ↦ rw e (join_found-Keeps s request g vs (vs.each _ g e))
    ]

-- A game starts only with players.
start_found-IsPlayable :
    (request : StartGameRequest) (game : Game) {g : StartedGame}
    → request.length < 2 ^ 32
    → IsValidGame game
    → start_found request game ≡ ok g
    → IsPlayable g
unfolding start_found
start_found-IsPlayable request (started g) h vg e = cc
start_found-IsPlayable request (unstarted []) h vg e = ground arith
start_found-IsPlayable request (unstarted (p ∷ ps)) h vg e = ground arith

start_found-ne-panic : (request : StartGameRequest) (game : Game) → start_found request game ≢ panic
unfolding start_found
start_found-ne-panic request (started g) = ground arith
start_found-ne-panic request (unstarted players) = ground arith

pub start_game-Keeps :
    (state : Option State) (request : StartGameRequest)
    → IsValidStore state
    → request.length < 2 ^ 32
    → Keeps (start_game state request)
unfolding start_game
start_game-Keeps state request v h =
    let s = or_default default_state state in
    let vs : IsValid s = or_default-IsValid state v in
    let game = or_default default_game (lookup request.game_id s.games) in
    elim (Outcome-cases (start_found request game) (start_found-ne-panic request game)) [
      | inl (e, failed) ↦ rw failed tt
      | inr (g, started_now) ↦ rw started_now (
          insert-IsValid s _ _ vs
            (start_found-IsPlayable request game h (found-IsValidGame s vs _) started_now))
    ]

-- A move keeps a started game playable, and does not panic.
pub make_started_move-IsPlayable :
    (g : StartedGame) (request : MakeMoveRequest)
    → IsPlayable g
    → KeepsGame (make_started_move g request)
unfolding make_started_move
make_started_move-IsPlayable g request v =
    let (p, e) = active_player_total {E = MakeMoveError} g v in
    rw e (ground (arith, length-append g.sentences (request.sentence ∷ [])))

game_make_move-IsValidGame :
    (game : Game) (request : MakeMoveRequest)
    → IsValidGame game
    → KeepsGame (game_make_move game request)
unfolding game_make_move
game_make_move-IsValidGame (unstarted players) request v = tt
game_make_move-IsValidGame (started g) request v = make_started_move-IsPlayable g request v

-- The last step of `make_move`: the game is put back.
after_move :
    (s : State) (request : MakeMoveRequest)
    → IsValid s
    → (r : Outcome MakeMoveError Game) → KeepsGame r
    → Keeps (r >>= λ game'. ok (some (record { games = insert request.game_id game' s.games })))
after_move s request v (ok game) k = insert-IsValid s _ game v k
after_move s request v (err e) k = tt
after_move s request v panic k = k

pub make_move-Keeps :
    (state : Option State) (request : MakeMoveRequest)
    → IsValidStore state
    → Keeps (make_move state request)
unfolding make_move
make_move-Keeps state request v =
    let s = or_default default_state state in
    let vs : IsValid s = or_default-IsValid state v in
    let game = or_default default_game (lookup request.game_id s.games) in
    after_move s request vs (game_make_move game request)
      (game_make_move-IsValidGame game request (found-IsValidGame s vs request.game_id))

-- The view of a playable game is computed without a panic.
pub view_started-ne-panic :
    (g : StartedGame) (player : String) → IsPlayable g → view_started g player ≢ panic
unfolding view_started
view_started-ne-panic g player v =
    let (p, e) = active_player_total {E = GetGameError} g v in rw e (ground arith)

view_game-ne-panic :
    (game : Game) (player : String) → IsValidGame game → view_game game player ≢ panic
unfolding view_game
view_game-ne-panic (unstarted players) player v = ground arith
view_game-ne-panic (started g) player v = view_started-ne-panic g player v

pub get_game-ne-panic :
    (state : Option State) (request : GetGameRequest)
    → IsValidStore state
    → get_game state request ≢ panic
unfolding get_game
get_game-ne-panic state request v =
    let s = or_default default_state state in
    view_game-ne-panic _ request.player_id
      (found-IsValidGame s (or_default-IsValid state v) request.game_id)
