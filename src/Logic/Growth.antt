-- ===== src/Logic/Growth.antt =====
-- How the games before and after a handler of be/logic/src/main.rs compare: the other games, and
-- the players, window, length and story of a started one.
use pictophone.Base.{
  ◌≡◌, refl, sym, ap, ◌∙◌, inl, inr, String, str_eq, eq_iff, Option, none, some, List, [], ◌∷◌,
  ◌++◌, arith, Bool-cases,
}
use mathlib.Core.List.{append-nil, append_assoc}
use pictophone.Base.Outcome.{Outcome, ok, ok_or, >>=-eq-ok}
use pictophone.Base.Map.{lookup, insert, lookup-insert, or_default}
use pictophone.Messages.{CreateGameRequest, JoinGameRequest, StartGameRequest, MakeMoveRequest}
use pictophone.Logic.{
  StartedGame, Game, unstarted, started, State, default_game, default_state, make_started_move,
  game_make_move, create_game, join_found, join_game, start_found, start_game, make_move,
}

-- A later stage of the same game.
abbrev pub Continues : StartedGame → StartedGame → Type 0
Continues g h =
    (h.players ≡ g.players)
    × (h.window_size ≡ g.window_size)
    × (h.length ≡ g.length)
    × ((more : List String) × (h.sentences ≡ g.sentences ++ more))

-- What may become of a game: an unstarted one is free, a started one continues.
abbrev pub GameGrows : Game → Option Game → Type 0
GameGrows (unstarted players) later = Unit {0}
GameGrows (started g) none = ⊥
GameGrows (started g) (some (unstarted players)) = ⊥
GameGrows (started g) (some (started h)) = Continues g h

-- Every started game of the first state continues in the second.
abbrev pub Grows : State → State → Type 0
Grows s t = (k : String) (g : Game) → lookup k s.games ≡ some g → GameGrows g (lookup k t.games)

-- What stands under a name, with the default that the handlers put there.
abbrev pub game_at : String → Option State → Game
game_at k state = or_default default_game (lookup k (or_default default_state state).games)

-- `t` is `s` with one game put in place of what stood under its name, of which it is a later
-- stage.
abbrev pub Puts : String → Option State → State → Type 0
Puts k state t =
    (game : Game) × (t ≡ record { games = insert k game (or_default default_state state).games })
    × GameGrows (game_at k state) (some game)

-- A handler that returns a new state puts back the one game that its request names.
abbrev pub Touches : {E : Type 0} → String → Option State → Outcome E (Option State) → Type 0
Touches k state r = (t : State) → r ≡ ok (some t) → Puts k state t

-- An unstarted game is free to become anything.
grows_unstarted :
    (game : Game) (players : List String) (next : Option Game)
    → game ≡ unstarted players
    → GameGrows game next
grows_unstarted game players next e = rw e tt

grows_missing :
    (k : String) (state : Option State) (next : Option Game)
    → lookup k (or_default default_state state).games ≡ none
    → GameGrows (game_at k state) next
grows_missing k state next e = rw e tt

create_game_inv :
    (state : Option State) (request : CreateGameRequest) (t : State)
    → create_game state request ≡ ok (some t)
    → let s = or_default default_state state in
      (lookup request.game_id s.games ≡ none)
      × (t ≡ record { games = insert request.game_id default_game s.games })
unfolding create_game
create_game_inv state request t e = (ground arith, ground arith)

pub create_game-Touches :
    (state : Option State) (request : CreateGameRequest)
    → Touches request.game_id state (create_game state request)
create_game-Touches state request t e =
    let (missing, same) = create_game_inv state request t e in
    (default_game, same, grows_missing request.game_id state _ missing)

join_found_inv :
    (s : State) (request : JoinGameRequest) (game : Game) (t : State)
    → join_found s request game ≡ ok (some t)
    → (players : List String) × (game ≡ unstarted players)
      × (t ≡ record {
        games = insert request.game_id (unstarted (players ++ (request.player_id ∷ []))) s.games;
      })
unfolding join_found
join_found_inv s request (started g) t e = cc
join_found_inv s request (unstarted players) t e = (players, refl, ground arith)

pub join_game-Touches :
    (state : Option State) (request : JoinGameRequest)
    → Touches request.game_id state (join_game state request)
unfolding join_game
join_game-Touches state request t e =
    let s = or_default default_state state in
    let (game, found, joined) = >>=-eq-ok (ok_or (lookup request.game_id s.games) _) _ e in
    let (players, was, same) = join_found_inv s request game t joined in
    let at : game_at request.game_id state ≡ unstarted players = ground arith in
    (unstarted (players ++ (request.player_id ∷ [])), same, grows_unstarted _ players _ at)

start_found_inv :
    (request : StartGameRequest) (game : Game) (g : StartedGame)
    → start_found request game ≡ ok g
    → (players : List String) × (game ≡ unstarted players)
unfolding start_found
start_found_inv request (started h) g e = cc
start_found_inv request (unstarted players) g e = (players, refl)

pub start_game-Touches :
    (state : Option State) (request : StartGameRequest)
    → Touches request.game_id state (start_game state request)
unfolding start_game
start_game-Touches state request t e =
    let (g, found, put) = >>=-eq-ok (start_found request (game_at request.game_id state)) _ e in
    let (players, was) = start_found_inv request _ g found in
    (started g, cc put, grows_unstarted _ players _ was)

make_started_move_inv :
    (g : StartedGame) (request : MakeMoveRequest) (next : Game)
    → make_started_move g request ≡ ok next
    → next ≡ started (record g { sentences = g.sentences ++ (request.sentence ∷ []) })
unfolding make_started_move
make_started_move_inv g request next e = ground arith

game_make_move-GameGrows :
    (game : Game) (request : MakeMoveRequest) (next : Game)
    → game_make_move game request ≡ ok next
    → GameGrows game (some next)
unfolding game_make_move
game_make_move-GameGrows (unstarted players) request next e = cc
game_make_move-GameGrows (started g) request next e =
    rw (make_started_move_inv g request next e) (refl, refl, refl, (request.sentence ∷ [], refl))

pub make_move-Touches :
    (state : Option State) (request : MakeMoveRequest)
    → Touches request.game_id state (make_move state request)
unfolding make_move
make_move-Touches state request t e =
    let (game, made, put) =
      >>=-eq-ok (game_make_move (game_at request.game_id state) request) _ e in
    (game, cc put, game_make_move-GameGrows _ request game made)

pub GameGrows-refl : (g : Game) → GameGrows g (some g)
GameGrows-refl (unstarted players) = tt
GameGrows-refl (started g) = (refl, refl, refl, ([], sym (append-nil g.sentences)))

subst_game : (g h next : Game) → g ≡ h → GameGrows g (some next) → GameGrows h (some next)
subst_game g h next e grown = rw e at grown

-- Putting a later stage of one game in its place lets every game grow.
pub Puts-Grows :
    (k : String) (state : Option State) (t : State)
    → Puts k state t
    → Grows (or_default default_state state) t
Puts-Grows k state t (game, e, grown) j g found =
    let s = or_default default_state state in
    let at = ap (λ (u : State). lookup j u.games) e ∙ lookup-insert k j game s.games in
    elim (Bool-cases (str_eq k j)) [
      | inl same ↦
          rw (at, same) (subst_game (game_at k state) g game (ground (arith, eq_iff k j)) grown)
      | inr other ↦ rw (at, other, found) (GameGrows-refl g)
    ]

Continues-trans : (g h k : StartedGame) → Continues g h → Continues h k → Continues g k
Continues-trans g h k a b = (
  b.0 ∙ a.0,
  b.1 ∙ a.1,
  b.2 ∙ a.2,
  (a.3.0 ++ b.3.0, b.3.1 ∙ rw a.3.1 (append_assoc g.sentences a.3.0 b.3.0)),
)

GameGrows-trans :
    (g h : Game) (later : Option Game)
    → GameGrows g (some h)
    → GameGrows h later
    → GameGrows g later
GameGrows-trans (unstarted players) h later a b = tt
GameGrows-trans (started g) (unstarted players) later a b = absurd a
GameGrows-trans (started g) (started h) none a b = b
GameGrows-trans (started g) (started h) (some (unstarted players)) a b = b
GameGrows-trans (started g) (started h) (some (started k)) a b = Continues-trans g h k a b

GameGrows-step :
    (g : Game) (middle later : Option Game)
    → GameGrows g middle
    → ((h : Game) → middle ≡ some h → GameGrows h later)
    → GameGrows g later
GameGrows-step (unstarted players) middle later a b = tt
GameGrows-step (started g) none later a b = absurd a
GameGrows-step (started g) (some h) later a b = GameGrows-trans (started g) h later a (b h refl)

pub Grows-refl : (s : State) → Grows s s
Grows-refl s k g found = rw found (GameGrows-refl g)

pub Grows-trans : (s t u : State) → Grows s t → Grows t u → Grows s u
Grows-trans s t u a b k g found =
    GameGrows-step g (lookup k t.games) (lookup k u.games) (a k g found) (λ h e. b k h e)
