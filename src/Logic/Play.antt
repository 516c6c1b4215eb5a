-- ===== src/Logic/Play.antt =====
-- A whole game: the moves that a started game of be/logic/src/main.rs accepts, in a row.
use pictophone.Base.{
  ℕ, suc, ◌+◌, ◌%◌, ◌≤◌, ◌<◌, ◌≡◌, sym, ◌∙◌, String, eq_iff, some, List, [], ◌∷◌, ◌++◌, map, arith,
  length, get_elem?, length-append,
}
use mathlib.Core.List.{append_assoc, append-nil}
use pictophone.Base.Outcome.{Outcome, ok, ◌>>=◌, >>=-eq-ok}
use pictophone.Messages.{MakeMoveRequest, MakeMoveError}
use pictophone.Logic.{StartedGame, Game, started, game_make_move}
use pictophone.Logic.Invariant.{IsPlayable}
use pictophone.Logic.Turns.{IsTurnOf, turn_total, written, make_started_move_lem}

-- Moves in a row, up to the first that fails.
unfoldable pub submit_all : Game → List MakeMoveRequest → Outcome MakeMoveError Game
submit_all game [] = ok game
submit_all game (m ∷ ms) = game_make_move game m >>= λ game'. submit_all game' ms

-- The sentences of the moves, in order.
abbrev pub sentences_of : List MakeMoveRequest → List String
sentences_of = map (λ m. m.sentence)

-- The moves are made by the players in turn, from the given round on.
abbrev pub InTurn : List String → ℕ → List MakeMoveRequest → Type 0
InTurn players round [] = Unit {0}
InTurn players round (m ∷ ms) =
    (get_elem? players (round % length players) ≡ some m.player_id) × InTurn players (suc round) ms

-- The game with further sentences.
abbrev pub extended : StartedGame → List String → StartedGame
extended g more = record g { sentences = g.sentences ++ more }

-- One move by the right player, in time, is accepted.
accepted :
    (g : StartedGame) (m : MakeMoveRequest)
    → IsPlayable g
    → IsTurnOf g m.player_id
    → length g.sentences < g.length
    → game_make_move (started g) m ≡ ok (started (written g m.sentence))
unfolding game_make_move
accepted g m v t h =
    rw (make_started_move_lem g m.player_id m v t) (ground (arith, eq_iff m.player_id m.player_id))

-- An accepted move was made in time, by the right player.
accepted_only :
    (g : StartedGame) (m : MakeMoveRequest) (game : Game)
    → IsPlayable g
    → game_make_move (started g) m ≡ ok game
    → IsTurnOf g m.player_id
      × (length g.sentences < g.length)
      × (game ≡ started (written g m.sentence))
unfolding game_make_move
accepted_only g m game v e =
    let (p, t) = turn_total g v in
    let f = sym (make_started_move_lem g p m v t) ∙ e in
    (ground (arith, eq_iff p m.player_id), ground arith, ground arith)

written-IsPlayable :
    (g : StartedGame) (sentence : String)
    → IsPlayable g
    → length g.sentences < g.length
    → IsPlayable (written g sentence)
written-IsPlayable g sentence v h = record {
  has_players = v.has_players;
  within = omega (arith, length-append g.sentences (sentence ∷ []));
  in_u32 = v.in_u32;
  distinct = v.distinct;
}

-- The next round.
length-written :
    (g : StartedGame) (sentence : String)
    → length (written g sentence).sentences ≡ suc (length g.sentences)
length-written g sentence = omega (arith, length-append g.sentences (sentence ∷ []))

-- Moves made in turn, at most as many as the game has left, are all accepted and add their
-- sentences to the story in order.
pub submit_all-InTurn :
    (g : StartedGame) (ms : List MakeMoveRequest)
    → IsPlayable g
    → InTurn g.players (length g.sentences) ms
    → length g.sentences + length ms ≤ g.length
    → submit_all (started g) ms ≡ ok (started (extended g (sentences_of ms)))
unfolding submit_all
submit_all-InTurn g [] v t h = rw append-nil
submit_all-InTurn g (m ∷ ms) v t h =
    let next = length-written g m.sentence in
    rw (accepted g m v t.0 (omega arith)) (
      submit_all-InTurn (written g m.sentence) ms (written-IsPlayable g m.sentence v (omega arith))
        (rw next t.1) (omega arith)
      ∙ rw (append_assoc g.sentences (m.sentence ∷ []) (sentences_of ms)))

-- Of a playable game every accepted row of moves was made in turn, is no longer than the game
-- had left, and added exactly its sentences in order.
pub submit_all-accepts_only :
    (g : StartedGame) (ms : List MakeMoveRequest) (game : Game)
    → IsPlayable g
    → submit_all (started g) ms ≡ ok game
    → InTurn g.players (length g.sentences) ms
      × (length g.sentences + length ms ≤ g.length)
      × (game ≡ started (extended g (sentences_of ms)))
unfolding submit_all
submit_all-accepts_only g [] game v e =
    (tt, omega (arith, v.within), rw (append-nil g.sentences) (cc))
submit_all-accepts_only g (m ∷ ms) game v e =
    let (next, made, rest) = >>=-eq-ok (game_make_move (started g) m) _ e in
    let (t, h, same) = accepted_only g m next v made in
    let more =
      submit_all-accepts_only (written g m.sentence) ms game (written-IsPlayable g m.sentence v h)
        (rw same at rest) in
    let count = length-written g m.sentence in
    (
      (t, rw count at more.0),
      omega (arith, more.1),
      more.2 ∙ rw (append_assoc g.sentences (m.sentence ∷ []) (sentences_of ms)),
    )
