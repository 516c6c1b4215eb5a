-- ===== src/Handler/Tests.antt =====
-- Concrete requests to the dispatch of be/logic/src/handler.rs.
use pictophone.Base.{◌≡◌, refl, Option, none, some, [], ◌∷◌, arith}
use pictophone.Base.Outcome.{ok}
use pictophone.Base.Map.{lookup, insert}
use pictophone.Logic
use pictophone.Logic.Invariant.{IsValidStore, default_state-IsValid, insert-IsValid}
use pictophone.Handler.{
  impl, ActionRequest, ActionResponse, QueryResponse, create_game_request, start_game_request,
  create_game_response, make_move_request, make_move_response, handle_method, handle_parsed_action,
  handle_parsed_query,
}
use pictophone.Handler.Dispatch.{KeepsStore, handle_parsed_action_total, handle_parsed_query_total}
use pictophone.Handler.Reach.{
  act, Reach, here, after, Reach-IsValidStore, StoreGrows, Reach-StoreGrows,
}

abbrev lobby : Option Logic.State
lobby = some (record { games = insert "tale" (Logic.unstarted ("ann" ∷ [])) [] })

lobby-IsValid : IsValidStore lobby
lobby-IsValid = insert-IsValid Logic.default_state "tale" _ default_state-IsValid (refl, tt)

abbrev start : ActionRequest
start = record {
  method = some (
      start_game_request
        (record { game_id = "tale"; player_id = "ann"; window_size = 2; length = 5 }));
}

abbrev create : ActionRequest
create = record {
  method = some (create_game_request (record { game_id = "tale"; player_id = "ann" }));
}

handle_parsed_action_total_example : KeepsStore (handle_parsed_action impl lobby start)
handle_parsed_action_total_example =
    handle_parsed_action_total lobby start lobby-IsValid (omega arith)

handle_parsed_query_total_example :
    (response : QueryResponse) × (handle_parsed_query impl lobby
        (record { method = some (record { game_id = "tale"; player_id = "eve" }) })
      ≡ ok response)
handle_parsed_query_total_example = handle_parsed_query_total lobby _ lobby-IsValid (λ e. cc)

abbrev created_response : ActionResponse
created_response = record { method = some (create_game_response (record { error = none })) }

abbrev created : Option Logic.State
created = some (record { games = insert "tale" Logic.default_game [] })

create_accepted : handle_parsed_action impl none create ≡ ok (created, created_response)
unfolding handle_parsed_action handle_method Logic.create_game lookup
create_accepted = refl

created-Reach : Reach none created
created-Reach = after here (act create created created_response tt create_accepted refl)

Reach-IsValidStore_example : IsValidStore created
Reach-IsValidStore_example = Reach-IsValidStore created-Reach

abbrev tale : Logic.StartedGame
tale = record { players = "ann" ∷ "bob" ∷ []; window_size = 1; length = 4; sentences = "once" ∷ [] }

abbrev before : Option Logic.State
before = some (record { games = insert "tale" (Logic.started tale) [] })

abbrev later : Option Logic.State
later = some (record {
  games = insert "tale" (Logic.started (record tale { sentences = "once" ∷ "upon" ∷ [] })) [];
})

abbrev move : ActionRequest
move = record {
  method =
      some (make_move_request (record { game_id = "tale"; player_id = "bob"; sentence = "upon" }));
}

abbrev moved : ActionResponse
moved = record { method = some (make_move_response (record { error = none })) }

move_accepted : handle_parsed_action impl before move ≡ ok (later, moved)
unfolding handle_parsed_action handle_method Logic.make_move Logic.game_make_move
    Logic.make_started_move Logic.active_player lookup insert
move_accepted = refl

Reach-StoreGrows_example : StoreGrows before later
Reach-StoreGrows_example =
    Reach-StoreGrows (after here (act move later moved tt move_accepted refl))
