-- ===== src/Server/Tests.antt =====
-- Concrete logs of the server (be/server/src/main.rs, datastore.rs).
use pictophone.Base.{
  false, ℕ, suc, ◌+◌, ◌≡◌, refl, ◌==◌, if◌then◌else◌, Option, none, some, List, [], ◌∷◌, ◌++◌, map,
  length, take, drop, get_elem?, arith,
}
use pictophone.Base.Outcome.{Outcome}
use pictophone.Base.Result.{Result, ok, err, values}
use pictophone.Dolt.{
  Request, action_request, query_request, Response, action_response, query_response,
}
use pictophone.Logic
use pictophone.Handler.{
  impl, ActionRequest, ActionResponse, QueryRequest, QueryResponse, handle_parsed_query,
  create_game_request, join_game_request, handle_parsed_action,
}
use pictophone.Handler.Model.{Blob, an_action, a_query, blobs, blobs-IsLawfulCodec}
use pictophone.Server.{
  ServerError, runner_failed, log_failed, fold_state, respond_to, handle_action, handle_query,
}
use pictophone.Server.Log.{fold_log, respond_to_pushed}
use pictophone.Server.Refinement.{run_logic, applied, state_after, server_answers}
use pictophone.Server.Refinement.Queries.{server_answers_queries}
use pictophone.Server.Datastore.{range, fill_in_gaps, watch_log, unwrapped, fetch_action}
use pictophone.Server.Datastore.Watch.{highest, values-fill_in_gaps, values-watch_log}
use pictophone.Server.Datastore.Cache.{
  IsCoherent, fetch_action_lem, fetch_actions, fetch_actions_lem,
}

-- A logic that adds up numbers and answers with the sum so far; it fails at 13.
abbrev sum : Request ℕ → Result ServerError (Response ℕ)
sum request = elim request.method [
  | none ↦ err runner_failed
  | some method ↦ elim method [
    | action_request a ↦ ok (record {
      method = some (
          action_response (record {
            state = some (elim a.state [ none ↦ 0 | some s ↦ s ] + a.action);
            response = elim a.state [ none ↦ 0 | some s ↦ s ] + a.action;
          }));
    })
    | query_request q ↦ ok (record {
      method = some (query_response (record { response = elim q.state [ none ↦ 0 | some s ↦ s ] }));
    })
  ]
]

respond_to_pushed_example :
    respond_to sum
      (length {A = ℕ} (1 ∷ 2 ∷ []) + 1)
      (map ok (1 ∷ 2 ∷ []) ++ (ok 4 ∷ (ok 8 ∷ err log_failed ∷ [])))
    ≡ ok 7
unfolding fold_log fold_state
respond_to_pushed_example =
    respond_to_pushed sum (1 ∷ 2 ∷ []) 4 7 (ok 8 ∷ err log_failed ∷ []) (some 3) (some 7) refl refl

abbrev create : ActionRequest
create = record {
  method = some (create_game_request (record { game_id = "tale"; player_id = "ann" }));
}

abbrev join : ActionRequest
join = record { method = some (join_game_request (record { game_id = "tale"; player_id = "ann" })) }

-- A datastore that keeps the actions in a list.
abbrev push_last : Blob → List Blob → Result ServerError ℕ × List Blob
push_last action stored = (ok (length stored + 1), stored ++ (action ∷ []))

server_answers_example :
    (next : Option Logic.State) × (response : ActionResponse) × (r : Blob) × (handle_action
        (run_logic blobs)
        push_last
        []
        (an_action join)
        (an_action create ∷ [])
      ≡ (ok r, an_action create ∷ an_action join ∷ []))
    × (blobs.decode_action_response r ≡ some response)
    × (handle_parsed_action impl (state_after none (create ∷ [])) join
        ≡ Outcome.ok (next, response))
server_answers_example =
    server_answers blobs blobs-IsLawfulCodec push_last (an_action create ∷ []) (create ∷ [])
      (an_action join) join [] refl (refl, tt, tt) refl tt

abbrev look : QueryRequest
look = record { method = some (record { game_id = "tale"; player_id = "ann" }) }

server_answers_queries_example :
    (response : QueryResponse) × (r : Blob) × (rest : List (Result ServerError Blob)) × (drop
        (length (an_action create ∷ []))
        (handle_query
          (run_logic blobs)
          (a_query look)
          (map ok (an_action create ∷ []) ++ (ok (an_action join) ∷ [])))
      ≡ ok r ∷ rest)
    × (blobs.decode_query_response r ≡ some response)
    × (handle_parsed_query impl (applied (state_after none (create ∷ [])) join) look
        ≡ Outcome.ok response)
server_answers_queries_example =
    server_answers_queries blobs blobs-IsLawfulCodec (an_action create ∷ []) (create ∷ [])
      (an_action join) join [] (a_query look) look (refl, tt, tt) refl tt refl (λ e. cc)

abbrev counts : List (Result ServerError ℕ)
counts = ok 0 ∷ ok 2 ∷ ok 1 ∷ ok 3 ∷ []

values-fill_in_gaps_example : values (fill_in_gaps counts) ≡ range 0 (highest (values counts))
values-fill_in_gaps_example = values-fill_in_gaps counts

abbrev fetch : ℕ → Result ServerError ℕ
fetch index = ok (suc index)

values-watch_log_example :
    (values (watch_log fetch counts).items ≡ take (highest (values counts)) (1 ∷ 2 ∷ 3 ∷ []))
    × ((watch_log fetch counts).panicked ≡ false)
values-watch_log_example =
    values-watch_log fetch (1 ∷ 2 ∷ 3 ∷ []) counts (refl, (refl, (refl, tt))) (omega arith)

-- The action with index 1 is not there: its fetch fails.
abbrev fetch_but_one : ℕ → Result ServerError ℕ
fetch_but_one index = if index == 1 then err log_failed else ok (suc index)

fetch_action_lem_example :
    ((fetch_action fetch_but_one 2 (Outcome.ok 1 ∷ [])).1 ≡ unwrapped (fetch_but_one 2))
    × IsCoherent fetch_but_one 0 (fetch_action fetch_but_one 2 (Outcome.ok 1 ∷ [])).0
    × (get_elem? (fetch_action fetch_but_one 2 (Outcome.ok 1 ∷ [])).0 2
        ≡ some (unwrapped (fetch_but_one 2)))
fetch_action_lem_example = fetch_action_lem fetch_but_one 2 (Outcome.ok 1 ∷ []) (refl, tt)

fetch_actions_lem_example :
    fetch_actions fetch_but_one (2 ∷ 0 ∷ 1 ∷ 2 ∷ []) []
    ≡ map (λ index. unwrapped (fetch_but_one index)) (2 ∷ 0 ∷ 1 ∷ 2 ∷ [])
fetch_actions_lem_example = fetch_actions_lem fetch_but_one (2 ∷ 0 ∷ 1 ∷ 2 ∷ [])
