-- ===== src/Server.antt =====
-- be/server/src/main.rs: the server keeps a log of actions and has no state but what the logic
-- makes of that log. Streams are lists of results; what the runner does with a request (the WASM
-- module that be/server/src/runner.rs loads) is the parameter `run`, for the version of a request.
pub mod Log
pub mod Runner
pub mod Datastore
pub mod Refinement
pub mod Api
pub mod Auth
mod Tests
use pictophone.Base.{ℕ, zero, suc, ◌-◌, String, Option, none, some, List, [], ◌∷◌, ◌++◌, drop, map}
use pictophone.Dolt.{
  ActionRequest, QueryRequest, action_request, query_request, Request, ActionResponse,
  QueryResponse, action_response, query_response, Response,
}
use pictophone.Base.Map.{or_old}
use pictophone.Base.Result.{Result, ok, err, ◌>>=◌, end_after_error, values}

pub data ServerError : Type 0 where
  wrong_oneof_selected : ServerError
  runner_failed : ServerError
  log_failed : ServerError
  stream_ended_early : ServerError

-- `dpb::ActionResponse::try_from(response)`, made by the macro `oneof_convert`.
abbrev pub as_action_response : {B : Type 0} → Response B → Result ServerError (ActionResponse B)
as_action_response r = elim r.method [
  | none ↦ err wrong_oneof_selected
  | some method ↦ elim method [ action_response a ↦ ok a | _ ↦ err wrong_oneof_selected ]
]

-- `dpb::QueryResponse::try_from(response)`
abbrev pub as_query_response : {B : Type 0} → Response B → Result ServerError (QueryResponse B)
as_query_response r = elim r.method [
  | none ↦ err wrong_oneof_selected
  | some method ↦ elim method [ query_response a ↦ ok a | _ ↦ err wrong_oneof_selected ]
]

module _ {B : Type 0} (run : Request B → Result ServerError (Response B)) where
  unfoldable pub fold_state : Option B → B → Result ServerError (Option B × B)
  fold_state state_bytes action_bytes = do
    let call = action_request (record { state = state_bytes; action = action_bytes })
    response ← run (record { method = some call })
    action ← as_action_response response
    ok (or_old action.state state_bytes, action.response)

  -- The state that the stream goes on with.
  abbrev pub next_state : Result ServerError (Option B × B) → Option B
  next_state (ok (state, response)) = state
  next_state (err e) = none

  -- `futures::stream::unfold` in `state_stream`, from a state and the rest of the log.
  pub unfold_states :
      Option B → List (Result ServerError B) → List (Result ServerError (Option B × B))
  unfold_states state [] = []
  unfold_states state (err e ∷ log) = err e ∷ unfold_states state log
  unfold_states state (ok action ∷ log) =
      let item = fold_state state action in item ∷ unfold_states (next_state item) log

  pub state_stream : List (Result ServerError B) → List (Result ServerError (Option B × B))
  state_stream log = end_after_error (unfold_states none log)

  -- `states.pop()` on the at most one state that was collected.
  abbrev pub first_response : List (Option B × B) → Result ServerError B
  first_response [] = err stream_ended_early
  first_response ((state, response) ∷ rest) = ok response

  -- `action_count - 1` in 64 bits.
  abbrev pub one_less : ℕ → ℕ
  one_less zero = 18446744073709551615
  one_less (suc n) = n

  -- The part of `handle_action` after `push_action` has returned the count; `log` is what `watch_log` gives.
  pub respond_to : ℕ → List (Result ServerError B) → Result ServerError B
  respond_to action_count log =
      first_response (drop (one_less action_count) (values (end_after_error (state_stream log))))

  -- `handle_action` on a datastore that stores `stored`: `push_action` gives the count of actions
  -- and what is stored then, and `later` comes in the log after that.
  unfoldable pub handle_action :
      (B → List B → Result ServerError ℕ × List B)
      → List (Result ServerError B)
      → B
      → List B
      → Result ServerError B × List B
  handle_action push_action later action stored =
      let (pushed, stored') = push_action action stored in
      (pushed >>= λ action_count. respond_to action_count (map ok stored' ++ later), stored')

  -- The closure of `handle_query` on one item of the state stream.
  unfoldable pub query_state : B → Result ServerError (Option B × B) → Result ServerError B
  query_state query item = do
    pair ← item
    let call = query_request (record { state = pair.0; query = query })
    response ← run (record { method = some call })
    answer ← as_query_response response
    ok answer.response

  pub handle_query : B → List (Result ServerError B) → List (Result ServerError B)
  handle_query query log = map (query_state query) (state_stream log)
