-- ===== src/Handler/Dispatch.antt =====
-- The handlers of be/logic/src/handler.rs over the game logic, on valid states and well-formed
-- requests.
use pictophone.Base.{◌≡◌, ◌≢◌, refl, inl, inr, Option, none, some, Option-cases}
use pictophone.Base.Outcome.{Outcome, ok, err, panic, ◌>>=◌}
use pictophone.Messages.{GetGameError, GameView}
use pictophone.Logic
use pictophone.Logic.Invariant.{
  IsValidStore, Keeps, create_game-Keeps, join_game-Keeps, start_game-Keeps, make_move-Keeps,
  get_game-ne-panic,
}
use pictophone.Handler.{
  impl, IsWellFormed, ActionMethod, create_game_request, join_game_request, start_game_request,
  make_move_request, ActionRequest, ActionReply, ActionResponse, QueryRequest, QueryResponse,
  AnyhowError, respond, create_reply, join_reply, start_reply, make_reply, handle_method,
  handle_parsed_action, answer, query_reply, handle_parsed_query,
}

abbrev pub KeepsStore : Outcome AnyhowError (Option Logic.State × ActionResponse) → Type 0
KeepsStore (ok (state, response)) = IsValidStore state
KeepsStore (err e) = ⊥
KeepsStore panic = ⊥

respond-KeepsStore :
    {E : Type 0} (reply : Option E → ActionReply) (r : Outcome E (Option Logic.State))
    → Keeps r
    → KeepsStore (respond reply r)
respond-KeepsStore reply (ok state) k = k
respond-KeepsStore reply (err e) k = tt
respond-KeepsStore reply panic k = k

method_total :
    (state : Option Logic.State) (m : ActionMethod)
    → IsValidStore state
    → IsWellFormed (record { method = some m })
    → KeepsStore (handle_method impl state m)
unfolding handle_method
method_total state (create_game_request r) v w =
    respond-KeepsStore create_reply _ (create_game-Keeps state r v)
method_total state (join_game_request r) v w =
    respond-KeepsStore join_reply _ (join_game-Keeps state r v)
method_total state (start_game_request r) v w =
    respond-KeepsStore start_reply _ (start_game-Keeps state r v w.1)
method_total state (make_move_request r) v w =
    respond-KeepsStore make_reply _ (make_move-Keeps state r v)

-- On a valid state every well-formed action gets a response and no panic, and a new state, if one
-- comes, is valid.
pub handle_parsed_action_total :
    (state : Option Logic.State) (request : ActionRequest)
    → IsValidStore state
    → IsWellFormed request
    → KeepsStore (handle_parsed_action impl state request)
unfolding handle_parsed_action
handle_parsed_action_total state request v w = elim (Option-cases request.method) [
  | inl e ↦ absurd (rw e at w)
  | inr (m, e) ↦ rw e (method_total state m v (rw e at w))
]

answer_total :
    (r : Outcome GetGameError GameView)
    → r ≢ panic
    → (response : QueryResponse) × ((answer r >>= query_reply) ≡ ok response)
answer_total (ok view) h = (_, refl)
answer_total (err e) h = (_, refl)
answer_total panic h = absurd (h refl)

-- On a valid state a query with its method set gets a response.
pub handle_parsed_query_total :
    (state : Option Logic.State) (request : QueryRequest)
    → IsValidStore state
    → request.method ≢ none
    → (response : QueryResponse) × (handle_parsed_query impl state request ≡ ok response)
unfolding handle_parsed_query
handle_parsed_query_total state request v present = elim (Option-cases request.method) [
  | inl e ↦ absurd (present e)
  | inr (get, e) ↦ rw e (answer_total (Logic.get_game state get) (get_game-ne-panic state get v))
]
