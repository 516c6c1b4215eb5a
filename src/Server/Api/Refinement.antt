-- ===== src/Server/Api/Refinement.antt =====
-- The gRPC methods of be/server/src/proto.rs against the handlers of the game logic.
use pictophone.Base.{
  ℕ, ◌+◌, ◌≡◌, refl, ◌∙◌, ap, Option, none, some, List, [], ◌∷◌, ◌++◌, map, drop, drop-map, length,
  arith,
}
use pictophone.Base.Outcome.{Outcome, ok, err, panic, >>=-eq-ok}
use pictophone.Base.Result.{Result}
use pictophone.Messages.{
  CreateGameRequest, JoinGameRequest, StartGameRequest, MakeMoveRequest, GetGameRequest,
  GetGameResponse,
}
use pictophone.Logic
use pictophone.Handler.{
  impl, IsWellFormed, ActionMethod, ActionReply, create_game_request, join_game_request,
  start_game_request, make_move_request, ActionRequest, ActionResponse, QueryResponse, Codec,
  IsLawfulCodec, respond, create_reply, join_reply, start_reply, make_reply, handle_method,
  handle_parsed_action, handle_parsed_query, answer, query_reply,
}
use pictophone.Server
use pictophone.Server.{ServerError}
use pictophone.Server.Refinement.{run_logic, Decodes, state_after, applied, server_answers}
use pictophone.Server.Refinement.Queries.{server_answers_queries}
use pictophone.Server.Api.{
  DoltServer, Request, Status, call, create_game, join_game, start_game, make_move, get_game,
  game_response,
}

-- The error that a response carries.
abbrev pub error_of : {S E : Type 0} → Outcome E (Option S) → Option E
error_of (ok state) = none
error_of (err error) = some error
error_of panic = none

respond-method :
    {S E : Type 0} (reply : Option E → ActionReply) (r : Outcome E (Option S)) (next : Option S)
    (response : ActionResponse)
    → respond reply r ≡ ok (next, response)
    → response.method ≡ some (reply (error_of r))
respond-method reply (ok state) next response e = ground arith
respond-method reply (err error) next response e = ground arith
respond-method reply panic next response e = cc

-- The reply that the logic gives to a method, in a state.
abbrev pub logic_reply : Option Logic.State → ActionMethod → ActionReply
logic_reply s (create_game_request r) = create_reply (error_of (Logic.create_game s r))
logic_reply s (join_game_request r) = join_reply (error_of (Logic.join_game s r))
logic_reply s (start_game_request r) = start_reply (error_of (Logic.start_game s r))
logic_reply s (make_move_request r) = make_reply (error_of (Logic.make_move s r))

handle_method-reply :
    (s next : Option Logic.State) (m : ActionMethod) (response : ActionResponse)
    → handle_method impl s m ≡ ok (next, response)
    → response.method ≡ some (logic_reply s m)
unfolding handle_method
handle_method-reply s next (create_game_request r) response e =
    respond-method create_reply (Logic.create_game s r) next response e
handle_method-reply s next (join_game_request r) response e =
    respond-method join_reply (Logic.join_game s r) next response e
handle_method-reply s next (start_game_request r) response e =
    respond-method start_reply (Logic.start_game s r) next response e
handle_method-reply s next (make_move_request r) response e =
    respond-method make_reply (Logic.make_move s r) next response e

-- A datastore that stores what is pushed behind what it holds, and returns the count.
abbrev pub Appends : {B : Type 0} → (B → List B → Result ServerError ℕ × List B) → Type 0
Appends {B} push_action =
    (action : B) (stored : List B)
    → push_action action stored ≡ (Result.ok (length stored + 1), stored ++ (action ∷ []))

module _ (C : Codec Logic.State) where
  -- The server with the logic as its program, over what is stored and what comes later in the log.
  abbrev pub logic_server :
      {M : Type 0}
      → (C.Bytes → List C.Bytes → Result ServerError ℕ × List C.Bytes)
      → List C.Bytes
      → List (Result ServerError C.Bytes)
      → DoltServer C.Bytes M
  logic_server push_action stored later = record {
    handle_action =
        λ action metadata. (Server.handle_action (run_logic C) push_action later action stored).0;
    handle_query = λ query metadata.
        Result.ok (Server.handle_query (run_logic C) query (map Result.ok stored ++ later));
  }

module _ {M : Type 0} (C : Codec Logic.State) (L : IsLawfulCodec C)
    (push_action : C.Bytes → List C.Bytes → Result ServerError ℕ × List C.Bytes)
    (appends : Appends push_action) (stored : List C.Bytes) (requests : List ActionRequest)
    (decodes : Decodes C stored requests) (later : List (Result ServerError C.Bytes)) where
  abbrev server : DoltServer C.Bytes M
  server = logic_server C push_action stored later

  call_lem :
      (metadata : M) (m : ActionMethod)
      → IsWellFormed (record { method = some m })
      → call C server metadata m ≡ ok (logic_reply (state_after none requests) m)
  unfolding call handle_parsed_action
  call_lem metadata m w =
      let request : ActionRequest = record { method = some m } in
      let (bytes, encoded, decoded) = L.decode-encode_action request w in
      let (next, response, r, answered, read, e) =
        server_answers C L push_action stored requests bytes request later (appends bytes stored)
          decodes decoded w in
      rw
        (
          encoded,
          ap (λ p. p.0) answered,
          read,
          handle_method-reply (state_after none requests) next m response e,
        )
        refl

  -- Over a datastore that stores encodings of well-formed requests and appends what is pushed, each
  -- method for an action, with 32-bit numbers for `start_game`, returns a response, and its error is
  -- the one with which the logic refuses the action in the state after those requests, or none where
  -- the logic accepts it.
  pub methods_answer :
      (metadata : M) (c : CreateGameRequest) (j : JoinGameRequest) (s : StartGameRequest)
      (m : MakeMoveRequest)
      → IsWellFormed (record { method = some (start_game_request s) })
      → (create_game C server (record { metadata = metadata; message = c })
          ≡ ok (record { error = error_of (Logic.create_game (state_after none requests) c) }))
        × (join_game C server (record { metadata = metadata; message = j })
            ≡ ok (record { error = error_of (Logic.join_game (state_after none requests) j) }))
        × (start_game C server (record { metadata = metadata; message = s })
            ≡ ok (record { error = error_of (Logic.start_game (state_after none requests) s) }))
        × (make_move C server (record { metadata = metadata; message = m })
            ≡ ok (record { error = error_of (Logic.make_move (state_after none requests) m) }))
  unfolding create_game join_game start_game make_move
  methods_answer metadata c j s m w = (
    rw (call_lem metadata (create_game_request c) tt) refl,
    rw (call_lem metadata (join_game_request j) tt) refl,
    rw (call_lem metadata (start_game_request s) w) refl,
    rw (call_lem metadata (make_move_request m) tt) refl,
  )

-- What the dispatch of a query returns holds what the logic answers.
handle_parsed_query-answer :
    (s : Option Logic.State) (r : GetGameRequest) (response : QueryResponse)
    → handle_parsed_query impl s (record { method = some r }) ≡ ok response
    → (reply : GetGameResponse) × (answer (Logic.get_game s r) ≡ ok reply)
      × (response.method ≡ some reply)
unfolding handle_parsed_query
handle_parsed_query-answer s r response e =
    let (reply, answered, rest) = >>=-eq-ok (answer (Logic.get_game s r)) query_reply e in
    (reply, answered, ground arith)

module _ {M : Type 0} (C : Codec Logic.State) (L : IsLawfulCodec C)
    (push_action : C.Bytes → List C.Bytes → Result ServerError ℕ × List C.Bytes) where
  -- If the first actions of the log decode to well-formed requests, then `get_game` returns a stream,
  -- and past one item for each of these actions but the last it goes on with what the logic answers
  -- in the state after them.
  pub get_game_answers :
      (before : List C.Bytes) (requests : List ActionRequest) (action : C.Bytes)
      (request : ActionRequest) (later : List (Result ServerError C.Bytes))
      (get : Request M GetGameRequest)
      → Decodes C before requests
      → C.decode_action action ≡ some request
      → IsWellFormed request
      → (stream : List (Outcome Status GetGameResponse)) × (reply : GetGameResponse) × (rest : List
          (Outcome Status GetGameResponse))
        × (get_game C (logic_server C push_action before (Result.ok action ∷ later)) get
            ≡ ok stream)
        × (drop (length before) stream ≡ ok reply ∷ rest)
        × (answer (Logic.get_game (applied (state_after none requests) request) get.message)
            ≡ ok reply)
  unfolding get_game
  get_game_answers before requests action request later get ds d w =
      let (q, encoded, decoded) = L.decode-encode_query (record { method = some get.message }) in
      let (response, r, rest, shown, read, e) =
        server_answers_queries C L before requests action request later q
          (record { method = some get.message }) ds d w decoded (λ h. cc) in
      let (reply, answered, same) = handle_parsed_query-answer _ get.message response e in
      let server : DoltServer C.Bytes M =
        logic_server C push_action before (Result.ok action ∷ later) in
      let items =
        Server.handle_query (run_logic C) q (map Result.ok before ++ (Result.ok action ∷ later)) in
      (
        map (game_response C server) items,
        reply,
        map (game_response C server) rest,
        rw encoded refl,
        drop-map (length before) (game_response C server) items ∙ rw (shown, read, same) refl,
        answered,
      )
