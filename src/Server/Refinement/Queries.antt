-- ===== src/Server/Refinement/Queries.antt =====
-- The server's answers to a query (`handle_query` of be/server/src/main.rs) beside those of the
-- logic in a state that is never serialized.
use pictophone.Base.{◌≡◌, ◌≢◌, refl, Option, none, some, List, ◌∷◌, ◌++◌, map, drop, length}
use pictophone.Base.Map.{or_old}
use pictophone.Base.Outcome.{Outcome}
use pictophone.Base.Result.{Result, ok, end_after_error}
use pictophone.Dolt
use pictophone.Logic
use pictophone.Handler.{
  impl, IsWellFormed, ActionRequest, QueryRequest, QueryResponse, AnyhowError, Codec, IsLawfulCodec,
  handle_parsed_query, handle_query, respond_method, main,
}
use pictophone.Handler.Dispatch.{handle_parsed_query_total}
use pictophone.Server
use pictophone.Server.{ServerError, fold_state, query_state, unfold_states}
use pictophone.Server.Log.{drop-handle_query}
use pictophone.Server.Runner.{run}
use pictophone.Server.Refinement.{
  run_logic, Holds, Decodes, held, applied, state_after, answered, main_action, Holds-applied,
  applied-IsValidStore, fold_log_lem,
}

module _ (C : Codec Logic.State) (L : IsLawfulCodec C) where
  -- The whole program on one query.
  main_query :
      (bytes : Option C.Bytes) (reply : C.Bytes) (s : Option Logic.State) (q : C.Bytes)
      (query : QueryRequest) (response : QueryResponse)
      → Holds C bytes s
      → C.decode_query q ≡ some query
      → handle_parsed_query impl s query ≡ Outcome.ok response
      → (r : C.Bytes) × (query_state (run_logic C) q (ok (bytes, reply)) ≡ ok r)
        × (C.decode_query_response r ≡ some response)
  unfolding query_state run main respond_method handle_query
  main_query bytes reply s q query response h d e =
      let call : Dolt.QueryRequest C.Bytes = record { state = bytes; query = q } in
      let (req, encoded, decoded) =
        L.decode-encode_request (record { method = some (Dolt.query_request call) }) in
      let (r, replied, read) = L.decode-encode_query_response response in
      let (buf, sent, received) =
        L.decode-encode_response
          (record { method = some (Dolt.query_response (record { response = r })) }) in
      (
        r,
        rw
            (
              encoded,
              decoded,
              held C L bytes s AnyhowError.json_error h,
              d,
              e,
              replied,
              sent,
              received,
            )
            refl,
        read,
      )

  -- If the first actions of the log decode to well-formed requests, and a query has its method set,
  -- then past one item for each action but the last of them the query's stream goes on with an
  -- answer that decodes to what the logic's dispatch answers in the state, never serialized, after
  -- all of those requests.
  pub server_answers_queries :
      (before : List C.Bytes) (requests : List ActionRequest) (action : C.Bytes)
      (request : ActionRequest) (later : List (Result ServerError C.Bytes)) (q : C.Bytes)
      (query : QueryRequest)
      → Decodes C before requests
      → C.decode_action action ≡ some request
      → IsWellFormed request
      → C.decode_query q ≡ some query
      → query.method ≢ none
      → (response : QueryResponse) × (r : C.Bytes) × (rest : List (Result ServerError C.Bytes))
        × (drop
              (length before)
              (Server.handle_query (run_logic C) q (map ok before ++ (ok action ∷ later)))
            ≡ ok r ∷ rest)
        × (C.decode_query_response r ≡ some response)
        × (handle_parsed_query impl (applied (state_after none requests) request) query
            ≡ Outcome.ok response)
  unfolding unfold_states
  server_answers_queries before requests action request later q query ds d w dq set =
      let s = state_after none requests in
      let (b, folded, holds, valid) = fold_log_lem C L none none before requests tt tt ds in
      let (next, reply, e, valid') = answered s request valid w in
      let (b', r', step, holds', read') = main_action C L b s next action request reply holds d e in
      let holds'' = Holds-applied C L b b' s next request reply e holds holds' in
      let valid'' = applied-IsValidStore C L s next request reply e valid valid' in
      let (response, f) = handle_parsed_query_total (applied s request) query valid'' set in
      let (r, shown, read) =
        main_query (or_old b' b) r' (applied s request) q query response holds'' dq f in
      let skipped = drop-handle_query (run_logic C) before q (ok action ∷ later) b folded in
      let run_rest = unfold_states (run_logic C) (or_old b' b) later in
      let rest = map (query_state (run_logic C) q) (end_after_error run_rest) in
      (response, r, rest, rw (skipped, step, shown) refl, read, f)
