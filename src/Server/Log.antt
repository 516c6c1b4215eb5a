-- ===== src/Server/Log.antt =====
-- What the state stream of be/server/src/main.rs computes from a log, and which response an
-- action gets.
use pictophone.Base.{
  suc, ◌+◌, ◌≡◌, refl, ap, Option, none, List, [], ◌∷◌, ◌++◌, map, drop, length, arith,
}
use pictophone.Base.Result.{Result, ok, err, ◌>>=◌, >>=-eq-ok, end_after_error, values}
use pictophone.Dolt.{Request, Response}
use pictophone.Server.{
  ServerError, fold_state, unfold_states, state_stream, respond_to, query_state, handle_query,
}

module _ {B : Type 0} (run : Request B → Result ServerError (Response B)) where
  -- The state after a list of actions, if the logic answers them all.
  unfoldable pub fold_log : Option B → List B → Result ServerError (Option B)
  fold_log state [] = ok state
  fold_log state (a ∷ log) = fold_state run state a >>= λ item. fold_log item.0 log

  -- The stream behind a log that was answered goes on as from the state after it.
  drop-values :
      (before : List B) (rest : List (Result ServerError B)) (start state : Option B)
      → fold_log start before ≡ ok state
      → drop
          (length before)
          (values (end_after_error (unfold_states run start (map ok before ++ rest))))
        ≡ values (end_after_error (unfold_states run state rest))
  unfolding fold_log unfold_states
  drop-values [] rest start state h =
      ap (λ s. values (end_after_error (unfold_states run s rest))) (cc)
  drop-values (a ∷ before) rest start state h =
      let (item, answered, more) = >>=-eq-ok (fold_state run start a) _ h in
      rw answered (drop-values before rest item.0 state more)

  end_after_error_twice :
      {A : Type 0} (l : List (Result ServerError A))
      → end_after_error (end_after_error l) ≡ end_after_error l
  end_after_error_twice [] = refl
  end_after_error_twice (ok a ∷ l) = ap (λ r. ok a ∷ r) (end_after_error_twice l)
  end_after_error_twice (err e ∷ l) = refl

  -- If the logic answers every action before an action, and that action too, then the client that
  -- pushed it, as the last of so many, gets the logic's answer to it in the state after the
  -- earlier ones, whatever follows it in the log.
  pub respond_to_pushed :
      (before : List B) (action response : B) (later : List (Result ServerError B))
      (state next : Option B)
      → fold_log none before ≡ ok state
      → fold_state run state action ≡ ok (next, response)
      → respond_to run (length before + 1) (map ok before ++ (ok action ∷ later)) ≡ ok response
  unfolding respond_to state_stream unfold_states
  respond_to_pushed before action response later state next h e =
      let one : length before + 1 ≡ suc (length before) = omega arith in
      rw
        (
          one,
          end_after_error_twice (unfold_states run none (map ok before ++ (ok action ∷ later))),
          drop-values before (ok action ∷ later) none state h,
          unfold_states,
          e,
        )
        refl

  drop-queries :
      (before : List B) (query : B) (rest : List (Result ServerError B)) (start state : Option B)
      → fold_log start before ≡ ok state
      → drop (length before) (
          map
            (query_state run query)
            (end_after_error (unfold_states run start (map ok before ++ rest))))
        ≡ map (query_state run query) (end_after_error (unfold_states run state rest))
  unfolding fold_log unfold_states
  drop-queries [] query rest start state h =
      ap (λ s. map (query_state run query) (end_after_error (unfold_states run s rest))) (cc)
  drop-queries (a ∷ before) query rest start state h =
      let (item, answered, more) = >>=-eq-ok (fold_state run start a) _ h in
      rw answered (drop-queries before query rest item.0 state more)

  -- If the logic answers a list of actions at the start of the log, then past one item for each of
  -- them a query's stream is its answers over the states of the rest of the log, from the state
  -- after them.
  pub drop-handle_query :
      (before : List B) (query : B) (rest : List (Result ServerError B)) (state : Option B)
      → fold_log none before ≡ ok state
      → drop (length before) (handle_query run query (map ok before ++ rest))
        ≡ map (query_state run query) (end_after_error (unfold_states run state rest))
  unfolding handle_query state_stream
  drop-handle_query before query rest state h = drop-queries before query rest none state h
