-- ===== src/Server/Refinement/Concurrent/Tests.antt =====
-- Two clients that create a game and join it at the same time (be/server/src/main.rs, datastore.rs).
use pictophone.Base.{
  ℕ, zero, suc, ◌-◌, ◌≡◌, refl, Option, none, some, List, [], ◌∷◌, map, take, length, ◌≤◌,
  get_elem?-length, arith,
}
use pictophone.Base.Decimal.{nth, digit, digits_before, decimal}
use pictophone.Base.Outcome
use pictophone.Base.Result.{ok}
use pictophone.Logic
use pictophone.Handler.{
  impl, ActionRequest, ActionResponse, create_game_request, join_game_request, handle_parsed_action,
  IsWellFormed,
}
use pictophone.Handler.Model.{Blob, an_action, no_call, blobs, blobs-IsLawfulCodec}
use pictophone.Server.{respond_to}
use pictophone.Server.Datastore.{watch_log}
use pictophone.Server.Refinement.{run_logic, state_after}
use pictophone.Server.Refinement.Concurrent.{pushes_answered}
use pictophone.Server.Datastore.Document.{entries_of, action_metadata}
use pictophone.Server.Datastore.Push.{
  begin_transaction, returned, advance, fetch_action_metadata, metadata_doc_name, action_doc_name,
  fetch_action,
}
use pictophone.Server.Datastore.Push.Tasks.{Tasks, calls, start, Reach-calls}
use pictophone.Server.Datastore.Push.Log.{IsLog}
use pictophone.Server.Datastore.Push.Interleaved.{IsLog-reach}
use pictophone.Server.Datastore.Push.Model.{
  memory, memory-IsTransactional, memory_starts_empty, memory_answers,
}

-- Task 0 creates the game and the others join it.
abbrev requests : ℕ → ActionRequest
requests zero = record {
  method = some (create_game_request (record { game_id = "tale"; player_id = "ann" }));
}
requests (suc i) = record {
  method = some (join_game_request (record { game_id = "tale"; player_id = "bob" }));
}

requests-IsWellFormed : (i : ℕ) → IsWellFormed (requests i)
requests-IsWellFormed zero = tt
requests-IsWellFormed (suc i) = tt

abbrev actions : ℕ → Blob
actions i = an_action (requests i)

abbrev start_empty : Tasks (memory no_call) "db" actions
start_empty = record { db = []; pc = λ _. begin_transaction }

abbrev schedule : List ℕ
schedule = 0 ∷ 1 ∷ 0 ∷ 1 ∷ 0 ∷ 1 ∷ 1 ∷ 1 ∷ 1 ∷ []

abbrev finished : Tasks (memory no_call) "db" actions
finished = calls (memory no_call) "db" actions schedule start_empty

joined : finished.pc 1 ≡ returned (Outcome.ok 2)
unfolding advance fetch_action_metadata metadata_doc_name action_doc_name decimal digits_before
    digit nth entries_of action_metadata
joined = refl

built :
    (log : List ℕ) × IsLog
      (memory no_call)
      "db"
      actions
      (memory-IsTransactional no_call)
      finished
      log
built =
    IsLog-reach (memory no_call) "db" actions (memory-IsTransactional no_call)
      (memory_starts_empty no_call _)
      (Reach-calls (memory no_call) "db" actions schedule [] start_empty start)

-- The join stands second in the log.
built_long : 2 ≤ length built.0
built_long =
    let (k, place, here) = rw joined at (built.1.progress 1) in
    omega (arith, get_elem?-length built.0 k here)

abbrev counts : List ℕ
counts = 1 ∷ (2 ∷ [])

pushes_answered_example :
    (next : Option Logic.State) × (response : ActionResponse) × (r : Blob) × (respond_to
        (run_logic blobs)
        2
        (watch_log
          (λ index. (fetch_action (memory no_call) "db" index finished.db).0)
          (map ok counts)).items
      ≡ ok r)
    × (blobs.decode_action_response r ≡ some response)
    × (handle_parsed_action impl
          (state_after none (map requests (take (2 - 1) built.0)))
          (requests 1)
        ≡ Outcome.ok (next, response))
pushes_answered_example =
    pushes_answered blobs blobs-IsLawfulCodec (memory no_call) "db" actions
      (memory-IsTransactional no_call) requests (λ i. refl) requests-IsWellFormed finished built.0 1
      2 counts built.1 (λ index doc h. memory_answers no_call _ _ doc h) joined (omega arith)
      built_long
