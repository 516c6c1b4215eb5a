-- ===== src/Server/Datastore/Push/Tests.antt =====
-- Two tasks that push at the same time (be/server/src/datastore.rs).
use pictophone.Base.{
  false, ℕ, ◌+◌, ◌-◌, ◌<◌, ◌≤◌, length, take, map, arith, List, [], ◌∷◌, ◌≡◌, refl,
}
use pictophone.Base.Outcome
use pictophone.Base.Result.{Result, ok, values}
use pictophone.Server.{ServerError}
use pictophone.Server.Datastore.{watch_log}
use pictophone.Server.Datastore.Watch.{highest}
use pictophone.Base.Decimal.{nth, digit, digits_before, decimal}
use pictophone.Server.Datastore.Document.{entries_of, action_metadata}
use pictophone.Server.Datastore.Push.{
  begin_transaction, returned, advance, fetch_action, action_doc_name, metadata_doc_name,
  new_action_doc, fetch_action_metadata,
}
use pictophone.Server.Datastore.Push.Tasks.{Tasks, calls, Reach, start, Reach-calls}
use pictophone.Server.Datastore.Push.Log.{IsLog}
use pictophone.Server.Datastore.Push.Interleaved.{
  IsLog-reach, counts_differ, fetch-pushed, watch_log-pushed,
}
use pictophone.Server.Datastore.Push.Model.{
  memory, memory-IsTransactional, memory_starts_empty, memory_answers,
}

-- Task `i` pushes 70 + i.
abbrev actions : ℕ → ℕ
actions i = 70 + i

abbrev start_empty : Tasks (memory 0) "db" actions
start_empty = record { db = []; pc = λ _. begin_transaction }

abbrev schedule : List ℕ
schedule = 0 ∷ 1 ∷ 0 ∷ 1 ∷ 0 ∷ 1 ∷ 1 ∷ 1 ∷ 1 ∷ []

-- Both read the count 0, the second commit is aborted, and that task tries again.
abbrev finished : Tasks (memory 0) "db" actions
finished = calls (memory 0) "db" actions schedule start_empty

reached : Reach (memory 0) "db" actions [] finished
reached = Reach-calls (memory 0) "db" actions schedule [] start_empty start

first_returned : finished.pc 0 ≡ returned (Outcome.ok 1)
unfolding advance fetch_action_metadata metadata_doc_name action_doc_name
first_returned = refl

second_returned : finished.pc 1 ≡ returned (Outcome.ok 2)
unfolding advance fetch_action_metadata metadata_doc_name action_doc_name decimal digits_before
    digit nth entries_of action_metadata
second_returned = refl

IsLog-reach_example :
    (log : List ℕ) × IsLog (memory 0) "db" actions (memory-IsTransactional 0) finished log
IsLog-reach_example =
    IsLog-reach (memory 0) "db" actions (memory-IsTransactional 0) (memory_starts_empty 0 _) reached

counts_differ_example : ◌≡◌ {A = ℕ} 1 1
counts_differ_example =
    counts_differ (memory 0) "db" actions (memory-IsTransactional 0) 1 1 2 (memory_starts_empty 0 _)
      reached second_returned second_returned

fetch-pushed_example :
    (0 < 2) × ((fetch_action (memory 0) "db" (2 - 1) finished.db).0 ≡ ok (actions 1))
unfolding advance fetch_action_metadata metadata_doc_name action_doc_name decimal digits_before
    digit nth entries_of action_metadata
fetch-pushed_example =
    fetch-pushed (memory 0) "db" actions (memory-IsTransactional 0) 1 2
      (new_action_doc (memory 0) "db" 1 71) (memory_starts_empty 0 _) reached second_returned refl

abbrev counts : List (Result ServerError ℕ)
counts = ok 2 ∷ (ok 1 ∷ [])

watch_log-pushed_example :
    (log : List ℕ) × IsLog (memory 0) "db" actions (memory-IsTransactional 0) finished log
    × (2 ≤ length log)
    × (values (watch_log (λ index. (fetch_action (memory 0) "db" index finished.db).0) counts).items
        ≡ take (highest (values counts)) (map actions log))
    × ((watch_log (λ index. (fetch_action (memory 0) "db" index finished.db).0) counts).panicked
        ≡ false)
watch_log-pushed_example =
    watch_log-pushed (memory 0) "db" actions (memory-IsTransactional 0) 1 2 counts
      (memory_starts_empty 0 _) reached (λ index doc h. memory_answers 0 _ _ doc h) second_returned
      (omega arith)
