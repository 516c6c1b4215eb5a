-- ===== src/Server/Datastore/Push/Interleaved.antt =====
-- The pushes of any number of tasks to the same Firestore, in any order of their calls
-- (be/server/src/datastore.rs).
use pictophone.Base.{
  false, ℕ, ◌+◌, ◌-◌, ◌%◌, ◌^◌, ◌<◌, ◌≤◌, suc, map, take, length-map, String, Option, none, some,
  List, [], ◌∷◌, ◌++◌, length, get_elem?, ◌≡◌, refl, sym, ap, ◌∙◌, inl, inr, arith,
  get_elem?-length,
}
use pictophone.Base.Integers.{pos}
use pictophone.Base.Outcome
use pictophone.Base.Result.{Result, ok, values}
use pictophone.Server.{ServerError}
use pictophone.Server.Datastore.{watch_log}
use pictophone.Server.Datastore.Watch.{highest, Stores, values-watch_log}
use pictophone.Server.Datastore.Document.{Document, action_record}
use pictophone.Server.Datastore.Push.{
  FirestoreClient, metadata_doc_name, action_doc_name, new_action_doc, new_writes,
  fetch_action_metadata, Pc, begin_transaction, fetch_metadata, commit, returned, advance,
  fetch_action,
}
use pictophone.Server.Datastore.Push.Laws.{IsTransactional, written}
use pictophone.Server.Datastore.Push.Names.{read_action}
use pictophone.Server.Datastore.Push.Log.{Progress, IsLog, count_is_length}
use pictophone.Server.Datastore.Push.Tasks.{update, Tasks, Step, call, Reach, start, later}
use pictophone.Server.Datastore.Push.Calls.{quiet_call, commit_applied}
use pictophone.Server.Datastore.Push.Replies.{
  after_begin, after_fetch, after_refused, after_applied,
}

module _ {B : Type 0} (client : FirestoreClient B) (database_name : String) (actions : ℕ → B)
    (laws : IsTransactional client) where
  -- What a call of a task leaves: the log as it was, or with the task's entry at its end.
  IsLog-advance :
      (s : Tasks client database_name actions) (log : List ℕ) (i : ℕ) (pc : Pc client database_name)
      → IsLog client database_name actions laws s log
      → Progress client database_name actions laws s.db log i pc
      → (log' : List ℕ) × IsLog client database_name actions laws
          (record {
            db = (advance client database_name (actions i) pc s.db).1;
            pc = update s.pc i (advance client database_name (actions i) pc s.db).0;
          })
          log'
  unfolding advance fetch_action_metadata
  IsLog-advance s log i begin_transaction inv own = (
    log,
    quiet_call client database_name actions laws s log i _ _ inv
        (λ name. laws.begin-documents database_name name s.db)
        (λ tx doc. laws.begin-Seen database_name _ s.db tx doc)
        (after_begin client database_name actions laws _ log i
          (client.begin_transaction database_name s.db).0 own),
  )
  IsLog-advance s log i (fetch_metadata tx) inv own =
      let name = metadata_doc_name client database_name in
      (
        log,
        quiet_call client database_name actions laws s log i _ _ inv
            (λ n. laws.get-documents name n (some tx) s.db)
            (λ own doc. laws.get-Seen name name (some tx) s.db own doc)
            (after_fetch client database_name actions laws _ log i tx
              (client.get_document name (some tx) s.db).0 (laws.get_found name tx s.db)
              (laws.get_missing name tx s.db) own),
      )
  IsLog-advance s log i (commit tx count writes) inv (unlogged, small, new, (doc, seen, read)) =
      let name = metadata_doc_name client database_name in
      let db = (client.commit database_name tx writes s.db).1 in
      let reply = (client.commit database_name tx writes s.db).0 in
      let kept : (other : client.Tx) (d : Option (Document B))
          → laws.Seen s.db other name d
          → laws.Seen db other name d =
        λ other d. laws.commit-Seen database_name name tx other writes s.db d in
      elim (laws.commit_cases database_name tx writes s.db) [
        | inl (refused, same) ↦ (
          log,
          quiet_call client database_name actions laws s log i db _ inv same kept (
              after_refused client database_name actions laws db log i count reply refused
                unlogged),
        )
        | inr (applied, current, effect) ↦
            let last =
              count_is_length client database_name actions laws log count _ doc inv.counted
                (current name doc seen) read in
            let fits : (count + 1) % 2 ^ 64 ≡ count + 1 = omega (arith, last, inv.small) in
            (
              log ++ (i ∷ []),
              commit_applied client database_name actions laws s log i db _ inv unlogged
                  (omega (arith, last, fits, small))
                  (λ n.
                    effect n
                    ∙ ap (λ w. written w (laws.documents s.db) n)
                        {y = new_writes client database_name (pos (length log + 1)) (length log)
                          (actions i)}
                        (new ∙ rw (fits, last) refl))
                  kept
                  (after_applied client database_name actions laws db log i count reply applied last
                    fits),
            )
      ]
  IsLog-advance s log i (returned result) inv own = (
    log,
    quiet_call client database_name actions laws s log i _ _ inv (λ n. refl) (λ tx doc seen. seen)
        own,
  )

  IsLog-step :
      {s t : Tasks client database_name actions} (log : List ℕ)
      → Step client database_name actions s t
      → IsLog client database_name actions laws s log
      → (log' : List ℕ) × IsLog client database_name actions laws t log'
  IsLog-step {s} log (call i e) inv = rw e at (IsLog-advance s log i (s.pc i) inv (inv.progress i))

  -- From a Firestore without a metadata document, whatever the order of the calls, there is a log of
  -- tasks: Firestore holds its length as the count, unless it is empty, and the action of each entry
  -- under its place; no task stands in it twice; a push that returned a count is the entry with that
  -- number; and a task whose push is still running or has panicked has no entry.
  pub IsLog-reach :
      {db : client.Db} {s : Tasks client database_name actions}
      → laws.documents db (metadata_doc_name client database_name) ≡ none
      → Reach client database_name actions db s
      → (log : List ℕ) × IsLog client database_name actions laws s log
  IsLog-reach missing start = (
    [],
    record {
      small = omega arith;
      counted = inl (refl, missing);
      kept = λ k i at. cc;
      once = λ j k i at at'. cc;
      progress = λ i k at. cc;
    },
  )
  IsLog-reach missing (later r step) =
      let (log, inv) = IsLog-reach missing r in IsLog-step log step inv

  -- From a Firestore without a metadata document, whatever the order of the calls: two tasks whose
  -- pushes returned the same count are the same task.
  pub counts_differ :
      {db : client.Db} {s : Tasks client database_name actions} (i j count : ℕ)
      → laws.documents db (metadata_doc_name client database_name) ≡ none
      → Reach client database_name actions db s
      → s.pc i ≡ returned (Outcome.ok count)
      → s.pc j ≡ returned (Outcome.ok count)
      → i ≡ j
  counts_differ {s = s} i j count missing r at at' =
      let (log, inv) = IsLog-reach missing r in
      let (k, e, here) = rw at at (inv.progress i) in
      let (k', e', here') = rw at' at (inv.progress j) in
      let same : k ≡ k' = omega arith in
      let there : some i ≡ some j = sym here ∙ ap (get_elem? log) same ∙ here' in cc

  fetch-kept :
      (s : Tasks client database_name actions) (log : List ℕ) (k i : ℕ) (doc : Document B)
      → IsLog client database_name actions laws s log
      → get_elem? log k ≡ some i
      → (client.get_document (action_doc_name client database_name k) none s.db).0 ≡ ok doc
      → (fetch_action client database_name k s.db).0 ≡ ok (actions i)
  unfolding fetch_action
  fetch-kept s log k i doc inv here answered =
      let stored = laws.get_current _ s.db doc answered in
      let same : some doc ≡ some (new_action_doc client database_name k (actions i)) =
        sym stored ∙ inv.kept k i here in
      let recorded = read_action client database_name laws k (actions i) in
      let read : action_record client.byte_buf client.empty doc ≡ ok (actions i) = cc in
      rw (answered, read) refl

  -- From a Firestore without a metadata document, whatever the order of the calls: once a task's
  -- push has returned a count, the count is positive, and a fetch of the action before it gives that
  -- task's action if Firestore answers it with a document.
  pub fetch-pushed :
      {db : client.Db} {s : Tasks client database_name actions} (i count : ℕ) (doc : Document B)
      → laws.documents db (metadata_doc_name client database_name) ≡ none
      → Reach client database_name actions db s
      → s.pc i ≡ returned (Outcome.ok count)
      → (client.get_document (action_doc_name client database_name (count - 1)) none s.db).0
        ≡ ok doc
      → (0 < count) × ((fetch_action client database_name (count - 1) s.db).0 ≡ ok (actions i))
  fetch-pushed {s = s} i count doc missing r at answered =
      let (log, inv) = IsLog-reach missing r in
      let (k, e, here) = rw at at (inv.progress i) in
      let index : count - 1 ≡ k = omega arith in
      (omega arith, rw index (fetch-kept s log k i doc inv here (rw index at answered)))

  Stores-from :
      (fetch : ℕ → Result ServerError B) (first_index : ℕ) (log : List ℕ)
      → ((k i : ℕ) → get_elem? log k ≡ some i → fetch (first_index + k) ≡ ok (actions i))
      → Stores fetch first_index (map actions log)
  Stores-from fetch first_index [] each = tt
  Stores-from fetch first_index (i ∷ log) each =
      let here_is : first_index + 0 ≡ first_index = omega arith in
      (
        rw here_is at (each 0 i refl),
        Stores-from fetch (suc first_index) log (λ k j here.
            let next : first_index + suc k ≡ suc first_index + k = omega arith in
            rw next at (each (suc k) j here)),
      )

  -- If Firestore answers every request for an action that it holds, then the log is stored there.
  pub Stores-log :
      (s : Tasks client database_name actions) (log : List ℕ)
      → IsLog client database_name actions laws s log
      → ((index : ℕ) (doc : Document B)
          → laws.documents s.db (action_doc_name client database_name index) ≡ some doc
          → (client.get_document (action_doc_name client database_name index) none s.db).0 ≡ ok doc)
      → Stores (λ index. (fetch_action client database_name index s.db).0) 0 (map actions log)
  Stores-log s log inv answers =
      Stores-from (λ index. (fetch_action client database_name index s.db).0) 0 log
        (λ k j here.
          let same : 0 + k ≡ k = omega arith in
          rw same (fetch-kept s log k j _ inv here (answers k _ (inv.kept k j here))))

  -- From a Firestore without a metadata document, whatever the order of the calls, if it then answers
  -- every request for an action that it holds: once a task's push has returned a count, the tasks
  -- have built a log of at least that length, and if no count past it is reported to a watcher, then
  -- the watcher gets the actions of that log in order, each once, up to the largest reported count,
  -- and no fetch panics.
  pub watch_log-pushed :
      {db : client.Db} {s : Tasks client database_name actions} (i count : ℕ)
      (counts : List (Result ServerError ℕ))
      → laws.documents db (metadata_doc_name client database_name) ≡ none
      → Reach client database_name actions db s
      → ((index : ℕ) (doc : Document B)
          → laws.documents s.db (action_doc_name client database_name index) ≡ some doc
          → (client.get_document (action_doc_name client database_name index) none s.db).0 ≡ ok doc)
      → s.pc i ≡ returned (Outcome.ok count)
      → highest (values counts) ≤ count
      → (log : List ℕ) × IsLog client database_name actions laws s log
        × (count ≤ length log)
        × (values
              (watch_log (λ index. (fetch_action client database_name index s.db).0) counts).items
            ≡ take (highest (values counts)) (map actions log))
        × ((watch_log (λ index. (fetch_action client database_name index s.db).0) counts).panicked
            ≡ false)
  watch_log-pushed {s = s} i count counts missing r answers at most =
      let (log, inv) = IsLog-reach missing r in
      let (k, e, here) = rw at at (inv.progress i) in
      let long : count ≤ length log = omega (arith, get_elem?-length log k here) in
      let fetch : ℕ → Result ServerError B =
        λ index. (fetch_action client database_name index s.db).0 in
      let stored = Stores-log s log inv answers in
      let mapped : length (map actions log) ≡ length log = length-map actions log in
      let (in_order, no_panic) =
        values-watch_log fetch (map actions log) counts stored
          (omega (arith, mapped, long, most)) in
      (log, inv, long, in_order, no_panic)
