-- ===== src/Server/Refinement/Concurrent.antt =====
-- The server of be/server/src/main.rs over the datastore of be/server/src/datastore.rs when several
-- clients push at the same time.
mod Tests
use pictophone.Base.{
  ℕ, suc, ◌+◌, ◌-◌, ◌<◌, ◌≤◌, ◌≡◌, refl, sym, ap, ◌∙◌, Option, none, some, String, List, [], ◌∷◌,
  ◌++◌, map, take, drop, length, get_elem?, get_elem?-length, take-get_elem?-drop, length-take,
  map-append, length-map, take-map, take_twice, get_elem?-take, arith,
}
use mathlib.Core.List.{append_assoc, append-nil}
use pictophone.Base.Outcome
use pictophone.Base.Result.{Result, ok}
use pictophone.Logic
use pictophone.Handler.{
  impl, IsWellFormed, ActionRequest, ActionResponse, Codec, IsLawfulCodec, handle_parsed_action,
}
use pictophone.Server.{ServerError, respond_to}
use pictophone.Server.Log.{respond_to_pushed}
use pictophone.Server.Refinement.{
  applied, state_after, answered, run_logic, Decodes, main_action, fold_log_lem,
}
use pictophone.Base.Map.{or_old}
use pictophone.Server.Datastore.{watch_log}
use pictophone.Server.Datastore.Watch.{highest, watch_log-ok}
use pictophone.Server.Datastore.Document.{Document}
use pictophone.Server.Datastore.Push.{FirestoreClient, returned, action_doc_name, fetch_action}
use pictophone.Server.Datastore.Push.Interleaved.{Stores-log}
use pictophone.Server.Datastore.Push.Laws.{IsTransactional}
use pictophone.Server.Datastore.Push.Tasks.{Tasks}
use pictophone.Server.Datastore.Push.Log.{IsLog}

module _ (C : Codec Logic.State) (L : IsLawfulCodec C) (client : FirestoreClient C.Bytes)
    (database_name : String) (actions : ℕ → C.Bytes) (laws : IsTransactional client)
    (requests : ℕ → ActionRequest)
    (decodes : (i : ℕ) → C.decode_action (actions i) ≡ some (requests i))
    (well_formed : (i : ℕ) → IsWellFormed (requests i)) where
  Decodes-map : (log : List ℕ) → Decodes C (map actions log) (map requests log)
  Decodes-map [] = tt
  Decodes-map (i ∷ log) = (decodes i, well_formed i, Decodes-map log)

  -- The log as a watcher sees it, around the entry of a task.
  around :
      (log : List ℕ) (k i : ℕ) (later : List (Result ServerError C.Bytes))
      → get_elem? log k ≡ some i
      → map ok (map actions log) ++ later
        ≡ map ok (map actions (take k log))
          ++ (ok (actions i) ∷ (map ok (map actions (drop (suc k) log)) ++ later))
  around log k i later here =
      ap (λ l. map ok (map actions l) ++ later) (take-get_elem?-drop log k here)
      ∙ ap (λ l. map ok l ++ later) (map-append actions (take k log) (i ∷ drop (suc k) log))
      ∙ ap (λ l. l ++ later)
          (map-append ok (map actions (take k log)) (map actions (i ∷ drop (suc k) log)))
      ∙ append_assoc (map ok (map actions (take k log))) _ later

  -- The entry at a place of a log is answered as the logic responds to it after those before it.
  answered_at :
      (log : List ℕ) (k i : ℕ) (later : List (Result ServerError C.Bytes))
      → get_elem? log k ≡ some i
      → (next : Option Logic.State) × (response : ActionResponse) × (r : C.Bytes) × (respond_to
            (run_logic C)
            (k + 1)
            (map ok (map actions log) ++ later)
          ≡ ok r)
        × (C.decode_action_response r ≡ some response)
        × (handle_parsed_action impl (state_after none (map requests (take k log))) (requests i)
            ≡ Outcome.ok (next, response))
  answered_at log k i later here =
      let before = map actions (take k log) in
      let earlier = map requests (take k log) in
      let (b, folded, holds, valid) =
        fold_log_lem C L none none before earlier tt tt (Decodes-map (take k log)) in
      let (next, response, handled, valid') =
        answered (state_after none earlier) (requests i) valid (well_formed i) in
      let (b', r, step, holds', read) =
        main_action C L b (state_after none earlier) next (actions i) (requests i) response holds
          (decodes i) handled in
      let reply =
        respond_to_pushed (run_logic C) before (actions i) r
          (map ok (map actions (drop (suc k) log)) ++ later) b (or_old b' b) folded step in
      let place : k + 1 ≡ length before + 1 = omega (
        arith,
        length-map actions (take k log),
        length-take k log (omega (arith, get_elem?-length log k here)),
      ) in
      (next, response, r, rw (around log k i later here, place) reply, read, handled)

  -- If the pushes of any number of tasks, their calls interleaved in any order, have built a log,
  -- all their actions decode to well-formed requests, and Firestore answers every request for an
  -- action that it holds: a task whose push has returned a count, and to which counts are reported
  -- that reach that count and do not pass the log's end, is answered from what it then watches. Its
  -- answer decodes to what the logic's dispatch responds to its request in the state, never
  -- serialized, after the requests that stand before it in the log.
  pub pushes_answered :
      (s : Tasks client database_name actions) (log : List ℕ) (i count : ℕ) (counts : List ℕ)
      → IsLog client database_name actions laws s log
      → ((index : ℕ) (doc : Document C.Bytes)
          → laws.documents s.db (action_doc_name client database_name index) ≡ some doc
          → (client.get_document (action_doc_name client database_name index) none s.db).0 ≡ ok doc)
      → s.pc i ≡ returned (Outcome.ok count)
      → count ≤ highest counts
      → highest counts ≤ length log
      → (next : Option Logic.State) × (response : ActionResponse) × (r : C.Bytes) × (respond_to
            (run_logic C)
            count
            (watch_log
              (λ index. (fetch_action client database_name index s.db).0)
              (map ok counts)).items
          ≡ ok r)
        × (C.decode_action_response r ≡ some response)
        × (handle_parsed_action impl
              (state_after none (map requests (take (count - 1) log)))
              (requests i)
            ≡ Outcome.ok (next, response))
  pushes_answered s log i count counts inv answers at reached bounded =
      let (k, place, here) = rw at at (inv.progress i) in
      let n = highest counts in
      let there : get_elem? (take n log) k ≡ some i = get_elem?-take n k log (omega arith) ∙ here in
      let (next, response, r, reply, read, handled) = answered_at (take n log) k i [] there in
      let watched =
        watch_log-ok (λ index. (fetch_action client database_name index s.db).0) (map actions log)
          counts (Stores-log client database_name actions laws s log inv answers)
          (omega (arith, length-map actions log))
        ∙ ap (map ok) (take-map n actions log)
        ∙ sym (append-nil (map ok (map actions (take n log)))) in
      let index : k ≡ count - 1 = omega arith in
      let earlier : take k (take n log) ≡ take (count - 1) log =
        take_twice k n log (omega arith) ∙ ap (λ m. take m log) index in
      let stream =
        (watch_log (λ index. (fetch_action client database_name index s.db).0)
          (map ok counts)).items in
      (
        next,
        response,
        r,
        ap (λ m. respond_to (run_logic C) m stream) place
            ∙ ap (respond_to (run_logic C) (k + 1)) watched
            ∙ reply,
        read,
        rw earlier at handled,
      )
