-- ===== src/Server/Datastore/Push/Log.antt =====
-- The log that tasks pushing to the same Firestore build (be/server/src/datastore.rs): what it is, and
-- how far a task has come with respect to it.
use pictophone.Base.{
  ℕ, ◌+◌, ◌%◌, ◌^◌, ◌<◌, String, Option, none, some, List, [], ◌∷◌, ◌++◌, length, get_elem?, ◌≡◌,
  ◌≢◌, sym, ap, ◌∙◌, ◌⊎◌, inl, inr, ◌==◌, Bool-cases, arith, get_elem?-append_left,
  get_elem?-append_cases,
}
use pictophone.Base.Integers.{pos}
use pictophone.Base.Outcome
use pictophone.Base.Result.{ok}
use pictophone.Server.Datastore.Document.{Document, action_metadata}
use pictophone.Server.Datastore.Push.{
  FirestoreClient, metadata_doc_name, action_doc_name, new_metadata_doc, new_action_doc, new_writes,
  Pc, begin_transaction, fetch_metadata, commit, returned,
}
use pictophone.Server.Datastore.Push.Laws.{IsTransactional}
use pictophone.Server.Datastore.Push.Names.{read_count}
use pictophone.Server.Datastore.Push.Tasks.{update, Tasks}

module _ {B : Type 0} (client : FirestoreClient B) (database_name : String) (actions : ℕ → B)
    (laws : IsTransactional client) where
  -- What stands at the metadata's name gives this count.
  abbrev pub GivesCount : Option (Document B) → ℕ → Type 0
  GivesCount none count = count ≡ 0
  GivesCount (some doc) count = action_metadata doc ≡ ok count

  -- A log of task numbers has no entry of a task.
  abbrev pub IsUnlogged : List ℕ → ℕ → Type 0
  IsUnlogged log i = (k : ℕ) → get_elem? log k ≢ some i

  -- What a task has done by the place in its code.
  abbrev pub Progress : client.Db → List ℕ → ℕ → Pc client database_name → Type 0
  Progress db log i begin_transaction = IsUnlogged log i
  Progress db log i (fetch_metadata tx) = IsUnlogged log i
  Progress db log i (commit tx count writes) =
      IsUnlogged log i
      × ((count + 1) % 2 ^ 64 < 2 ^ 63)
      × (writes ≡ new_writes client database_name (pos ((count + 1) % 2 ^ 64)) count (actions i))
      × ((doc : Option (Document B)) × laws.Seen db tx (metadata_doc_name client database_name) doc
          × GivesCount doc count)
  Progress db log i (returned (Outcome.ok count)) =
      (k : ℕ) × (count ≡ k + 1) × (get_elem? log k ≡ some i)
  Progress db log i (returned (Outcome.err e)) = Unit {0}
  Progress db log i (returned Outcome.panic) = IsUnlogged log i

  -- The log is what Firestore holds, no task stands twice in it, and a push that returned a count is
  -- the entry with that number.
  pub record IsLog (s : Tasks client database_name actions) (log : List ℕ) : Type 0 where
    pub small : length log < 2 ^ 63
    pub counted :
        ((log ≡ []) × (laws.documents s.db (metadata_doc_name client database_name) ≡ none))
        ⊎ (laws.documents s.db (metadata_doc_name client database_name)
            ≡ some (new_metadata_doc client database_name (pos (length log))))
    pub kept :
        (k i : ℕ)
        → get_elem? log k ≡ some i
        → laws.documents s.db (action_doc_name client database_name k)
          ≡ some (new_action_doc client database_name k (actions i))
    pub once : (j k i : ℕ) → get_elem? log j ≡ some i → get_elem? log k ≡ some i → j ≡ k
    pub progress : (i : ℕ) → Progress s.db log i (s.pc i)

  pub count_is_length :
      (log : List ℕ) (n : ℕ) (found doc : Option (Document B))
      → ((log ≡ []) × (found ≡ none))
        ⊎ (found ≡ some (new_metadata_doc client database_name (pos (length log))))
      → found ≡ doc
      → GivesCount doc n
      → n ≡ length log
  count_is_length log n found none (inl (empty, _)) h g = g ∙ ap length (sym empty)
  count_is_length log n found (some doc) (inl (_, missing)) h g = cc
  count_is_length log n found none (inr there) h g = cc
  count_is_length log n found (some doc) (inr there) h g =
      let read = read_count client database_name (length log) in cc

  -- A task's progress does not depend on the calls of the others.
  pub Progress-quiet :
      (db db' : client.Db) (log : List ℕ) (i : ℕ) (pc : Pc client database_name)
      → ((tx : client.Tx) (doc : Option (Document B))
          → laws.Seen db tx (metadata_doc_name client database_name) doc
          → laws.Seen db' tx (metadata_doc_name client database_name) doc)
      → Progress db log i pc
      → Progress db' log i pc
  Progress-quiet db db' log i begin_transaction seen p = p
  Progress-quiet db db' log i (fetch_metadata tx) seen p = p
  Progress-quiet db db' log i (commit tx count writes) seen (a, b, c, (doc, d, e)) =
      (a, b, c, (doc, seen tx doc d, e))
  Progress-quiet db db' log i (returned (Outcome.ok c)) seen p = p
  Progress-quiet db db' log i (returned (Outcome.err e)) seen p = p
  Progress-quiet db db' log i (returned Outcome.panic) seen p = p

  pub IsUnlogged-append :
      (log : List ℕ) (i j : ℕ) → j ≢ i → IsUnlogged log j → IsUnlogged (log ++ (i ∷ [])) j
  IsUnlogged-append log i j ne h k at = elim (get_elem?-append_cases log i k at) [
    | inl before ↦ h k before
    | inr (_, same) ↦ ne (sym same)
  ]

  pub Progress-append :
      (db : client.Db) (log : List ℕ) (i j : ℕ) (pc : Pc client database_name)
      → j ≢ i
      → Progress db log j pc
      → Progress db (log ++ (i ∷ [])) j pc
  Progress-append db log i j begin_transaction ne p = IsUnlogged-append log i j ne p
  Progress-append db log i j (fetch_metadata tx) ne p = IsUnlogged-append log i j ne p
  Progress-append db log i j (commit tx count writes) ne (a, b, c, d) =
      (IsUnlogged-append log i j ne a, b, c, d)
  Progress-append db log i j (returned (Outcome.ok c)) ne (k, e, at) =
      (k, e, get_elem?-append_left log (i ∷ []) k at)
  Progress-append db log i j (returned (Outcome.err e)) ne p = p
  Progress-append db log i j (returned Outcome.panic) ne p = IsUnlogged-append log i j ne p

  pub Progress-update :
      (db : client.Db) (log : List ℕ) (i : ℕ) (pcs : ℕ → Pc client database_name)
      (pc : Pc client database_name)
      → ((j : ℕ) → j ≢ i → Progress db log j (pcs j))
      → Progress db log i pc
      → (j : ℕ) → Progress db log j (update pcs i pc j)
  Progress-update db log i pcs pc others own j = elim (Bool-cases (j == i)) [
    | inl same ↦ let eq : j ≡ i = ground arith in rw same (rw eq own)
    | inr differ ↦ let ne : j ≢ i = ground arith in rw differ (others j ne)
  ]
