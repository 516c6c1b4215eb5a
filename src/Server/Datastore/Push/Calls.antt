-- ===== src/Server/Datastore/Push/Calls.antt =====
-- The log before and after a call of a task that pushes an action (be/server/src/datastore.rs).
use pictophone.Base.{
  ℕ, ◌+◌, ◌^◌, ◌<◌, String, Option, some, List, [], ◌∷◌, ◌++◌, length, get_elem?, ◌≡◌, ◌≢◌, refl,
  sym, ◌∙◌, inl, inr, arith, get_elem?-append_cases, get_elem?-length, length-append,
}
use pictophone.Base.Integers.{pos}
use pictophone.Server.Datastore.Document.{Document}
use pictophone.Server.Datastore.Push.{
  FirestoreClient, metadata_doc_name, action_doc_name, new_writes, Pc,
}
use pictophone.Server.Datastore.Push.Laws.{IsTransactional, written}
use pictophone.Server.Datastore.Push.Names.{written_metadata, written_action, written_before}
use pictophone.Server.Datastore.Push.Log.{
  IsUnlogged, Progress, IsLog, Progress-quiet, Progress-append, Progress-update,
}
use pictophone.Server.Datastore.Push.Tasks.{update, Tasks}

once_more :
    (log : List ℕ) (i : ℕ)
    → ((k : ℕ) → get_elem? log k ≢ some i)
    → ((a b j : ℕ) → get_elem? log a ≡ some j → get_elem? log b ≡ some j → a ≡ b)
    → (a b j : ℕ) → get_elem? (log ++ (i ∷ [])) a ≡ some j
    → get_elem? (log ++ (i ∷ [])) b ≡ some j
    → a ≡ b
once_more log i unlogged once a b j at at' = elim (get_elem?-append_cases log i a at) [
  | inl before ↦ elim (get_elem?-append_cases log i b at') [
    | inl before' ↦ once a b j before before'
    | inr (_, same) ↦ absurd (unlogged a (rw same before))
  ]
  | inr (at_end, same) ↦ elim (get_elem?-append_cases log i b at') [
    | inl before' ↦ absurd (unlogged b (rw same before'))
    | inr (at_end', _) ↦ at_end ∙ sym at_end'
  ]
]

module _ {B : Type 0} (client : FirestoreClient B) (database_name : String) (actions : ℕ → B)
    (laws : IsTransactional client) where
  -- A call that leaves the documents as they are.
  pub quiet_call :
      (s : Tasks client database_name actions) (log : List ℕ) (i : ℕ) (db : client.Db)
      (pc : Pc client database_name)
      → IsLog client database_name actions laws s log
      → ((name : String) → laws.documents db name ≡ laws.documents s.db name)
      → ((tx : client.Tx) (doc : Option (Document B))
          → laws.Seen s.db tx (metadata_doc_name client database_name) doc
          → laws.Seen db tx (metadata_doc_name client database_name) doc)
      → Progress client database_name actions laws db log i pc
      → IsLog client database_name actions laws (record { db = db; pc = update s.pc i pc }) log
  quiet_call s log i db pc inv same seen own = record {
    small = inv.small;
    counted = rw (same (metadata_doc_name client database_name)) inv.counted;
    kept = λ k j at. same (action_doc_name client database_name k) ∙ inv.kept k j at;
    once = inv.once;
    progress =
        Progress-update client database_name actions laws db log i s.pc pc
          (λ j _.
            Progress-quiet client database_name actions laws s.db db log j (s.pc j) seen
              (inv.progress j))
          own;
  }

  -- What stands where in a log with a new last entry.
  pub commit_applied :
      (s : Tasks client database_name actions) (log : List ℕ) (i : ℕ) (db : client.Db)
      (pc : Pc client database_name)
      → IsLog client database_name actions laws s log
      → IsUnlogged client database_name actions laws log i
      → length log + 1 < 2 ^ 63
      → ((name : String)
          → laws.documents db name
            ≡ written
                (new_writes client database_name (pos (length log + 1)) (length log) (actions i))
                (laws.documents s.db)
                name)
      → ((tx : client.Tx) (doc : Option (Document B))
          → laws.Seen s.db tx (metadata_doc_name client database_name) doc
          → laws.Seen db tx (metadata_doc_name client database_name) doc)
      → Progress client database_name actions laws db (log ++ (i ∷ [])) i pc
      → IsLog client database_name actions laws
          (record { db = db; pc = update s.pc i pc })
          (log ++ (i ∷ []))
  commit_applied s log i db pc inv unlogged fits writes seen own =
      let grown : length (log ++ (i ∷ [])) ≡ length log + 1 = length-append log (i ∷ []) in
      record {
        small = omega arith;
        counted = inr (
            writes (metadata_doc_name client database_name)
            ∙ written_metadata client database_name (length log + 1) (length log) (actions i)
                (laws.documents s.db)
            ∙ rw grown refl);
        kept = λ k j at. elim (get_elem?-append_cases log i k at) [
          | inl before ↦
              writes (action_doc_name client database_name k)
              ∙ written_before client database_name (length log + 1) (length log) (actions i)
                  (laws.documents s.db) k (λ e. ground (arith, e, get_elem?-length log k before))
              ∙ inv.kept k j before
          | inr (at_end, same) ↦ rw at_end (
              rw same at (
                writes (action_doc_name client database_name (length log))
                ∙ written_action client database_name (length log + 1) (length log) (actions i)
                    (laws.documents s.db)))
        ];
        once = once_more log i unlogged inv.once;
        progress =
            Progress-update client database_name actions laws db (log ++ (i ∷ [])) i s.pc pc
              (λ j ne. Progress-append client database_name actions laws db log i j (s.pc j) ne (
                Progress-quiet client database_name actions laws s.db db log j (s.pc j) seen
                  (inv.progress j)))
              own;
      }
