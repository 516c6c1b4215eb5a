-- ===== src/Server/Datastore/Push/Replies.antt =====
-- Where each reply of Firestore leaves a task that pushes an action (be/server/src/datastore.rs).
use pictophone.Base.{
  ℕ, ltb, ◌+◌, ◌%◌, ◌^◌, String, none, some, List, [], ◌∷◌, ◌++◌, length, ◌≡◌, ◌≢◌, refl, ap, ◌∙◌,
  inl, inr, Bool-cases, arith, get_elem?-append_last,
}
use pictophone.Base.Result.{Result, ok, err}
use pictophone.Server.Datastore.Document.{Document, Error, action_metadata}
use pictophone.Server.Datastore.Push.{
  or_log_failed, Code, aborted, not_found, other, FirestoreClient, metadata_doc_name, metadata_of,
  begun, fetched, committed,
}
use pictophone.Server.Datastore.Push.Laws.{IsTransactional}
use pictophone.Server.Datastore.Push.Log.{IsUnlogged, Progress}

module _ {B : Type 0} (client : FirestoreClient B) (database_name : String) (actions : ℕ → B)
    (laws : IsTransactional client) where
  pub after_begin :
      (db : client.Db) (log : List ℕ) (i : ℕ) (reply : Result Code client.Tx)
      → IsUnlogged client database_name actions laws log i
      → Progress client database_name actions laws db log i (begun client database_name reply)
  after_begin db log i (ok txid) unlogged = unlogged
  after_begin db log i (err status) unlogged = tt

  after_count :
      (db : client.Db) (log : List ℕ) (i : ℕ) (tx : client.Tx) (doc : Document B)
      (count : Result Error ℕ)
      → action_metadata doc ≡ count
      → laws.Seen db tx (metadata_doc_name client database_name) (some doc)
      → IsUnlogged client database_name actions laws log i
      → Progress client database_name actions laws db log i
          (fetched client database_name (actions i) tx (or_log_failed count))
  after_count db log i tx doc (err e) read seen unlogged = tt
  after_count db log i tx doc (ok n) read seen unlogged =
      elim (Bool-cases (ltb ((n + 1) % 2 ^ 64) (2 ^ 63))) [
        | inl fits ↦ rw (fits, fetched) (unlogged, ground arith, refl, (some doc, seen, read))
        | inr too_many ↦ rw (too_many, fetched) unlogged
      ]

  -- The metadata that a transaction has read gives its count.
  pub after_fetch :
      (db : client.Db) (log : List ℕ) (i : ℕ) (tx : client.Tx) (reply : Result Code (Document B))
      → ((doc : Document B)
          → reply ≡ ok doc
          → laws.Seen db tx (metadata_doc_name client database_name) (some doc))
      → (reply ≡ err not_found → laws.Seen db tx (metadata_doc_name client database_name) none)
      → IsUnlogged client database_name actions laws log i
      → Progress client database_name actions laws db log i
          (fetched client database_name (actions i) tx (metadata_of client database_name reply))
  after_fetch db log i tx (ok doc) found missing unlogged =
      after_count db log i tx doc (action_metadata doc) refl (found doc refl) unlogged
  after_fetch db log i tx (err not_found) found missing unlogged =
      (unlogged, omega arith, refl, (none, missing refl, refl))
  after_fetch db log i tx (err aborted) found missing unlogged = tt
  after_fetch db log i tx (err other) found missing unlogged = tt

  pub after_refused :
      (db : client.Db) (log : List ℕ) (i count : ℕ) (reply : Result Code (Unit {0}))
      → reply ≢ ok tt
      → IsUnlogged client database_name actions laws log i
      → Progress client database_name actions laws db log i
          (committed client database_name count reply)
  after_refused db log i count (ok u) ne unlogged = absurd (ne refl)
  after_refused db log i count (err aborted) ne unlogged = unlogged
  after_refused db log i count (err not_found) ne unlogged = tt
  after_refused db log i count (err other) ne unlogged = tt

  pub after_applied :
      (db : client.Db) (log : List ℕ) (i count : ℕ) (reply : Result Code (Unit {0}))
      → reply ≢ err aborted
      → count ≡ length log
      → (count + 1) % 2 ^ 64 ≡ count + 1
      → Progress client database_name actions laws db
          (log ++ (i ∷ []))
          i
          (committed client database_name count reply)
  after_applied db log i count (ok u) ne last fits =
      (length log, fits ∙ ap (λ n. n + 1) last, get_elem?-append_last log i)
  after_applied db log i count (err aborted) ne last fits = absurd (ne refl)
  after_applied db log i count (err not_found) ne last fits = tt
  after_applied db log i count (err other) ne last fits = tt
