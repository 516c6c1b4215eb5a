-- ===== src/Server/Datastore/Push/Laws.antt =====
-- What push_action of be/server/src/datastore.rs relies on in Firestore: a transaction is committed
-- as a whole or not at all, and only while every document it has read is still as it was read.
use pictophone.Base.{
  String, Option, none, some, List, [], ◌∷◌, str_eq, if◌then◌else◌, ◌≡◌, ◌≢◌, ◌⊎◌,
}
use pictophone.Base.Result.{ok, err}
use pictophone.Server.Datastore.Document.{Document, visit_byte_buf}
use pictophone.Server.Datastore.Push.{FirestoreClient, aborted, not_found}

-- What a database holds after writes, each of which replaces the document of its name.
abbrev pub written :
    {B : Type 0} → List (Document B) → (String → Option (Document B)) → String → Option (Document B)
written [] documents name = documents name
written (doc ∷ writes) documents name =
    written writes (λ n. if str_eq doc.name n then some doc else documents n) name

module _ {B : Type 0} (client : FirestoreClient B) where
  -- `documents` is what the database holds, and `Seen db tx name doc` says that the transaction has
  -- read this at this name, a document or that there is none.
  pub record IsTransactional : Type 1 where
    pub documents : client.Db → String → Option (Document B)
    pub Seen : client.Db → client.Tx → String → Option (Document B) → Type 0
    pub begin-documents :
        (database name : String) (db : client.Db)
        → documents (client.begin_transaction database db).1 name ≡ documents db name
    pub begin-Seen :
        (database name : String) (db : client.Db) (tx : client.Tx) (doc : Option (Document B))
        → Seen db tx name doc
        → Seen (client.begin_transaction database db).1 tx name doc
    pub get-documents :
        (asked name : String) (selector : Option client.Tx) (db : client.Db)
        → documents (client.get_document asked selector db).1 name ≡ documents db name
    pub get-Seen :
        (asked name : String) (selector : Option client.Tx) (db : client.Db) (tx : client.Tx)
        (doc : Option (Document B))
        → Seen db tx name doc
        → Seen (client.get_document asked selector db).1 tx name doc
    pub get_found :
        (name : String) (tx : client.Tx) (db : client.Db) (doc : Document B)
        → (client.get_document name (some tx) db).0 ≡ ok doc
        → Seen (client.get_document name (some tx) db).1 tx name (some doc)
    pub get_missing :
        (name : String) (tx : client.Tx) (db : client.Db)
        → (client.get_document name (some tx) db).0 ≡ err not_found
        → Seen (client.get_document name (some tx) db).1 tx name none
    pub get_current :
        (name : String) (db : client.Db) (doc : Document B)
        → (client.get_document name none db).0 ≡ ok doc
        → documents db name ≡ some doc
    pub commit-Seen :
        (database name : String) (own tx : client.Tx) (writes : List (Document B)) (db : client.Db)
        (doc : Option (Document B))
        → Seen db tx name doc
        → Seen (client.commit database own writes db).1 tx name doc
    -- A commit that is not confirmed may have been applied, unless it was aborted.
    pub commit_cases :
        (database : String) (tx : client.Tx) (writes : List (Document B)) (db : client.Db)
        → (((client.commit database tx writes db).0 ≢ ok tt)
            × ((name : String)
                → documents (client.commit database tx writes db).1 name ≡ documents db name))
          ⊎ (((client.commit database tx writes db).0 ≢ err aborted)
              × ((name : String) (doc : Option (Document B))
                  → Seen db tx name doc
                  → documents db name ≡ doc)
              × ((name : String)
                  → documents (client.commit database tx writes db).1 name
                    ≡ written writes (documents db) name))
    pub read_bytes : (bytes : B) → client.byte_buf (visit_byte_buf bytes) ≡ ok bytes
