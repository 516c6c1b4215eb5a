-- ===== src/Server/Datastore/Push.antt =====
-- `FirestoreHandle` of be/server/src/datastore.rs and `push_action` of the datastore that keeps its
-- log in Firestore. What a call of Firestore does is the parameter `client`; between two calls other
-- tasks may run, so `push_action` is a machine that makes one call at a time.
pub mod Laws
pub mod Tasks
pub mod Log
mod Calls
mod Replies
pub mod Interleaved
pub mod Model
mod Tests
mod Names
use Prim.Native.String.{◌++◌ as ◌<>◌}
use pictophone.Base.{ℕ, zero, suc, ◌+◌, ◌%◌, ◌^◌, String, Option, none, some, List, [], ◌∷◌}
use pictophone.Base.Decimal.{decimal}
use pictophone.Base.Integers.{ℤ, to_i64}
use pictophone.Base.Outcome
use pictophone.Base.Outcome.{Outcome}
use pictophone.Base.Result.{Result, ok, err}
use pictophone.Server.{ServerError, log_failed}
use pictophone.Server.Datastore.Document.{
  Value, integer_value, bytes_value, no_fields, field, Document, Content, Error, action_metadata,
  action_record,
}

-- `tonic::Code`, as far as it is told apart.
pub data Code : Type 0 where
  aborted : Code
  not_found : Code
  other : Code

-- The calls of Firestore, on what the database holds; `Tx` are its transaction ids. A write replaces
-- a whole document. `byte_buf` and `empty` are the byte buffers of serde_bytes.
pub record FirestoreClient (B : Type 0) : Type 1 where
  pub Db : Type 0
  pub Tx : Type 0
  pub begin_transaction : String → Db → Result Code Tx × Db
  pub get_document : String → Option Tx → Db → Result Code (Document B) × Db
  pub commit : String → Tx → List (Document B) → Db → Result Code (Unit {0}) × Db
  pub byte_buf : Content B → Result Error B
  pub empty : B

-- A failed call or a document that cannot be read, passed on by `?`.
abbrev pub or_log_failed : {A : Type 0} → Result Error A → Result ServerError A
or_log_failed (ok a) = ok a
or_log_failed (err e) = err log_failed

module _ {B : Type 0} (client : FirestoreClient B) (database_name : String) where
  unfoldable pub metadata_doc_name : String
  metadata_doc_name = database_name <> "/documents/metadata/actions"

  unfoldable pub action_doc_name : ℕ → String
  action_doc_name index = (database_name <> "/documents/actions/") <> decimal index

  -- The `match` of `fetch_action_metadata` on the response.
  abbrev pub metadata_of : Result Code (Document B) → Result ServerError ℕ
  metadata_of (ok doc) = or_log_failed (action_metadata doc)
  metadata_of (err not_found) = ok 0
  metadata_of (err _) = err log_failed

  unfoldable pub fetch_action_metadata :
      Option client.Tx → client.Db → Result ServerError ℕ × client.Db
  fetch_action_metadata consistency_selector db =
      let (resp, db') = client.get_document metadata_doc_name consistency_selector db in
      (metadata_of resp, db')

  abbrev pub action_of : Result Code (Document B) → Result ServerError B
  action_of (ok doc) = or_log_failed (action_record client.byte_buf client.empty doc)
  action_of (err _) = err log_failed

  unfoldable pub fetch_action : ℕ → client.Db → Result ServerError B × client.Db
  fetch_action index db =
      let (resp, db') = client.get_document (action_doc_name index) none db in (action_of resp, db')

  abbrev pub new_metadata_doc : ℤ → Document B
  new_metadata_doc new_count = record {
    name = metadata_doc_name;
    fields = field "count" (integer_value new_count) no_fields;
  }

  abbrev pub new_action_doc : ℕ → B → Document B
  new_action_doc count action = record {
    name = action_doc_name count;
    fields = field "serialized" (bytes_value action) no_fields;
  }

  -- The `writes` of the commit request.
  abbrev pub new_writes : ℤ → ℕ → B → List (Document B)
  new_writes new_count count action =
      new_metadata_doc new_count ∷ (new_action_doc count action ∷ [])

  -- Where `push_action` stands: before a call, or at its end.
  pub data Pc : Type 0 where
    begin_transaction : Pc
    fetch_metadata : client.Tx → Pc
    commit : client.Tx → ℕ → List (Document B) → Pc
    returned : Outcome ServerError ℕ → Pc

  -- The rest of a call, from its result on.
  abbrev pub begun : Result Code client.Tx → Pc
  begun (ok txid) = fetch_metadata txid
  begun (err status) = returned (Outcome.err log_failed)

  -- The documents to write; `try_into::<i64>().unwrap()` panics on a count of 2^63.
  abbrev pub fetched : B → client.Tx → Result ServerError ℕ → Pc
  fetched action txid (err e) = returned (Outcome.err e)
  fetched action txid (ok count) = elim (to_i64 ((count + 1) % 2 ^ 64)) [
    | none ↦ returned Outcome.panic
    | some new_count ↦ commit txid count (new_writes new_count count action)
  ]

  abbrev pub committed : ℕ → Result Code (Unit {0}) → Pc
  committed count (ok _) = returned (Outcome.ok ((count + 1) % 2 ^ 64))
  committed count (err aborted) = begin_transaction
  committed count (err _) = returned (Outcome.err log_failed)

  -- One call of Firestore, and the code up to the next.
  unfoldable pub advance : B → Pc → client.Db → Pc × client.Db
  advance action begin_transaction db =
      let (reply, db') = client.begin_transaction database_name db in (begun reply, db')
  advance action (fetch_metadata txid) db =
      let (count, db') = fetch_action_metadata (some txid) db in (fetched action txid count, db')
  advance action (commit txid count writes) db =
      let (reply, db') = client.commit database_name txid writes db in (committed count reply, db')
  advance action (returned result) db = (returned result, db)
