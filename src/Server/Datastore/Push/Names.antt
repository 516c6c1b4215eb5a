-- ===== src/Server/Datastore/Push/Names.antt =====
-- The names of the documents of be/server/src/datastore.rs, and the documents that push_action writes.
use Prim.Native.String.{◌++◌ as ◌<>◌}
use Prim.Native.String.append
use Prim.Native.Char.{code}
use text.Mathlib.TextLemmas.{append_cancel_left, append_assoc, head-eq_of_cons-eq}
use pictophone.Base.{ℕ, String, Option, some, ◌≡◌, ◌≢◌, refl, ap, ◌∙◌, eq_iff, arith}
use pictophone.Base.Decimal.{decimal, decimal_inj}
use pictophone.Base.Integers.{pos}
use pictophone.Base.Result.{ok}
use pictophone.Server.Datastore.Document.{entries_of, action_metadata, action_record, Document}
use pictophone.Server.Datastore.Push.{
  FirestoreClient, metadata_doc_name, action_doc_name, new_metadata_doc, new_action_doc, new_writes,
}
use pictophone.Server.Datastore.Push.Laws.{IsTransactional, written}

module _ {B : Type 0} (client : FirestoreClient B) (database_name : String) where
  pub action_doc_name_inj :
      (i j : ℕ)
      → action_doc_name client database_name i ≡ action_doc_name client database_name j
      → i ≡ j
  unfolding action_doc_name
  action_doc_name_inj i j h =
      decimal_inj i j
        (append_cancel_left (database_name <> "/documents/actions/") (decimal i) (decimal j) h)

  pub metadata-ne-action :
      (i : ℕ) → metadata_doc_name client database_name ≢ action_doc_name client database_name i
  unfolding metadata_doc_name action_doc_name
  metadata-ne-action i h =
      let below =
        append_cancel_left database_name "/documents/metadata/actions"
          ("/documents/actions/" <> decimal i)
          (h ∙ append_assoc database_name "/documents/actions/" (decimal i)) in
      let rest =
        append_cancel_left "/documents/" "metadata/actions" ("actions/" <> decimal i)
          (below ∙ append_assoc "/documents/" "actions/" (decimal i)) in
      let first : "metadata/actions" ≡ String.◌∷◌ "a" ("ctions/" <> decimal i) =
        rest ∙ append.cons _ _ _ in
      let same : code "m" ≡ code "a" = ap code (head-eq_of_cons-eq first) in
      absurd (omega (arith, same))

  pub read_count : (n : ℕ) → action_metadata (new_metadata_doc client database_name (pos n)) ≡ ok n
  unfolding action_metadata entries_of
  read_count n = refl

  pub read_action :
      IsTransactional client
      → (count : ℕ) (action : B)
      → action_record client.byte_buf client.empty
          (new_action_doc client database_name count action)
        ≡ ok action
  unfolding action_record entries_of
  read_action laws count action = laws.read_bytes action

  -- After a push has been committed, its documents are there and the other names are as before.
  module _ (n count : ℕ) (action : B) (documents : String → Option (Document B)) where
    abbrev after : String → Option (Document B)
    after = written (new_writes client database_name (pos n) count action) documents

    pub written_metadata :
        after (metadata_doc_name client database_name)
        ≡ some (new_metadata_doc client database_name (pos n))
    written_metadata = ground (
      arith,
      metadata-ne-action count,
      eq_iff (metadata_doc_name client database_name) (metadata_doc_name client database_name),
      eq_iff (action_doc_name client database_name count) (metadata_doc_name client database_name),
    )

    pub written_action :
        after (action_doc_name client database_name count)
        ≡ some (new_action_doc client database_name count action)
    written_action = ground (
      arith,
      eq_iff (action_doc_name client database_name count)
          (action_doc_name client database_name count),
    )

    pub written_before :
        (k : ℕ)
        → k ≢ count
        → after (action_doc_name client database_name k)
          ≡ documents (action_doc_name client database_name k)
    written_before k h = ground (
      arith,
      metadata-ne-action k,
      action_doc_name_inj count k,
      eq_iff (metadata_doc_name client database_name) (action_doc_name client database_name k),
      eq_iff (action_doc_name client database_name count) (action_doc_name client database_name k),
    )
