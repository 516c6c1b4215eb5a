-- ===== src/Server/Datastore/Push/Tasks.antt =====
-- Tasks that each push an action to the same Firestore, their calls interleaved in any order.
use pictophone.Base.{ℕ, String, List, [], ◌∷◌, ◌==◌, if◌then◌else◌, ◌≡◌, refl}
use pictophone.Server.Datastore.Push.{FirestoreClient, Pc, begin_transaction, advance}

abbrev pub update : {A : Type 0} → (ℕ → A) → ℕ → A → ℕ → A
update f i new j = if j == i then new else f j

module _ {B : Type 0} (client : FirestoreClient B) (database_name : String) (actions : ℕ → B) where
  -- Task `i` pushes `actions i`; a task whose turn never comes is one that does not exist.
  pub record Tasks : Type 0 where
    pub db : client.Db
    pub pc : ℕ → Pc client database_name

  pub data Step (s : Tasks) : Tasks → Type 0 where
    call :
        (i : ℕ) {pc : Pc client database_name} {db : client.Db}
        → advance client database_name (actions i) (s.pc i) s.db ≡ (pc, db)
        → Step s (record { db = db; pc = update s.pc i pc })

  pub data Reach (db : client.Db) : Tasks → Type 0 where
    start : Reach db (record { db = db; pc = λ _. begin_transaction })
    later : {s t : Tasks} → Reach db s → Step s t → Reach db t

  -- The tasks after the calls of a schedule, which names the task for each call.
  abbrev pub one_call : ℕ → Tasks → Tasks
  one_call i s = record {
    db = (advance client database_name (actions i) (s.pc i) s.db).1;
    pc = update s.pc i (advance client database_name (actions i) (s.pc i) s.db).0;
  }

  abbrev pub calls : List ℕ → Tasks → Tasks
  calls [] s = s
  calls (i ∷ is) s = calls is (one_call i s)

  pub Reach-calls : (is : List ℕ) (db : client.Db) (s : Tasks) → Reach db s → Reach db (calls is s)
  Reach-calls [] db s r = r
  Reach-calls (i ∷ is) db s r = Reach-calls is db (one_call i s) (later r (call i refl))
