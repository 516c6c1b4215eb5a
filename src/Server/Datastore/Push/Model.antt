-- ===== src/Server/Datastore/Push/Model.antt =====
-- A Firestore in memory, for tests: it keeps what it held after every commit, a transaction reads
-- what was held when it began, and a commit is aborted if another came in between.
use pictophone.Base.{
  ℕ, zero, suc, String, Option, none, some, List, [], ◌∷◌, ◌++◌, length, get_elem?, ◌==◌, ◌≡◌, refl,
  ap, sym, ◌∙◌, inl, inr, ◌⊎◌, ◌≢◌, Bool, true, false, arith, get_elem?-append_left,
  get_elem?-append_last, length-append,
}
use pictophone.Base.Result.{Result, ok, err}
use pictophone.Server.Datastore.Document.{Document, Content, visit_byte_buf, Error, error}
use pictophone.Server.Datastore.Push.{Code, aborted, not_found, other, FirestoreClient}
use pictophone.Server.Datastore.Push.Laws.{IsTransactional, written}

module _ {B : Type 0} (no_bytes : B) where
  abbrev Held : Type 0
  Held = String → Option (Document B)

  -- What was held after so many commits.
  abbrev held_after : List Held → ℕ → Option Held
  held_after commits zero = some (λ name. none)
  held_after commits (suc n) = get_elem? commits n

  abbrev in_held : Option Held → String → Option (Document B)
  in_held none name = none
  in_held (some h) name = h name

  abbrev held : List Held → String → Option (Document B)
  held commits name = in_held (held_after commits (length commits)) name

  abbrev answer : Option (Document B) → Result Code (Document B)
  answer none = err not_found
  answer (some doc) = ok doc

  abbrev answer_in : String → Option Held → Result Code (Document B)
  answer_in name none = err other
  answer_in name (some h) = answer (h name)

  abbrev read_buf : Content B → Result Error B
  read_buf (visit_byte_buf bytes) = ok bytes
  read_buf _ = err error

  abbrev commit_if : Bool → List Held → Held → Result Code (Unit {0}) × List Held
  commit_if true commits new = (ok tt, commits ++ (new ∷ []))
  commit_if false commits new = (err aborted, commits)

  abbrev pub memory : FirestoreClient B
  memory = record {
    Db = List Held;
    Tx = ℕ;
    begin_transaction = λ database commits. (ok (length commits), commits);
    get_document = λ name selector commits. (
      elim selector [
        | none ↦ answer (held commits name)
        | some tx ↦ answer_in name (held_after commits tx)
      ],
      commits,
    );
    commit = λ database tx writes commits.
        commit_if (tx == length commits) commits (written writes (held commits));
    byte_buf = read_buf;
    empty = no_bytes;
  }

  abbrev MemorySeen : List Held → ℕ → String → Option (Document B) → Type 0
  MemorySeen commits tx name doc = (h : Held) × (held_after commits tx ≡ some h) × (h name ≡ doc)

  answer_found : (doc : Option (Document B)) (d : Document B) → answer doc ≡ ok d → doc ≡ some d
  answer_found none d h = cc
  answer_found (some doc) d h = cc

  answer_missing : (doc : Option (Document B)) → answer doc ≡ err not_found → doc ≡ none
  answer_missing none h = refl
  answer_missing (some doc) h = cc

  MemorySeen-found :
      (commits : List Held) (tx : ℕ) (name : String) (h : Option Held) (doc : Document B)
      → held_after commits tx ≡ h
      → answer_in name h ≡ ok doc
      → MemorySeen commits tx name (some doc)
  MemorySeen-found commits tx name none doc e found = cc
  MemorySeen-found commits tx name (some h) doc e found = (h, e, answer_found (h name) doc found)

  MemorySeen-missing :
      (commits : List Held) (tx : ℕ) (name : String) (h : Option Held)
      → held_after commits tx ≡ h
      → answer_in name h ≡ err not_found
      → MemorySeen commits tx name none
  MemorySeen-missing commits tx name none e missing = cc
  MemorySeen-missing commits tx name (some h) e missing = (h, e, answer_missing (h name) missing)

  held_after-append :
      (commits : List Held) (new h : Held) (tx : ℕ)
      → held_after commits tx ≡ some h
      → held_after (commits ++ (new ∷ [])) tx ≡ some h
  held_after-append commits new h zero e = e
  held_after-append commits new h (suc n) e = get_elem?-append_left commits (new ∷ []) n e

  held-append :
      (commits : List Held) (new : Held) (name : String)
      → held (commits ++ (new ∷ [])) name ≡ new name
  held-append commits new name =
      let grown : length (commits ++ (new ∷ [])) ≡ suc (length commits) =
        omega (arith, length-append commits (new ∷ [])) in
      ap (λ o. in_held o name)
        (ap (held_after (commits ++ (new ∷ []))) grown ∙ get_elem?-append_last commits new)

  MemorySeen-current :
      (commits : List Held) (tx : ℕ) (name : String) (doc : Option (Document B))
      → tx ≡ length commits
      → MemorySeen commits tx name doc
      → held commits name ≡ doc
  MemorySeen-current commits tx name doc now (h, e, same) =
      ap (λ o. in_held o name) (ap (held_after commits) (sym now) ∙ e) ∙ same

  MemorySeen-commit :
      (commits : List Held) (new : Held) (tx : ℕ) (name : String) (doc : Option (Document B))
      (b : Bool)
      → MemorySeen commits tx name doc
      → MemorySeen (commit_if b commits new).1 tx name doc
  MemorySeen-commit commits new tx name doc true (h, e, same) =
      (h, held_after-append commits new h tx e, same)
  MemorySeen-commit commits new tx name doc false seen = seen

  commit_if_cases :
      (commits : List Held) (new : Held) (tx : ℕ) (b : Bool)
      → (tx == length commits) ≡ b
      → (((commit_if b commits new).0 ≢ ok tt)
          × ((name : String) → held (commit_if b commits new).1 name ≡ held commits name))
        ⊎ (((commit_if b commits new).0 ≢ err aborted)
            × ((name : String) (doc : Option (Document B))
                → MemorySeen commits tx name doc
                → held commits name ≡ doc)
            × ((name : String) → held (commit_if b commits new).1 name ≡ new name))
  commit_if_cases commits new tx true now =
      let same : tx ≡ length commits = ground arith in
      inr (
        λ e. cc,
        λ name doc seen. MemorySeen-current commits tx name doc same seen,
        λ name. held-append commits new name,
      )
  commit_if_cases commits new tx false past = inl (λ e. cc, λ name. refl)

  pub memory-IsTransactional : IsTransactional memory
  memory-IsTransactional = record {
    documents = held;
    Seen = MemorySeen;
    begin-documents = λ database name db. refl;
    begin-Seen = λ database name db tx doc seen. seen;
    get-documents = λ asked name selector db. refl;
    get-Seen = λ asked name selector db tx doc seen. seen;
    get_found = λ name tx db doc found. MemorySeen-found db tx name _ doc refl found;
    get_missing = λ name tx db missing. MemorySeen-missing db tx name _ refl missing;
    get_current = λ name db doc found. answer_found (held db name) doc found;
    commit-Seen = λ database name own tx writes db doc seen.
        MemorySeen-commit db (written writes (held db)) tx name doc (own == length db) seen;
    commit_cases = λ database tx writes db.
        commit_if_cases db (written writes (held db)) tx (tx == length db) refl;
    read_bytes = λ bytes. refl;
  }

  pub memory_starts_empty : (name : String) → memory-IsTransactional.documents [] name ≡ none
  unfolding memory-IsTransactional
  memory_starts_empty name = refl

  pub memory_answers :
      (name : String) (db : List Held) (doc : Document B)
      → memory-IsTransactional.documents db name ≡ some doc
      → (memory.get_document name none db).0 ≡ ok doc
  unfolding memory-IsTransactional
  memory_answers name db doc h = ap answer h
