-- ===== src/Server/Datastore/Document.antt =====
-- Firestore's documents and how they are read: be/serde_firestore/src/lib.rs, with the records that
-- be/server/src/datastore.rs reads from it. `B` is the type of byte strings. A time stamp, a
-- reference and a geo point are not read, so what they hold is left out; a float is its bits.
use pictophone.Base.{ℕ, String, Bool, Option, none, some, str_eq, if◌then◌else◌}
use pictophone.Base.Integers.{ℤ, to_u64}
use pictophone.Base.Result.{Result, ok, err, ◌>>=◌}

-- `dto::Value`; `unset` has no `value_type`.
mutual
  pub data Value (B : Type 0) : Type 0 where
    unset : Value B
    null_value : Value B
    boolean_value : Bool → Value B
    integer_value : ℤ → Value B
    double_value : ℕ → Value B
    timestamp_value : Value B
    string_value : String → Value B
    bytes_value : B → Value B
    reference_value : Value B
    geo_point_value : Value B
    array_value : Values B → Value B
    map_value : Fields B → Value B

  pub data Values (B : Type 0) : Type 0 where
    no_values : Values B
    value : Value B → Values B → Values B

  pub data Fields (B : Type 0) : Type 0 where
    no_fields : Fields B
    field : String → Value B → Fields B → Fields B

-- `dto::Document`; its times are never read.
pub record Document (B : Type 0) : Type 0 where
  pub name : String
  pub fields : Fields B

-- What a visitor of serde is called with.
mutual
  pub data Content (B : Type 0) : Type 0 where
    visit_none : Content B
    visit_bool : Bool → Content B
    visit_i64 : ℤ → Content B
    visit_f64 : ℕ → Content B
    visit_string : String → Content B
    visit_byte_buf : B → Content B
    visit_seq : Elements B → Content B
    visit_map : Entries B → Content B

  pub data Elements (B : Type 0) : Type 0 where
    no_elements : Elements B
    element : Content B → Elements B → Elements B

  pub data Entries (B : Type 0) : Type 0 where
    no_entries : Entries B
    entry : String → Content B → Entries B → Entries B

-- `serde_firestore::Error`
pub data Error : Type 0 where
  error : Error

-- `Deserializer::deserialize_any`, with `ArrayWrap` and `MapWrap`.
unfoldable mutual
  pub deserialize_any : {B : Type 0} → Value B → Result Error (Content B)
  deserialize_any unset = err error
  deserialize_any null_value = ok visit_none
  deserialize_any (boolean_value b) = ok (visit_bool b)
  deserialize_any (integer_value i) = ok (visit_i64 i)
  deserialize_any (double_value d) = ok (visit_f64 d)
  deserialize_any timestamp_value = err error
  deserialize_any (string_value s) = ok (visit_string s)
  deserialize_any (bytes_value b) = ok (visit_byte_buf b)
  deserialize_any reference_value = err error
  deserialize_any geo_point_value = err error
  deserialize_any (array_value vs) = elements_of vs >>= λ es. ok (visit_seq es)
  deserialize_any (map_value fs) = entries_of fs >>= λ es. ok (visit_map es)

  pub elements_of : {B : Type 0} → Values B → Result Error (Elements B)
  elements_of no_values = ok no_elements
  elements_of (value v vs) = deserialize_any v >>= λ c. elements_of vs >>= λ cs. ok (element c cs)

  pub entries_of : {B : Type 0} → Fields B → Result Error (Entries B)
  entries_of no_fields = ok no_entries
  entries_of (field key v fs) =
      deserialize_any v >>= λ c. entries_of fs >>= λ es. ok (entry key c es)

abbrev pub find_entry : {B : Type 0} → String → Entries B → Option (Content B)
find_entry key no_entries = none
find_entry key (entry here c es) = if str_eq here key then some c else find_entry key es

-- serde's visitor for `u64`
abbrev pub visit_u64 : {B : Type 0} → Content B → Result Error ℕ
visit_u64 (visit_i64 i) = elim (to_u64 i) [ none ↦ err error | some n ↦ ok n ]
visit_u64 _ = err error

-- `from_doc` into `ActionMetadata`: the count, or 0 without one. Every field is visited.
unfoldable pub action_metadata : {B : Type 0} → Document B → Result Error ℕ
action_metadata doc = entries_of doc.fields >>= λ es. elim (find_entry "count" es) [
  | none ↦ ok 0
  | some c ↦ visit_u64 c
]

-- `from_doc` into `ActionRecord`: the serialized action, or nothing without one. `byte_buf` is the
-- visitor of `serde_bytes::ByteBuf`, and `empty` the byte string without a byte.
unfoldable pub action_record :
    {B : Type 0} → (Content B → Result Error B) → B → Document B → Result Error B
action_record byte_buf empty doc = entries_of doc.fields >>= λ es.
    elim (find_entry "serialized" es) [ none ↦ ok empty | some c ↦ byte_buf c ]
