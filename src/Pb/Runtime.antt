-- ===== src/Pb/Runtime.antt =====
-- The part of the package `google-protobuf` (`jspb`) that fe/src/gen/pictophone/v0_1_pb.js calls.
-- The package is not in the repository: its functions are a parameter, and what the classes rely
-- on are the named laws of `IsLawful`, stated by what a message holds under each field number,
-- what a writer has written, and what a reader has yet to read.
pub mod Loop
pub mod Steps
pub mod Model
use pictophone.Base.{
  ℕ, ◌+◌, ◌≤◌, ◌<◌, ◌^◌, ◌≡◌, String, Bool, true, false, Option, none, some, List, [], ◌∷◌, ◌++◌,
  ◌==◌, ◌||◌, if◌then◌else◌,
}

-- What stands under a field number; `unset` is `null` or `undefined`.
pub data Field (M : Type 0) : Type 0 where
  unset : Field M
  text : String → Field M
  number : ℕ → Field M
  texts : List String → Field M
  object : M → Field M

-- A message on the wire: its fields by number, in order.
mutual
  pub data Payload : Type 0 where
    chars : String → Payload
    varint : ℕ → Payload
    nested : Fields → Payload

  pub data Fields : Type 0 where
    nil : Fields
    cons : ℕ → Payload → Fields → Fields

abbrev pub append : Fields → Fields → Fields
append nil fs = fs
append (cons n p es) fs = cons n p (append es fs)

abbrev pub count : Fields → ℕ
count nil = 0
count (cons n p es) = count es + 1

-- `f.length > 0` on a text.
abbrev pub nonempty : String → Bool
nonempty String.[] = false
nonempty (String.◌∷◌ c s) = true

-- `f.length > 0` on an array.
abbrev pub has_items : List String → Bool
has_items [] = false
has_items (x ∷ xs) = true

pub record Jspb : Type 1 where
  pub Message : Type 0
  pub Reader : Type 0
  pub Writer : Type 0
  pub Bytes : Type 0
  -- `jspb.Message.initialize` of a new object without data, with its repeated fields and groups.
  pub initialize : List ℕ → List (List ℕ) → Message
  pub get_field : Message → ℕ → Field Message
  -- `getFieldWithDefault`, at texts and at numbers.
  pub get_text_with_default : Message → ℕ → String → String
  pub get_number_with_default : Message → ℕ → ℕ → ℕ
  pub get_repeated_field : Message → ℕ → List String
  pub get_wrapper_field : Message → ℕ → Option Message
  -- `setField`, at an array of texts.
  pub set_field : Message → ℕ → List String → Message
  pub set_proto3_string_field : Message → ℕ → String → Message
  pub set_proto3_int_field : Message → ℕ → ℕ → Message
  pub set_wrapper_field : Message → ℕ → Option Message → Message
  pub set_oneof_wrapper_field : Message → ℕ → List ℕ → Option Message → Message
  -- The last argument is the optional index.
  pub add_to_repeated_field : Message → ℕ → String → Option ℕ → Message
  pub compute_oneof_case : Message → List ℕ → ℕ
  pub new_writer : Writer
  pub write_string : Writer → ℕ → String → Writer
  pub write_uint32 : Writer → ℕ → ℕ → Writer
  pub write_repeated_string : Writer → ℕ → List String → Writer
  pub write_message : Writer → ℕ → Message → (Message → Writer → Writer) → Writer
  pub get_result_buffer : Writer → Bytes
  pub new_reader : Bytes → Reader
  -- The number of bytes that a reader has ahead.
  pub bytes_left : Reader → ℕ
  pub next_field : Reader → Bool × Reader
  pub is_end_group : Reader → Bool
  pub get_field_number : Reader → ℕ
  pub read_string : Reader → String × Reader
  pub read_uint32 : Reader → ℕ × Reader
  pub read_message : Reader → Message → (Message → Reader → Message × Reader) → Message × Reader
  pub skip_field : Reader → Reader

abbrev pub text_or : {M : Type 0} → String → Field M → String
text_or d (text s) = s
text_or d _ = d

abbrev pub number_or : {M : Type 0} → ℕ → Field M → ℕ
number_or d (number n) = n
number_or d _ = d

abbrev pub items_of : {M : Type 0} → Field M → List String
items_of (texts ss) = ss
items_of _ = []

abbrev pub object_of : {M : Type 0} → Field M → Option M
object_of (object m) = some m
object_of _ = none

abbrev pub field_of : {M : Type 0} → Option M → Field M
field_of none = unset
field_of (some m) = object m

-- `f != null`
abbrev pub is_set : {M : Type 0} → Field M → Bool
is_set unset = false
is_set _ = true

abbrev pub in_group : ℕ → List ℕ → Bool
in_group n [] = false
in_group n (k ∷ ks) = n == k || in_group n ks

-- The last field of the group that is set, or 0.
abbrev pub last_set : {M : Type 0} → (ℕ → Field M) → List ℕ → ℕ → ℕ
last_set f [] found = found
last_set f (k ∷ ks) found = last_set f ks (if is_set (f k) then k else found)

abbrev pub head_field : Fields → Option (ℕ × Payload)
head_field nil = none
head_field (cons n p es) = some (n, p)

abbrev pub tail_fields : Fields → Fields
tail_fields nil = nil
tail_fields (cons n p es) = es

abbrev pub has_fields : Fields → Bool
has_fields nil = false
has_fields (cons n p es) = true

abbrev pub repeated : ℕ → List String → Fields
repeated n [] = nil
repeated n (s ∷ ss) = cons n (chars s) (repeated n ss)

pub record IsLawful (J : Jspb) : Type 0 where
  pub get_field-initialize :
      (rs : List ℕ) (gs : List (List ℕ)) (k : ℕ) → J.get_field (J.initialize rs gs) k ≡ unset
  pub get_text_with_default_lem :
      (m : J.Message) (k : ℕ) (d : String)
      → J.get_text_with_default m k d ≡ text_or d (J.get_field m k)
  pub get_number_with_default_lem :
      (m : J.Message) (k d : ℕ) → J.get_number_with_default m k d ≡ number_or d (J.get_field m k)
  pub get_repeated_field_lem :
      (m : J.Message) (k : ℕ) → J.get_repeated_field m k ≡ items_of (J.get_field m k)
  pub get_wrapper_field_lem :
      (m : J.Message) (k : ℕ) → J.get_wrapper_field m k ≡ object_of (J.get_field m k)
  pub get_field-set_field :
      (m : J.Message) (n : ℕ) (ss : List String) (k : ℕ)
      → J.get_field (J.set_field m n ss) k ≡ (if n == k then texts ss else J.get_field m k)
  -- A default value is not stored.
  pub get_field-set_proto3_string_field :
      (m : J.Message) (n : ℕ) (s : String) (k : ℕ)
      → J.get_field (J.set_proto3_string_field m n s) k
        ≡ (if n == k then (if nonempty s then text s else unset) else J.get_field m k)
  pub get_field-set_proto3_int_field :
      (m : J.Message) (n v k : ℕ)
      → J.get_field (J.set_proto3_int_field m n v) k
        ≡ (if n == k then (if v == 0 then unset else number v) else J.get_field m k)
  pub get_field-set_wrapper_field :
      (m : J.Message) (n : ℕ) (o : Option J.Message) (k : ℕ)
      → J.get_field (J.set_wrapper_field m n o) k ≡ (if n == k then field_of o else J.get_field m k)
  -- A value clears the other fields of its group.
  pub get_field-set_oneof_wrapper_field :
      (m : J.Message) (n : ℕ) (g : List ℕ) (v : J.Message) (k : ℕ)
      → J.get_field (J.set_oneof_wrapper_field m n g (some v)) k
        ≡ (if n == k then object v else if in_group k g then unset else J.get_field m k)
  -- No value clears the field alone.
  pub get_field-clear_oneof_wrapper_field :
      (m : J.Message) (n : ℕ) (g : List ℕ) (k : ℕ)
      → J.get_field (J.set_oneof_wrapper_field m n g none) k
        ≡ (if n == k then unset else J.get_field m k)
  -- With no index the value goes to the end.
  pub get_field-add_to_repeated_field :
      (m : J.Message) (n : ℕ) (s : String) (k : ℕ)
      → J.get_field (J.add_to_repeated_field m n s none) k
        ≡ (if n == k then texts (items_of (J.get_field m n) ++ (s ∷ [])) else J.get_field m k)
  pub compute_oneof_case_lem :
      (m : J.Message) (g : List ℕ) → J.compute_oneof_case m g ≡ last_set (J.get_field m) g 0
  -- The fields that a writer has written.
  pub written : J.Writer → Fields
  pub written-new_writer : written J.new_writer ≡ nil
  pub written-write_string :
      (w : J.Writer) (n : ℕ) (s : String)
      → written (J.write_string w n s) ≡ append (written w) (cons n (chars s) nil)
  pub written-write_uint32 :
      (w : J.Writer) (n v : ℕ)
      → v < 2 ^ 32
      → written (J.write_uint32 w n v) ≡ append (written w) (cons n (varint v) nil)
  pub written-write_repeated_string :
      (w : J.Writer) (n : ℕ) (ss : List String)
      → written (J.write_repeated_string w n ss) ≡ append (written w) (repeated n ss)
  -- What the callback appends becomes the content of one field.
  pub written-write_message :
      (w : J.Writer) (n : ℕ) (m : J.Message) (f : J.Message → J.Writer → J.Writer) (es : Fields)
      → ((u : J.Writer) → written (f m u) ≡ append (written u) es)
      → written (J.write_message w n m f) ≡ append (written w) (cons n (nested es) nil)
  -- The fields that a reader has ahead, and the one that it stands on.
  pub pending : J.Reader → Fields
  pub current : J.Reader → Option (ℕ × Payload)
  -- Bytes that were written are read as the fields that they hold.
  pub pending-new_reader :
      (w : J.Writer) → pending (J.new_reader (J.get_result_buffer w)) ≡ written w
  -- A field takes at least one byte.
  pub count-le-bytes_left : (r : J.Reader) → count (pending r) ≤ J.bytes_left r
  pub next_field_more : (r : J.Reader) → (J.next_field r).0 ≡ has_fields (pending r)
  pub current-next_field : (r : J.Reader) → current (J.next_field r).1 ≡ head_field (pending r)
  pub pending-next_field : (r : J.Reader) → pending (J.next_field r).1 ≡ tail_fields (pending r)
  -- No field here ends a group: the classes have none.
  pub is_end_group_lem :
      (r : J.Reader) (n : ℕ) (p : Payload) → current r ≡ some (n, p) → J.is_end_group r ≡ false
  pub get_field_number_lem :
      (r : J.Reader) (n : ℕ) (p : Payload) → current r ≡ some (n, p) → J.get_field_number r ≡ n
  pub read_string_lem :
      (r : J.Reader) (n : ℕ) (s : String)
      → current r ≡ some (n, chars s)
      → ((J.read_string r).0 ≡ s) × (pending (J.read_string r).1 ≡ pending r)
  pub read_uint32_lem :
      (r : J.Reader) (n v : ℕ)
      → current r ≡ some (n, varint v)
      → v < 2 ^ 32
      → ((J.read_uint32 r).0 ≡ v) × (pending (J.read_uint32 r).1 ≡ pending r)
  -- The callback reads the content of the field, and the reader goes on behind it.
  pub read_message_lem :
      (r : J.Reader) (n : ℕ) (es : Fields) (m : J.Message)
      (f : J.Message → J.Reader → J.Message × J.Reader)
      → current r ≡ some (n, nested es)
      → (inner : J.Reader) × (pending inner ≡ es)
        × ((J.read_message r m f).0 ≡ (f m inner).0)
        × (pending (J.read_message r m f).1 ≡ pending r)
  pub skip_field_lem : (r : J.Reader) → pending (J.skip_field r) ≡ pending r
