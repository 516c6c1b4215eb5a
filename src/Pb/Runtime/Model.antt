-- ===== src/Pb/Runtime/Model.antt =====
-- A runtime that meets the laws: messages are association lists, and bytes are the fields that
-- they stand for. It shows that the laws can hold and lets the classes run.
use pictophone.Base.{
  ℕ, ◌≡◌, refl, ap, String, false, List, [], ◌∷◌, ◌++◌, Option, none, some, arith, if◌then◌else◌,
  ◌==◌,
}
use pictophone.Pb.Runtime.{
  Jspb, IsLawful, Field, unset, text, number, texts, object, Fields, nil, cons, Payload, chars,
  varint, nested, count, append, nonempty, text_or, number_or, items_of, object_of, field_of,
  in_group, last_set, head_field, tail_fields, has_fields, repeated,
}

mutual
  pub data Slot : Type 0 where
    nothing : Slot
    a_text : String → Slot
    a_number : ℕ → Slot
    some_texts : List String → Slot
    a_message : Store → Slot

  pub data Store : Type 0 where
    empty : Store
    put : ℕ → Slot → Store → Store

abbrev as_field : Slot → Field Store
as_field nothing = unset
as_field (a_text s) = text s
as_field (a_number n) = number n
as_field (some_texts ss) = texts ss
as_field (a_message m) = object m

abbrev as_slot : Option Store → Slot
as_slot none = nothing
as_slot (some m) = a_message m

abbrev get : Store → ℕ → Field Store
get empty k = unset
get (put n v m) k = if n == k then as_field v else get m k

abbrev clear : List ℕ → Store → Store
clear [] m = m
clear (n ∷ g) m = put n nothing (clear g m)

abbrev set_in_group : Store → ℕ → List ℕ → Option Store → Store
set_in_group m n g none = put n nothing m
set_in_group m n g (some v) = put n (a_message v) (clear g m)

pub record Cursor : Type 0 where
  pub ahead : Fields
  pub on : Option (ℕ × Payload)

abbrev text_of : Option (ℕ × Payload) → String
text_of none = ""
text_of (some (n, chars s)) = s
text_of (some (n, varint v)) = ""
text_of (some (n, nested es)) = ""

abbrev number_of : Option (ℕ × Payload) → ℕ
number_of none = 0
number_of (some (n, chars s)) = 0
number_of (some (n, varint v)) = v
number_of (some (n, nested es)) = 0

abbrev fields_of : Option (ℕ × Payload) → Fields
fields_of none = nil
fields_of (some (n, chars s)) = nil
fields_of (some (n, varint v)) = nil
fields_of (some (n, nested es)) = es

abbrev field_number_of : Option (ℕ × Payload) → ℕ
field_number_of none = 0
field_number_of (some (n, p)) = n

abbrev start : Fields → Cursor
start es = record { ahead = es; on = none }

abbrev pub jspb : Jspb
jspb = record {
  Message = Store;
  Reader = Cursor;
  Writer = Fields;
  Bytes = Fields;
  initialize = λ rs gs. empty;
  get_field = get;
  get_text_with_default = λ m n d. text_or d (get m n);
  get_number_with_default = λ m n d. number_or d (get m n);
  get_repeated_field = λ m n. items_of (get m n);
  get_wrapper_field = λ m n. object_of (get m n);
  set_field = λ m n ss. put n (some_texts ss) m;
  set_proto3_string_field = λ m n s. put n (if nonempty s then a_text s else nothing) m;
  set_proto3_int_field = λ m n v. put n (if v == 0 then nothing else a_number v) m;
  set_wrapper_field = λ m n o. put n (as_slot o) m;
  set_oneof_wrapper_field = set_in_group;
  add_to_repeated_field = λ m n s at. put n (some_texts (items_of (get m n) ++ (s ∷ []))) m;
  compute_oneof_case = λ m g. last_set (get m) g 0;
  new_writer = nil;
  write_string = λ w n s. append w (cons n (chars s) nil);
  write_uint32 = λ w n v. append w (cons n (varint v) nil);
  write_repeated_string = λ w n ss. append w (repeated n ss);
  write_message = λ w n m f. append w (cons n (nested (f m nil)) nil);
  get_result_buffer = λ w. w;
  new_reader = start;
  bytes_left = λ r. count r.ahead;
  next_field =
      λ r. (has_fields r.ahead, record { ahead = tail_fields r.ahead; on = head_field r.ahead });
  is_end_group = λ r. false;
  get_field_number = λ r. field_number_of r.on;
  read_string = λ r. (text_of r.on, r);
  read_uint32 = λ r. (number_of r.on, r);
  read_message = λ r m f. ((f m (start (fields_of r.on))).0, r);
  skip_field = λ r. r;
}

get-clear :
    (g : List ℕ) (m : Store) (k : ℕ) → get (clear g m) k ≡ (if in_group k g then unset else get m k)
get-clear [] m k = refl
get-clear (n ∷ g) m k = ground (arith, get-clear g m k)

as_field-as_slot : (o : Option Store) → as_field (as_slot o) ≡ field_of o
as_field-as_slot none = refl
as_field-as_slot (some m) = refl

pub jspb-IsLawful : IsLawful jspb
jspb-IsLawful = record {
  get_field-initialize = λ rs gs k. refl;
  get_text_with_default_lem = λ m k d. refl;
  get_number_with_default_lem = λ m k d. refl;
  get_repeated_field_lem = λ m k. refl;
  get_wrapper_field_lem = λ m k. refl;
  get_field-set_field = λ m n ss k. refl;
  get_field-set_proto3_string_field = λ m n s k. ground arith;
  get_field-set_proto3_int_field = λ m n v k. ground arith;
  get_field-set_wrapper_field = λ m n o k. rw as_field-as_slot;
  get_field-set_oneof_wrapper_field = λ m n g v k. rw get-clear;
  get_field-clear_oneof_wrapper_field = λ m n g k. refl;
  get_field-add_to_repeated_field = λ m n s k. refl;
  compute_oneof_case_lem = λ m g. refl;
  written = λ w. w;
  written-new_writer = refl;
  written-write_string = λ w n s. refl;
  written-write_uint32 = λ w n v h. refl;
  written-write_repeated_string = λ w n ss. refl;
  written-write_message = λ w n m f es h. rw (h nil);
  pending = λ r. r.ahead;
  current = λ r. r.on;
  pending-new_reader = λ w. refl;
  count-le-bytes_left = λ r. omega arith;
  next_field_more = λ r. refl;
  current-next_field = λ r. refl;
  pending-next_field = λ r. refl;
  is_end_group_lem = λ r n p e. refl;
  get_field_number_lem = λ r n p e. ap field_number_of e;
  read_string_lem = λ r n s e. (ap text_of e, refl);
  read_uint32_lem = λ r n v e h. (ap number_of e, refl);
  read_message_lem = λ r n es m f e. (start (fields_of r.on), ap fields_of e, refl, refl);
  skip_field_lem = λ r. refl;
}
