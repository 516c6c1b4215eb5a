-- ===== src/Pb/Runtime/Steps/Cases.antt =====
-- What the loop makes of the fields that one test of a serializer writes, and what the message
-- then holds.
use mathlib.Core.Option
use pictophone.Base.{
  ℕ, ◌<◌, ◌^◌, ◌≡◌, refl, ◌∙◌, ap, String, Bool, true, false, List, [], ◌∷◌, ◌++◌, Option, none,
  some, arith, if◌then◌else◌, ◌==◌, Bool-cases, inl, inr,
}
use mathlib.Core.List.{foldl, append_assoc}
use pictophone.Pb.Runtime.{
  Jspb, IsLawful, Field, unset, text, number, texts, Fields, nonempty, has_items, text_or,
  number_or, items_of, repeated,
}
use pictophone.Pb.Runtime.Steps.{string_fields, uint32_fields, message_fields, Steps}
use pictophone.Pb.Runtime.Steps.Groups.{if_some}

module _ (J : Jspb) (L : IsLawful J)
    (switch : ℕ → J.Message → J.Reader → J.Message × J.Reader) where
  -- A field whose case reads a text and stores it.
  pub Steps-string :
      (n : ℕ) (set : J.Message → String → J.Message)
      → ((m : J.Message) (r : J.Reader)
          → switch n m r ≡ (let (value, r') = J.read_string r in (set m value, r')))
      → (m : J.Message) (s : String)
      → Steps J L switch (string_fields n s) m (if nonempty s then set m s else m)
  Steps-string n set h m s = elim (Bool-cases (nonempty s)) [
    | inl full ↦ rw full (
      set m s,
      (λ r on.
          let (value, rest) = L.read_string_lem r n s on in
          (rw (h m r, value) refl, rw (h m r) rest)),
      refl,
    )
    | inr empty ↦ rw empty refl
  ]

  pub Steps-uint32 :
      (n : ℕ) (set : J.Message → ℕ → J.Message)
      → ((m : J.Message) (r : J.Reader)
          → switch n m r ≡ (let (value, r') = J.read_uint32 r in (set m value, r')))
      → (m : J.Message) (v : ℕ) → v < 2 ^ 32
      → Steps J L switch (uint32_fields n v) m (if v == 0 then m else set m v)
  Steps-uint32 n set h m v small = elim (Bool-cases (v == 0)) [
    | inl default_value ↦ rw default_value refl
    | inr other ↦ rw other (
      set m v,
      (λ r on.
          let (value, rest) = L.read_uint32_lem r n v on small in
          (rw (h m r, value) refl, rw (h m r) rest)),
      refl,
    )
  ]

  pub Steps-repeated :
      (n : ℕ) (add : J.Message → String → J.Message)
      → ((m : J.Message) (r : J.Reader)
          → switch n m r ≡ (let (value, r') = J.read_string r in (add m value, r')))
      → (ss : List String) (m : J.Message) → Steps J L switch (repeated n ss) m (foldl add m ss)
  Steps-repeated n add h [] m = refl
  Steps-repeated n add h (s ∷ ss) m = (
    add m s,
    (λ r on.
        let (value, rest) = L.read_string_lem r n s on in
        (rw (h m r, value) refl, rw (h m r) rest)),
    Steps-repeated n add h ss (add m s),
  )

  -- A field whose case reads a nested message with that message's own loop.
  pub Steps-message :
      (n : ℕ) (new : J.Message) (f : J.Message → J.Reader → J.Message × J.Reader)
      (set : J.Message → J.Message → J.Message)
      → ((m : J.Message) (r : J.Reader)
          → switch n m r ≡ (let (value, r') = J.read_message r new f in (set m value, r')))
      → (es : J.Message → Fields) (restored : J.Message → J.Message)
      → ((x : J.Message) (r : J.Reader) → L.pending r ≡ es x → (f new r).0 ≡ restored x)
      → (m : J.Message) (o : Option J.Message)
      → Steps J L switch
          (message_fields n (Option.map es o))
          m
          (if_some set m (Option.map restored o))
  Steps-message n new f set h es restored inner m none = refl
  Steps-message n new f set h es restored inner m (some x) = (
    set m (restored x),
    (λ r on.
        let (r', ahead, value, rest) = L.read_message_lem r n (es x) new f on in
        (rw (h m r, value, inner x r' ahead) refl, rw (h m r) rest)),
    refl,
  )

-- Reading back a stored text, number or list, with the default that was not stored.
pub text_or_restored :
    (M : Type 0) (s : String) → text_or {M = M} "" (if nonempty s then text s else unset) ≡ s
text_or_restored M String.[] = refl
text_or_restored M (String.◌∷◌ c s) = refl

pub number_or_restored :
    (M : Type 0) (v : ℕ) → number_or {M = M} 0 (if v == 0 then unset else number v) ≡ v
number_or_restored M v = ground arith

pub items_of_restored :
    (M : Type 0) (ss : List String)
    → items_of {M = M} (if has_items ss then texts ss else unset) ≡ ss
items_of_restored M [] = refl
items_of_restored M (s ∷ ss) = refl

-- One more item behind the items of a field.
added :
    {M : Type 0} (old : Field M) (ss : List String) (s : String) (b : Bool) {new : Field M}
    → new ≡ (if b then texts (items_of old ++ (s ∷ [])) else old)
    → (if b then (if has_items ss then texts (items_of new ++ ss) else new) else new)
      ≡ (if b then texts (items_of old ++ (s ∷ ss)) else old)
added old [] s true e = e
added old (t ∷ ss) s true e = rw e (ap texts (append_assoc (items_of old) (s ∷ []) (t ∷ ss)))
added old ss s false e = e

-- The message after one field has been read: a default is not written, so it is not set.
module _ (J : Jspb) where
  abbrev pub with_text : J.Message → ℕ → String → J.Message
  with_text m n s = if nonempty s then J.set_proto3_string_field m n s else m

  abbrev pub with_number : J.Message → ℕ → ℕ → J.Message
  with_number m n v = if v == 0 then m else J.set_proto3_int_field m n v

  abbrev pub with_items : J.Message → ℕ → List String → J.Message
  with_items m n ss = foldl (λ m' s. J.add_to_repeated_field m' n s none) m ss

module _ (J : Jspb) (L : IsLawful J) where
  pub get_field-with_text :
      (m : J.Message) (n : ℕ) (s : String) (k : ℕ)
      → J.get_field (with_text J m n s) k
        ≡ (if n == k then (if nonempty s then text s else J.get_field m k) else J.get_field m k)
  get_field-with_text m n s k = elim (Bool-cases (nonempty s)) [
    | inl full ↦ rw full (L.get_field-set_proto3_string_field m n s k ∙ rw full)
    | inr empty ↦ rw empty (ground arith)
  ]

  pub get_field-with_number :
      (m : J.Message) (n v k : ℕ)
      → J.get_field (with_number J m n v) k
        ≡ (if n == k then (if v == 0 then J.get_field m k else number v) else J.get_field m k)
  get_field-with_number m n v k = elim (Bool-cases (v == 0)) [
    | inl default_value ↦ rw default_value (ground arith)
    | inr other ↦ rw other (L.get_field-set_proto3_int_field m n v k ∙ rw other)
  ]

  pub get_field-with_items :
      (ss : List String) (m : J.Message) (n k : ℕ)
      → J.get_field (with_items J m n ss) k ≡ (
          if n == k
          then (if has_items ss then texts (items_of (J.get_field m k) ++ ss) else J.get_field m k)
          else J.get_field m k)
  get_field-with_items [] m n k = ground arith
  get_field-with_items (s ∷ ss) m n k =
      get_field-with_items ss (J.add_to_repeated_field m n s none) n k
      ∙ added (J.get_field m k) ss s (n == k)
          (L.get_field-add_to_repeated_field m n s k ∙ ground (arith, ap (J.get_field m)))
