-- ===== src/Pb/Runtime/Steps.antt =====
-- What the loop reads, field by field, under the laws of the runtime; and what the tests write.
pub mod Groups
pub mod Cases
use mathlib.Core.Option
use pictophone.Base.{
  ℕ, zero, suc, ◌+◌, ◌<◌, ◌≤◌, ◌^◌, ◌≡◌, refl, ◌∙◌, ap, String, Bool, true, false, List, [], ◌∷◌,
  ◌++◌, Option, none, some, arith, if◌then◌else◌, ◌==◌, Bool-cases, inl, inr,
}
use pictophone.Pb.Runtime.{
  Jspb, IsLawful, Fields, nil, cons, Payload, chars, varint, nested, count, append, nonempty,
  has_items, repeated, head_field, tail_fields, has_fields,
}
use pictophone.Pb.Runtime.Loop.{
  read_rounds, read_fields, put_string, put_uint32, put_repeated, put_message,
}

pub append_assoc : (a b c : Fields) → append (append a b) c ≡ append a (append b c)
append_assoc nil b c = refl
append_assoc (cons n p es) b c = ap (cons n p) (append_assoc es b c)

pub append-nil : (a : Fields) → append a nil ≡ a
append-nil nil = refl
append-nil (cons n p es) = ap (cons n p) (append-nil es)

-- What one test writes.
abbrev pub string_fields : ℕ → String → Fields
string_fields n s = if nonempty s then cons n (chars s) nil else nil

abbrev pub uint32_fields : ℕ → ℕ → Fields
uint32_fields n v = if v == 0 then nil else cons n (varint v) nil

abbrev pub message_fields : ℕ → Option Fields → Fields
message_fields n none = nil
message_fields n (some es) = cons n (nested es) nil

module _ (J : Jspb) (L : IsLawful J) where
  -- A serializer appends these fields to any writer.
  abbrev pub Writes : (J.Writer → J.Writer) → Fields → Type 0
  Writes f es = (w : J.Writer) → L.written (f w) ≡ append (L.written w) es

  pub written-put_string :
      (n : ℕ) (s : String) → Writes (λ w. put_string J w n s) (string_fields n s)
  unfolding put_string
  written-put_string n s w = elim (Bool-cases (nonempty s)) [
    | inl full ↦ rw full (L.written-write_string w n s)
    | inr empty ↦ rw (empty, append-nil)
  ]

  pub written-put_uint32 :
      (n v : ℕ) → v < 2 ^ 32 → Writes (λ w. put_uint32 J w n v) (uint32_fields n v)
  unfolding put_uint32
  written-put_uint32 n v h w = elim (Bool-cases (v == 0)) [
    | inl default_value ↦ rw (default_value, append-nil)
    | inr other ↦ rw other (L.written-write_uint32 w n v h)
  ]

  pub written-put_repeated :
      (n : ℕ) (ss : List String) → Writes (λ w. put_repeated J w n ss) (repeated n ss)
  unfolding put_repeated
  written-put_repeated n [] w = rw append-nil
  written-put_repeated n (s ∷ ss) w = L.written-write_repeated_string w n (s ∷ ss)

  pub written-put_message :
      (n : ℕ) (o : Option J.Message) (f : J.Message → J.Writer → J.Writer) (es : J.Message → Fields)
      → ((m : J.Message) → Writes (f m) (es m))
      → Writes (λ w. put_message J w n o f) (message_fields n (Option.map es o))
  unfolding put_message
  written-put_message n none f es h w = rw append-nil
  written-put_message n (some m) f es h w = L.written-write_message w n m f (es m) (h m)

  pub Writes-then :
      (f g : J.Writer → J.Writer) (es fs : Fields)
      → Writes f es
      → Writes g fs
      → Writes (λ w. g (f w)) (append es fs)
  Writes-then f g es fs a b w = b (f w) ∙ rw (a w) (append_assoc (L.written w) es fs)

  -- What was written to a new writer is what a reader of its bytes has ahead.
  pub pending-written :
      (f : J.Writer → J.Writer) (es : Fields)
      → Writes f es
      → L.pending (J.new_reader (J.get_result_buffer (f J.new_writer))) ≡ es
  pending-written f es h =
      L.pending-new_reader (f J.new_writer)
      ∙ h J.new_writer
      ∙ ap (λ x. append x es) L.written-new_writer

  module _ (switch : ℕ → J.Message → J.Reader → J.Message × J.Reader) where
    -- On this field the switch turns the first message into the second, and reads no further.
    abbrev pub Consumes : ℕ → Payload → J.Message → J.Message → Type 0
    Consumes n p m m' =
        (r : J.Reader)
        → L.current r ≡ some (n, p)
        → ((switch n m r).0 ≡ m') × (L.pending (switch n m r).1 ≡ L.pending r)

    -- These fields, one after the other, turn the first message into the second.
    abbrev pub Steps : Fields → J.Message → J.Message → Type 0
    Steps nil m m' = m ≡ m'
    Steps (cons n p es) m m' = (mid : J.Message) × Consumes n p m mid × Steps es mid m'

    pub Steps-append :
        (es fs : Fields) (m mid m' : J.Message)
        → Steps es m mid
        → Steps fs mid m'
        → Steps (append es fs) m m'
    Steps-append nil fs m mid m' a b = rw a b
    Steps-append (cons n p es) fs m mid m' (next, c, a) b =
        (next, c, Steps-append es fs next mid m' a b)

    read_rounds-Steps :
        (es : Fields) (fuel : ℕ) (m m' : J.Message) (r : J.Reader)
        → L.pending r ≡ es
        → count es < fuel
        → Steps es m m'
        → (read_rounds J switch fuel m r).0 ≡ m'
    unfolding read_rounds
    read_rounds-Steps nil zero m m' r ahead h s = absurd (omega arith)
    read_rounds-Steps nil (suc fuel) m m' r ahead h s =
        rw (L.next_field_more r, ahead, read_rounds) s
    read_rounds-Steps (cons n p es) zero m m' r ahead h s = absurd (omega arith)
    read_rounds-Steps (cons n p es) (suc fuel) m m' r ahead h (mid, c, s) =
        let r' = (J.next_field r).1 in
        let on : L.current r' ≡ some (n, p) = L.current-next_field r ∙ ap head_field ahead in
        let behind : L.pending r' ≡ es = L.pending-next_field r ∙ ap tail_fields ahead in
        let (done, rest) = c r' on in
        rw
          (
            L.next_field_more r,
            ahead,
            L.is_end_group_lem r' n p on,
            L.get_field_number_lem r' n p on,
            read_rounds,
          )
          (read_rounds-Steps es fuel _ m' (switch n m r').1 (rest ∙ behind) (omega arith)
            (rw done s))

    -- The loop reads all that is ahead: the rounds never run out.
    pub read_fields-Steps :
        (es : Fields) (m m' : J.Message) (r : J.Reader)
        → L.pending r ≡ es
        → Steps es m m'
        → (read_fields J switch m r).0 ≡ m'
    unfolding read_fields
    read_fields-Steps es m m' r ahead s =
        read_rounds-Steps es (suc (J.bytes_left r)) m m' r ahead
          (omega (arith, L.count-le-bytes_left r, ap count ahead)) s
