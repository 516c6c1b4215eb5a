-- ===== src/Pb/Runtime/Loop.antt =====
-- The loop that every `deserializeBinaryFromReader` of fe/src/gen/pictophone/v0_1_pb.js has, over
-- the class's own `switch`, and the tests that every `serializeBinaryToWriter` makes.
use pictophone.Base.{
  ℕ, zero, suc, true, false, String, List, Option, none, some, ◌==◌, if◌then◌else◌,
}
use pictophone.Pb.Runtime.{Jspb, nonempty, has_items}

-- `while (reader.nextField()) { if (reader.isEndGroup()) break; … switch … }`. Each round reads at
-- least one byte, so one round more than there are bytes is enough.
module _ (J : Jspb) (switch : ℕ → J.Message → J.Reader → J.Message × J.Reader) where
  unfoldable pub read_rounds : ℕ → J.Message → J.Reader → J.Message × J.Reader
  read_rounds zero m r = (m, r)
  read_rounds (suc fuel) m r =
      let (more, r') = J.next_field r in
      elim more [
        | false ↦ (m, r')
        | true ↦ elim (J.is_end_group r') [
          | true ↦ (m, r')
          | false ↦ let (m', r'') = switch (J.get_field_number r') m r' in read_rounds fuel m' r''
        ]
      ]

  unfoldable pub read_fields : J.Message → J.Reader → J.Message × J.Reader
  unfolding read_rounds
  read_fields m r = read_rounds (suc (J.bytes_left r)) m r

module _ (J : Jspb) where
  -- `if (f.length > 0) { writer.writeString(n, f); }`
  unfoldable pub put_string : J.Writer → ℕ → String → J.Writer
  put_string w n f = if nonempty f then J.write_string w n f else w

  -- `if (f !== 0) { writer.writeUint32(n, f); }`
  unfoldable pub put_uint32 : J.Writer → ℕ → ℕ → J.Writer
  put_uint32 w n f = if f == 0 then w else J.write_uint32 w n f

  -- `if (f.length > 0) { writer.writeRepeatedString(n, f); }`
  unfoldable pub put_repeated : J.Writer → ℕ → List String → J.Writer
  put_repeated w n f = if has_items f then J.write_repeated_string w n f else w

  -- `if (f != null) { writer.writeMessage(n, f, serializer); }`
  unfoldable pub put_message :
      J.Writer → ℕ → Option J.Message → (J.Message → J.Writer → J.Writer) → J.Writer
  put_message w n none serializer = w
  put_message w n (some f) serializer = J.write_message w n f serializer
