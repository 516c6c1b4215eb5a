-- ===== src/Pb/UnknownError/RoundTrip.antt =====
-- What is read from the bytes of a `UnknownError` (fe/src/gen/pictophone/v0_1_pb.js).
use pictophone.Base.{◌≡◌, refl, ◌∙◌, ap}
use pictophone.Pb.Runtime.{Jspb, IsLawful, Fields}
use pictophone.Pb.Runtime.Steps.{
  Writes, written-put_string, string_fields, read_fields-Steps, pending-written,
}
use pictophone.Pb.Runtime.Steps.Cases.{
  Steps-string, with_text, get_field-with_text, text_or_restored,
}
use pictophone.Pb.UnknownError.{
  new, to_object, switch, deserialize_binary_from_reader, deserialize_binary,
  serialize_binary_to_writer, serialize_binary, get_error, set_error,
}

module _ (J : Jspb) (L : IsLawful J) where
  -- What the serializer writes of a message.
  abbrev pub fields : J.Message → Fields
  fields m = string_fields 1 (get_error J m)

  -- The message that is read from those fields.
  abbrev pub restored : J.Message → J.Message
  restored m = (with_text J (new J) 1 (get_error J m))

  pub serialize_binary_to_writer-Writes :
      (m : J.Message) → Writes J L (serialize_binary_to_writer J m) (fields m)
  unfolding serialize_binary_to_writer
  serialize_binary_to_writer-Writes m = written-put_string J L 1 (get_error J m)

  pub deserialize-fields :
      (m : J.Message) (r : J.Reader)
      → L.pending r ≡ fields m
      → (deserialize_binary_from_reader J (new J) r).0 ≡ restored m
  unfolding deserialize_binary_from_reader
  deserialize-fields m r ahead =
      read_fields-Steps J L (switch J) (fields m) (new J) (restored m) r ahead
        (Steps-string J L (switch J) 1 (set_error J) (λ m' r'. refl) _ (get_error J m))

  pub to_object-restored : (m : J.Message) → to_object J (restored m) ≡ to_object J m
  unfolding to_object new get_error
  to_object-restored m = simp (
    L.get_text_with_default_lem,
    get_field-with_text J L,
    text_or_restored,
    L.get_field-initialize,
  )

  -- The bytes of a `UnknownError` are read as a message with the same `toObject`.
  pub unknown_error_round_trip :
      (m : J.Message) → to_object J (deserialize_binary J (serialize_binary J m)) ≡ to_object J m
  unfolding deserialize_binary serialize_binary
  unknown_error_round_trip m =
      ap (to_object J)
        (deserialize-fields m _ (pending-written J L _ _ (serialize_binary_to_writer-Writes m)))
      ∙ to_object-restored m
