-- ===== src/Pb/GameAlreadyExistsError/RoundTrip.antt =====
-- What is read from the bytes of a `GameAlreadyExistsError` (fe/src/gen/pictophone/v0_1_pb.js).
use pictophone.Base.{◌≡◌, refl, ◌∙◌, ap}
use pictophone.Pb.Runtime.{Jspb, IsLawful, Fields, nil}
use pictophone.Pb.Runtime.Steps.{
  Writes, append-nil as fields_append-nil, read_fields-Steps, pending-written,
}
use pictophone.Pb.GameAlreadyExistsError.{
  new, to_object, switch, deserialize_binary_from_reader, deserialize_binary,
  serialize_binary_to_writer, serialize_binary,
}

module _ (J : Jspb) (L : IsLawful J) where
  -- What the serializer writes of a message.
  abbrev pub fields : J.Message → Fields
  fields m = nil

  -- The message that is read from those fields.
  abbrev pub restored : J.Message → J.Message
  restored m = (new J)

  pub serialize_binary_to_writer-Writes :
      (m : J.Message) → Writes J L (serialize_binary_to_writer J m) (fields m)
  unfolding serialize_binary_to_writer
  serialize_binary_to_writer-Writes m w = rw fields_append-nil

  pub deserialize-fields :
      (m : J.Message) (r : J.Reader)
      → L.pending r ≡ fields m
      → (deserialize_binary_from_reader J (new J) r).0 ≡ restored m
  unfolding deserialize_binary_from_reader
  deserialize-fields m r ahead =
      read_fields-Steps J L (switch J) (fields m) (new J) (restored m) r ahead (refl)

  pub to_object-restored : (m : J.Message) → to_object J (restored m) ≡ to_object J m
  unfolding to_object
  to_object-restored m = refl

  -- The bytes of a `GameAlreadyExistsError` are read as a message with the same `toObject`.
  pub game_already_exists_error_round_trip :
      (m : J.Message) → to_object J (deserialize_binary J (serialize_binary J m)) ≡ to_object J m
  unfolding deserialize_binary serialize_binary
  game_already_exists_error_round_trip m =
      ap (to_object J)
        (deserialize-fields m _ (pending-written J L _ _ (serialize_binary_to_writer-Writes m)))
      ∙ to_object-restored m
