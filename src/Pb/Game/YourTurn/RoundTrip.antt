-- ===== src/Pb/Game/YourTurn/RoundTrip.antt =====
-- What is read from the bytes of a `Game.YourTurn` (fe/src/gen/pictophone/v0_1_pb.js).
use pictophone.Base.{◌≡◌, refl, ◌∙◌, ap, none}
use pictophone.Pb.Runtime.{Jspb, IsLawful, Fields}
use pictophone.Pb.Runtime.Steps.{Writes, written-put_repeated, read_fields-Steps, pending-written}
use pictophone.Pb.Runtime.{repeated}
use pictophone.Pb.Runtime.Steps.Cases.{
  Steps-repeated, with_items, get_field-with_items, items_of_restored,
}
use pictophone.Pb.Game.YourTurn.{
  new, to_object, switch, deserialize_binary_from_reader, deserialize_binary,
  serialize_binary_to_writer, serialize_binary, get_context_list, add_context,
}

module _ (J : Jspb) (L : IsLawful J) where
  -- What the serializer writes of a message.
  abbrev pub fields : J.Message → Fields
  fields m = repeated 1 (get_context_list J m)

  -- The message that is read from those fields.
  abbrev pub restored : J.Message → J.Message
  restored m = (with_items J (new J) 1 (get_context_list J m))

  pub serialize_binary_to_writer-Writes :
      (m : J.Message) → Writes J L (serialize_binary_to_writer J m) (fields m)
  unfolding serialize_binary_to_writer
  serialize_binary_to_writer-Writes m = written-put_repeated J L 1 (get_context_list J m)

  pub deserialize-fields :
      (m : J.Message) (r : J.Reader)
      → L.pending r ≡ fields m
      → (deserialize_binary_from_reader J (new J) r).0 ≡ restored m
  unfolding deserialize_binary_from_reader
  deserialize-fields m r ahead =
      read_fields-Steps J L (switch J) (fields m) (new J) (restored m) r ahead (
        Steps-repeated J L (switch J) 1 (λ m' value. add_context J m' value none) (λ m' r'. refl)
          (get_context_list J m) _)

  pub to_object-restored : (m : J.Message) → to_object J (restored m) ≡ to_object J m
  unfolding to_object new get_context_list
  to_object-restored m = simp (
    L.get_repeated_field_lem,
    get_field-with_items J L,
    items_of_restored,
    L.get_field-initialize,
  )

  -- The bytes of a `YourTurn` are read as a message with the same `toObject`.
  pub game_your_turn_round_trip :
      (m : J.Message) → to_object J (deserialize_binary J (serialize_binary J m)) ≡ to_object J m
  unfolding deserialize_binary serialize_binary
  game_your_turn_round_trip m =
      ap (to_object J)
        (deserialize-fields m _ (pending-written J L _ _ (serialize_binary_to_writer-Writes m)))
      ∙ to_object-restored m
