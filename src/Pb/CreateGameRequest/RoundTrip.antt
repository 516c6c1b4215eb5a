-- ===== src/Pb/CreateGameRequest/RoundTrip.antt =====
-- What is read from the bytes of a `CreateGameRequest` (fe/src/gen/pictophone/v0_1_pb.js).
use pictophone.Base.{◌≡◌, refl, ◌∙◌, ap}
use pictophone.Pb.Runtime.{Jspb, IsLawful, Fields, append}
use pictophone.Pb.Runtime.Steps.{
  Writes, Writes-then, written-put_string, string_fields, Steps-append, read_fields-Steps,
  pending-written,
}
use pictophone.Pb.Runtime.Steps.Cases.{
  Steps-string, with_text, get_field-with_text, text_or_restored,
}
use pictophone.Pb.CreateGameRequest.{
  new, to_object, switch, deserialize_binary_from_reader, deserialize_binary,
  serialize_binary_to_writer, serialize_binary, get_game_id, get_player_id, set_game_id,
  set_player_id,
}

module _ (J : Jspb) (L : IsLawful J) where
  -- What the serializer writes of a message.
  abbrev pub fields : J.Message → Fields
  fields m = append (string_fields 1 (get_game_id J m)) (string_fields 2 (get_player_id J m))

  -- The message that is read from those fields.
  abbrev pub restored : J.Message → J.Message
  restored m = (with_text J (with_text J (new J) 1 (get_game_id J m)) 2 (get_player_id J m))

  pub serialize_binary_to_writer-Writes :
      (m : J.Message) → Writes J L (serialize_binary_to_writer J m) (fields m)
  unfolding serialize_binary_to_writer
  serialize_binary_to_writer-Writes m =
      Writes-then J L _ _ _ _ (written-put_string J L 1 (get_game_id J m))
        (written-put_string J L 2 (get_player_id J m))

  pub deserialize-fields :
      (m : J.Message) (r : J.Reader)
      → L.pending r ≡ fields m
      → (deserialize_binary_from_reader J (new J) r).0 ≡ restored m
  unfolding deserialize_binary_from_reader
  deserialize-fields m r ahead =
      read_fields-Steps J L (switch J) (fields m) (new J) (restored m) r ahead (
        Steps-append J L (switch J) _ _ _ _ _
          (Steps-string J L (switch J) 1 (set_game_id J) (λ m' r'. refl) _ (get_game_id J m))
          (Steps-string J L (switch J) 2 (set_player_id J) (λ m' r'. refl) _ (get_player_id J m)))

  pub to_object-restored : (m : J.Message) → to_object J (restored m) ≡ to_object J m
  unfolding to_object new get_game_id get_player_id
  to_object-restored m = simp (
    L.get_text_with_default_lem,
    get_field-with_text J L,
    text_or_restored,
    L.get_field-initialize,
  )

  -- The bytes of a `CreateGameRequest` are read as a message with the same `toObject`.
  pub create_game_request_round_trip :
      (m : J.Message) → to_object J (deserialize_binary J (serialize_binary J m)) ≡ to_object J m
  unfolding deserialize_binary serialize_binary
  create_game_request_round_trip m =
      ap (to_object J)
        (deserialize-fields m _ (pending-written J L _ _ (serialize_binary_to_writer-Writes m)))
      ∙ to_object-restored m
