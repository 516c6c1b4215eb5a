-- ===== src/Pb/StartGameRequest/RoundTrip.antt =====
-- What is read from the bytes of a `StartGameRequest` (fe/src/gen/pictophone/v0_1_pb.js).
use pictophone.Base.{◌<◌, ◌^◌, ◌≡◌, refl, ◌∙◌, ap}
use pictophone.Pb.Runtime.{Jspb, IsLawful, Fields, append}
use pictophone.Pb.Runtime.Steps.{
  Writes, Writes-then, written-put_string, written-put_uint32, string_fields, uint32_fields,
  Steps-append, read_fields-Steps, pending-written,
}
use pictophone.Pb.Runtime.Steps.Cases.{
  Steps-string, Steps-uint32, with_text, with_number, get_field-with_text, get_field-with_number,
  text_or_restored, number_or_restored,
}
use pictophone.Pb.StartGameRequest.{
  new, to_object, switch, deserialize_binary_from_reader, deserialize_binary,
  serialize_binary_to_writer, serialize_binary, get_game_id, get_player_id, get_window_size,
  get_length, set_game_id, set_player_id, set_window_size, set_length,
}

module _ (J : Jspb) (L : IsLawful J) where
  -- What the serializer writes of a message.
  abbrev pub fields : J.Message → Fields
  fields m =
      append
        (append (append (string_fields 1 (get_game_id J m)) (string_fields 2 (get_player_id J m)))
          (uint32_fields 3 (get_window_size J m)))
        (uint32_fields 4 (get_length J m))

  -- The message that is read from those fields.
  abbrev pub restored : J.Message → J.Message
  restored m =
      (with_number J
        (with_number J (with_text J (with_text J (new J) 1 (get_game_id J m)) 2 (get_player_id J m))
          3 (get_window_size J m))
        4 (get_length J m))

  pub serialize_binary_to_writer-Writes :
      (m : J.Message)
      → get_window_size J m < 2 ^ 32
      → get_length J m < 2 ^ 32
      → Writes J L (serialize_binary_to_writer J m) (fields m)
  unfolding serialize_binary_to_writer
  serialize_binary_to_writer-Writes m h0 h1 =
      Writes-then J L _ _ _ _
        (Writes-then J L _ _ _ _
          (Writes-then J L _ _ _ _ (written-put_string J L 1 (get_game_id J m))
            (written-put_string J L 2 (get_player_id J m)))
          (written-put_uint32 J L 3 (get_window_size J m) h0))
        (written-put_uint32 J L 4 (get_length J m) h1)

  pub deserialize-fields :
      (m : J.Message) (r : J.Reader)
      → get_window_size J m < 2 ^ 32
      → get_length J m < 2 ^ 32
      → L.pending r ≡ fields m
      → (deserialize_binary_from_reader J (new J) r).0 ≡ restored m
  unfolding deserialize_binary_from_reader
  deserialize-fields m r h0 h1 ahead =
      read_fields-Steps J L (switch J) (fields m) (new J) (restored m) r ahead (
        Steps-append J L (switch J) _ _ _ _ _
          (Steps-append J L (switch J) _ _ _ _ _
            (Steps-append J L (switch J) _ _ _ _ _
              (Steps-string J L (switch J) 1 (set_game_id J) (λ m' r'. refl) _ (get_game_id J m))
              (Steps-string J L (switch J) 2 (set_player_id J) (λ m' r'. refl) _
                (get_player_id J m)))
            (Steps-uint32 J L (switch J) 3 (set_window_size J) (λ m' r'. refl) _
              (get_window_size J m) h0))
          (Steps-uint32 J L (switch J) 4 (set_length J) (λ m' r'. refl) _ (get_length J m) h1))

  pub to_object-restored : (m : J.Message) → to_object J (restored m) ≡ to_object J m
  unfolding to_object new get_game_id get_player_id get_window_size get_length
  to_object-restored m = simp (
    L.get_text_with_default_lem,
    get_field-with_text J L,
    text_or_restored,
    L.get_number_with_default_lem,
    get_field-with_number J L,
    number_or_restored,
    L.get_field-initialize,
  )

  -- The bytes of a `StartGameRequest` with 32-bit numbers are read as a message with the same `toObject`.
  pub start_game_request_round_trip :
      (m : J.Message)
      → get_window_size J m < 2 ^ 32
      → get_length J m < 2 ^ 32
      → to_object J (deserialize_binary J (serialize_binary J m)) ≡ to_object J m
  unfolding deserialize_binary serialize_binary
  start_game_request_round_trip m h0 h1 =
      ap (to_object J) (
        deserialize-fields m _ h0 h1
          (pending-written J L _ _ (serialize_binary_to_writer-Writes m h0 h1)))
      ∙ to_object-restored m
