-- ===== src/Pb/MakeMoveResponse/RoundTrip.antt =====
-- What is read from the bytes of a `MakeMoveResponse` (fe/src/gen/pictophone/v0_1_pb.js).
use mathlib.Core.Option
use pictophone.Base.{ℕ, ◌≡◌, refl, ◌∙◌, ap, some, [], ◌∷◌, ◌==◌, if◌then◌else◌}
use pictophone.Pb.Runtime.{Jspb, IsLawful, Fields, append}
use pictophone.Pb.Runtime.Steps.{
  Writes, Writes-then, written-put_message, message_fields, Steps-append, read_fields-Steps,
  pending-written,
}
use pictophone.Pb.Runtime.Steps.Groups.{
  Slots, AtMostOne, AtMostOne-map_slots, map_slots, map-map_restored, set_slots,
  get_field-set_slots,
}
use pictophone.Pb.Runtime.Steps.Cases.{Steps-message}
use pictophone.Pb.MakeMoveResponse.{
  new, to_object, switch, deserialize_binary_from_reader, deserialize_binary,
  serialize_binary_to_writer, serialize_binary, get_unknown_error, get_not_your_turn_error,
  get_game_not_started_error, get_game_already_over_error, set_unknown_error,
  set_not_your_turn_error, set_game_not_started_error, set_game_already_over_error, oneof_group,
}
use pictophone.Pb.UnknownError
use pictophone.Pb.UnknownError.RoundTrip as UnknownErrorRoundTrip
use pictophone.Pb.NotYourTurnError
use pictophone.Pb.NotYourTurnError.RoundTrip as NotYourTurnErrorRoundTrip
use pictophone.Pb.GameNotStartedError
use pictophone.Pb.GameNotStartedError.RoundTrip as GameNotStartedErrorRoundTrip
use pictophone.Pb.GameAlreadyOverError
use pictophone.Pb.GameAlreadyOverError.RoundTrip as GameAlreadyOverErrorRoundTrip

module _ (J : Jspb) (L : IsLawful J) where
  -- What the serializer writes of a message.
  abbrev pub fields : J.Message → Fields
  fields m =
      append
        (append
          (append
            (message_fields 1
              (Option.map (UnknownErrorRoundTrip.fields J L) (get_unknown_error J m)))
            (message_fields 2
              (Option.map (NotYourTurnErrorRoundTrip.fields J L) (get_not_your_turn_error J m))))
          (message_fields 3 (
            Option.map (GameNotStartedErrorRoundTrip.fields J L) (get_game_not_started_error J m))))
        (message_fields 4
          (Option.map (GameAlreadyOverErrorRoundTrip.fields J L) (get_game_already_over_error J m)))

  -- The fields of the group, as the getters show them.
  abbrev pub slots : J.Message → Slots J.Message
  slots m =
      (1, get_unknown_error J m)
      ∷ (2, get_not_your_turn_error J m)
      ∷ (3, get_game_not_started_error J m)
      ∷ (4, get_game_already_over_error J m)
      ∷ []

  abbrev restore : ℕ → J.Message → J.Message
  restore n x =
      if n == 1
      then UnknownErrorRoundTrip.restored J L x
      else if n == 2
      then NotYourTurnErrorRoundTrip.restored J L x
      else if n == 3
      then GameNotStartedErrorRoundTrip.restored J L x
      else if n == 4
      then GameAlreadyOverErrorRoundTrip.restored J L x
      else x

  -- The message that is read from those fields.
  abbrev pub restored : J.Message → J.Message
  restored m = (set_slots J (new J) oneof_group (map_slots restore (slots m)))

  pub serialize_binary_to_writer-Writes :
      (m : J.Message) → Writes J L (serialize_binary_to_writer J m) (fields m)
  unfolding serialize_binary_to_writer
  serialize_binary_to_writer-Writes m =
      Writes-then J L _ _ _ _
        (Writes-then J L _ _ _ _
          (Writes-then J L _ _ _ _
            (written-put_message J L 1 (get_unknown_error J m)
              (UnknownError.serialize_binary_to_writer J) (UnknownErrorRoundTrip.fields J L)
              (UnknownErrorRoundTrip.serialize_binary_to_writer-Writes J L))
            (written-put_message J L 2 (get_not_your_turn_error J m)
              (NotYourTurnError.serialize_binary_to_writer J) (NotYourTurnErrorRoundTrip.fields J L)
              (NotYourTurnErrorRoundTrip.serialize_binary_to_writer-Writes J L)))
          (written-put_message J L 3 (get_game_not_started_error J m)
            (GameNotStartedError.serialize_binary_to_writer J)
            (GameNotStartedErrorRoundTrip.fields J L)
            (GameNotStartedErrorRoundTrip.serialize_binary_to_writer-Writes J L)))
        (written-put_message J L 4 (get_game_already_over_error J m)
          (GameAlreadyOverError.serialize_binary_to_writer J)
          (GameAlreadyOverErrorRoundTrip.fields J L)
          (GameAlreadyOverErrorRoundTrip.serialize_binary_to_writer-Writes J L))

  pub deserialize-fields :
      (m : J.Message) (r : J.Reader)
      → L.pending r ≡ fields m
      → (deserialize_binary_from_reader J (new J) r).0 ≡ restored m
  unfolding deserialize_binary_from_reader
  deserialize-fields m r ahead =
      read_fields-Steps J L (switch J) (fields m) (new J) (restored m) r ahead (
        Steps-append J L (switch J) _ _ _ _ _
          (Steps-append J L (switch J) _ _ _ _ _
            (Steps-append J L (switch J) _ _ _ _ _
              (Steps-message J L (switch J) 1 (UnknownError.new J)
                (UnknownError.deserialize_binary_from_reader J)
                (λ m' value. set_unknown_error J m' (some value)) (λ m' r'. refl)
                (UnknownErrorRoundTrip.fields J L) (UnknownErrorRoundTrip.restored J L)
                (UnknownErrorRoundTrip.deserialize-fields J L) _ (get_unknown_error J m))
              (Steps-message J L (switch J) 2 (NotYourTurnError.new J)
                (NotYourTurnError.deserialize_binary_from_reader J)
                (λ m' value. set_not_your_turn_error J m' (some value)) (λ m' r'. refl)
                (NotYourTurnErrorRoundTrip.fields J L) (NotYourTurnErrorRoundTrip.restored J L)
                (NotYourTurnErrorRoundTrip.deserialize-fields J L) _ (get_not_your_turn_error J m)))
            (Steps-message J L (switch J) 3 (GameNotStartedError.new J)
              (GameNotStartedError.deserialize_binary_from_reader J)
              (λ m' value. set_game_not_started_error J m' (some value)) (λ m' r'. refl)
              (GameNotStartedErrorRoundTrip.fields J L) (GameNotStartedErrorRoundTrip.restored J L)
              (GameNotStartedErrorRoundTrip.deserialize-fields J L) _
              (get_game_not_started_error J m)))
          (Steps-message J L (switch J) 4 (GameAlreadyOverError.new J)
            (GameAlreadyOverError.deserialize_binary_from_reader J)
            (λ m' value. set_game_already_over_error J m' (some value)) (λ m' r'. refl)
            (GameAlreadyOverErrorRoundTrip.fields J L) (GameAlreadyOverErrorRoundTrip.restored J L)
            (GameAlreadyOverErrorRoundTrip.deserialize-fields J L) _
            (get_game_already_over_error J m)))

  -- At most one field of the group is set.
  abbrev pub IsSound : J.Message → Type 0
  IsSound m = AtMostOne (slots m)

  get_unknown_error-restored :
      (m : J.Message)
      → IsSound m
      → get_unknown_error J (restored m)
        ≡ Option.map (UnknownErrorRoundTrip.restored J L) (get_unknown_error J m)
  unfolding get_unknown_error new
  get_unknown_error-restored m h =
      L.get_wrapper_field_lem (restored m) 1
      ∙ get_field-set_slots J L (new J) oneof_group (map_slots restore (slots m)) 1 refl
          (L.get_field-initialize _ _ _) (refl, (refl, (refl, (refl, tt))))
          (AtMostOne-map_slots restore (slots m) h)

  get_not_your_turn_error-restored :
      (m : J.Message)
      → IsSound m
      → get_not_your_turn_error J (restored m)
        ≡ Option.map (NotYourTurnErrorRoundTrip.restored J L) (get_not_your_turn_error J m)
  unfolding get_not_your_turn_error new
  get_not_your_turn_error-restored m h =
      L.get_wrapper_field_lem (restored m) 2
      ∙ get_field-set_slots J L (new J) oneof_group (map_slots restore (slots m)) 2 refl
          (L.get_field-initialize _ _ _) (refl, (refl, (refl, (refl, tt))))
          (AtMostOne-map_slots restore (slots m) h)

  get_game_not_started_error-restored :
      (m : J.Message)
      → IsSound m
      → get_game_not_started_error J (restored m)
        ≡ Option.map (GameNotStartedErrorRoundTrip.restored J L) (get_game_not_started_error J m)
  unfolding get_game_not_started_error new
  get_game_not_started_error-restored m h =
      L.get_wrapper_field_lem (restored m) 3
      ∙ get_field-set_slots J L (new J) oneof_group (map_slots restore (slots m)) 3 refl
          (L.get_field-initialize _ _ _) (refl, (refl, (refl, (refl, tt))))
          (AtMostOne-map_slots restore (slots m) h)

  get_game_already_over_error-restored :
      (m : J.Message)
      → IsSound m
      → get_game_already_over_error J (restored m)
        ≡ Option.map (GameAlreadyOverErrorRoundTrip.restored J L) (get_game_already_over_error J m)
  unfolding get_game_already_over_error new
  get_game_already_over_error-restored m h =
      L.get_wrapper_field_lem (restored m) 4
      ∙ get_field-set_slots J L (new J) oneof_group (map_slots restore (slots m)) 4 refl
          (L.get_field-initialize _ _ _) (refl, (refl, (refl, (refl, tt))))
          (AtMostOne-map_slots restore (slots m) h)

  pub to_object-restored : (m : J.Message) → IsSound m → to_object J (restored m) ≡ to_object J m
  unfolding to_object
  to_object-restored m h = λ i. record {
    unknown_error =
        (ap (Option.map (UnknownError.to_object J)) (get_unknown_error-restored m h)
            ∙ map-map_restored (UnknownError.to_object J) (UnknownErrorRoundTrip.restored J L)
                (get_unknown_error J m) (λ x e. UnknownErrorRoundTrip.to_object-restored J L x))
          i;
    not_your_turn_error =
        (ap (Option.map (NotYourTurnError.to_object J)) (get_not_your_turn_error-restored m h)
            ∙ map-map_restored (NotYourTurnError.to_object J)
                (NotYourTurnErrorRoundTrip.restored J L) (get_not_your_turn_error J m)
                (λ x e. NotYourTurnErrorRoundTrip.to_object-restored J L x))
          i;
    game_not_started_error =
        (ap (Option.map (GameNotStartedError.to_object J)) (get_game_not_started_error-restored m h)
            ∙ map-map_restored (GameNotStartedError.to_object J)
                (GameNotStartedErrorRoundTrip.restored J L) (get_game_not_started_error J m)
                (λ x e. GameNotStartedErrorRoundTrip.to_object-restored J L x))
          i;
    game_already_over_error =
        (ap (Option.map (GameAlreadyOverError.to_object J))
              (get_game_already_over_error-restored m h)
            ∙ map-map_restored (GameAlreadyOverError.to_object J)
                (GameAlreadyOverErrorRoundTrip.restored J L) (get_game_already_over_error J m)
                (λ x e. GameAlreadyOverErrorRoundTrip.to_object-restored J L x))
          i;
  }

  -- The bytes of a `MakeMoveResponse` with at most one field of its group set are read as a message with the same `toObject`.
  pub make_move_response_round_trip :
      (m : J.Message)
      → IsSound m
      → to_object J (deserialize_binary J (serialize_binary J m)) ≡ to_object J m
  unfolding deserialize_binary serialize_binary
  make_move_response_round_trip m h =
      ap (to_object J)
        (deserialize-fields m _ (pending-written J L _ _ (serialize_binary_to_writer-Writes m)))
      ∙ to_object-restored m h
