-- ===== src/Pb/GetGameResponse/RoundTrip.antt =====
-- What is read from the bytes of a `GetGameResponse` (fe/src/gen/pictophone/v0_1_pb.js).
use mathlib.Core.Option
use pictophone.Base.{ℕ, ◌≡◌, refl, ◌∙◌, ap, some, [], ◌∷◌, ◌==◌, if◌then◌else◌}
use pictophone.Pb.Runtime.{Jspb, IsLawful, Fields, append, object_of}
use pictophone.Pb.Runtime.Steps.{
  Writes, Writes-then, written-put_message, message_fields, Steps-append, read_fields-Steps,
  pending-written,
}
use pictophone.Pb.Runtime.Steps.Groups.{
  Slots, AtMostOne, AtMostOne-map_slots, map_slots, map-map_restored, set_slots, set_object,
  get_field-set_slots, get_field-set_slots_outside, get_field-set_object, object_of-or_field,
}
use pictophone.Pb.Runtime.Steps.Cases.{Steps-message}
use pictophone.Pb.GetGameResponse.{
  new, to_object, switch, deserialize_binary_from_reader, deserialize_binary,
  serialize_binary_to_writer, serialize_binary, get_unknown_error, get_player_not_in_game_error,
  get_game, set_unknown_error, set_player_not_in_game_error, set_game, oneof_group,
}
use pictophone.Pb.UnknownError
use pictophone.Pb.UnknownError.RoundTrip as UnknownErrorRoundTrip
use pictophone.Pb.PlayerNotInGameError
use pictophone.Pb.PlayerNotInGameError.RoundTrip as PlayerNotInGameErrorRoundTrip
use pictophone.Pb.Game
use pictophone.Pb.Game.RoundTrip as GameRoundTrip

module _ (J : Jspb) (L : IsLawful J) where
  -- What the serializer writes of a message.
  abbrev pub fields : J.Message → Fields
  fields m =
      append
        (append
          (message_fields 1 (Option.map (UnknownErrorRoundTrip.fields J L) (get_unknown_error J m)))
          (message_fields 2 (
            Option.map (PlayerNotInGameErrorRoundTrip.fields J L)
              (get_player_not_in_game_error J m))))
        (message_fields 3 (Option.map (GameRoundTrip.fields J L) (get_game J m)))

  -- The fields of the group, as the getters show them.
  abbrev pub slots : J.Message → Slots J.Message
  slots m = (1, get_unknown_error J m) ∷ (2, get_player_not_in_game_error J m) ∷ []

  abbrev restore : ℕ → J.Message → J.Message
  restore n x =
      if n == 1
      then UnknownErrorRoundTrip.restored J L x
      else if n == 2
      then PlayerNotInGameErrorRoundTrip.restored J L x
      else x

  -- The message that is read from those fields.
  abbrev pub restored : J.Message → J.Message
  restored m =
      (set_object J (set_slots J (new J) oneof_group (map_slots restore (slots m))) 3
        (Option.map (GameRoundTrip.restored J L) (get_game J m)))

  pub serialize_binary_to_writer-Writes :
      (m : J.Message) → Writes J L (serialize_binary_to_writer J m) (fields m)
  unfolding serialize_binary_to_writer
  serialize_binary_to_writer-Writes m =
      Writes-then J L _ _ _ _
        (Writes-then J L _ _ _ _
          (written-put_message J L 1 (get_unknown_error J m)
            (UnknownError.serialize_binary_to_writer J) (UnknownErrorRoundTrip.fields J L)
            (UnknownErrorRoundTrip.serialize_binary_to_writer-Writes J L))
          (written-put_message J L 2 (get_player_not_in_game_error J m)
            (PlayerNotInGameError.serialize_binary_to_writer J)
            (PlayerNotInGameErrorRoundTrip.fields J L)
            (PlayerNotInGameErrorRoundTrip.serialize_binary_to_writer-Writes J L)))
        (written-put_message J L 3 (get_game J m) (Game.serialize_binary_to_writer J)
          (GameRoundTrip.fields J L) (GameRoundTrip.serialize_binary_to_writer-Writes J L))

  pub deserialize-fields :
      (m : J.Message) (r : J.Reader)
      → L.pending r ≡ fields m
      → (deserialize_binary_from_reader J (new J) r).0 ≡ restored m
  unfolding deserialize_binary_from_reader
  deserialize-fields m r ahead =
      read_fields-Steps J L (switch J) (fields m) (new J) (restored m) r ahead (
        Steps-append J L (switch J) _ _ _ _ _
          (Steps-append J L (switch J) _ _ _ _ _
            (Steps-message J L (switch J) 1 (UnknownError.new J)
              (UnknownError.deserialize_binary_from_reader J)
              (λ m' value. set_unknown_error J m' (some value)) (λ m' r'. refl)
              (UnknownErrorRoundTrip.fields J L) (UnknownErrorRoundTrip.restored J L)
              (UnknownErrorRoundTrip.deserialize-fields J L) _ (get_unknown_error J m))
            (Steps-message J L (switch J) 2 (PlayerNotInGameError.new J)
              (PlayerNotInGameError.deserialize_binary_from_reader J)
              (λ m' value. set_player_not_in_game_error J m' (some value)) (λ m' r'. refl)
              (PlayerNotInGameErrorRoundTrip.fields J L)
              (PlayerNotInGameErrorRoundTrip.restored J L)
              (PlayerNotInGameErrorRoundTrip.deserialize-fields J L) _
              (get_player_not_in_game_error J m)))
          (Steps-message J L (switch J) 3 (Game.new J) (Game.deserialize_binary_from_reader J)
            (λ m' value. set_game J m' (some value)) (λ m' r'. refl) (GameRoundTrip.fields J L)
            (GameRoundTrip.restored J L) (GameRoundTrip.deserialize-fields J L) _ (get_game J m)))

  -- At most one field of the group is set, in the nested game too.
  abbrev pub IsSound : J.Message → Type 0
  IsSound m =
      AtMostOne (slots m) × ((x : J.Message) → get_game J m ≡ some x → GameRoundTrip.IsSound J L x)

  get_unknown_error-restored :
      (m : J.Message)
      → IsSound m
      → get_unknown_error J (restored m)
        ≡ Option.map (UnknownErrorRoundTrip.restored J L) (get_unknown_error J m)
  unfolding get_unknown_error new
  get_unknown_error-restored m h =
      L.get_wrapper_field_lem (restored m) 1
      ∙ ap object_of (get_field-set_object J L _ 3 _ 1)
      ∙ get_field-set_slots J L (new J) oneof_group (map_slots restore (slots m)) 1 refl
          (L.get_field-initialize _ _ _) (refl, (refl, tt))
          (AtMostOne-map_slots restore (slots m) h.0)

  get_player_not_in_game_error-restored :
      (m : J.Message)
      → IsSound m
      → get_player_not_in_game_error J (restored m)
        ≡ Option.map (PlayerNotInGameErrorRoundTrip.restored J L) (get_player_not_in_game_error J m)
  unfolding get_player_not_in_game_error new
  get_player_not_in_game_error-restored m h =
      L.get_wrapper_field_lem (restored m) 2
      ∙ ap object_of (get_field-set_object J L _ 3 _ 2)
      ∙ get_field-set_slots J L (new J) oneof_group (map_slots restore (slots m)) 2 refl
          (L.get_field-initialize _ _ _) (refl, (refl, tt))
          (AtMostOne-map_slots restore (slots m) h.0)

  get_game-restored :
      (m : J.Message)
      → get_game J (restored m) ≡ Option.map (GameRoundTrip.restored J L) (get_game J m)
  unfolding get_game new
  get_game-restored m =
      L.get_wrapper_field_lem (restored m) 3
      ∙ ap object_of (
          get_field-set_object J L (set_slots J (new J) oneof_group (map_slots restore (slots m))) 3
            (Option.map (GameRoundTrip.restored J L) (get_game J m)) 3)
      ∙ simp (
        get_field-set_slots_outside J L (new J) oneof_group (map_slots restore (slots m)) 3 refl
            refl,
        L.get_field-initialize,
        object_of-or_field,
      )

  pub to_object-restored : (m : J.Message) → IsSound m → to_object J (restored m) ≡ to_object J m
  unfolding to_object
  to_object-restored m h = λ i. record {
    unknown_error =
        (ap (Option.map (UnknownError.to_object J)) (get_unknown_error-restored m h)
            ∙ map-map_restored (UnknownError.to_object J) (UnknownErrorRoundTrip.restored J L)
                (get_unknown_error J m) (λ x e. UnknownErrorRoundTrip.to_object-restored J L x))
          i;
    player_not_in_game_error =
        (ap (Option.map (PlayerNotInGameError.to_object J))
              (get_player_not_in_game_error-restored m h)
            ∙ map-map_restored (PlayerNotInGameError.to_object J)
                (PlayerNotInGameErrorRoundTrip.restored J L) (get_player_not_in_game_error J m)
                (λ x e. PlayerNotInGameErrorRoundTrip.to_object-restored J L x))
          i;
    game =
        (ap (Option.map (Game.to_object J)) (get_game-restored m)
            ∙ map-map_restored (Game.to_object J) (GameRoundTrip.restored J L) (get_game J m)
                (λ x e. GameRoundTrip.to_object-restored J L x (h.1 x e)))
          i;
  }

  -- The bytes of a `GetGameResponse` with at most one field of its group set, in its game too, are read as a message with the same `toObject`.
  pub get_game_response_round_trip :
      (m : J.Message)
      → IsSound m
      → to_object J (deserialize_binary J (serialize_binary J m)) ≡ to_object J m
  unfolding deserialize_binary serialize_binary
  get_game_response_round_trip m h =
      ap (to_object J)
        (deserialize-fields m _ (pending-written J L _ _ (serialize_binary_to_writer-Writes m)))
      ∙ to_object-restored m h
