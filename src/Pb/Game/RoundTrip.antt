-- ===== src/Pb/Game/RoundTrip.antt =====
-- What is read from the bytes of a `Game` (fe/src/gen/pictophone/v0_1_pb.js).
use mathlib.Core.Option
use pictophone.Base.{ℕ, ◌≡◌, refl, ◌∙◌, ap, some, none, [], ◌∷◌, ◌==◌, if◌then◌else◌}
use pictophone.Pb.Runtime.{Jspb, IsLawful, Fields, append, items_of}
use pictophone.Pb.Runtime.Steps.{
  Writes, Writes-then, written-put_repeated, written-put_message, message_fields, Steps-append,
  read_fields-Steps, pending-written,
}
use pictophone.Pb.Runtime.{repeated}
use pictophone.Pb.Runtime.Steps.Groups.{
  Slots, AtMostOne, AtMostOne-map_slots, map_slots, map-map_restored, set_slots,
  get_field-set_slots, get_field-set_slots_outside,
}
use pictophone.Pb.Runtime.Steps.Cases.{
  Steps-repeated, Steps-message, with_items, get_field-with_items, items_of_restored,
}
use pictophone.Pb.Game.{
  new, to_object, switch, deserialize_binary_from_reader, deserialize_binary,
  serialize_binary_to_writer, serialize_binary, get_player_ids_list, get_unstarted, get_your_turn,
  get_not_your_turn, get_game_over, add_player_ids, set_unstarted, set_your_turn, set_not_your_turn,
  set_game_over, oneof_group,
}
use pictophone.Pb.Game.Unstarted
use pictophone.Pb.Game.Unstarted.RoundTrip as UnstartedRoundTrip
use pictophone.Pb.Game.YourTurn
use pictophone.Pb.Game.YourTurn.RoundTrip as YourTurnRoundTrip
use pictophone.Pb.Game.NotYourTurn
use pictophone.Pb.Game.NotYourTurn.RoundTrip as NotYourTurnRoundTrip
use pictophone.Pb.Game.GameOver
use pictophone.Pb.Game.GameOver.RoundTrip as GameOverRoundTrip

module _ (J : Jspb) (L : IsLawful J) where
  -- What the serializer writes of a message.
  abbrev pub fields : J.Message → Fields
  fields m =
      append
        (append
          (append
            (append (repeated 1 (get_player_ids_list J m))
              (message_fields 2 (Option.map (UnstartedRoundTrip.fields J L) (get_unstarted J m))))
            (message_fields 3 (Option.map (YourTurnRoundTrip.fields J L) (get_your_turn J m))))
          (message_fields 4 (Option.map (NotYourTurnRoundTrip.fields J L) (get_not_your_turn J m))))
        (message_fields 5 (Option.map (GameOverRoundTrip.fields J L) (get_game_over J m)))

  -- The fields of the group, as the getters show them.
  abbrev pub slots : J.Message → Slots J.Message
  slots m =
      (2, get_unstarted J m)
      ∷ (3, get_your_turn J m)
      ∷ (4, get_not_your_turn J m)
      ∷ (5, get_game_over J m)
      ∷ []

  abbrev restore : ℕ → J.Message → J.Message
  restore n x =
      if n == 2
      then UnstartedRoundTrip.restored J L x
      else if n == 3
      then YourTurnRoundTrip.restored J L x
      else if n == 4
      then NotYourTurnRoundTrip.restored J L x
      else if n == 5
      then GameOverRoundTrip.restored J L x
      else x

  -- The message that is read from those fields.
  abbrev pub restored : J.Message → J.Message
  restored m =
      (set_slots J (with_items J (new J) 1 (get_player_ids_list J m)) oneof_group
        (map_slots restore (slots m)))

  pub serialize_binary_to_writer-Writes :
      (m : J.Message) → Writes J L (serialize_binary_to_writer J m) (fields m)
  unfolding serialize_binary_to_writer
  serialize_binary_to_writer-Writes m =
      Writes-then J L _ _ _ _
        (Writes-then J L _ _ _ _
          (Writes-then J L _ _ _ _
            (Writes-then J L _ _ _ _ (written-put_repeated J L 1 (get_player_ids_list J m)) (
              written-put_message J L 2 (get_unstarted J m) (Unstarted.serialize_binary_to_writer J)
                (UnstartedRoundTrip.fields J L)
                (UnstartedRoundTrip.serialize_binary_to_writer-Writes J L)))
            (written-put_message J L 3 (get_your_turn J m) (YourTurn.serialize_binary_to_writer J)
              (YourTurnRoundTrip.fields J L)
              (YourTurnRoundTrip.serialize_binary_to_writer-Writes J L)))
          (written-put_message J L 4 (get_not_your_turn J m)
            (NotYourTurn.serialize_binary_to_writer J) (NotYourTurnRoundTrip.fields J L)
            (NotYourTurnRoundTrip.serialize_binary_to_writer-Writes J L)))
        (written-put_message J L 5 (get_game_over J m) (GameOver.serialize_binary_to_writer J)
          (GameOverRoundTrip.fields J L) (GameOverRoundTrip.serialize_binary_to_writer-Writes J L))

  pub deserialize-fields :
      (m : J.Message) (r : J.Reader)
      → L.pending r ≡ fields m
      → (deserialize_binary_from_reader J (new J) r).0 ≡ restored m
  unfolding deserialize_binary_from_reader
  deserialize-fields m r ahead =
      read_fields-Steps J L (switch J) (fields m) (new J) (restored m) r ahead (
        Steps-append J L (switch J) _ _ _ _ _
          (Steps-append J L (switch J) _ _ _ _ _
            (Steps-append J L (switch J) _ _ _ _ _
              (Steps-append J L (switch J) _ _ _ _ _
                (Steps-repeated J L (switch J) 1 (λ m' value. add_player_ids J m' value none)
                  (λ m' r'. refl) (get_player_ids_list J m) _)
                (Steps-message J L (switch J) 2 (Unstarted.new J)
                  (Unstarted.deserialize_binary_from_reader J)
                  (λ m' value. set_unstarted J m' (some value)) (λ m' r'. refl)
                  (UnstartedRoundTrip.fields J L) (UnstartedRoundTrip.restored J L)
                  (UnstartedRoundTrip.deserialize-fields J L) _ (get_unstarted J m)))
              (Steps-message J L (switch J) 3 (YourTurn.new J)
                (YourTurn.deserialize_binary_from_reader J)
                (λ m' value. set_your_turn J m' (some value)) (λ m' r'. refl)
                (YourTurnRoundTrip.fields J L) (YourTurnRoundTrip.restored J L)
                (YourTurnRoundTrip.deserialize-fields J L) _ (get_your_turn J m)))
            (Steps-message J L (switch J) 4 (NotYourTurn.new J)
              (NotYourTurn.deserialize_binary_from_reader J)
              (λ m' value. set_not_your_turn J m' (some value)) (λ m' r'. refl)
              (NotYourTurnRoundTrip.fields J L) (NotYourTurnRoundTrip.restored J L)
              (NotYourTurnRoundTrip.deserialize-fields J L) _ (get_not_your_turn J m)))
          (Steps-message J L (switch J) 5 (GameOver.new J)
            (GameOver.deserialize_binary_from_reader J)
            (λ m' value. set_game_over J m' (some value)) (λ m' r'. refl)
            (GameOverRoundTrip.fields J L) (GameOverRoundTrip.restored J L)
            (GameOverRoundTrip.deserialize-fields J L) _ (get_game_over J m)))

  -- At most one field of the group is set.
  abbrev pub IsSound : J.Message → Type 0
  IsSound m = AtMostOne (slots m)

  get_unstarted-restored :
      (m : J.Message)
      → IsSound m
      → get_unstarted J (restored m)
        ≡ Option.map (UnstartedRoundTrip.restored J L) (get_unstarted J m)
  unfolding get_unstarted new
  get_unstarted-restored m h =
      L.get_wrapper_field_lem (restored m) 2
      ∙ get_field-set_slots J L (with_items J (new J) 1 (get_player_ids_list J m)) oneof_group
          (map_slots restore (slots m)) 2 refl
          (get_field-with_items J L (get_player_ids_list J m) (new J) 1 2
            ∙ L.get_field-initialize _ _ _)
          (refl, (refl, (refl, (refl, tt)))) (AtMostOne-map_slots restore (slots m) h)

  get_your_turn-restored :
      (m : J.Message)
      → IsSound m
      → get_your_turn J (restored m)
        ≡ Option.map (YourTurnRoundTrip.restored J L) (get_your_turn J m)
  unfolding get_your_turn new
  get_your_turn-restored m h =
      L.get_wrapper_field_lem (restored m) 3
      ∙ get_field-set_slots J L (with_items J (new J) 1 (get_player_ids_list J m)) oneof_group
          (map_slots restore (slots m)) 3 refl
          (get_field-with_items J L (get_player_ids_list J m) (new J) 1 3
            ∙ L.get_field-initialize _ _ _)
          (refl, (refl, (refl, (refl, tt)))) (AtMostOne-map_slots restore (slots m) h)

  get_not_your_turn-restored :
      (m : J.Message)
      → IsSound m
      → get_not_your_turn J (restored m)
        ≡ Option.map (NotYourTurnRoundTrip.restored J L) (get_not_your_turn J m)
  unfolding get_not_your_turn new
  get_not_your_turn-restored m h =
      L.get_wrapper_field_lem (restored m) 4
      ∙ get_field-set_slots J L (with_items J (new J) 1 (get_player_ids_list J m)) oneof_group
          (map_slots restore (slots m)) 4 refl
          (get_field-with_items J L (get_player_ids_list J m) (new J) 1 4
            ∙ L.get_field-initialize _ _ _)
          (refl, (refl, (refl, (refl, tt)))) (AtMostOne-map_slots restore (slots m) h)

  get_game_over-restored :
      (m : J.Message)
      → IsSound m
      → get_game_over J (restored m)
        ≡ Option.map (GameOverRoundTrip.restored J L) (get_game_over J m)
  unfolding get_game_over new
  get_game_over-restored m h =
      L.get_wrapper_field_lem (restored m) 5
      ∙ get_field-set_slots J L (with_items J (new J) 1 (get_player_ids_list J m)) oneof_group
          (map_slots restore (slots m)) 5 refl
          (get_field-with_items J L (get_player_ids_list J m) (new J) 1 5
            ∙ L.get_field-initialize _ _ _)
          (refl, (refl, (refl, (refl, tt)))) (AtMostOne-map_slots restore (slots m) h)

  get_player_ids_list-restored :
      (m : J.Message) → get_player_ids_list J (restored m) ≡ get_player_ids_list J m
  unfolding get_player_ids_list new
  get_player_ids_list-restored m =
      L.get_repeated_field_lem (restored m) 1
      ∙ ap items_of (
          get_field-set_slots_outside J L (with_items J (new J) 1 (get_player_ids_list J m))
            oneof_group (map_slots restore (slots m)) 1 refl refl)
      ∙ simp (get_field-with_items J L, L.get_field-initialize, items_of_restored)

  pub to_object-restored : (m : J.Message) → IsSound m → to_object J (restored m) ≡ to_object J m
  unfolding to_object get_player_ids_list
  to_object-restored m h = λ i. record {
    player_ids_list = (ap (λ x. x) (get_player_ids_list-restored m)) i;
    unstarted =
        (ap (Option.map (Unstarted.to_object J)) (get_unstarted-restored m h)
            ∙ map-map_restored (Unstarted.to_object J) (UnstartedRoundTrip.restored J L)
                (get_unstarted J m) (λ x e. UnstartedRoundTrip.to_object-restored J L x))
          i;
    your_turn =
        (ap (Option.map (YourTurn.to_object J)) (get_your_turn-restored m h)
            ∙ map-map_restored (YourTurn.to_object J) (YourTurnRoundTrip.restored J L)
                (get_your_turn J m) (λ x e. YourTurnRoundTrip.to_object-restored J L x))
          i;
    not_your_turn =
        (ap (Option.map (NotYourTurn.to_object J)) (get_not_your_turn-restored m h)
            ∙ map-map_restored (NotYourTurn.to_object J) (NotYourTurnRoundTrip.restored J L)
                (get_not_your_turn J m) (λ x e. NotYourTurnRoundTrip.to_object-restored J L x))
          i;
    game_over =
        (ap (Option.map (GameOver.to_object J)) (get_game_over-restored m h)
            ∙ map-map_restored (GameOver.to_object J) (GameOverRoundTrip.restored J L)
                (get_game_over J m) (λ x e. GameOverRoundTrip.to_object-restored J L x))
          i;
  }

  -- The bytes of a `Game` with at most one field of its group set are read as a message with the same `toObject`.
  pub game_round_trip :
      (m : J.Message)
      → IsSound m
      → to_object J (deserialize_binary J (serialize_binary J m)) ≡ to_object J m
  unfolding deserialize_binary serialize_binary
  game_round_trip m h =
      ap (to_object J)
        (deserialize-fields m _ (pending-written J L _ _ (serialize_binary_to_writer-Writes m)))
      ∙ to_object-restored m h
