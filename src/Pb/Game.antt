-- ===== src/Pb/Game.antt =====
-- `Game` of fe/src/gen/pictophone/v0_1_pb.js and of its v0_1_pb.d.ts.
pub mod GameOver
pub mod NotYourTurn
pub mod Unstarted
pub mod YourTurn
pub mod RoundTrip
use mathlib.Core.Option
use pictophone.Base.{ℕ, String, Bool, Option, some, none, List, [], ◌∷◌, ◌==◌, if◌then◌else◌}
use pictophone.Pb.Runtime.{Jspb, is_set}
use pictophone.Pb.Runtime.Loop.{read_fields, put_string, put_uint32, put_repeated, put_message}
use pictophone.Pb.Game.Unstarted
use pictophone.Pb.Game.YourTurn
use pictophone.Pb.Game.NotYourTurn
use pictophone.Pb.Game.GameOver

-- `AsObject`, what `toObject` returns.
pub record Object : Type 0 where
  pub player_ids_list : List String
  pub unstarted : Option Unstarted.Object
  pub your_turn : Option YourTurn.Object
  pub not_your_turn : Option NotYourTurn.Object
  pub game_over : Option GameOver.Object

-- `oneofGroups_[0]`
abbrev pub oneof_group : List ℕ
oneof_group = 2 ∷ 3 ∷ 4 ∷ 5 ∷ []

module _ (J : Jspb) where
  -- The constructor, without data.
  unfoldable pub new : J.Message
  new = J.initialize (1 ∷ []) (oneof_group ∷ [])

  unfoldable pub get_state_case : J.Message → ℕ
  get_state_case this = J.compute_oneof_case this oneof_group

  unfoldable pub get_player_ids_list : J.Message → List String
  get_player_ids_list this = J.get_repeated_field this 1

  unfoldable pub set_player_ids_list : J.Message → List String → J.Message
  set_player_ids_list this value = J.set_field this 1 value

  -- The last argument is the optional index.
  unfoldable pub add_player_ids : J.Message → String → Option ℕ → J.Message
  add_player_ids this value opt_index = J.add_to_repeated_field this 1 value opt_index

  unfoldable pub clear_player_ids_list : J.Message → J.Message
  unfolding set_player_ids_list
  clear_player_ids_list this = set_player_ids_list this []

  unfoldable pub get_unstarted : J.Message → Option J.Message
  get_unstarted this = J.get_wrapper_field this 2

  unfoldable pub set_unstarted : J.Message → Option J.Message → J.Message
  set_unstarted this value = J.set_oneof_wrapper_field this 2 oneof_group value

  unfoldable pub clear_unstarted : J.Message → J.Message
  unfolding set_unstarted
  clear_unstarted this = set_unstarted this none

  unfoldable pub has_unstarted : J.Message → Bool
  has_unstarted this = is_set (J.get_field this 2)

  unfoldable pub get_your_turn : J.Message → Option J.Message
  get_your_turn this = J.get_wrapper_field this 3

  unfoldable pub set_your_turn : J.Message → Option J.Message → J.Message
  set_your_turn this value = J.set_oneof_wrapper_field this 3 oneof_group value

  unfoldable pub clear_your_turn : J.Message → J.Message
  unfolding set_your_turn
  clear_your_turn this = set_your_turn this none

  unfoldable pub has_your_turn : J.Message → Bool
  has_your_turn this = is_set (J.get_field this 3)

  unfoldable pub get_not_your_turn : J.Message → Option J.Message
  get_not_your_turn this = J.get_wrapper_field this 4

  unfoldable pub set_not_your_turn : J.Message → Option J.Message → J.Message
  set_not_your_turn this value = J.set_oneof_wrapper_field this 4 oneof_group value

  unfoldable pub clear_not_your_turn : J.Message → J.Message
  unfolding set_not_your_turn
  clear_not_your_turn this = set_not_your_turn this none

  unfoldable pub has_not_your_turn : J.Message → Bool
  has_not_your_turn this = is_set (J.get_field this 4)

  unfoldable pub get_game_over : J.Message → Option J.Message
  get_game_over this = J.get_wrapper_field this 5

  unfoldable pub set_game_over : J.Message → Option J.Message → J.Message
  set_game_over this value = J.set_oneof_wrapper_field this 5 oneof_group value

  unfoldable pub clear_game_over : J.Message → J.Message
  unfolding set_game_over
  clear_game_over this = set_game_over this none

  unfoldable pub has_game_over : J.Message → Bool
  has_game_over this = is_set (J.get_field this 5)

  -- With `includeInstance` not set.
  unfoldable pub to_object : J.Message → Object
  unfolding get_unstarted get_your_turn get_not_your_turn get_game_over
  to_object msg = record {
    player_ids_list = J.get_repeated_field msg 1;
    unstarted = Option.map (Unstarted.to_object J) (get_unstarted msg);
    your_turn = Option.map (YourTurn.to_object J) (get_your_turn msg);
    not_your_turn = Option.map (NotYourTurn.to_object J) (get_not_your_turn msg);
    game_over = Option.map (GameOver.to_object J) (get_game_over msg);
  }

  -- The `switch` on the field number: the message and the reader after it.
  unfoldable pub switch : ℕ → J.Message → J.Reader → J.Message × J.Reader
  unfolding add_player_ids set_unstarted set_your_turn set_not_your_turn set_game_over
  switch field msg reader =
      if field == 1
      then (let (value, reader') = J.read_string reader in (add_player_ids msg value none, reader'))
      else if field == 2
      then (let (value, reader') =
            J.read_message reader (Unstarted.new J) (Unstarted.deserialize_binary_from_reader J) in
          (set_unstarted msg (some value), reader'))
      else if field == 3
      then (let (value, reader') =
            J.read_message reader (YourTurn.new J) (YourTurn.deserialize_binary_from_reader J) in
          (set_your_turn msg (some value), reader'))
      else if field == 4
      then (let (value, reader') =
            J.read_message reader (NotYourTurn.new J)
              (NotYourTurn.deserialize_binary_from_reader J) in
          (set_not_your_turn msg (some value), reader'))
      else if field == 5
      then (let (value, reader') =
            J.read_message reader (GameOver.new J) (GameOver.deserialize_binary_from_reader J) in
          (set_game_over msg (some value), reader'))
      else (msg, J.skip_field reader)

  unfoldable pub deserialize_binary_from_reader : J.Message → J.Reader → J.Message × J.Reader
  unfolding switch
  deserialize_binary_from_reader msg reader = read_fields J switch msg reader

  unfoldable pub deserialize_binary : J.Bytes → J.Message
  unfolding new deserialize_binary_from_reader
  deserialize_binary bytes = (deserialize_binary_from_reader new (J.new_reader bytes)).0

  unfoldable pub serialize_binary_to_writer : J.Message → J.Writer → J.Writer
  unfolding get_player_ids_list get_unstarted get_your_turn get_not_your_turn get_game_over
  serialize_binary_to_writer message writer =
      let w1 = put_repeated J writer 1 (get_player_ids_list message) in
      let w2 =
        put_message J w1 2 (get_unstarted message) (Unstarted.serialize_binary_to_writer J) in
      let w3 = put_message J w2 3 (get_your_turn message) (YourTurn.serialize_binary_to_writer J) in
      let w4 =
        put_message J w3 4 (get_not_your_turn message) (NotYourTurn.serialize_binary_to_writer J) in
      put_message J w4 5 (get_game_over message) (GameOver.serialize_binary_to_writer J)

  unfoldable pub serialize_binary : J.Message → J.Bytes
  unfolding serialize_binary_to_writer
  serialize_binary this = J.get_result_buffer (serialize_binary_to_writer this J.new_writer)
